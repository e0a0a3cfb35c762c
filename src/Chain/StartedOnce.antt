-- ===== src/Chain/StartedOnce.antt =====
-- The block consensus is started once for a block.
use skale_consensus.Prelude.{
  ℕ, ◌+◌, ◌≡◌, ◌≤◌, Bool, false, Option, none, some, List, [], ◌∷◌, length, leb, ltb, u64, refl,
  sym, subst, ◌∙◌, arith, Bool-cases, inl, inr, if_cases,
}
use skale_consensus.Prelude.Results.{Result, ok, throw}
use skale_consensus.Proposals.BooleanVector.{BooleanProposalVector, to_string}
use skale_consensus.Storage.LevelDb.{block_key, LevelDb}
use skale_consensus.Storage.Shards.{
  Shards, Signers, leveldb_shards, is_empty_text, read_string, write_string, write_string_to_set,
  new_shards,
}
use skale_consensus.Storage.Life.{
  is_living, locate, read_string-locate, locate-new_shards, length-new_shards,
}
use skale_consensus.Storage.View.{rotated, written}
use skale_consensus.Storage.Operations.{write_string-written}
use skale_consensus.Storage.Vectors.{
  save_vector, try_saving_proposal_vector, add_da_proof, get_current_proposal_vector,
}
use skale_consensus.Chain.Starting.{
  Starter, start_consensus, start_if, try_starting_consensus,
  block_proposal_receipt_timeout_arrived, start_with, da_proof_arrived,
}
use skale_consensus.Chain.Started.{
  posts, AllSaved, IsStarted, added_view, added_IsStarted, posted_IsStarted,
}

module _ (L : LevelDb) where
  abbrev pub IsGood : Starter L → Type 0
  IsGood s = (length s.vectors ≡ leveldb_shards) × IsStarted (locate L s.vectors) s.posted

  -- A start adds the block, or nothing.
  pub start_cases :
      (P : Starter L → Type 0) (exits : Bool) (id : ℕ) (v : BooleanProposalVector) (s : Starter L)
      → P s
      → P (record s { posted = (id, v) ∷ s.posted })
      → P (start_consensus L exits id v s)
  unfolding start_consensus
  start_cases P exits id v s x y =
      if_cases P exits _ _ (λ e. x)
        (λ e.
          if_cases P (leb id s.last_committed_block_id) _ _ (λ f. x)
            (λ f. if_cases P (ltb (u64 (s.last_committed_block_id + 1)) id) _ _ (λ g. x) (λ g. y)))

  abbrev tried : Bool → ℕ → BooleanProposalVector → Starter L → Result (List ℕ) → Starter L
  tried exits id v s r =
      let t = save_vector L false id r s.vectors in
      start_if L exits id v t.result (record s { vectors = t.shards })

  -- A vector that is new.
  saved_new :
      (exits : Bool) (id : ℕ) (v : BooleanProposalVector) (s : Starter L) (text : List ℕ)
      → IsGood s
      → to_string v ≡ ok text
      → is_empty_text text ≡ false
      → is_living (locate L s.vectors (block_key id)) ≡ false
      → IsGood (
          start_consensus L exits id v
            (record s { vectors = write_string L false (block_key id) text false s.vectors }))
  unfolding rotated written
  saved_new exits id v s text g e full new =
      let ds : Shards L = write_string L false (block_key id) text false s.vectors in
      let w = write_string-written L false (block_key id) text false s.vectors g.0 in
      let shown : locate L ds ≡ added_view (locate L s.vectors) s.posted id text g.1 new full =
        w.1 ∙ rw new refl in
      start_cases IsGood exits id v (record s { vectors = ds })
        (
          w.0,
          subst (λ f. IsStarted f s.posted) (sym shown)
              (added_IsStarted (locate L s.vectors) s.posted id text g.1 new full),
        )
        (
          w.0,
          subst (λ f. IsStarted f ((id, v) ∷ s.posted)) (sym shown)
              (posted_IsStarted (locate L s.vectors) s.posted id text g.1 new full v e),
        )

  tried-IsGood :
      (exits : Bool) (id : ℕ) (v : BooleanProposalVector) (s : Starter L) (r : Result (List ℕ))
      → to_string v ≡ r
      → IsGood s
      → IsGood (tried exits id v s r)
  tried-IsGood exits id v s (throw e) p g = g
  tried-IsGood exits id v s (ok text) p g = elim (Bool-cases (is_empty_text text)) [
    | inl x ↦ rw x g
    | inr x ↦ elim (Bool-cases (is_empty_text (read_string L (block_key id) s.vectors))) [
      | inr y ↦ rw (x, y) g
      | inl y ↦
          rw (x, y)
            (saved_new exits id v s text g p x
              (ground (arith, read_string-locate L (block_key id) s.vectors, g.1.full id)))
    ]
  ]

  try_starting_IsGood :
      (exits : Bool) (id : ℕ) (v : BooleanProposalVector) (s : Starter L)
      → IsGood s
      → IsGood (try_starting_consensus L false exits v id s)
  unfolding try_starting_consensus try_saving_proposal_vector
  try_starting_IsGood exits id v s g = tried-IsGood exits id v s (to_string v) refl g

  timeout_IsGood :
      (h : Signers) (exits : Bool) (id : ℕ) (s : Starter L)
      → IsGood s
      → IsGood (block_proposal_receipt_timeout_arrived L h false exits id s)
  unfolding block_proposal_receipt_timeout_arrived
  timeout_IsGood h exits id s g =
      if_cases IsGood (leb id s.last_committed_block_id) _ _ (λ e. g)
        (λ e. try_starting_IsGood exits id (get_current_proposal_vector L h id s.proofs) s g)

  start_with-IsGood :
      (exits : Bool) (id : ℕ) (r : Result (Option BooleanProposalVector)) (s : Starter L)
      → IsGood s
      → IsGood (start_with L false exits id r s)
  start_with-IsGood exits id (throw e) s g = g
  start_with-IsGood exits id (ok none) s g = g
  start_with-IsGood exits id (ok (some v)) s g = try_starting_IsGood exits id v s g

  proof_IsGood :
      (h : Signers) (too_large exits : Bool) (sig : List ℕ) (id index : ℕ) (s : Starter L)
      → IsGood s
      → IsGood (da_proof_arrived L h too_large false exits sig id index s)
  unfolding da_proof_arrived
  proof_IsGood h too_large exits sig id index s g =
      if_cases IsGood (leb id s.last_committed_block_id) _ _ (λ e. g)
        (λ e.
          start_with-IsGood exits id
            (add_da_proof L h (write_string_to_set L too_large h sig id index s.proofs))
            (record s { proofs = (write_string_to_set L too_large h sig id index s.proofs).shards })
            g)

  -- Time outs, proofs and committed blocks, with whether exit is requested in them.
  pub data Event : Type 0 where
    timeout : Bool → ℕ → Event
    proof : Bool → Bool → List ℕ → ℕ → ℕ → Event
    commit : ℕ → Event

  unfoldable pub happen : Signers → Event → Starter L → Starter L
  happen g (timeout exits id) s = block_proposal_receipt_timeout_arrived L g false exits id s
  happen g (proof too_large exits sig id index) s =
      da_proof_arrived L g too_large false exits sig id index s
  happen g (commit id) s = record s { last_committed_block_id = id }

  unfoldable pub happen_all : Signers → List Event → Starter L → Starter L
  happen_all g [] s = s
  happen_all g (e ∷ es) s = happen_all g es (happen g e s)

  happen-IsGood : (h : Signers) (e : Event) (s : Starter L) → IsGood s → IsGood (happen h e s)
  unfolding happen
  happen-IsGood h (timeout exits id) s g = timeout_IsGood h exits id s g
  happen-IsGood h (proof too_large exits sig id index) s g =
      proof_IsGood h too_large exits sig id index s g
  happen-IsGood h (commit id) s g = g

  pub happen_all-IsGood :
      (h : Signers) (es : List Event) (s : Starter L) → IsGood s → IsGood (happen_all h es s)
  unfolding happen_all
  happen_all-IsGood h [] s g = g
  happen_all-IsGood h (e ∷ es) s g = happen_all-IsGood h es (happen h e s) (happen-IsGood h e s g)

  -- A node whose databases are new.
  abbrev pub new_starter : ℕ → Starter L
  new_starter last = record {
    last_committed_block_id = last;
    vectors = new_shards L leveldb_shards;
    proofs = new_shards L leveldb_shards;
    posted = [];
  }

  pub new_IsGood : (last : ℕ) → IsGood (new_starter last)
  new_IsGood last = (
    length-new_shards L leveldb_shards,
    record {
      full = λ id. ground (arith, locate-new_shards L leveldb_shards (block_key id));
      once = λ id. omega arith;
      saved = tt;
    },
  )

  -- Whatever time outs and proofs arrive and blocks are committed, the block consensus is started at
  -- most once for each block, and only with the vector that ProposalVectorDB then has for it, so long
  -- as that database does not grow so large that it is rotated.
  pub started_once :
      (g : Signers) (last : ℕ) (es : List Event)
      → let s = happen_all g es (new_starter last) in
        ((id : ℕ) → posts id s.posted ≤ 1) × AllSaved (locate L s.vectors) s.posted
  started_once g last es =
      let k = happen_all-IsGood g es (new_starter last) (new_IsGood last) in
      (λ id. ground (arith, k.1.once id), k.1.saved)
