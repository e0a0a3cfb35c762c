-- ===== src/Chain/Restart.antt =====
-- What the block consensus is started with again after a restart.
use skale_consensus.Prelude.{
  ℕ, ◌≡◌, ◌≤◌, Bool, true, false, Option, none, some, List, [], ◌∷◌, length, leb, ◌==◌,
  if◌then◌else◌, refl, sym, ap, ◌∙◌, if_cases,
}
use mathlib.Core.List.{Memᴰ}
use mathlib.Core.List.Memᴰ.{head, tail}
use skale_consensus.Prelude.OrderedMap.{OrderedMap}
use skale_consensus.Prelude.Results.{Result, ok, throw, and_then, check, invalid_state}
use skale_consensus.Proposals.BooleanVector.{
  BooleanProposalVector, of_proofs, of_string, to_string, after_first, has_proofs, count_true,
  of_string-to_string,
}
use skale_consensus.Storage.LevelDb.{block_key, LevelDb}
use skale_consensus.Storage.Shards.{Signers, is_empty_text, read_set, write_string_to_set}
use skale_consensus.Storage.Life.{View, value_of, locate, read_string-locate}
use skale_consensus.Storage.Vectors.{
  try_saving_proposal_vector, get_vector, vector_of_set, add_da_proof, get_current_proposal_vector,
}
use skale_consensus.Chain.Starting.{
  Starter, start_if, try_starting_consensus, block_proposal_receipt_timeout_arrived, start_with,
  da_proof_arrived,
}
use skale_consensus.Chain.Started.{AllSaved}
use skale_consensus.Chain.StartedOnce.{
  start_cases, Event, timeout, proof, commit, happen, happen_all, new_starter, started_once,
}

-- A vector made of a map of proofs.
abbrev pub IsOfProofs : Signers → BooleanProposalVector → Type 0
IsOfProofs g v = (m : OrderedMap (List ℕ)) × (v ≡ of_proofs g.total_signers m)

abbrev AllOfProofs : Signers → List (ℕ × BooleanProposalVector) → Type 0
AllOfProofs g [] = Unit
AllOfProofs g ((id, v) ∷ ps) = IsOfProofs g v × AllOfProofs g ps

saved_of :
    (f : View) (ps : List (ℕ × BooleanProposalVector)) (id : ℕ) (v : BooleanProposalVector)
    → AllSaved f ps
    → Memᴰ (id, v) ps
    → to_string v ≡ ok (value_of (f (block_key id)))
saved_of f [] id v a m = elim m [ ]
saved_of f ((j, w) ∷ ps) id v a (head e) =
    ap (λ (p : ℕ × BooleanProposalVector). to_string (p.1)) e
    ∙ a.0
    ∙ ap (λ (p : ℕ × BooleanProposalVector). ok (value_of (f (block_key (p.0))))) (sym e)
saved_of f ((j, w) ∷ ps) id v a (tail m) = saved_of f ps id v a.1 m

made_of :
    (g : Signers) (ps : List (ℕ × BooleanProposalVector)) (id : ℕ) (v : BooleanProposalVector)
    → AllOfProofs g ps
    → Memᴰ (id, v) ps
    → IsOfProofs g v
made_of g [] id v a m = elim m [ ]
made_of g ((j, w) ∷ ps) id v a (head e) =
    (a.0.0, ap (λ (p : ℕ × BooleanProposalVector). p.1) e ∙ a.0.1)
made_of g ((j, w) ∷ ps) id v a (tail m) = made_of g ps id v a.1 m

module _ (L : LevelDb) (g : Signers) where
  abbrev Made : Starter L → Type 0
  Made s = AllOfProofs g s.posted

  start_if-Made :
      (exits : Bool) (id : ℕ) (v : BooleanProposalVector) (r : Result Bool) (s : Starter L)
      → IsOfProofs g v
      → Made s
      → Made (start_if L exits id v r s)
  start_if-Made exits id v (ok true) s p a = start_cases L Made exits id v s a (p, a)
  start_if-Made exits id v (ok false) s p a = a
  start_if-Made exits id v (throw e) s p a = a

  try_starting_Made :
      (exits : Bool) (id : ℕ) (v : BooleanProposalVector) (s : Starter L)
      → IsOfProofs g v
      → Made s
      → Made (try_starting_consensus L false exits v id s)
  unfolding try_starting_consensus
  try_starting_Made exits id v s p a =
      let t = try_saving_proposal_vector L false id v s.vectors in
      start_if-Made exits id v t.result (record s { vectors = t.shards }) p a

  start_with-Made :
      (exits : Bool) (id : ℕ) (r : Result (Option (OrderedMap (List ℕ)))) (s : Starter L)
      → Made s
      → Made (start_with L false exits id (vector_of_set L g r) s)
  start_with-Made exits id (throw e) s a = a
  start_with-Made exits id (ok none) s a = a
  start_with-Made exits id (ok (some m)) s a = by_check (length m == g.required_signers)
    where
      by_check :
          (b : Bool)
          → Made (
              start_with L false exits id
                (check b invalid_state (ok (some (of_proofs g.total_signers m))))
                s)
      by_check true = try_starting_Made exits id (of_proofs g.total_signers m) s (m, refl) a
      by_check false = a

  happen-Made : (e : Event L) (s : Starter L) → Made s → Made (happen L g e s)
  unfolding happen block_proposal_receipt_timeout_arrived da_proof_arrived
      get_current_proposal_vector add_da_proof
  happen-Made (timeout exits id) s a =
      if_cases Made (leb id s.last_committed_block_id) _ _ (λ e. a)
        (λ e.
          try_starting_Made exits id (of_proofs g.total_signers (read_set L g id s.proofs)) s
            (read_set L g id s.proofs, refl) a)
  happen-Made (proof too_large exits sig id index) s a =
      if_cases Made (leb id s.last_committed_block_id) _ _ (λ e. a)
        (λ e.
          start_with-Made exits id
            ((write_string_to_set L too_large g sig id index s.proofs).returned)
            (record s { proofs = (write_string_to_set L too_large g sig id index s.proofs).shards })
            a)
  happen-Made (commit id) s a = a

  happen_all-Made : (es : List (Event L)) (s : Starter L) → Made s → Made (happen_all L g es s)
  unfolding happen_all
  happen_all-Made [] s a = a
  happen_all-Made (e ∷ es) s a = happen_all-Made es (happen L g e s) (happen-Made e s a)

abbrev read_back : ℕ → List ℕ → Result (Option BooleanProposalVector)
read_back n text =
    if is_empty_text text then ok none else and_then (of_string n text) (λ v. ok (some v))

read_back-ok :
    (n : ℕ) (text : List ℕ) (w : BooleanProposalVector)
    → of_string n text ≡ ok w
    → read_back n text ≡ ok (some w)
unfolding of_string
read_back-ok n [] w e = cc
read_back-ok n (c ∷ cs) w e = ap (λ r. and_then r (λ v. ok (some v))) e

read_back-of_proofs :
    (g : Signers) (v : BooleanProposalVector) (text : List ℕ)
    → 1 ≤ g.total_signers
    → IsOfProofs g v
    → to_string v ≡ ok text
    → read_back g.total_signers text
      ≡ ok (some (record v { true_count = count_true (after_first v.proposals) }))
unfolding of_proofs
read_back-of_proofs g v text pos (m, e) t =
    let w : BooleanProposalVector = of_proofs g.total_signers m in
    let r : of_string g.total_signers text
        ≡ ok (record w { true_count = count_true (has_proofs 1 g.total_signers m) }) =
      sym (ap (λ x. and_then x (of_string g.total_signers)) (sym (ap to_string e) ∙ t))
      ∙ of_string-to_string g.total_signers m pos in
    read_back-ok g.total_signers text
      (record w { true_count = count_true (has_proofs 1 g.total_signers m) }) r
    ∙ ap
        (λ (u : BooleanProposalVector).
          ok (some (record u { true_count = count_true (after_first u.proposals) })))
        (sym e)

-- The vector with which the block consensus was started for a block is what ProposalVectorDB gives
-- for the block after any further time outs, proofs and commits, on a chain of at least one node,
-- so long as that database is not rotated; only the number of true entries is counted anew.
pub get_vector-posted :
    (L : LevelDb) (g : Signers) (last : ℕ) (es : List (Event L)) (id : ℕ)
    (v : BooleanProposalVector)
    → 1 ≤ g.total_signers
    → Memᴰ (id, v) ((happen_all L g es (new_starter L last)).posted)
    → get_vector L g.total_signers id ((happen_all L g es (new_starter L last)).vectors)
      ≡ ok (some (record v { true_count = count_true (after_first v.proposals) }))
unfolding get_vector
get_vector-posted L g last es id v pos m =
    let s : Starter L = happen_all L g es (new_starter L last) in
    ap (read_back g.total_signers) (read_string-locate L (block_key id) s.vectors)
    ∙ read_back-of_proofs g v (value_of (locate L s.vectors (block_key id))) pos
        (made_of g s.posted id v (happen_all-Made L g es (new_starter L last) tt) m)
        (saved_of (locate L s.vectors) s.posted id v ((started_once L g last es).1) m)
