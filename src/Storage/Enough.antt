-- ===== src/Storage/Enough.antt =====
-- How many proposals a completed set of proofs makes available.
use skale_consensus.Prelude.{
  ℕ, zero, suc, ◌+◌, ◌*◌, ◌/◌, ◌^◌, ◌≡◌, ◌≤◌, ◌<◌, Bool, true, false, ◌&&◌, Option, none, some,
  List, [], ◌∷◌, length, ltb, leb, ◌==◌, if◌then◌else◌, u64, refl, sym, subst, ◌∙◌, arith,
  Bool-cases, inl, inr, if_cases,
}
use skale_consensus.Prelude.OrderedMap.{OrderedMap, contains, emplace, IsSorted, emplace-IsSorted}
use skale_consensus.Prelude.Results.{Result, ok, throw, invalid_state, check-ok, OnOk, throw_not_ok}
use skale_consensus.Proposals.BooleanVector.{
  BooleanProposalVector, of_proofs, has_proofs, count_true, after_first,
}
use skale_consensus.Storage.LevelDb.{index_key, LevelDb}
use skale_consensus.Storage.Shards.{
  Shards, Signers, Written, collect, read_set, read_string, key_exists, is_empty_text, complete_set,
  count_entry, add_entry, rotate_dbs_if_needed, write_string_to_set,
}
use skale_consensus.Storage.Vectors.{vector_of_set, add_da_proof}

-- getTotalSigners and getRequiredSigners, of the number of nodes.
unfoldable pub signers_of : ℕ → Signers
signers_of nodes = record {
  total_signers = nodes;
  required_signers = if leb nodes 2 then nodes else u64 (u64 (2 * nodes) / 3 + 1);
}

-- Keys below the range play no part.
has_proofs-below :
    (i k j : ℕ) (v : List ℕ) (m : OrderedMap (List ℕ))
    → j < i
    → has_proofs i k ((j, v) ∷ m) ≡ has_proofs i k m
unfolding has_proofs contains
has_proofs-below i zero j v m h = refl
has_proofs-below i (suc k) j v m h = ground (arith, has_proofs-below (i + 1) k j v m)

absent_below :
    (i lo hi : ℕ) (m : OrderedMap (List ℕ)) → IsSorted lo hi m → i < lo → contains i m ≡ false
unfolding contains
absent_below i lo hi [] s h = refl
absent_below i lo hi ((j, v) ∷ m) s h = ground (arith, absent_below i (suc j) hi m)

IsSorted-weaken :
    (lo low hi : ℕ) (m : OrderedMap (List ℕ)) → low ≤ lo → IsSorted lo hi m → IsSorted low hi m
IsSorted-weaken lo low hi [] h s = tt
IsSorted-weaken lo low hi ((j, v) ∷ m) h s = (omega (arith, s.0), s.1, s.2)

-- As many entries are true as there are proofs.
count_true-has_proofs :
    (i k hi : ℕ) (m : OrderedMap (List ℕ))
    → IsSorted i hi m
    → hi < i + k
    → count_true (has_proofs i k m) ≡ length m
unfolding has_proofs count_true contains
count_true-has_proofs i zero hi [] s h = refl
count_true-has_proofs i zero hi ((j, v) ∷ m) s h = absurd (omega (arith, s.0, s.1))
count_true-has_proofs i (suc k) hi [] s h =
    count_true-has_proofs (i + 1) k hi [] tt (omega (arith, h))
count_true-has_proofs i (suc k) hi ((j, v) ∷ m) s h = elim (Bool-cases (i == j)) [
  | inl e ↦ ground (arith, has_proofs-below (i + 1) k j v m, count_true-has_proofs (i + 1) k hi m)
  | inr e ↦
      ground (arith, absent_below i (suc j) hi m, count_true-has_proofs (i + 1) k hi ((j, v) ∷ m))
]

module _ (L : LevelDb) (g : Signers) (b : ℕ) where
  collect-IsSorted :
      (ds : Shards L) (i k : ℕ) (m : OrderedMap (List ℕ))
      → 1 ≤ i
      → i + k ≤ g.total_signers + 1
      → IsSorted 1 g.total_signers m
      → IsSorted 1 g.total_signers (collect L g b ds i k m)
  unfolding collect
  collect-IsSorted ds i zero m p q s = s
  collect-IsSorted ds i (suc k) m p q s =
      let text : List ℕ = read_string L (index_key b i) ds in
      let added : OrderedMap (List ℕ) = if is_empty_text text then m else emplace i text m in
      let sorted : IsSorted 1 g.total_signers added =
        if_cases (IsSorted 1 g.total_signers) (is_empty_text text) m (emplace i text m) (λ e. s)
          (λ e. emplace-IsSorted 1 g.total_signers i text m p (omega (arith, q)) s) in
      if_cases (IsSorted 1 g.total_signers) (length added == g.required_signers) _ _ (λ e. sorted)
        (λ e. collect-IsSorted ds (i + 1) k added (omega arith) (omega (arith, q)) sorted)

  -- A set that is returned is in order and has the required size.
  abbrev IsComplete : Option (OrderedMap (List ℕ)) → Type 0
  IsComplete none = Unit
  IsComplete (some m) = IsSorted 1 g.total_signers m × (length m ≡ g.required_signers)

  complete_set-IsComplete :
      (ds : Shards L) (done : Bool) → OnOk IsComplete (complete_set L g b ds done)
  unfolding read_set
  complete_set-IsComplete ds false = tt
  complete_set-IsComplete ds true =
      elim (Bool-cases (length (read_set L g b ds) == g.required_signers)) [
        | inl e ↦
            rw e (
              collect-IsSorted ds 1 g.total_signers [] (omega arith) (omega arith) tt,
              ground arith,
            )
        | inr e ↦ rw e tt
      ]

  count_entry-IsComplete :
      (v : List ℕ) (i : ℕ) (ds : Shards L) (count : Option ℕ)
      → OnOk IsComplete ((count_entry L g v b i ds count).returned)
  count_entry-IsComplete v i ds none = tt
  count_entry-IsComplete v i ds (some n) = complete_set-IsComplete _ (n + 1 == g.required_signers)

  add_entry-IsComplete :
      (v : List ℕ) (i : ℕ) (ds : Shards L) → OnOk IsComplete ((add_entry L g v b i ds).returned)
  add_entry-IsComplete v i ds =
      let P : Written L → Type 0 = λ w. OnOk IsComplete w.returned in
      if_cases P (ltb 0 i && leb i g.total_signers) _ _
        (λ e.
          if_cases P (key_exists L (index_key b i) ds) _ _ (λ f. tt)
            (λ f. count_entry-IsComplete v i ds _))
        (λ e. tt)

  -- The vector of such a set.
  vector_of_complete :
      (r : Result (Option (OrderedMap (List ℕ))))
      → OnOk IsComplete r
      → {vector : BooleanProposalVector} → vector_of_set L g r ≡ ok (some vector)
      → count_true (after_first vector.proposals) ≡ g.required_signers
  unfolding of_proofs
  vector_of_complete (throw e) c p = throw_not_ok p
  vector_of_complete (ok none) c {vector = vector} p = absurd (apart p)
    where
      apart : vector_of_set L g (ok none) ≡ ok (some vector) → ⊥
      apart q = cc
  vector_of_complete (ok (some m)) c {vector = vector} p =
      let found : of_proofs g.total_signers m ≡ vector =
        same
          (check-ok (length m == g.required_signers) invalid_state
            (ok (some (of_proofs g.total_signers m))) p).1 in
      subst
        (λ (w : BooleanProposalVector). count_true (after_first w.proposals) ≡ g.required_signers)
        found (count_true-has_proofs 1 g.total_signers g.total_signers m c.0 (omega arith) ∙ c.1)
    where
      same :
          ok (some (of_proofs g.total_signers m)) ≡ ok (some vector)
          → of_proofs g.total_signers m ≡ vector
      same q = cc

required_signers_lem :
    (nodes : ℕ)
    → nodes < 2 ^ 63
    → let required = (signers_of nodes).required_signers in
      (required ≤ nodes) × (nodes ≤ 2 → required ≡ nodes) × (2 < nodes → 2 * nodes < 3 * required)
unfolding signers_of
required_signers_lem nodes h = elim (Bool-cases (leb nodes 2)) [
  | inl e ↦ rw e (omega arith, λ f. refl, λ f. absurd (ground arith))
  | inr e ↦ rw e (ground arith, λ f. absurd (ground arith), λ f. ground arith)
]

-- Whatever a node's database holds: when a data availability proof that is written gives a proposal
-- vector, that vector marks exactly the required number of proposals as available, among the nodes
-- of the chain; these are all of one or two nodes, and of more nodes more than two thirds. The
-- number of nodes is below 2 ^ 63.
pub add_da_proof-enough :
    (L : LevelDb) (nodes : ℕ) (too_large : Bool) (v : List ℕ) (b i : ℕ) (ds : Shards L)
    (vector : BooleanProposalVector)
    → nodes < 2 ^ 63
    → add_da_proof L
        (signers_of nodes)
        (write_string_to_set L too_large (signers_of nodes) v b i ds)
      ≡ ok (some vector)
    → let available = count_true (after_first vector.proposals) in
      (available ≡ (signers_of nodes).required_signers)
      × (available ≤ nodes)
      × (nodes ≤ 2 → available ≡ nodes)
      × (2 < nodes → 2 * nodes < 3 * available)
unfolding add_da_proof write_string_to_set signers_of
add_da_proof-enough L nodes too_large v b i ds vector h p =
    let g : Signers = signers_of nodes in
    let enough : count_true (after_first vector.proposals) ≡ g.required_signers =
      vector_of_complete L g b _
        (add_entry-IsComplete L g b v i (rotate_dbs_if_needed L too_large ds)) p in
    let t =
      subst
        (λ available.
          (available ≤ nodes)
          × (nodes ≤ 2 → available ≡ nodes)
          × (2 < nodes → 2 * nodes < 3 * available))
        (sym enough) (required_signers_lem nodes h) in
    (enough, t.0, t.1, t.2)
