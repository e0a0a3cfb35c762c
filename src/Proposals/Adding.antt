-- ===== src/Proposals/Adding.antt =====
-- addFragment of BlockProposalFragmentList: what its checks come to.
use skale_consensus.Prelude.{
  ℕ, zero, suc, ◌%◌, ◌≡◌, ◌≢◌, ◌≤◌, ◌<◌, Bool, true, false, ◌&&◌, Option, none, some, List, [], ◌∷◌,
  length, get_elem?, ltb, leb, ◌==◌, refl, ap, sym, subst, arith, ◌∙◌, Bool-cases, if_cases, inl,
  inr, ==_iff,
}
use skale_consensus.Prelude.OrderedMap.{contains, length-le-range, contains_of_full}
use skale_consensus.Prelude.Results.{
  Result, ok, check, check-true, check-ok, ok_injective, and_then, invalid_argument, invalid_state,
}
use skale_consensus.Proposals.Fragment.{
  Fragment, FragmentList, known_index, next_index_to_retrieve, is_complete, is_member, claim_block,
  insert_fragment, next_after, add_new, add_claimed, add_fragment,
}
use skale_consensus.Proposals.Missing.{
  Pieces, absent, absent_of_full, full_of_absent, length_of_full, is_member-absent, Inv,
  insert_fragment-Inv,
}
use native.Mathlib.Nat.{mod-lt}

-- What isComplete answers, and what it means for the missing fragments.
abbrev Answers : FragmentList → Bool → Type 0
Answers l true = l.missing_fragments ≡ []
Answers l false = 1 ≤ length l.missing_fragments

fits : (l : FragmentList) → Inv l → length l.fragments ≤ l.total
fits l v = omega (arith, length-le-range 1 l.total l.fragments v.sorted (omega arith))

pub is_complete-full :
    (l : FragmentList)
    → Inv l
    → length l.fragments ≡ l.total
    → (is_complete l ≡ ok true) × (l.missing_fragments ≡ [])
unfolding is_complete
is_complete-full l v full =
    let (none_left, all) = absent_of_full 1 l.total l.fragments (λ i a b.
      contains_of_full 1 l.total i l.fragments v.sorted (omega (arith, full)) a
        (omega (arith, b))) in
    let gone = v.others_missing ∙ none_left in
    (
      check-true (leb (length l.fragments) l.total) invalid_state _ (ground (arith, full))
          ∙ ground (arith, full, all, gone, ap length gone),
      gone,
    )

nil_of_length : (xs : List ℕ) → length xs ≡ 0 → xs ≡ []
nil_of_length [] h = refl
nil_of_length (x ∷ xs) h = absurd (omega (arith, h))

is_complete-part :
    (l : FragmentList)
    → Inv l
    → (length l.fragments == l.total) ≡ false
    → (is_complete l ≡ ok false) × (1 ≤ length l.missing_fragments)
unfolding is_complete
is_complete-part l v part = (ground (arith, part, fits l v), ground (arith, some_left))
  where
    not_full : (length l.missing_fragments == 0) ≡ true → ⊥
    not_full empty = omega (
      arith,
      apart,
      length_of_full 1 l.total l.fragments (omega arith) v.sorted (λ i a b.
          full_of_absent 1 l.total i l.fragments
            (sym v.others_missing
              ∙ nil_of_length l.missing_fragments ((==_iff (length l.missing_fragments) 0).0 empty))
            a (omega (arith, b))),
    )
      where
        apart : length l.fragments ≢ l.total
        apart e = ground (arith, part, e)

    some_left : (length l.missing_fragments == 0) ≡ false
    some_left = elim (Bool-cases (length l.missing_fragments == 0)) [
      | inl empty ↦ absurd (not_full empty)
      | inr rest ↦ rest
    ]

-- isComplete never throws: it says whether a fragment is missing.
pub is_complete-Answers :
    (l : FragmentList) → Inv l → (b : Bool) × (is_complete l ≡ ok b) × Answers l b
is_complete-Answers l v = elim (Bool-cases (length l.fragments == l.total)) [
  | inl full ↦
      let (a, b) = is_complete-full l v ((==_iff (length l.fragments) l.total).0 full) in
      (true, a, b)
  | inr part ↦ let (a, b) = is_complete-part l v part in (false, a, b)
]

get_elem?-within : (xs : List ℕ) (j : ℕ) → j < length xs → (x : ℕ) × (get_elem? xs j ≡ some x)
get_elem?-within [] j h = absurd (omega arith)
get_elem?-within (x ∷ xs) zero h = (x, refl)
get_elem?-within (x ∷ xs) (suc j) h = get_elem?-within xs j (omega arith)

nothing_there : {x : ℕ} {W : Type 0} → ◌≡◌ {A = Option ℕ} none (some x) → W
nothing_there {x} p = absurd (apart p)
  where
    apart : ◌≡◌ {A = Option ℕ} none (some x) → ⊥
    apart q = cc

get_elem?-cons :
    (lo i : ℕ) (xs : List ℕ) {x : ℕ}
    → ((j : ℕ) → get_elem? xs j ≡ some x → suc lo ≤ x)
    → get_elem? (lo ∷ xs) i ≡ some x
    → lo ≤ x
get_elem?-cons lo zero xs h p = ground (arith, p)
get_elem?-cons lo (suc i) xs h p = omega (arith, h i p)

get_elem?-absent : (lo k j : ℕ) (m : Pieces) {x : ℕ} → get_elem? (absent lo k m) j ≡ some x → lo ≤ x
unfolding absent
get_elem?-absent lo zero j m {x} = λ p. nothing_there p
get_elem?-absent lo (suc k) j m {x} =
    if_cases {A = List ℕ} (λ l. get_elem? l j ≡ some x → lo ≤ x) (contains lo m) _ _
      (λ _ p. omega (arith, get_elem?-absent (suc lo) k j m p))
      (λ _. get_elem?-cons lo j _ (λ i. get_elem?-absent (suc lo) k i m))

-- With fragments missing, the next index to ask for is one of the list.
next_index_to_retrieve-some :
    (random : ℕ) (xs : List ℕ) (m : Pieces) (n : ℕ)
    → xs ≡ absent 1 n m
    → 1 ≤ length xs
    → (i : ℕ) × (1 ≤ i) × (next_index_to_retrieve random xs ≡ ok i)
unfolding next_index_to_retrieve
next_index_to_retrieve-some random [] m n e h = absurd (omega arith)
next_index_to_retrieve-some random (x ∷ xs) m n e h =
    let (i, at) =
      get_elem?-within (x ∷ xs) (random % length (x ∷ xs))
        (mod-lt random {m = length (x ∷ xs)} (omega arith)) in
    (
      i,
      get_elem?-absent 1 n (random % length (x ∷ xs)) m
          (subst (λ l. get_elem? l (random % length (x ∷ xs)) ≡ some i) e at),
      ap known_index at,
    )

next_after-returns :
    (random : ℕ) (l : FragmentList) (b : Bool)
    → Inv l
    → Answers l b
    → (r : Bool × ℕ) × (next_after random l b ≡ ok r)
next_after-returns random l true v h = ((true, 0), refl)
next_after-returns random l false v h =
    let (i, pos, e) =
      next_index_to_retrieve-some random l.missing_fragments l.fragments l.total v.others_missing
        h in
    (
      (true, i),
      check-true (ltb 0 (length l.missing_fragments)) invalid_state _ (ground (arith, h))
          ∙ ap (λ q. and_then q (λ j. check (ltb 0 j) invalid_state (ok (true, j)))) e
          ∙ check-true (ltb 0 i) invalid_state (ok (true, i)) (ground (arith, pos)),
    )

-- What every call of addFragment has to show.
abbrev pub Succeeds : FragmentList × Result (Bool × ℕ) → Type 0
Succeeds o = Inv o.0 × ((r : Bool × ℕ) × (o.1 ≡ ok r))

add_new-Succeeds :
    (random : ℕ) (f : Fragment) (l : FragmentList)
    → Inv l
    → 1 ≤ f.fragment_index
    → f.fragment_index ≤ l.total
    → contains f.fragment_index l.fragments ≡ false
    → Succeeds (add_new random f l)
add_new-Succeeds random f l v a b new =
    let kept = insert_fragment-Inv f l v a b new in
    let (c, answer, means) = is_complete-Answers (insert_fragment f l) kept in
    let (r, e) = next_after-returns random (insert_fragment f l) c kept means in
    (
      kept,
      (
        r,
        check-true (is_member f.fragment_index l.missing_fragments) invalid_state _ (
              subst (λ xs. is_member f.fragment_index xs ≡ true) (sym v.others_missing)
                (is_member-absent 1 l.total f.fragment_index l.fragments a (omega (arith, b)) new))
            ∙ ap (λ q. and_then q (next_after random (insert_fragment f l))) answer
            ∙ e,
      ),
    )

add_claimed-Succeeds :
    (random : ℕ) (f : Fragment) (l claimed : FragmentList)
    → Inv claimed
    → 1 ≤ f.fragment_index
    → f.fragment_index ≤ claimed.total
    → Succeeds (add_claimed random f l (ok claimed))
add_claimed-Succeeds random f l claimed v a b =
    if_cases {A = FragmentList × Result (Bool × ℕ)} Succeeds
      (leb (length claimed.fragments) claimed.total) _ _
      (λ _.
        if_cases {A = FragmentList × Result (Bool × ℕ)} Succeeds
          (contains f.fragment_index claimed.fragments) _ _ (λ _. (v, ((false, 0), refl)))
          (λ new. add_new-Succeeds random f claimed v a b new))
      (λ over. absurd (ground (arith, over, fits claimed v)))

-- claimBlock leaves fragments alone.
claim_block-Inv :
    (f : Fragment) (l claimed : FragmentList)
    → Inv l
    → claim_block f l ≡ ok claimed
    → Inv claimed × (claimed.total ≡ l.total)
unfolding claim_block
claim_block-Inv f l claimed v =
    if_cases {A = Result FragmentList}
      (λ r. r ≡ ok claimed → Inv claimed × (claimed.total ≡ l.total))
      (length l.list_block_hash == 0) _ _
      (λ _ e. subst (λ c. Inv c × (c.total ≡ l.total)) (ok_injective _ claimed e) (fresh, refl))
      (λ _ e.
        subst (λ c. Inv c × (c.total ≡ l.total))
          (ok_injective l claimed
            (check-ok _ invalid_argument _ (check-ok _ invalid_argument _ e).1).1)
          (v, refl))
  where
    fresh : Inv (record l { list_block_hash = f.block_hash; list_block_size = f.block_size })
    fresh = record {
      some_total = v.some_total;
      sorted = v.sorted;
      others_missing = v.others_missing;
    }

-- A fragment of the list's block id, of an index of the list and of the block that the list is for is
-- never refused, whatever the generator gives: none of the checks on the list's own state fails, and
-- the fragments that are there and the missing ones remain all, once each.
pub add_fragment-Succeeds :
    (random : ℕ) (f : Fragment) (l claimed : FragmentList)
    → Inv l
    → f.block_id ≡ l.list_block_id
    → 1 ≤ f.fragment_index
    → f.fragment_index ≤ l.total
    → claim_block f l ≡ ok claimed
    → Inv (add_fragment random f l).0 × ((r : Bool × ℕ) × ((add_fragment random f l).1 ≡ ok r))
unfolding add_fragment
add_fragment-Succeeds random f l claimed v same a b e =
    if_cases {A = FragmentList × Result (Bool × ℕ)} Succeeds
      ((f.block_id == l.list_block_id) && ltb 0 f.fragment_index && leb f.fragment_index l.total) _
      _
      (λ _.
        let (w, t) = claim_block-Inv f l claimed v e in
        subst (λ c. Succeeds (add_claimed random f l c)) (sym e)
          (add_claimed-Succeeds random f l claimed w a (omega (arith, b, t))))
      (λ bad. absurd (ground (arith, bad, same, a, b)))
