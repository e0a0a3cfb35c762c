-- ===== src/BlockConsensus/Choice.antt =====
-- The loop of reportConsensusAndDecideIfNeeded that picks the proposer, over what has been decided.
use native.Mathlib.Nat.{mod-lt, mod-eq_of_lt, mod-eq-sub-mod}
use native.Mathlib.Decide.{dec_lt}
use skale_consensus.Prelude.{
  ℕ, zero, suc, ◌+◌, ◌-◌, ◌%◌, ◌≤◌, ◌<◌, ◌≡◌, ◌⊎◌, inl, inr, true, false, Option, none, some,
  if◌then◌else◌, arith, Bool-cases, sym, subst,
}
use skale_consensus.Prelude.OrderedMap.{OrderedMap, contains}

-- `schain_index( i % nodeCount ) + 1`
abbrev pub index_at : ℕ → ℕ → ℕ
index_at n i = i % n + 1

-- How far a proposer stands from the start.
distance : (n s x : ℕ) → 1 ≤ x → x ≤ n → s < n → (d : ℕ) × (d < n) × (index_at n (s + d) ≡ x)
distance n s x lo hi h = elim (dec_lt (x - 1) s) [
  | yes before ↦ (x - 1 + n - s, omega arith, grind (arith, mod-eq_of_lt, mod-eq-sub-mod))
  | no after ↦ (x - 1 - s, omega arith, grind (arith, mod-eq_of_lt))
]

module _ {ℓ} {V : Type ℓ} where
  -- `k` turns of the loop from `i` on: the first index that is decided true, if all before it are
  -- decided false.
  unfoldable pub choose_from : ℕ → ℕ → ℕ → OrderedMap V → OrderedMap V → Option ℕ
  choose_from zero n i trues falses = none
  choose_from (suc k) n i trues falses =
      let rest = choose_from k n (i + 1) trues falses in
      if contains (index_at n i) trues
      then some (index_at n i)
      else if contains (index_at n i) falses
      then rest
      else none

  -- The whole loop, from the index that the seed gives.
  unfoldable pub choose : ℕ → ℕ → OrderedMap V → OrderedMap V → Option ℕ
  choose n seed trues falses = choose_from n n (seed % n) trues falses

  -- What one node has decided does not contradict what another has.
  abbrev pub IsConsistent : OrderedMap V → OrderedMap V → Type 0
  IsConsistent trues falses = (x : ℕ) → contains x trues ≡ true → contains x falses ≡ false

  choose_from_agree :
      (k n i : ℕ) (ts fs us gs : OrderedMap V) (x y : ℕ)
      → IsConsistent ts gs
      → IsConsistent us fs
      → choose_from k n i ts fs ≡ some x
      → choose_from k n i us gs ≡ some y
      → x ≡ y
  unfolding choose_from
  choose_from_agree zero n i ts fs us gs x y a b p q = cc
  choose_from_agree (suc k) n i ts fs us gs x y a b p q =
      ground (
        arith,
        a (index_at n i),
        b (index_at n i),
        choose_from_agree k n (i + 1) ts fs us gs x y a b,
      )

  -- Two nodes that start from the same seed, and of which neither has decided true what the other
  -- has decided false, never choose different proposers, however far each of them is.
  pub choose_agree :
      (n seed : ℕ) (ts fs us gs : OrderedMap V) {x y : ℕ}
      → IsConsistent ts gs
      → IsConsistent us fs
      → choose n seed ts fs ≡ some x
      → choose n seed us gs ≡ some y
      → x ≡ y
  unfolding choose
  choose_agree n seed ts fs us gs {x} {y} a b p q =
      choose_from_agree n n (seed % n) ts fs us gs x y a b p q

  choose_from_first :
      (k n i : ℕ) (ts fs : OrderedMap V) {x : ℕ}
      → choose_from k n i ts fs ≡ some x
      → (d : ℕ) × (d < k)
        × (x ≡ index_at n (i + d))
        × (contains x ts ≡ true)
        × ((j : ℕ) → j < d → contains (index_at n (i + j)) fs ≡ true)
  unfolding choose_from
  choose_from_first zero n i ts fs p = cc
  choose_from_first (suc k) n i ts fs {x} p = elim (Bool-cases (contains (index_at n i) ts)) [
    | inl hit ↦ (0, omega arith, ground arith, ground arith, λ j h. absurd (omega arith))
    | inr miss ↦
        let (d, lt, at, has, before) = choose_from_first k n (i + 1) ts fs {x = x} (ground arith) in
        (
          d + 1,
          omega arith,
          subst (λ m. x ≡ index_at n m) (omega arith) at,
          has,
          elim [
            | zero ↦ λ h. ground arith
            | suc j ↦ λ h.
                subst (λ m. contains (index_at n m) fs ≡ true) (omega arith)
                  (before j (omega arith))
          ],
        )
  ]

  -- A chosen proposer is one of the nodes and decided true, and all proposers that come before it in
  -- the round that starts at the seed are decided false.
  pub choose_first :
      (n seed : ℕ) (ts fs : OrderedMap V) {x : ℕ}
      → choose n seed ts fs ≡ some x
      → (d : ℕ) × (d < n)
        × (x ≡ index_at n (seed % n + d))
        × (contains x ts ≡ true)
        × ((j : ℕ) → j < d → contains (index_at n (seed % n + j)) fs ≡ true)
  unfolding choose
  choose_first n seed ts fs p = choose_from_first n n (seed % n) ts fs p

  choose_from_total :
      (k n i d : ℕ) (ts fs : OrderedMap V)
      → d < k
      → contains (index_at n (i + d)) ts ≡ true
      → ((j : ℕ)
          → j < d
          → (contains (index_at n (i + j)) ts ≡ true) ⊎ (contains (index_at n (i + j)) fs ≡ true))
      → (x : ℕ) × (choose_from k n i ts fs ≡ some x)
  unfolding choose_from
  choose_from_total zero n i d ts fs lt has known = absurd (omega arith)
  choose_from_total (suc k) n i zero ts fs lt has known =
      (index_at n i, rw (subst (λ m. contains (index_at n m) ts ≡ true) here has))
    where
      here : i + 0 ≡ i
      here = omega arith
  choose_from_total (suc k) n i (suc d) ts fs lt has known =
      elim (Bool-cases (contains (index_at n i) ts)) [
        | inl hit ↦ (index_at n i, rw hit)
        | inr miss ↦
            let (x, e) =
              choose_from_total k n (i + 1) d ts fs (omega arith)
                (subst (λ m. contains (index_at n m) ts ≡ true) (later d) has)
                (λ j h.
                  subst
                    (λ m. (contains (index_at n m) ts ≡ true) ⊎ (contains (index_at n m) fs ≡ true))
                    (later j) (known (suc j) (omega arith))) in
            (x, ground (arith, e, known 0))
      ]
    where
      later : (j : ℕ) → i + suc j ≡ i + 1 + j
      later j = omega arith

  -- With every proposer decided, and one of them true, there is a choice.
  pub choose_total :
      (n seed x : ℕ) (ts fs : OrderedMap V)
      → 1 ≤ x
      → x ≤ n
      → contains x ts ≡ true
      → ((i : ℕ) → 1 ≤ i → i ≤ n → (contains i ts ≡ true) ⊎ (contains i fs ≡ true))
      → (y : ℕ) × (choose n seed ts fs ≡ some y)
  unfolding choose
  choose_total n seed x ts fs lo hi has known =
      let (d, lt, at) = distance n (seed % n) x lo hi (mod-lt seed (omega arith)) in
      choose_from_total n n (seed % n) d ts fs lt (subst (λ m. contains m ts ≡ true) (sym at) has)
        (λ j h. known _ (omega arith) (omega (arith, mod-lt (seed % n + j) {m = n} (omega arith))))
