-- ===== src/Proposals/Missing.antt =====
-- The fragments that are there and those that are missing, in a BlockProposalFragmentList.
use skale_consensus.Prelude.{
  ℕ, zero, suc, ◌+◌, ◌≡◌, ◌≤◌, ◌<◌, true, false, List, [], ◌∷◌, length, leb, ◌==◌, if◌then◌else◌,
  refl, ap, subst, arith, ◌∙◌, Bool-cases, inl, inr, ==_iff,
}
use skale_consensus.Prelude.OrderedMap.{
  OrderedMap, contains, emplace, contains-emplace, IsSorted, emplace-IsSorted,
}
use skale_consensus.Proposals.Fragment.{
  Fragment, FragmentList, from_on, has_all, is_member, erase_first, insert_fragment,
}

abbrev pub Pieces : Type 0
Pieces = OrderedMap (List ℕ)

-- Which of the `k` numbers from `lo` on are no keys.
unfoldable pub absent : ℕ → ℕ → Pieces → List ℕ
absent lo zero m = []
absent lo (suc k) m = let rest = absent (suc lo) k m in if contains lo m then rest else lo ∷ rest

absent-above :
    (lo k i : ℕ) (v : List ℕ) (m : Pieces) → i < lo → absent lo k (emplace i v m) ≡ absent lo k m
unfolding absent
absent-above lo zero i v m h = refl
absent-above lo (suc k) i v m h =
    ground (arith, contains-emplace lo i v m, absent-above (suc lo) k i v m)

-- A key that comes is no longer absent.
pub erase_first-absent :
    (lo k i : ℕ) (v : List ℕ) (m : Pieces)
    → contains i m ≡ false
    → erase_first i (absent lo k m) ≡ absent lo k (emplace i v m)
unfolding absent erase_first
erase_first-absent lo zero i v m h = refl
erase_first-absent lo (suc k) i v m h = elim (Bool-cases (i == lo)) [
  | inl same ↦ ground (
    arith,
    subst (λ j. contains j m ≡ false) ((==_iff i lo).0 same) h,
    contains-emplace lo i v m,
    absent-above (suc lo) k i v m (ground arith),
  )
  | inr apart ↦ ground (arith, contains-emplace lo i v m, erase_first-absent (suc lo) k i v m h)
]

pub is_member-absent :
    (lo k i : ℕ) (m : Pieces)
    → lo ≤ i
    → i < lo + k
    → contains i m ≡ false
    → is_member i (absent lo k m) ≡ true
unfolding absent is_member
is_member-absent lo zero i m a b h = absurd (omega arith)
is_member-absent lo (suc k) i m a b h = elim (Bool-cases (i == lo)) [
  | inl same ↦ ground (arith, same, subst (λ j. contains j m ≡ false) ((==_iff i lo).0 same) h)
  | inr apart ↦
      ground (arith, apart, is_member-absent (suc lo) k i m (ground arith) (omega (arith, b)) h)
]

pub absent_of_full :
    (lo k : ℕ) (m : Pieces)
    → ((i : ℕ) → lo ≤ i → i < lo + k → contains i m ≡ true)
    → (absent lo k m ≡ []) × (has_all lo k m ≡ true)
unfolding absent has_all
absent_of_full lo zero m h = (refl, refl)
absent_of_full lo (suc k) m h =
    let (none_left, all) = absent_of_full (suc lo) k m (λ i a b. h i (omega arith) (omega arith)) in
    let here = h lo (omega arith) (omega arith) in
    (ground (arith, here, none_left), ground (arith, here, all))

pub full_of_absent :
    (lo k i : ℕ) (m : Pieces) → absent lo k m ≡ [] → lo ≤ i → i < lo + k → contains i m ≡ true
unfolding is_member
full_of_absent lo k i m e a b = elim (Bool-cases (contains i m)) [
  | inl there ↦ there
  | inr gone ↦
      absurd
        (nothing_there (subst (λ l. is_member i l ≡ true) e (is_member-absent lo k i m a b gone)))
]
  where
    nothing_there : is_member i [] ≡ true → ⊥
    nothing_there p = cc

contains-lo_le : (lo hi i : ℕ) (m : Pieces) → IsSorted lo hi m → contains i m ≡ true → lo ≤ i
unfolding contains
contains-lo_le lo hi i [] s h = absurd (nothing_there h)
  where
    nothing_there : contains {V = List ℕ} i [] ≡ true → ⊥
    nothing_there p = cc
contains-lo_le lo hi i ((k, v) ∷ m) (a, b, s) h = ground (arith, contains-lo_le (suc k) hi i m s)

-- With every number of the range for a key, there are as many keys as numbers.
pub length_of_full :
    (lo hi : ℕ) (m : Pieces)
    → lo ≤ suc hi
    → IsSorted lo hi m
    → ((i : ℕ) → lo ≤ i → i ≤ hi → contains i m ≡ true)
    → length m + lo ≡ suc hi
unfolding contains
length_of_full lo hi [] le s h = elim (Bool-cases (leb lo hi)) [
  | inl more ↦ absurd (nothing_there (h lo (omega arith) (ground arith)))
  | inr none_left ↦ ground arith
]
  where
    nothing_there : contains {V = List ℕ} lo [] ≡ true → ⊥
    nothing_there p = cc
length_of_full lo hi ((k, v) ∷ m) le (a, b, s) h =
    omega (arith, first, length_of_full (suc k) hi m (omega (arith, b)) s later)
  where
    first : k ≡ lo
    first = ground (arith, a, b, h lo, contains-lo_le (suc k) hi lo m s)

    later : (i : ℕ) → suc k ≤ i → i ≤ hi → contains i m ≡ true
    later i c d = ground (arith, c, d, first, h i)

-- The keys are among the indices, and the missing ones are the others.
pub record Inv (l : FragmentList) : Type 0 where
  pub some_total : 1 ≤ l.total
  pub sorted : IsSorted 1 l.total l.fragments
  pub others_missing : l.missing_fragments ≡ absent 1 l.total l.fragments

pub from_on-absent : (lo k : ℕ) → from_on lo k ≡ absent lo k []
unfolding from_on absent contains
from_on-absent lo zero = refl
from_on-absent lo (suc k) = ap (λ l. lo ∷ l) (from_on-absent (suc lo) k)

-- A fragment that is not there yet, of an index of the list, is inserted with the invariant kept.
pub insert_fragment-Inv :
    (f : Fragment) (l : FragmentList)
    → Inv l
    → 1 ≤ f.fragment_index
    → f.fragment_index ≤ l.total
    → contains f.fragment_index l.fragments ≡ false
    → Inv (insert_fragment f l)
insert_fragment-Inv f l v a b h = record {
  some_total = v.some_total;
  sorted = emplace-IsSorted 1 l.total f.fragment_index f.payload l.fragments a b v.sorted;
  others_missing =
      ap (erase_first f.fragment_index) v.others_missing
      ∙ erase_first-absent 1 l.total f.fragment_index f.payload l.fragments h;
}
