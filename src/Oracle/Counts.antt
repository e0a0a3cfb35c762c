-- ===== src/Oracle/Counts.antt =====
-- The counts of the reported results.
use skale_consensus.Prelude.{
  ℕ, ◌+◌, ◌≡◌, ◌≤◌, true, false, ◌||◌, Option, none, some, List, [], ◌∷◌, if◌then◌else◌, same_bytes,
  same_bytes_refl, same_bytes→≡, u64, refl, arith,
}
use skale_consensus.Oracle.Received.{is_counted, insert_new, add_one, count_result, first_confirmed}

-- The count at a result.
abbrev pub count_at : List ℕ → List (List ℕ × ℕ) → ℕ
count_at t [] = 0
count_at t ((s, n) ∷ m) = if same_bytes t s then n else count_at t m

counted_none : (t : List ℕ) (m : List (List ℕ × ℕ)) → is_counted t m ≡ false → count_at t m ≡ 0
counted_none t [] h = refl
counted_none t ((s, n) ∷ m) h = ground (arith, counted_none t m)

count_at-insert_new :
    (t u : List ℕ) (m : List (List ℕ × ℕ))
    → is_counted u m ≡ false
    → count_at t (insert_new u m) ≡ (if same_bytes t u then 1 else count_at t m)
unfolding insert_new
count_at-insert_new t u [] h = refl
count_at-insert_new t u ((s, n) ∷ m) h =
    ground (arith, count_at-insert_new t u m, same_bytes→≡ t u, same_bytes→≡ t s, same_bytes_refl t)

count_at-add_one :
    (t u : List ℕ) (m : List (List ℕ × ℕ))
    → is_counted u m ≡ true
    → count_at t (add_one u m) ≡ (if same_bytes t u then u64 (count_at t m + 1) else count_at t m)
unfolding add_one
count_at-add_one t u [] h = cc
count_at-add_one t u ((s, n) ∷ m) h = ground (
  arith,
  count_at-add_one t u m,
  same_bytes→≡ t u,
  same_bytes→≡ t s,
  same_bytes→≡ u s,
  same_bytes_refl t,
)

pub count_at-count_result :
    (t u : List ℕ) (m : List (List ℕ × ℕ))
    → count_at t (count_result u m)
      ≡ (if same_bytes t u then u64 (count_at t m + 1) else count_at t m)
unfolding count_result
count_at-count_result t u m =
    ground
      (arith, count_at-add_one t u m, count_at-insert_new t u m, counted_none t m, same_bytes→≡ t u)

-- No result stands twice.
abbrev pub IsDistinct : List (List ℕ × ℕ) → Type 0
IsDistinct [] = Unit
IsDistinct ((s, n) ∷ m) = (is_counted s m ≡ false) × IsDistinct m

is_counted-insert_new :
    (t u : List ℕ) (m : List (List ℕ × ℕ))
    → is_counted t (insert_new u m) ≡ (same_bytes t u || is_counted t m)
unfolding insert_new
is_counted-insert_new t u [] = refl
is_counted-insert_new t u ((s, n) ∷ m) = ground (arith, is_counted-insert_new t u m)

is_counted-add_one :
    (t u : List ℕ) (m : List (List ℕ × ℕ)) → is_counted t (add_one u m) ≡ is_counted t m
unfolding add_one
is_counted-add_one t u [] = refl
is_counted-add_one t u ((s, n) ∷ m) = ground (arith, is_counted-add_one t u m)

insert_new-IsDistinct :
    (u : List ℕ) (m : List (List ℕ × ℕ))
    → is_counted u m ≡ false
    → IsDistinct m
    → IsDistinct (insert_new u m)
unfolding insert_new
insert_new-IsDistinct u [] h d = (refl, tt)
insert_new-IsDistinct u ((s, n) ∷ m) h d = ground (
  arith,
  insert_new-IsDistinct u m,
  is_counted-insert_new s u m,
  same_bytes→≡ s u,
  same_bytes_refl s,
)

add_one-IsDistinct : (u : List ℕ) (m : List (List ℕ × ℕ)) → IsDistinct m → IsDistinct (add_one u m)
unfolding add_one
add_one-IsDistinct u [] d = tt
add_one-IsDistinct u ((s, n) ∷ m) d =
    ground (arith, add_one-IsDistinct u m, is_counted-add_one s u m)

pub count_result-IsDistinct :
    (u : List ℕ) (m : List (List ℕ × ℕ)) → IsDistinct m → IsDistinct (count_result u m)
unfolding count_result
count_result-IsDistinct u m d = ground (arith, add_one-IsDistinct u m, insert_new-IsDistinct u m)

first_confirmed-is_counted :
    (k : ℕ) (m : List (List ℕ × ℕ)) (t : List ℕ)
    → first_confirmed k m ≡ some t
    → is_counted t m ≡ true
unfolding first_confirmed
first_confirmed-is_counted k [] t e = cc
first_confirmed-is_counted k ((s, n) ∷ m) t e =
    ground (arith, first_confirmed-is_counted k m t, same_bytes_refl t)

-- What is chosen has enough confirmations.
pub first_confirmed-count_at :
    (k : ℕ) (m : List (List ℕ × ℕ)) (t : List ℕ)
    → IsDistinct m
    → first_confirmed k m ≡ some t
    → k ≤ count_at t m
unfolding first_confirmed
first_confirmed-count_at k [] t d e = absurd (apart e)
  where
    apart : ◌≡◌ {A = Option (List ℕ)} none (some t) → ⊥
    apart q = cc
first_confirmed-count_at k ((s, n) ∷ m) t d e = ground (
  arith,
  first_confirmed-count_at k m t,
  first_confirmed-is_counted k m t,
  same_bytes→≡ t s,
  same_bytes_refl t,
)

-- If something has enough, something is chosen.
pub first_confirmed-some :
    (k : ℕ) (m : List (List ℕ × ℕ)) (t : List ℕ)
    → 1 ≤ k
    → k ≤ count_at t m
    → first_confirmed k m ≡ none
    → ⊥
unfolding first_confirmed
first_confirmed-some k [] t p h e = omega arith
first_confirmed-some k ((s, n) ∷ m) t p h e = ground (arith, first_confirmed-some k m t)
