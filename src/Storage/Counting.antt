-- ===== src/Storage/Counting.antt =====
-- The sets of entries in the view of a CacheLevelDB, and their counters.
use skale_consensus.Prelude.{
  ℕ, zero, suc, ◌+◌, ◌≡◌, ◌⊎◌, ◌≤◌, ◌<◌, false, none, some, List, ◌==◌, ◌&&◌, if◌then◌else◌, refl,
  arith, same_bytes,
}
use skale_consensus.Prelude.Decimal.{to_string}
use skale_consensus.Storage.LevelDb.{same_key, index_key, counter_key}
use skale_consensus.Storage.Shards.{is_empty_text}
use skale_consensus.Storage.Life.{Living, View, is_living, set_key}
use skale_consensus.Storage.View.{life_at, with_entry}

-- How many of the indices from `i` on have an entry.
unfoldable pub present : View → ℕ → ℕ → ℕ → ℕ
present f b i zero = 0
present f b i (suc k) =
    let rest = present f b (i + 1) k in if is_living (f (index_key b i)) then rest + 1 else rest

-- An entry that is there is not empty, and lives as long as `life` says.
abbrev pub LivesFor : ℕ → Living → Type 0
LivesFor life none = Unit
LivesFor life (some (l, v)) = (l ≡ life) × (is_empty_text v ≡ false)

-- A set that has no counter has no entries; one that has a counter has as many as it counts.
pub data IsCounted (total : ℕ) (b : ℕ) (f : View) : Type 0 where
  unstarted : f (counter_key b) ≡ none → ((i : ℕ) → f (index_key b i) ≡ none) → IsCounted total b f
  started :
      (life : ℕ)
      → 1 ≤ life
      → f (counter_key b) ≡ some (life, to_string (present f b 1 total))
      → ((i : ℕ) → LivesFor life (f (index_key b i)))
      → IsCounted total b f

same_index : (b c i j : ℕ) → same_key (index_key b i) (index_key c j) ≡ (b == c && i == j)
unfolding same_bytes
same_index b c i j = ground arith

same_counter : (b c : ℕ) → same_key (counter_key b) (counter_key c) ≡ b == c
unfolding same_bytes
same_counter b c = ground arith

pub present-le : (f : View) (b i k : ℕ) → present f b i k ≤ k
unfolding present
present-le f b i zero = omega arith
present-le f b i (suc k) = ground (arith, present-le f b (i + 1) k)

-- It depends on what lives.
pub present-agree :
    (f h : View) (b i k : ℕ)
    → ((j : ℕ) → is_living (f (index_key b j)) ≡ is_living (h (index_key b j)))
    → present f b i k ≡ present h b i k
unfolding present
present-agree f h b i zero e = refl
present-agree f h b i (suc k) e = ground (arith, e i, present-agree f h b (i + 1) k e)

pub present_of_none :
    (f : View) (b i k : ℕ) → ((j : ℕ) → f (index_key b j) ≡ none) → present f b i k ≡ 0
unfolding present
present_of_none f b i zero e = refl
present_of_none f b i (suc k) e = ground (arith, e i, present_of_none f b (i + 1) k e)

module _ (f : View) (b : ℕ) (v : List ℕ) (i n : ℕ) where
  abbrev pub after : View
  after = with_entry b v i n f

  pub after-index :
      (c j : ℕ)
      → after (index_key c j)
        ≡ (if c == b && j == i then some (life_at (f (counter_key b)), v) else f (index_key c j))
  unfolding set_key
  after-index c j = ground (arith, same_index c b j i)

  pub after-counter :
      (c : ℕ)
      → after (counter_key c) ≡ (
          if c == b
          then some (life_at (f (counter_key b)), to_string (n + 1))
          else f (counter_key c))
  unfolding set_key
  after-counter c = ground (arith, same_counter c b)

  -- Below the new entry nothing changes.
  present_apart : (lo k : ℕ) → (i < lo) ⊎ (lo + k ≤ i) → present after b lo k ≡ present f b lo k
  unfolding present
  present_apart lo zero h = refl
  present_apart lo (suc k) h = ground (arith, after-index b lo, present_apart (lo + 1) k)

  pub present-after :
      (lo k : ℕ)
      → f (index_key b i) ≡ none
      → lo ≤ i
      → i < lo + k
      → present after b lo k ≡ present f b lo k + 1
  unfolding present
  present-after lo zero e p q = absurd (omega arith)
  present-after lo (suc k) e p q =
      ground (arith, after-index b lo, present_apart (lo + 1) k, present-after (lo + 1) k)
