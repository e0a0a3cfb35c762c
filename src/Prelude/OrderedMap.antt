-- ===== src/Prelude/OrderedMap.antt =====
-- `std::map` and `std::set` with numbers for keys: lists in ascending order of keys, since the code
-- iterates over them in that order.
use Prim.Native.Nat.{ℕ, suc, ◌+◌, ◌≤◌}
use mathlib.Core.Path.{◌≡◌, refl}
use mathlib.Core.Bool.{Bool, true, false, ◌||◌}
use mathlib.Core.List.{List, [], ◌∷◌}
use mathlib.Core.Option.{Option, none, some}
use native.Mathlib.Omega.{arith}
use skale_consensus.Prelude.Tests.{ltb, ◌==◌, if◌then◌else◌}
use skale_consensus.Prelude.Lists.{length}

abbrev pub OrderedMap {ℓ} : Type ℓ → Type ℓ
OrderedMap V = List (ℕ × V)

abbrev pub OrderedSet : Type 0
OrderedSet = OrderedMap (Unit {0})

module _ {ℓ} {V : Type ℓ} where
  -- `count( k ) > 0`
  unfoldable pub contains : ℕ → OrderedMap V → Bool
  contains k [] = false
  contains k ((j, w) ∷ m) = k == j || contains k m

  -- `find( k )`
  unfoldable pub find : ℕ → OrderedMap V → Option V
  find k [] = none
  find k ((j, w) ∷ m) = if k == j then some w else find k m

  -- `insert` and `emplace`: a key that is there keeps its value.
  unfoldable pub emplace : ℕ → V → OrderedMap V → OrderedMap V
  emplace k v [] = (k, v) ∷ []
  emplace k v ((j, w) ∷ m) =
      let rest = emplace k v m in
      if ltb k j then (k, v) ∷ (j, w) ∷ m else if k == j then (j, w) ∷ m else (j, w) ∷ rest

  -- Keys ascend strictly, from `lo` to `hi`.
  abbrev pub IsSorted : ℕ → ℕ → OrderedMap V → Type 0
  IsSorted lo hi [] = Unit
  IsSorted lo hi ((k, v) ∷ m) = (lo ≤ k) × (k ≤ hi) × IsSorted (suc k) hi m

  pub contains-emplace :
      (j k : ℕ) (v : V) (m : OrderedMap V) → contains j (emplace k v m) ≡ (j == k || contains j m)
  unfolding contains emplace
  contains-emplace j k v [] = refl
  contains-emplace j k v ((i, w) ∷ m) = ground (arith, contains-emplace j k v m)

  pub length-le-emplace : (k : ℕ) (v : V) (m : OrderedMap V) → length m ≤ length (emplace k v m)
  unfolding emplace
  length-le-emplace k v [] = omega arith
  length-le-emplace k v ((i, w) ∷ m) = ground (arith, length-le-emplace k v m)

  pub emplace-IsSorted :
      (lo hi k : ℕ) (v : V) (m : OrderedMap V)
      → lo ≤ k
      → k ≤ hi
      → IsSorted lo hi m
      → IsSorted lo hi (emplace k v m)
  unfolding emplace
  emplace-IsSorted lo hi k v [] a b s = (a, b, tt)
  emplace-IsSorted lo hi k v ((i, w) ∷ m) a b s = ground (arith, emplace-IsSorted (suc i) hi k v m)

  -- So many keys fit into the range.
  pub length-le-range :
      (lo hi : ℕ) (m : OrderedMap V) → IsSorted lo hi m → lo ≤ suc hi → length m + lo ≤ suc hi
  length-le-range lo hi [] s h = omega arith
  length-le-range lo hi ((k, v) ∷ m) s h = omega (arith, length-le-range (suc k) hi m s.2)

  -- With as many keys as the range has numbers, every number of it is a key.
  pub contains_of_full :
      (lo hi x : ℕ) (m : OrderedMap V)
      → IsSorted lo hi m
      → length m + lo ≡ suc hi
      → lo ≤ x
      → x ≤ hi
      → contains x m ≡ true
  unfolding contains
  contains_of_full lo hi x [] s full a b = absurd (omega arith)
  contains_of_full lo hi x ((k, v) ∷ m) s full a b =
      ground (arith, contains_of_full (suc k) hi x m, length-le-range (suc k) hi m)
