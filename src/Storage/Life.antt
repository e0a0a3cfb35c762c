-- ===== src/Storage/Life.antt =====
-- The databases of a CacheLevelDB as one view, in which an entry lives for a number of rotations.
use skale_consensus.Prelude.{
  ℕ, zero, suc, ◌-◌, ◌≡◌, ◌≤◌, Bool, true, false, Option, none, some, List, [], ◌∷◌, length, ltb,
  if◌then◌else◌, refl, ap, ◌∙◌, arith, Option-cases, inl, inr,
}
use skale_consensus.Storage.LevelDb.{Key, same_key, LevelDb}
use skale_consensus.Storage.Shards.{
  Shards, value_or_next, is_found, read_string, key_exists, drop_oldest, new_shards,
}

-- How many rotations an entry still lives through, counting the one that drops it, and its value.
abbrev pub Living : Type 0
Living = Option (ℕ × List ℕ)

abbrev pub View : Type 0
View = Key → Living

abbrev pub found_or : Option (List ℕ) → ℕ → Living → Living
found_or none life older = older
found_or (some v) life older = some (life, v)

abbrev pub value_of : Living → List ℕ
value_of none = []
value_of (some (n, v)) = v

abbrev pub is_living : Living → Bool
is_living none = false
is_living (some p) = true

-- After one more rotation.
unfoldable pub aged : Living → Living
aged none = none
aged (some (life, v)) = if ltb 1 life then some (life - 1, v) else none

unfoldable pub set_key : Key → Living → View → View
set_key k l f j = if same_key j k then l else f j

module _ (L : LevelDb) where
  open L use {Db, get, put, empty, get-empty, get-put, get-put_ne}

  -- Where a key is found: in the newest database that has it.
  unfoldable pub locate : Shards L → View
  locate [] k = none
  locate (d ∷ ds) k = found_or (get k d) (length (d ∷ ds)) (locate ds k)

  by_value :
      (o : Option (List ℕ)) (life : ℕ) (s : List ℕ) (older : Living)
      → s ≡ value_of older
      → value_or_next o s ≡ value_of (found_or o life older)
  by_value none life s older ih = ih
  by_value (some v) life s older ih = refl

  pub read_string-locate : (k : Key) (ds : Shards L) → read_string L k ds ≡ value_of (locate ds k)
  unfolding read_string locate
  read_string-locate k [] = refl
  read_string-locate k (d ∷ ds) =
      by_value (get k d) (length (d ∷ ds)) (read_string L k ds) (locate ds k)
        (read_string-locate k ds)

  by_found :
      (o : Option (List ℕ)) (life : ℕ) (b : Bool) (older : Living)
      → b ≡ is_living older
      → (if is_found o then true else b) ≡ is_living (found_or o life older)
  by_found none life b older ih = ih
  by_found (some v) life b older ih = refl

  pub key_exists-locate : (k : Key) (ds : Shards L) → key_exists L k ds ≡ is_living (locate ds k)
  unfolding key_exists locate
  key_exists-locate k [] = refl
  key_exists-locate k (d ∷ ds) =
      by_found (get k d) (length (d ∷ ds)) (key_exists L k ds) (locate ds k)
        (key_exists-locate k ds)

  -- A key lives no longer than the newest database.
  pub locate-bounds :
      (k : Key) (ds : Shards L) {life : ℕ} {v : List ℕ}
      → locate ds k ≡ some (life, v)
      → (1 ≤ life) × (life ≤ length ds)
  unfolding locate
  locate-bounds k [] p = cc
  locate-bounds k (d ∷ ds) {life} {v} p = elim (Option-cases (get k d)) [
    | inl e ↦ ground (arith, locate-bounds k ds {life = life} {v = v})
    | inr (w, e) ↦ ground arith
  ]

  pub locate-empty : (k : Key) (ds : Shards L) → locate (empty ∷ ds) k ≡ locate ds k
  unfolding locate
  locate-empty k ds = ap (λ o. found_or o (length (empty ∷ ds)) (locate ds k)) (get-empty k)

  pub length-drop_oldest : (ds : Shards L) → length (drop_oldest L ds) ≡ length ds - 1
  unfolding drop_oldest
  length-drop_oldest [] = omega arith
  length-drop_oldest (d ∷ []) = omega arith
  length-drop_oldest (d ∷ e ∷ ds) = omega (arith, length-drop_oldest (e ∷ ds))

  pub locate-drop_oldest :
      (k : Key) (ds : Shards L) → locate (drop_oldest L ds) k ≡ aged (locate ds k)
  unfolding locate drop_oldest aged
  locate-drop_oldest k [] = refl
  locate-drop_oldest k (d ∷ []) = elim (Option-cases (get k d)) [
    | inl e ↦ rw e refl
    | inr (w, e) ↦ rw e (ground arith)
  ]
  locate-drop_oldest k (d ∷ d' ∷ ds) = elim (Option-cases (get k d)) [
    | inl e ↦ rw e (locate-drop_oldest k (d' ∷ ds))
    | inr (w, e) ↦ rw e (ground (arith, length-drop_oldest (d' ∷ ds)))
  ]

  pub locate-new_shards : (n : ℕ) (k : Key) → locate (new_shards L n) k ≡ none
  unfolding locate new_shards
  locate-new_shards zero k = refl
  locate-new_shards (suc n) k = locate-empty k (new_shards L n) ∙ locate-new_shards n k

  pub length-new_shards : (n : ℕ) → length (new_shards L n) ≡ n
  unfolding new_shards
  length-new_shards zero = omega arith
  length-new_shards (suc n) = omega (arith, length-new_shards n)
