-- ===== src/Storage/Writes.antt =====
-- What the writes to one of the databases do to the view.
use skale_consensus.Prelude.{
  ℕ, ◌≡◌, ◌≤◌, none, some, List, [], ◌∷◌, length, if◌then◌else◌, refl, arith, Option-cases,
  Bool-cases, inl, inr,
}
use skale_consensus.Storage.LevelDb.{Key, same_key, same_key→≡, LevelDb}
use skale_consensus.Storage.Shards.{Shards, put_newest, write_to_containing, write_to_newest}
use skale_consensus.Storage.Life.{set_key, locate}

module _ (L : LevelDb) where
  open L use {Db, get, put, get-put, get-put_ne}

  -- A write to the newest database.
  pub locate-put_newest :
      (j k : Key) (v : List ℕ) (ds : Shards L)
      → 1 ≤ length ds
      → locate L (put_newest L k v ds) j ≡ set_key k (some (length ds, v)) (locate L ds) j
  unfolding locate set_key
  locate-put_newest j k v [] h = absurd (omega arith)
  locate-put_newest j k v (d ∷ ds) h = elim (Bool-cases (same_key j k)) [
    | inl e ↦ ground (arith, get-put k v d, same_key→≡ j k)
    | inr e ↦ ground (arith, get-put_ne j k v d)
  ]

  -- A batch of two writes.
  abbrev pub batch : Key → List ℕ → Key → List ℕ → Db → Db
  batch e v c t d = put e v (put c t d)

  get-batch :
      (j e c : Key) (v t : List ℕ) (d : Db)
      → get j (batch e v c t d)
        ≡ (if same_key j e then some v else if same_key j c then some t else get j d)
  get-batch j e c v t d = elim (Bool-cases (same_key j e)) [
    | inl p ↦ ground (arith, get-put e v (put c t d), same_key→≡ j e)
    | inr p ↦ elim (Bool-cases (same_key j c)) [
      | inl q ↦ ground (arith, get-put_ne j e v (put c t d), get-put c t d, same_key→≡ j c)
      | inr q ↦ ground (arith, get-put_ne j e v (put c t d), get-put_ne j c t d)
    ]
  ]

  pub locate-batch_newest :
      (j e c : Key) (v t : List ℕ) (ds : Shards L)
      → 1 ≤ length ds
      → locate L (write_to_newest L (batch e v c t) ds) j
        ≡ set_key e (some (length ds, v)) (set_key c (some (length ds, t)) (locate L ds)) j
  unfolding locate set_key
  locate-batch_newest j e c v t [] h = absurd (omega arith)
  locate-batch_newest j e c v t (d ∷ ds) h = ground (arith, get-batch j e c v t d)

  pub length-write_to_containing :
      (c : Key) (f : Db → Db) (ds : Shards L) → length (write_to_containing L c f ds) ≡ length ds
  unfolding write_to_containing
  length-write_to_containing c f [] = refl
  length-write_to_containing c f (d ∷ ds) = ground (arith, length-write_to_containing c f ds)

  -- A batch that goes where its second key is found, the first being new.
  pub locate-batch_containing :
      (j e c : Key) (v t : List ℕ) (ds : Shards L) (life : ℕ) (old : List ℕ)
      → locate L ds c ≡ some (life, old)
      → locate L ds e ≡ none
      → locate L (write_to_containing L c (batch e v c t) ds) j
        ≡ set_key e (some (life, v)) (set_key c (some (life, t)) (locate L ds)) j
  unfolding locate set_key write_to_containing
  locate-batch_containing j e c v t [] life old p q = cc
  locate-batch_containing j e c v t (d ∷ ds) life old p q = elim (Option-cases (get c d)) [
    | inl r ↦ ground (
      arith,
      locate-batch_containing j e c v t ds life old,
      length-write_to_containing c (batch e v c t) ds,
      same_key→≡ j e,
      same_key→≡ j c,
    )
    | inr (w, r) ↦ ground (arith, get-batch j e c v t d)
  ]
