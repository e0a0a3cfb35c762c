-- ===== src/Storage/Operations.antt =====
-- What each operation of a CacheLevelDB does to the view.
use skale_consensus.Prelude.{
  ℕ, ◌+◌, ◌≡◌, Bool, true, false, Option, none, some, List, [], ◌∷◌, length, ltb, leb, ◌==◌, ◌&&◌,
  refl, ap, subst, ◌∙◌, arith, Option-cases, Bool-cases, inl, inr,
}
use mathlib.Core.Path.{fun_ext}
use skale_consensus.Prelude.Decimal.{to_string}
use skale_consensus.Storage.LevelDb.{Key, index_key, counter_key, LevelDb}
use skale_consensus.Storage.Shards.{
  Shards, Signers, Written, leveldb_shards, drop_oldest, rotate_dbs_if_needed, put_newest,
  write_to_newest, write_string, add_entry, count_entry, count_of, complete_set, read_string,
  key_exists, write_batch,
}
use skale_consensus.Storage.Collect.{read_set-set_at}
use skale_consensus.Storage.Life.{
  Living, value_of, is_living, set_key, locate, read_string-locate, key_exists-locate, locate-empty,
  locate-drop_oldest, length-drop_oldest,
}
use skale_consensus.Storage.Writes.{
  locate-put_newest, batch, locate-batch_newest, locate-batch_containing,
  length-write_to_containing,
}
use skale_consensus.Storage.View.{
  Seen, rotated, written, newest, count_at, completed, with_entry, counted, added,
}

module _ (L : LevelDb) where
  open L use {Db, empty}

  abbrev pub IsOpen : Shards L → Type 0
  IsOpen ds = length ds ≡ leveldb_shards

  pub rotate-locate :
      (too_large : Bool) (ds : Shards L)
      → locate L (rotate_dbs_if_needed L too_large ds) ≡ rotated too_large (locate L ds)
  unfolding rotate_dbs_if_needed rotated
  rotate-locate true ds =
      fun_ext (λ k. locate-empty L k (drop_oldest L ds) ∙ locate-drop_oldest L k ds)
  rotate-locate false ds = refl

  pub rotate-IsOpen :
      (too_large : Bool) (ds : Shards L) → IsOpen ds → IsOpen (rotate_dbs_if_needed L too_large ds)
  unfolding rotate_dbs_if_needed
  rotate-IsOpen true ds h = omega (arith, length-drop_oldest L ds)
  rotate-IsOpen false ds h = h

  length-put_newest :
      (k : Key) (v : List ℕ) (ds : Shards L) → length (put_newest L k v ds) ≡ length ds
  length-put_newest k v [] = refl
  length-put_newest k v (d ∷ ds) = refl

  put_newest-written :
      (k : Key) (v : List ℕ) (ds : Shards L)
      → IsOpen ds
      → locate L (put_newest L k v ds) ≡ set_key k (newest v) (locate L ds)
  put_newest-written k v ds h = fun_ext (λ j.
      subst (λ (n : ℕ). locate L (put_newest L k v ds) j ≡ set_key k (some (n, v)) (locate L ds) j)
        h (locate-put_newest L j k v ds (omega arith)))

  pub write_string-written :
      (too_large : Bool) (k : Key) (v : List ℕ) (overwrite : Bool) (ds : Shards L)
      → IsOpen ds
      → IsOpen (write_string L too_large k v overwrite ds)
        × (locate L (write_string L too_large k v overwrite ds)
            ≡ written k v overwrite (rotated too_large (locate L ds)))
  unfolding write_string written
  write_string-written too_large k v overwrite ds h =
      let r : Shards L = rotate_dbs_if_needed L too_large ds in
      let still : IsOpen r = rotate-IsOpen too_large ds h in
      ground (
        arith,
        rotate-locate too_large ds,
        put_newest-written k v r,
        length-put_newest k v r,
        key_exists-locate L k r,
      )

  length-batch_newest :
      (e c : Key) (v t : List ℕ) (ds : Shards L)
      → length (write_to_newest L (batch L e v c t) ds) ≡ length ds
  length-batch_newest e c v t [] = refl
  length-batch_newest e c v t (d ∷ ds) = refl

  -- A new entry goes where the counter is, or to the newest database.
  write_batch-with_entry :
      (v : List ℕ) (b i n : ℕ) (ds : Shards L)
      → IsOpen ds
      → locate L ds (index_key b i) ≡ none
      → let after =
          write_batch L
            (counter_key b)
            (batch L (index_key b i) v (counter_key b) (to_string (n + 1)))
            ds in
        IsOpen after × (locate L after ≡ with_entry b v i n (locate L ds))
  unfolding write_batch
  write_batch-with_entry v b i n ds h e = elim (Option-cases (locate L ds (counter_key b))) [
    | inl p ↦
        rw (key_exists-locate L (counter_key b) ds, p)
          (
            omega (
              arith,
              h,
              length-batch_newest (index_key b i) (counter_key b) v (to_string (n + 1)) ds,
            ),
            fun_ext (λ j.
                subst
                  (λ (m : ℕ).
                    locate L
                      (write_to_newest L
                        (batch L (index_key b i) v (counter_key b) (to_string (n + 1))) ds)
                      j
                    ≡ set_key (index_key b i) (some (m, v))
                        (set_key (counter_key b) (some (m, to_string (n + 1))) (locate L ds)) j)
                  h
                  (locate-batch_newest L j (index_key b i) (counter_key b) v (to_string (n + 1)) ds
                    (omega arith))),
          )
    | inr ((life, text), p) ↦
        rw (key_exists-locate L (counter_key b) ds, p)
          (
            omega (
              arith,
              h,
              length-write_to_containing L (counter_key b)
                  (batch L (index_key b i) v (counter_key b) (to_string (n + 1))) ds,
            ),
            fun_ext (λ j.
                locate-batch_containing L j (index_key b i) (counter_key b) v (to_string (n + 1)) ds
                  life text p e),
          )
  ]

  -- The databases and the view after an operation, and what both return.
  abbrev pub Agrees : Written L → Seen → Type 0
  Agrees w s = IsOpen w.shards × (locate L w.shards ≡ s.view) × (w.returned ≡ s.returned)

  count_of-locate :
      (k : Key) (ds : Shards L)
      → count_of (key_exists L k ds) (read_string L k ds) ≡ count_at (locate L ds k)
  count_of-locate k ds =
      rw (key_exists-locate L k ds, read_string-locate L k ds) (by_cases (locate L ds k))
    where
      by_cases : (l : Living) → count_of (is_living l) (value_of l) ≡ count_at l
      by_cases none = refl
      by_cases (some (life, text)) = refl

  complete_set-completed :
      (g : Signers) (b : ℕ) (ds : Shards L) (n : ℕ)
      → complete_set L g b ds (n + 1 == g.required_signers)
        ≡ completed g b (locate L ds) (n + 1 == g.required_signers)
  complete_set-completed g b ds n = elim (Bool-cases (n + 1 == g.required_signers)) [
    | inl p ↦ rw p (rw (read_set-set_at L g b ds (ground arith)) refl)
    | inr p ↦ rw p refl
  ]

  count_entry-counted :
      (g : Signers) (v : List ℕ) (b i : ℕ) (ds : Shards L) (o : Option ℕ)
      → IsOpen ds
      → locate L ds (index_key b i) ≡ none
      → Agrees (count_entry L g v b i ds o) (counted g v b i (locate L ds) o)
  count_entry-counted g v b i ds none h e = (h, refl, refl)
  count_entry-counted g v b i ds (some n) h e =
      let after : Shards L =
        write_batch L (counter_key b)
          (batch L (index_key b i) v (counter_key b) (to_string (n + 1))) ds in
      let shown = write_batch-with_entry v b i n ds h e in
      (
        shown.0,
        shown.1,
        complete_set-completed g b after n
            ∙ ap (λ f. completed g b f (n + 1 == g.required_signers)) shown.1,
      )

  pub add_entry-added :
      (g : Signers) (v : List ℕ) (b i : ℕ) (ds : Shards L)
      → IsOpen ds
      → Agrees (add_entry L g v b i ds) (added g v b i (locate L ds))
  unfolding added
  add_entry-added g v b i ds h = elim (Bool-cases (ltb 0 i && leb i g.total_signers)) [
    | inl p ↦
        rw (p, key_exists-locate L (index_key b i) ds)
          (elim (Option-cases (locate L ds (index_key b i))) [
            | inl q ↦
                rw (q, count_of-locate (counter_key b) ds)
                  (count_entry-counted g v b i ds (count_at (locate L ds (counter_key b))) h q)
            | inr (w, q) ↦ rw q (h, refl, refl)
          ])
    | inr p ↦ rw p (h, refl, refl)
  ]
