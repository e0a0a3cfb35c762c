-- ===== src/Storage/Refine.antt =====
-- The databases of a CacheLevelDB against the view that it promises.
use skale_consensus.Prelude.{ℕ, ◌≡◌, Option, none, List, [], ◌∷◌, refl, ap, subst, ◌∙◌}
use mathlib.Core.Path.{fun_ext}
use skale_consensus.Prelude.OrderedMap.{OrderedMap}
use skale_consensus.Prelude.Results.{Result, ok}
use skale_consensus.Storage.LevelDb.{Key, LevelDb}
use skale_consensus.Storage.Shards.{
  Shards, Signers, Written, leveldb_shards, rotate_dbs_if_needed, write_string, write_string_to_set,
  add_entry, read_string, key_exists, new_shards,
}
use skale_consensus.Storage.Life.{
  View, value_of, is_living, locate, read_string-locate, key_exists-locate, locate-new_shards,
  length-new_shards,
}
use skale_consensus.Storage.View.{Op, write, add, added, see, see_all}
use skale_consensus.Storage.Operations.{
  IsOpen, rotate-locate, rotate-IsOpen, write_string-written, Agrees, add_entry-added,
}

module _ (L : LevelDb) where
  open L use {Db, empty}

  -- One operation on the databases.
  unfoldable pub apply_op : Signers → Op → Shards L → Written L
  apply_op g (write too_large k v overwrite) ds = record {
    shards = write_string L too_large k v overwrite ds;
    returned = ok none;
  }
  apply_op g (add too_large v b i) ds = write_string_to_set L too_large g v b i ds

  unfoldable pub run :
      Signers → List Op → Shards L → Shards L × List (Result (Option (OrderedMap (List ℕ))))
  run g [] ds = (ds, [])
  run g (op ∷ ops) ds =
      let w = apply_op g op ds in let rest = run g ops w.shards in (rest.0, w.returned ∷ rest.1)

  apply_op-see :
      (g : Signers) (op : Op) (ds : Shards L)
      → IsOpen L ds
      → Agrees L (apply_op g op ds) (see g op (locate L ds))
  unfolding apply_op see write_string_to_set
  apply_op-see g (write too_large k v overwrite) ds h =
      let w = write_string-written L too_large k v overwrite ds h in (w.0, w.1, refl)
  apply_op-see g (add too_large v b i) ds h =
      subst
        (λ f.
          Agrees L (add_entry L g v b i (rotate_dbs_if_needed L too_large ds)) (added g v b i f))
        (rotate-locate L too_large ds)
        (add_entry-added L g v b i (rotate_dbs_if_needed L too_large ds)
          (rotate-IsOpen L too_large ds h))

  pub run-see_all :
      (g : Signers) (ops : List Op) (ds : Shards L)
      → IsOpen L ds
      → (locate L ((run g ops ds).0) ≡ (see_all g ops (locate L ds)).0)
        × ((run g ops ds).1 ≡ (see_all g ops (locate L ds)).1)
        × IsOpen L ((run g ops ds).0)
  unfolding run see_all
  run-see_all g [] ds h = (refl, refl, h)
  run-see_all g (op ∷ ops) ds h =
      let s = apply_op-see g op ds h in
      let ih = run-see_all g ops ((apply_op g op ds).shards) s.0 in
      (
        ih.0 ∙ ap (λ f. (see_all g ops f).0) s.1,
        λ j. s.2 j ∷ (ih.1 ∙ ap (λ f. (see_all g ops f).1) s.1) j,
        ih.2,
      )

  -- Nothing is known at first.
  abbrev pub nothing : View
  nothing k = none

  -- What a new CacheLevelDB shows after some operations.
  pub run-nothing :
      (g : Signers) (ops : List Op)
      → (locate L ((run g ops (new_shards L leveldb_shards)).0) ≡ (see_all g ops nothing).0)
        × ((run g ops (new_shards L leveldb_shards)).1 ≡ (see_all g ops nothing).1)
        × IsOpen L ((run g ops (new_shards L leveldb_shards)).0)
  run-nothing g ops =
      let new : locate L (new_shards L leveldb_shards) ≡ nothing =
        fun_ext (λ j. locate-new_shards L leveldb_shards j) in
      let both =
        run-see_all g ops (new_shards L leveldb_shards) (length-new_shards L leveldb_shards) in
      (
        both.0 ∙ ap (λ f. (see_all g ops f).0) new,
        both.1 ∙ ap (λ f. (see_all g ops f).1) new,
        both.2,
      )

  -- Whatever is written to a new CacheLevelDB, with the newest database found too large at any of the
  -- writes, each call returns what it returns on the one view of entries that live through four
  -- rotations, and then a read gives the value that the view has of the key, or the empty string.
  pub run_refines :
      (g : Signers) (ops : List Op) (k : Key)
      → ((run g ops (new_shards L leveldb_shards)).1 ≡ (see_all g ops nothing).1)
        × (read_string L k ((run g ops (new_shards L leveldb_shards)).0)
            ≡ value_of ((see_all g ops nothing).0 k))
        × (key_exists L k ((run g ops (new_shards L leveldb_shards)).0)
            ≡ is_living ((see_all g ops nothing).0 k))
  run_refines g ops k =
      let both = run-nothing g ops in
      let ds : Shards L = (run g ops (new_shards L leveldb_shards)).0 in
      (
        both.1,
        read_string-locate L k ds ∙ ap (λ f. value_of (f k)) both.0,
        key_exists-locate L k ds ∙ ap (λ f. is_living (f k)) both.0,
      )
