-- ===== src/Storage/Examples.antt =====
-- Tests of the databases, with functions for LevelDBs.
use skale_consensus.Prelude.{
  ℕ, ◌+◌, ◌*◌, ◌≡◌, ◌≤◌, ◌<◌, ◌==◌, true, false, Option, none, some, List, [], ◌∷◌, length,
  same_bytes, if◌then◌else◌, refl, arith,
}
use skale_consensus.Prelude.OrderedMap.{OrderedMap, contains, emplace}
use skale_consensus.Prelude.Decimal.{to_string, digits, stoull, read_digits}
use skale_consensus.Prelude.Results.{Result, ok}
use skale_consensus.Storage.LevelDb.{Key, same_key, same_key_refl, index_key, LevelDb}
use skale_consensus.Storage.Shards.{
  Shards, Written, Signers, leveldb_shards, new_shards, rotate_dbs_if_needed, drop_oldest,
  write_batch, write_to_containing, collect, read_string, key_exists, read_set, write_string_to_set,
}
use skale_consensus.Storage.Life.{value_of, is_living}
use skale_consensus.Storage.View.{Op, write, add, see_all}
use skale_consensus.Storage.Refine.{run, apply_op, nothing, run_refines}
use skale_consensus.Storage.Vectors.{add_da_proof}
use skale_consensus.Storage.Enough.{signers_of, add_da_proof-enough}
use skale_consensus.Proposals.BooleanVector.{
  BooleanProposalVector, of_proofs, has_proofs, count_true, after_first,
}
use skale_consensus.Storage.Complete.{reached, entry_count, write_string_to_set-completes}

abbrev pub Table : Type 0
Table = Key → Option (List ℕ)

abbrev pub put_table : Key → List ℕ → Table → Table
put_table k v d j = if same_key j k then some v else d j

pub get-put_table : (k : Key) (v : List ℕ) (d : Table) → put_table k v d k ≡ some v
get-put_table k v d = rw (same_key_refl k) refl

pub get-put_table_ne :
    (j k : Key) (v : List ℕ) (d : Table) → same_key j k ≡ false → put_table k v d j ≡ d j
get-put_table_ne j k v d e = rw e refl

abbrev pub tables : LevelDb
tables = record {
  Db = Table;
  empty = λ k. none;
  get = λ k d. d k;
  put = put_table;
  get-empty = λ k. refl;
  get-put = get-put_table;
  get-put_ne = get-put_table_ne;
}

abbrev three_of_four : Signers
three_of_four = record { total_signers = 4; required_signers = 3 }

-- Two entries of block 5, with a rotation between them.
abbrev two_entries : List Op
two_entries = add false (7 ∷ []) 5 2 ∷ add true (8 ∷ []) 5 4 ∷ []

abbrev writes : List Op
writes =
    write false (index_key 1 1) (9 ∷ []) false
    ∷ write true (index_key 1 1) (3 ∷ []) false
    ∷ two_entries

abbrev after_third : Written tables
after_third =
    write_string_to_set tables false three_of_four (6 ∷ []) 5 1
      ((run tables three_of_four two_entries (new_shards tables leveldb_shards)).0)

-- The third entry completes the set.
third_entry : after_third.returned ≡ ok (some ((1, 6 ∷ []) ∷ (2, 7 ∷ []) ∷ (4, 8 ∷ []) ∷ []))
unfolding write_string_to_set run apply_op rotate_dbs_if_needed drop_oldest new_shards key_exists
    read_string write_batch write_to_containing read_set collect same_bytes to_string digits stoull
    read_digits emplace
third_entry = refl

abbrev after_writes : Shards tables × List (Result (Option (OrderedMap (List ℕ))))
after_writes = run tables three_of_four writes (new_shards tables leveldb_shards)

run_refines_example :
    (after_writes.1 ≡ (see_all three_of_four writes (nothing tables)).1)
    × (read_string tables (index_key 1 1) (after_writes.0)
        ≡ value_of ((see_all three_of_four writes (nothing tables)).0 (index_key 1 1)))
    × (key_exists tables (index_key 1 1) (after_writes.0)
        ≡ is_living ((see_all three_of_four writes (nothing tables)).0 (index_key 1 1)))
run_refines_example = run_refines tables three_of_four writes (index_key 1 1)

absent : key_exists tables (index_key 5 1) (reached tables three_of_four two_entries false) ≡ false
unfolding write_string_to_set run apply_op rotate_dbs_if_needed drop_oldest new_shards key_exists
    read_string write_batch write_to_containing same_bytes to_string digits stoull read_digits
absent = refl

write_string_to_set_example :
    (entry_count tables 5 after_third.shards 1 4
      ≡ entry_count tables 5 (reached tables three_of_four two_entries false) 1 4 + 1)
    × (after_third.returned ≡ (
        if entry_count tables 5 (reached tables three_of_four two_entries false) 1 4 + 1 == 3
        then ok (some (read_set tables three_of_four 5 after_third.shards))
        else ok none))
    × (entry_count tables 5 (reached tables three_of_four two_entries false) 1 4 + 1 ≡ 3
        → length (read_set tables three_of_four 5 after_third.shards) ≡ 3)
write_string_to_set_example =
    (write_string_to_set-completes tables three_of_four two_entries false (6 ∷ []) 5 1 (omega arith)
        (refl, (refl, tt)) refl (omega arith) (omega arith)).1
      absent

abbrev before_third : Shards tables
before_third = (run tables three_of_four two_entries (new_shards tables leveldb_shards)).0

abbrev three_proofs : BooleanProposalVector
three_proofs = of_proofs {V = List ℕ} 4 ((1, 6 ∷ []) ∷ (2, 7 ∷ []) ∷ (4, 8 ∷ []) ∷ [])

third_proof :
    add_da_proof tables
      (signers_of 4)
      (write_string_to_set tables false (signers_of 4) (6 ∷ []) 5 1 before_third)
    ≡ ok (some three_proofs)
unfolding signers_of add_da_proof of_proofs has_proofs contains write_string_to_set run apply_op
    rotate_dbs_if_needed drop_oldest new_shards key_exists read_string write_batch
    write_to_containing read_set collect same_bytes to_string digits stoull read_digits emplace
third_proof = refl

add_da_proof-enough_example :
    let available = count_true (after_first three_proofs.proposals) in
    (available ≡ (signers_of 4).required_signers)
    × (available ≤ 4)
    × (4 ≤ 2 → available ≡ 4)
    × (2 < 4 → 2 * 4 < 3 * available)
add_da_proof-enough_example =
    add_da_proof-enough tables 4 false (6 ∷ []) 5 1 before_third three_proofs (omega arith)
      third_proof
