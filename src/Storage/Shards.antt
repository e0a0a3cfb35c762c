-- ===== src/Storage/Shards.antt =====
-- CacheLevelDB: a few LevelDBs of which the newest is written, and the oldest dropped when the newest
-- has become too large.
use skale_consensus.Prelude.{
  ℕ, zero, suc, ◌+◌, Bool, true, false, Option, none, some, List, [], ◌∷◌, length, ltb, leb, ◌==◌,
  ◌&&◌, if◌then◌else◌,
}
use skale_consensus.Prelude.OrderedMap.{OrderedMap, emplace}
use skale_consensus.Prelude.Results.{Result, ok, throw, check, invalid_argument, invalid_state}
use skale_consensus.Prelude.Decimal.{to_string, stoull}
use skale_consensus.Storage.LevelDb.{Key, index_key, counter_key, LevelDb}

-- LEVELDB_SHARDS
abbrev pub leveldb_shards : ℕ
leveldb_shards = 4

-- What the constructor reads of the chain.
pub record Signers : Type 0 where
  pub total_signers : ℕ
  pub required_signers : ℕ

abbrev pub value_or_next : Option (List ℕ) → List ℕ → List ℕ
value_or_next none next = next
value_or_next (some v) next = v

abbrev pub is_found : Option (List ℕ) → Bool
is_found none = false
is_found (some v) = true

-- The count of a set, from what stands at its counter key; `none` is text that is no number. Blanks, a
-- sign or other text around the digits, which the source would pass over, are never written there.
abbrev pub count_of : Bool → List ℕ → Option ℕ
count_of false text = some 0
count_of true text = stoull text

abbrev pub is_empty_text : List ℕ → Bool
is_empty_text [] = true
is_empty_text (c ∷ cs) = false

abbrev pub count_or_zero : Option ℕ → ℕ → ℕ
count_or_zero none most = 0
count_or_zero (some n) most = if leb n most then n else 0

module _ (L : LevelDb) where
  open L use {Db, get, put, empty}

  -- The open databases, the newest first: the source keeps them the other way round, and goes over
  -- them from the end.
  abbrev pub Shards : Type 0
  Shards = List Db

  -- The constructor of a new directory.
  unfoldable pub new_shards : ℕ → Shards
  new_shards zero = []
  new_shards (suc k) = empty ∷ new_shards k

  -- readStringUnsafe: the newest value, or the empty string.
  unfoldable pub read_string : Key → Shards → List ℕ
  read_string k [] = []
  read_string k (d ∷ ds) = value_or_next (get k d) (read_string k ds)

  -- keyExistsUnsafe
  unfoldable pub key_exists : Key → Shards → Bool
  key_exists k [] = false
  key_exists k (d ∷ ds) = if is_found (get k d) then true else key_exists k ds

  unfoldable pub drop_oldest : Shards → Shards
  drop_oldest [] = []
  drop_oldest (d ∷ []) = []
  drop_oldest (d ∷ e ∷ ds) = d ∷ drop_oldest (e ∷ ds)

  -- rotateDBsIfNeeded, with whether the newest database is too large. The directories that are out of
  -- the window are removed.
  unfoldable pub rotate_dbs_if_needed : Bool → Shards → Shards
  rotate_dbs_if_needed too_large ds = if too_large then empty ∷ drop_oldest ds else ds

  abbrev pub put_newest : Key → List ℕ → Shards → Shards
  put_newest k v [] = []
  put_newest k v (d ∷ ds) = put k v d ∷ ds

  -- writeString
  unfoldable pub write_string : Bool → Key → List ℕ → Bool → Shards → Shards
  write_string too_large k v overwrite ds =
      let rotated = rotate_dbs_if_needed too_large ds in
      if overwrite
      then put_newest k v rotated
      else if key_exists k rotated
      then rotated
      else put_newest k v rotated

  -- The two forms of writeByteArray: the first leaves an old entry alone, the second does not look.
  unfoldable pub write_byte_array : Bool → Key → List ℕ → Shards → Shards
  write_byte_array too_large k v ds = write_string too_large k v false ds

  unfoldable pub overwrite_byte_array : Bool → Key → List ℕ → Shards → Shards
  overwrite_byte_array too_large k v ds = write_string too_large k v true ds

  -- The write of a batch to the newest database that holds the key `c`.
  unfoldable pub write_to_containing : Key → (Db → Db) → Shards → Shards
  write_to_containing c batch [] = []
  write_to_containing c batch (d ∷ ds) =
      let rest = write_to_containing c batch ds in
      if is_found (get c d) then batch d ∷ ds else d ∷ rest

  abbrev pub write_to_newest : (Db → Db) → Shards → Shards
  write_to_newest batch [] = []
  write_to_newest batch (d ∷ ds) = batch d ∷ ds

  unfoldable pub write_batch : Key → (Db → Db) → Shards → Shards
  write_batch c batch ds =
      if key_exists c ds then write_to_containing c batch ds else write_to_newest batch ds

  -- The loop that collects a set from the index `i` on, until it has enough.
  unfoldable pub collect : Signers → ℕ → Shards → ℕ → ℕ → OrderedMap (List ℕ) → OrderedMap (List ℕ)
  collect g b ds i zero enough_set = enough_set
  collect g b ds i (suc k) enough_set =
      let entry = read_string (index_key b i) ds in
      let added = if is_empty_text entry then enough_set else emplace i entry enough_set in
      let rest = collect g b ds (i + 1) k added in
      if length added == g.required_signers then added else rest

  -- readSetUnsafe
  unfoldable pub read_set : Signers → ℕ → Shards → OrderedMap (List ℕ)
  read_set g b ds = collect g b ds 1 g.total_signers []

  -- readCount
  unfoldable pub read_count : Signers → ℕ → Shards → ℕ
  read_count g b ds =
      let text = read_string (counter_key b) ds in
      if is_empty_text text then 0 else count_or_zero (stoull text) g.total_signers

  unfoldable pub is_enough : Signers → ℕ → Shards → Bool
  is_enough g b ds = leb g.required_signers (read_count g b ds)

  -- The set that a write completes, if it is the one that makes it large enough.
  abbrev pub complete_set : Signers → ℕ → Shards → Bool → Result (Option (OrderedMap (List ℕ)))
  complete_set g b ds false = ok none
  complete_set g b ds true =
      check (length (read_set g b ds) == g.required_signers) invalid_state
        (ok (some (read_set g b ds)))

  pub record Written : Type 0 where
    pub shards : Shards
    pub returned : Result (Option (OrderedMap (List ℕ)))

  -- writeByteArrayToSetUnsafe after its check for a duplicate, with the count so far.
  abbrev pub count_entry : Signers → List ℕ → ℕ → ℕ → Shards → Option ℕ → Written
  count_entry g v b i ds none = record { shards = ds; returned = ok none }
  count_entry g v b i ds (some n) =
      let batch : Db → Db =
        λ d. put (index_key b i) v (put (counter_key b) (to_string (n + 1)) d) in
      let written = write_batch (counter_key b) batch ds in
      record { shards = written; returned = complete_set g b written (n + 1 == g.required_signers) }

  abbrev pub add_entry : Signers → List ℕ → ℕ → ℕ → Shards → Written
  add_entry g v b i ds =
      if ltb 0 i && leb i g.total_signers
      then (if key_exists (index_key b i) ds
          then record { shards = ds; returned = ok none }
          else count_entry g v b i ds
              (count_of (key_exists (counter_key b) ds) (read_string (counter_key b) ds)))
      else record { shards = ds; returned = throw invalid_argument }

  -- writeStringToSet: the set when it has just become large enough.
  unfoldable pub write_string_to_set : Bool → Signers → List ℕ → ℕ → ℕ → Shards → Written
  write_string_to_set too_large g v b i ds = add_entry g v b i (rotate_dbs_if_needed too_large ds)
