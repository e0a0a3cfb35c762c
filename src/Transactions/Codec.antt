-- ===== src/Transactions/Codec.antt =====
-- Transaction and TransactionList: what they are made of, and how they are written and read.
use skale_consensus.Prelude.{
  ℕ, ◌+◌, ◌-◌, ◌%◌, ◌^◌, ◌≡◌, Bool, true, false, Option, none, some, List, [], ◌∷◌, ◌++◌, length,
  get_elem?, take, drop, ltb, leb, ◌==◌, if◌then◌else◌, u64, same_bytes,
}
use skale_consensus.Prelude.Results.{
  invalid_argument, invalid_state, parsing, out_of_range, Result, ok, throw, check, and_then, nest,
}

-- PARTIAL_HASH_LEN
abbrev pub partial_hash_len : ℕ
partial_hash_len = 8

-- The ends of a serialized list.
abbrev pub open_mark : ℕ
open_mark = 60

abbrev pub close_mark : ℕ
close_mark = 62

-- A transaction is its bytes (the field `data` of the source): the hashes are computed from them when they are asked for.
pub record Transaction : Type 0 where
  pub payload : List ℕ

-- BLAKE3Hash::calculateHash: a parameter, of which the code relies on the number of bytes.
pub record Hasher : Type 0 where
  pub calculate_hash : List ℕ → List ℕ
  pub length-calculate_hash : (bytes : List ℕ) → length (calculate_hash bytes) ≡ 32

module _ (H : Hasher) where
  open H use {calculate_hash}

  unfoldable pub get_partial_hash : Transaction → List ℕ
  get_partial_hash t = take partial_hash_len (calculate_hash t.payload)

  abbrev pub transaction : List ℕ → Transaction
  transaction bytes = record { payload = bytes }

  -- A transaction of so many bytes, with the hash that came with them.
  abbrev pub verified_transaction : List ℕ → List ℕ → Result Transaction
  verified_transaction bytes incoming_hash =
      check (same_bytes (get_partial_hash (transaction bytes)) incoming_hash) invalid_argument
        (check (ltb 0 (length bytes)) invalid_state (ok (transaction bytes)))

  -- The constructor, from the bytes that were received.
  unfoldable pub new_transaction : List ℕ → Bool → Result Transaction
  new_transaction bytes includes_partial_hash =
      let n = length bytes - partial_hash_len in
      if includes_partial_hash
      then check (ltb partial_hash_len (length bytes)) invalid_argument
          (verified_transaction (take n bytes) (drop n bytes))
      else check (ltb 0 (length bytes)) invalid_argument (ok (transaction bytes))

  unfoldable pub get_serialized_size : Bool → Transaction → Result ℕ
  get_serialized_size write_partial_hash t =
      check (ltb 0 (length t.payload)) invalid_state
        (ok (if write_partial_hash then length t.payload + partial_hash_len else length t.payload))

  -- serializeInto, the bytes that it appends.
  unfoldable pub serialize_into : Bool → Transaction → List ℕ
  serialize_into write_partial_hash t =
      if write_partial_hash then t.payload ++ get_partial_hash t else t.payload

  -- Transaction::deserialize
  unfoldable pub deserialize_transaction : List ℕ → ℕ → ℕ → Bool → Result Transaction
  deserialize_transaction bytes start len verify_partial_hashes =
      check (leb (u64 (start + len)) (length bytes)) invalid_argument (
        check (ltb 0 len) invalid_argument
          (new_transaction (take len (drop start bytes)) verify_partial_hashes))

  -- TransactionList::serialize, when the list has no bytes in its cache yet.
  unfoldable pub serialize_all : Bool → List Transaction → List ℕ
  serialize_all f [] = []
  serialize_all f (t ∷ ts) = serialize_into f t ++ serialize_all f ts

  unfoldable pub serialize : Bool → List Transaction → List ℕ
  serialize f ts = open_mark ∷ serialize_all f ts ++ close_mark ∷ []

  -- A list keeps the bytes that it was first asked for, whatever it is asked for later.
  pub record TransactionList : Type 0 where
    pub transactions : List Transaction
    pub serialized_transactions : Option (List ℕ)

  abbrev pub cached_or : Option (List ℕ) → List ℕ → List ℕ
  cached_or none bytes = bytes
  cached_or (some old) bytes = old

  unfoldable pub serialize_list : Bool → TransactionList → List ℕ × TransactionList
  serialize_list f l =
      let bytes = cached_or l.serialized_transactions (serialize f l.transactions) in
      (bytes, record l { serialized_transactions = some bytes })

  -- createTransactionSizesVector
  unfoldable pub create_transaction_sizes_vector : Bool → List Transaction → Result (List ℕ)
  create_transaction_sizes_vector f [] = ok []
  create_transaction_sizes_vector f (t ∷ ts) = and_then (get_serialized_size f t) (λ x.
      check (ltb 0 x) invalid_state
        (and_then (create_transaction_sizes_vector f ts) (λ xs. ok (x ∷ xs))))

  -- The loop of the constructor that reads, with an index that stays below 2^64.
  unfoldable pub read_transactions : List ℕ → ℕ → List ℕ → Bool → Result (List Transaction)
  read_transactions bytes index [] f = ok []
  read_transactions bytes index (size ∷ sizes) f = check (ltb 0 size) invalid_argument (
      and_then (nest parsing (deserialize_transaction bytes index size f))
        (λ t. and_then (read_transactions bytes (index + size) sizes f) (λ ts. ok (t ∷ ts))))

  unfoldable pub all_positive : List ℕ → Bool
  all_positive [] = true
  all_positive (x ∷ xs) = if ltb 0 x then all_positive xs else false

  -- `at` is a bound-checked access.
  abbrev pub is_mark : ℕ → Option ℕ → Result Bool
  is_mark mark none = throw out_of_range
  is_mark mark (some c) = check (c == mark) invalid_argument (ok true)

  -- After the marks: without sizes there is no transaction.
  abbrev pub read_list : List ℕ → List ℕ → ℕ → Bool → Result (List Transaction)
  read_list [] bytes offset f = check (length bytes - offset == 2) invalid_argument (ok [])
  read_list (x ∷ xs) bytes offset f = check (all_positive (x ∷ xs)) invalid_argument (
      check (ltb (if f then partial_hash_len + 2 else 2) (length bytes - offset)) invalid_argument
        (read_transactions bytes ((offset + 1) % 2 ^ 32) (x ∷ xs) f))

  -- TransactionList::deserialize: the list of sizes, the bytes and where the list starts in them.
  unfoldable pub deserialize : List ℕ → List ℕ → ℕ → Bool → Result (List Transaction)
  deserialize sizes bytes offset f = and_then (is_mark open_mark (get_elem? bytes offset)) (λ _.
      and_then (is_mark close_mark (get_elem? bytes (length bytes - 1)))
        (λ _. read_list sizes bytes offset f))
