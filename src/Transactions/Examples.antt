-- ===== src/Transactions/Examples.antt =====
-- Transactions at concrete bytes, with a hash that adds the bytes up.
use skale_consensus.Prelude.{
  ℕ, zero, suc, ◌+◌, ◌*◌, ◌≡◌, List, [], ◌∷◌, length, true, false, refl, arith, same_bytes,
}
use skale_consensus.Prelude.Results.{ok, throw, and_then, invalid_argument}
use skale_consensus.Transactions.Codec.{
  Transaction, Hasher, get_partial_hash, new_transaction, serialize_into, deserialize_transaction,
  serialize_all, serialize, create_transaction_sizes_vector, read_transactions, all_positive,
  deserialize,
}
use skale_consensus.Transactions.RoundTrip.{deserialize-serialize}
use skale_consensus.Transactions.Canonical.{deserialize-ok}
use skale_consensus.Transactions.Merkle.{
  calculate_top_merkle_root, merge_levels, next_level, calculate_top_merkle_root-ok,
  calculate_top_merkle_root-leaves,
}

abbrev sum : List ℕ → ℕ
sum [] = 0
sum (x ∷ xs) = x + sum xs

abbrev copies : ℕ → ℕ → List ℕ
copies zero x = []
copies (suc n) x = x ∷ copies n x

length-copies : (n x : ℕ) → length (copies n x) ≡ n
length-copies zero x = refl
length-copies (suc n) x = omega (arith, length-copies n x)

abbrev sum_hasher : Hasher
sum_hasher = record {
  calculate_hash = λ bytes. copies 32 (sum bytes);
  length-calculate_hash = λ bytes. length-copies 32 (sum bytes);
}

abbrev two : List Transaction
two = record { payload = 1 ∷ 2 ∷ [] } ∷ record { payload = 7 ∷ [] } ∷ []

deserialize-serialize_example :
    and_then
      (create_transaction_sizes_vector sum_hasher true two)
      (λ xs. deserialize sum_hasher xs (9 ∷ 9 ∷ serialize sum_hasher true two) 2 true)
    ≡ ok two
unfolding serialize serialize_all serialize_into get_partial_hash
deserialize-serialize_example =
    deserialize-serialize sum_hasher true two (9 ∷ 9 ∷ []) (omega arith, (omega arith, tt))
      (omega arith)

read_two : deserialize sum_hasher (2 ∷ 1 ∷ []) (60 ∷ 1 ∷ 2 ∷ 7 ∷ 62 ∷ []) 0 false ≡ ok two
unfolding deserialize read_transactions all_positive deserialize_transaction new_transaction
read_two = refl

-- A wrong partial hash is refused.
wrong_hash :
    new_transaction sum_hasher (5 ∷ 5 ∷ 5 ∷ 5 ∷ 5 ∷ 5 ∷ 5 ∷ 5 ∷ 6 ∷ []) true
    ≡ throw invalid_argument
unfolding new_transaction get_partial_hash same_bytes
wrong_hash = refl

deserialize-ok_example : serialize_all sum_hasher false two ≡ 1 ∷ 2 ∷ 7 ∷ []
deserialize-ok_example =
    deserialize-ok sum_hasher false (2 ∷ 1 ∷ []) (60 ∷ 1 ∷ 2 ∷ 7 ∷ 62 ∷ []) 0 two (omega arith)
      read_two

-- A merge that tells its places apart.
abbrev merge_numbers : ℕ → ℕ → ℕ
merge_numbers x y = 10 * x + y

three_hashes : calculate_top_merkle_root merge_numbers (1 ∷ 2 ∷ 3 ∷ []) ≡ ok 153
unfolding calculate_top_merkle_root merge_levels next_level
three_hashes = refl

merkle_root-ok_example :
    (root : ℕ) × (calculate_top_merkle_root merge_numbers (1 ∷ 2 ∷ 3 ∷ []) ≡ ok root)
merkle_root-ok_example = calculate_top_merkle_root-ok merge_numbers (1 ∷ 2 ∷ 3 ∷ []) (omega arith)

merkle_root-leaves_example : calculate_top_merkle_root merge_numbers (1 ∷ 2 ∷ 3 ∷ 4 ∷ []) ≡ ok 154
merkle_root-leaves_example = calculate_top_merkle_root-leaves merge_numbers 2 ((1, 2), (3, 4))
