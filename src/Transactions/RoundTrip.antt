-- ===== src/Transactions/RoundTrip.antt =====
-- TransactionList::deserialize on what TransactionList::serialize writes.
use skale_consensus.Prelude.{
  ℕ, ◌+◌, ◌-◌, ◌%◌, ◌^◌, ◌≡◌, ◌≤◌, ◌<◌, Bool, true, false, some, List, [], ◌∷◌, ◌++◌, length,
  get_elem?, take, drop, ltb, leb, ◌==◌, if◌then◌else◌, u64, same_bytes, same_bytes_refl, refl, ap,
  sym, subst, arith, ◌∙◌, take-append, drop-append, length-append, length-take, append_assoc,
  get_elem?-append, lt→ltb,
}
use native.Mathlib.Nat.{mod-eq_of_lt}
use skale_consensus.Prelude.Results.{
  invalid_argument, invalid_state, parsing, ok, check, and_then, nest, check-true,
}
use skale_consensus.Transactions.Codec.{
  partial_hash_len, open_mark, close_mark, Transaction, Hasher, get_partial_hash,
  verified_transaction, new_transaction, get_serialized_size, serialize_into,
  deserialize_transaction, serialize_all, serialize, create_transaction_sizes_vector,
  read_transactions, all_positive, is_mark, read_list, deserialize,
}

module _ (H : Hasher) where
  pub length-get_partial_hash : (t : Transaction) → length (get_partial_hash H t) ≡ partial_hash_len
  unfolding get_partial_hash
  length-get_partial_hash t =
      length-take partial_hash_len (H.calculate_hash t.payload)
        (omega (arith, H.length-calculate_hash t.payload))

  verified_transaction-own :
      (t : Transaction)
      → 1 ≤ length t.payload
      → verified_transaction H t.payload (get_partial_hash H t) ≡ ok t
  verified_transaction-own t pos =
      check-true (same_bytes (get_partial_hash H t) (get_partial_hash H t)) invalid_argument _
        (same_bytes_refl (get_partial_hash H t))
      ∙ check-true (ltb 0 (length t.payload)) invalid_state (ok t) (lt→ltb 0 (length t.payload) pos)

  -- A transaction is what its bytes are read as.
  new_transaction-serialize_into :
      (f : Bool) (t : Transaction)
      → 1 ≤ length t.payload
      → new_transaction H (serialize_into H f t) f ≡ ok t
  unfolding new_transaction serialize_into
  new_transaction-serialize_into false t pos =
      check-true (ltb 0 (length t.payload)) invalid_argument (ok t) (lt→ltb 0 _ pos)
  new_transaction-serialize_into true t pos =
      check-true (ltb partial_hash_len (length bytes)) invalid_argument _
        (lt→ltb partial_hash_len (length bytes) (omega (arith, len, pos)))
      ∙ subst (λ n. verified_transaction H (take n bytes) (drop n bytes) ≡ ok t) split
          (ap (λ xs. verified_transaction H xs (drop (length t.payload) bytes))
              (take-append t.payload (get_partial_hash H t))
            ∙ ap (verified_transaction H t.payload) (drop-append t.payload (get_partial_hash H t))
            ∙ verified_transaction-own t pos)
    where
      bytes : List ℕ
      bytes = t.payload ++ get_partial_hash H t

      len : length bytes ≡ length t.payload + partial_hash_len
      len = omega (arith, length-append t.payload (get_partial_hash H t), length-get_partial_hash t)

      split : length t.payload ≡ length bytes - partial_hash_len
      split = omega (arith, len)

  slice : (xs ys zs : List ℕ) → take (length ys) (drop (length xs) (xs ++ (ys ++ zs))) ≡ ys
  slice xs ys zs = ap (take (length ys)) (drop-append xs (ys ++ zs)) ∙ take-append ys zs

  length-serialize_into :
      (f : Bool) (t : Transaction) → length t.payload ≤ length (serialize_into H f t)
  unfolding serialize_into
  length-serialize_into false t = omega arith
  length-serialize_into true t = omega (arith, length-append t.payload (get_partial_hash H t))

  deserialize_transaction-serialize_into :
      (f : Bool) (t : Transaction) (pre post : List ℕ)
      → 1 ≤ length t.payload
      → length (pre ++ (serialize_into H f t ++ post)) < 2 ^ 64
      → deserialize_transaction H
          (pre ++ (serialize_into H f t ++ post))
          (length pre)
          (length (serialize_into H f t))
          f
        ≡ ok t
  unfolding deserialize_transaction
  deserialize_transaction-serialize_into f t pre post pos fits =
      check-true (leb (u64 (length pre + length own)) (length bytes)) invalid_argument _
        (ground (arith, len, wrap))
      ∙ check-true (ltb 0 (length own)) invalid_argument _
          (lt→ltb 0 (length own) (omega (arith, pos, length-serialize_into f t)))
      ∙ ap (λ xs. new_transaction H xs f) (slice pre own post)
      ∙ new_transaction-serialize_into f t pos
    where
      own : List ℕ
      own = serialize_into H f t

      bytes : List ℕ
      bytes = pre ++ (own ++ post)

      len : length bytes ≡ length pre + (length own + length post)
      len = omega (arith, length-append pre (own ++ post), length-append own post)

      wrap : u64 (length pre + length own) ≡ length pre + length own
      wrap = mod-eq_of_lt (omega (arith, len, fits))

  abbrev pub AllNonEmpty : List Transaction → Type 0
  AllNonEmpty [] = Unit
  AllNonEmpty (t ∷ ts) = (1 ≤ length t.payload) × AllNonEmpty ts

  -- The sizes that createTransactionSizesVector lists.
  abbrev pub sizes : Bool → List Transaction → List ℕ
  sizes f [] = []
  sizes f (t ∷ ts) = length (serialize_into H f t) ∷ sizes f ts

  get_serialized_size-sizes :
      (f : Bool) (t : Transaction)
      → 1 ≤ length t.payload
      → get_serialized_size H f t ≡ ok (length (serialize_into H f t))
  unfolding get_serialized_size serialize_into
  get_serialized_size-sizes false t pos =
      check-true (ltb 0 (length t.payload)) invalid_state _ (lt→ltb 0 _ pos)
  get_serialized_size-sizes true t pos =
      check-true (ltb 0 (length t.payload)) invalid_state _ (lt→ltb 0 _ pos)
      ∙ ap ok
          (omega (arith, length-append t.payload (get_partial_hash H t), length-get_partial_hash t))

  -- The sizes of a list of transactions that are not empty are those of their bytes.
  pub create_transaction_sizes_vector_lem :
      (f : Bool) (ts : List Transaction)
      → AllNonEmpty ts
      → create_transaction_sizes_vector H f ts ≡ ok (sizes f ts)
  unfolding create_transaction_sizes_vector
  create_transaction_sizes_vector_lem f [] ne = refl
  create_transaction_sizes_vector_lem f (t ∷ ts) (pos, ne) =
      ap
        (λ r. and_then r (λ x.
          check (ltb 0 x) invalid_state
            (and_then (create_transaction_sizes_vector H f ts) (λ xs. ok (x ∷ xs)))))
        (get_serialized_size-sizes f t pos)
      ∙ check-true (ltb 0 (length (serialize_into H f t))) invalid_state _
          (lt→ltb 0 _ (omega (arith, pos, length-serialize_into f t)))
      ∙ ap (λ r. and_then r (λ xs. ok (length (serialize_into H f t) ∷ xs)))
          (create_transaction_sizes_vector_lem f ts ne)

  read_transactions-serialize_all :
      (f : Bool) (ts : List Transaction) (pre post bytes : List ℕ) (index : ℕ)
      → AllNonEmpty ts
      → bytes ≡ pre ++ (serialize_all H f ts ++ post)
      → index ≡ length pre
      → length bytes < 2 ^ 64
      → read_transactions H bytes index (sizes f ts) f ≡ ok ts
  unfolding read_transactions serialize_all
  read_transactions-serialize_all f [] pre post bytes index ne e i fits = refl
  read_transactions-serialize_all f (t ∷ ts) pre post bytes index (pos, ne) e i fits =
      check-true (ltb 0 (length own)) invalid_argument _
        (lt→ltb 0 _ (omega (arith, pos, length-serialize_into f t)))
      ∙ ap
          (λ r. and_then (nest parsing r) (λ u.
            and_then (read_transactions H bytes (index + length own) (sizes f ts) f)
              (λ us. ok (u ∷ us))))
          head_read
      ∙ ap (λ r. and_then r (λ us. ok (t ∷ us)))
          (read_transactions-serialize_all f ts (pre ++ own) post bytes (index + length own) ne
            (here ∙ sym (append_assoc pre own (serialize_all H f ts ++ post)))
            (omega (arith, i, length-append pre own)) fits)
    where
      own : List ℕ
      own = serialize_into H f t

      here : bytes ≡ pre ++ (own ++ (serialize_all H f ts ++ post))
      here = e ∙ ap (λ l. pre ++ l) (append_assoc own (serialize_all H f ts) post)

      head_read : deserialize_transaction H bytes index (length own) f ≡ ok t
      head_read =
          ap (λ k. deserialize_transaction H bytes k (length own) f) i
          ∙ subst (λ bs. deserialize_transaction H bs (length pre) (length own) f ≡ ok t) (sym here)
              (deserialize_transaction-serialize_into f t pre (serialize_all H f ts ++ post) pos
                (subst (λ bs. length bs < 2 ^ 64) here fits))

  sizes-all_positive :
      (f : Bool) (ts : List Transaction) → AllNonEmpty ts → all_positive H (sizes f ts) ≡ true
  unfolding all_positive
  sizes-all_positive f [] ne = refl
  sizes-all_positive f (t ∷ ts) (pos, ne) =
      ground (arith, length-serialize_into f t, sizes-all_positive f ts ne)

  read_list-serialize_all :
      (f : Bool) (ts : List Transaction) (bytes : List ℕ) (offset : ℕ)
      → AllNonEmpty ts
      → length bytes ≡ offset + (2 + length (serialize_all H f ts))
      → read_transactions H bytes ((offset + 1) % 2 ^ 32) (sizes f ts) f ≡ ok ts
      → read_list H (sizes f ts) bytes offset f ≡ ok ts
  unfolding serialize_all serialize_into
  read_list-serialize_all f [] bytes offset ne len r =
      check-true (length bytes - offset == 2) invalid_argument (ok []) (ground (arith, len))
  read_list-serialize_all f (t ∷ ts) bytes offset (pos, ne) len r =
      check-true (all_positive H (sizes f (t ∷ ts))) invalid_argument _
        (sizes-all_positive f (t ∷ ts) (pos, ne))
      ∙ check-true (ltb (if f then partial_hash_len + 2 else 2) (length bytes - offset))
          invalid_argument _ (long_enough f pos len)
      ∙ r
    where
      long_enough :
          (g : Bool)
          → 1 ≤ length t.payload
          → length bytes ≡ offset + (2 + length (serialize_into H g t ++ serialize_all H g ts))
          → ltb (if g then partial_hash_len + 2 else 2) (length bytes - offset) ≡ true
      long_enough false p l = ground (arith, l, length-append t.payload (serialize_all H false ts))
      long_enough true p l = ground (
        arith,
        l,
        length-append (t.payload ++ get_partial_hash H t) (serialize_all H true ts),
        length-append t.payload (get_partial_hash H t),
        length-get_partial_hash t,
      )

  -- What serialize writes, deserialize reads back, wherever the list starts in the bytes, with
  -- and without partial hashes, with the sizes of createTransactionSizesVector; no transaction is
  -- empty and the bytes are fewer than 2^32.
  pub deserialize-serialize :
      (f : Bool) (ts : List Transaction) (pre : List ℕ)
      → AllNonEmpty ts
      → length (pre ++ serialize H f ts) < 2 ^ 32
      → and_then
          (create_transaction_sizes_vector H f ts)
          (λ xs. deserialize H xs (pre ++ serialize H f ts) (length pre) f)
        ≡ ok ts
  unfolding deserialize serialize
  deserialize-serialize f ts pre ne fits =
      ap (λ r. and_then r (λ xs. deserialize H xs bytes (length pre) f))
        (create_transaction_sizes_vector_lem f ts ne)
      ∙ ap
          (λ r. and_then r (λ _.
            and_then (is_mark H close_mark (get_elem? bytes (length bytes - 1)))
              (λ _. read_list H (sizes f ts) bytes (length pre) f)))
          (ap (is_mark H open_mark) (get_elem?-append pre (all ++ close_mark ∷ []) open_mark))
      ∙ ap (λ r. and_then r (λ _. read_list H (sizes f ts) bytes (length pre) f))
          (ap (is_mark H close_mark) last_mark)
      ∙ read_list-serialize_all f ts bytes (length pre) ne (omega (arith, len)) (
          read_transactions-serialize_all f ts (pre ++ open_mark ∷ []) (close_mark ∷ []) bytes
            ((length pre + 1) % 2 ^ 32) ne
            (sym (append_assoc pre (open_mark ∷ []) (all ++ close_mark ∷ [])))
            (start ∙ sym (length-append pre (open_mark ∷ []))) (omega (arith, fits)))
    where
      all : List ℕ
      all = serialize_all H f ts

      bytes : List ℕ
      bytes = pre ++ open_mark ∷ (all ++ close_mark ∷ [])

      len : length bytes ≡ length pre + (2 + length all)
      len = omega (
        arith,
        length-append pre (open_mark ∷ (all ++ close_mark ∷ [])),
        length-append all (close_mark ∷ []),
      )

      start : (length pre + 1) % 2 ^ 32 ≡ length pre + 1
      start = mod-eq_of_lt (omega (arith, len, fits))

      end_at : length (pre ++ open_mark ∷ all) ≡ length bytes - 1
      end_at = omega (arith, len, length-append pre (open_mark ∷ all))

      last_mark : get_elem? bytes (length bytes - 1) ≡ some close_mark
      last_mark =
          subst (λ k. get_elem? bytes k ≡ some close_mark) end_at
            (subst (λ bs. get_elem? bs (length (pre ++ open_mark ∷ all)) ≡ some close_mark)
              (append_assoc pre (open_mark ∷ all) (close_mark ∷ []))
              (get_elem?-append (pre ++ open_mark ∷ all) [] close_mark))
