-- ===== src/Transactions/Canonical.antt =====
-- What TransactionList::deserialize returns, against the bytes that it was given.
use skale_consensus.Prelude.{
  ℕ, ◌+◌, ◌-◌, ◌%◌, ◌^◌, ◌≡◌, ◌<◌, Bool, true, false, List, [], ◌∷◌, ◌++◌, length, get_elem?, take,
  drop, same_bytes→≡, refl, ap, sym, subst, ◌∙◌, take-drop, drop-drop, take-take-drop,
}
use native.Mathlib.Nat.{mod-eq_of_lt}
use skale_consensus.Prelude.Results.{
  invalid_argument, invalid_state, parsing, ok, and_then, check-ok, and_then-ok, nest-ok,
  ok_injective,
}
use skale_consensus.Transactions.Codec.{
  partial_hash_len, open_mark, close_mark, Transaction, Hasher, transaction, verified_transaction,
  new_transaction, serialize_into, deserialize_transaction, serialize_all, read_transactions,
  is_mark, read_list, deserialize,
}

-- The bytes that a list of sizes claims.
abbrev pub total : List ℕ → ℕ
total [] = 0
total (x ∷ xs) = x + total xs

module _ (H : Hasher) where
  verified_transaction-ok :
      (payload incoming : List ℕ) (t : Transaction)
      → verified_transaction H payload incoming ≡ ok t
      → serialize_into H true t ≡ payload ++ incoming
  unfolding serialize_into
  verified_transaction-ok payload incoming t p =
      let (same, q) = check-ok _ invalid_argument _ p in
      let (pos, r) = check-ok _ invalid_state _ q in
      subst (λ u. serialize_into H true u ≡ payload ++ incoming)
        (ok_injective (transaction H payload) t r)
        (ap (λ l. payload ++ l) (same_bytes→≡ _ incoming same))

  new_transaction-ok :
      (f : Bool) (bytes : List ℕ) (t : Transaction)
      → new_transaction H bytes f ≡ ok t
      → serialize_into H f t ≡ bytes
  unfolding new_transaction serialize_into
  new_transaction-ok true bytes t p =
      verified_transaction-ok _ _ t (check-ok _ invalid_argument _ p).1
      ∙ take-drop (length bytes - partial_hash_len) bytes
  new_transaction-ok false bytes t p =
      ap (λ u. u.payload)
        (sym (ok_injective (transaction H bytes) t (check-ok _ invalid_argument _ p).1))

  deserialize_transaction-ok :
      (f : Bool) (bytes : List ℕ) (start len : ℕ) (t : Transaction)
      → deserialize_transaction H bytes start len f ≡ ok t
      → serialize_into H f t ≡ take len (drop start bytes)
  unfolding deserialize_transaction
  deserialize_transaction-ok f bytes start len t p =
      let (fits, q) = check-ok _ invalid_argument _ p in
      new_transaction-ok f _ t (check-ok _ invalid_argument _ q).1

  -- Transactions that the loop has read are written back as the bytes that they were read from:
  -- nothing else is read as they are.
  pub read_transactions-ok :
      (f : Bool) (bytes : List ℕ) (index : ℕ) (xs : List ℕ) (ts : List Transaction)
      → read_transactions H bytes index xs f ≡ ok ts
      → serialize_all H f ts ≡ take (total xs) (drop index bytes)
  unfolding read_transactions serialize_all
  read_transactions-ok f bytes index [] ts p =
      subst (λ us. serialize_all H f us ≡ []) (ok_injective [] ts p) refl
  read_transactions-ok f bytes index (x ∷ xs) ts p =
      let (pos, q) = check-ok _ invalid_argument _ p in
      let (t, head_read, r) = and_then-ok _ _ q in
      let (us, tail_read, e) = and_then-ok _ _ r in
      subst (λ vs. serialize_all H f vs ≡ take (x + total xs) (drop index bytes))
        (ok_injective (t ∷ us) ts e)
        (ap (λ l. l ++ serialize_all H f us)
            (deserialize_transaction-ok f bytes index x t (nest-ok parsing _ head_read))
          ∙ ap (λ l. take x (drop index bytes) ++ l)
              (read_transactions-ok f bytes (index + x) xs us tail_read
                ∙ ap (take (total xs)) (sym (drop-drop x index (index + x) bytes refl)))
          ∙ sym (take-take-drop x (total xs) (x + total xs) (drop index bytes) refl))

  -- A list that deserialize returns, from an offset below 2^32 - 1, is written back as exactly the
  -- bytes that the sizes claim after the mark at the offset.
  pub deserialize-ok :
      (f : Bool) (xs bytes : List ℕ) (offset : ℕ) (ts : List Transaction)
      → offset + 1 < 2 ^ 32
      → deserialize H xs bytes offset f ≡ ok ts
      → serialize_all H f ts ≡ take (total xs) (drop (offset + 1) bytes)
  unfolding deserialize serialize_all
  deserialize-ok f xs bytes offset ts fits p =
      let (_, _, q) =
        and_then-ok (is_mark H open_mark (get_elem? bytes offset))
          (λ _.
            and_then (is_mark H close_mark (get_elem? bytes (length bytes - 1)))
              (λ _. read_list H xs bytes offset f))
          p in
      let (_, _, r) =
        and_then-ok (is_mark H close_mark (get_elem? bytes (length bytes - 1)))
          (λ _. read_list H xs bytes offset f) q in
      read xs r
    where
      start : (offset + 1) % 2 ^ 32 ≡ offset + 1
      start = mod-eq_of_lt fits

      read :
          (ys : List ℕ)
          → read_list H ys bytes offset f ≡ ok ts
          → serialize_all H f ts ≡ take (total ys) (drop (offset + 1) bytes)
      read [] e =
          subst (λ us. serialize_all H f us ≡ [])
            (ok_injective [] ts (check-ok _ invalid_argument _ e).1) refl
      read (y ∷ ys) e =
          subst (λ k. serialize_all H f ts ≡ take (total (y ∷ ys)) (drop k bytes)) start
            (read_transactions-ok f bytes ((offset + 1) % 2 ^ 32) (y ∷ ys) ts
              (check-ok _ invalid_argument _ (check-ok _ invalid_argument _ e).1).1)
