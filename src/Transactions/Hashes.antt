-- ===== src/Transactions/Hashes.antt =====
-- createPartialHashesList of BlockProposal and PartialHashesList: the partial hashes of a proposal's
-- transactions in one run of bytes.
use skale_consensus.Prelude.{
  ℕ, zero, suc, ◌+◌, ◌*◌, ◌≡◌, ◌<◌, some, List, [], ◌∷◌, ◌++◌, length, get_elem?, take, drop, ltb,
  leb, refl, ap, sym, subst, arith, ◌∙◌, take-append, drop-append, length-append, drop-drop,
}
use skale_consensus.Prelude.Results.{network_protocol, out_of_range, Result, ok, check, check-true}
use skale_consensus.Transactions.Codec.{partial_hash_len, Transaction, Hasher, get_partial_hash}
use skale_consensus.Transactions.RoundTrip.{length-get_partial_hash}

-- PartialHashesList
pub record PartialHashesList : Type 0 where
  pub transaction_count : ℕ
  pub partial_hashes : List ℕ

module _ (H : Hasher) where
  abbrev pub all_hashes : List Transaction → List ℕ
  all_hashes [] = []
  all_hashes (t ∷ ts) = get_partial_hash H t ++ all_hashes ts

  unfoldable pub create_partial_hashes_list : List Transaction → PartialHashesList
  create_partial_hashes_list ts = record {
    transaction_count = length ts;
    partial_hashes = all_hashes ts;
  }

  -- getPartialHash
  unfoldable pub nth_partial_hash : ℕ → PartialHashesList → Result (List ℕ)
  nth_partial_hash i l = check (ltb i l.transaction_count) network_protocol (
      check (leb (partial_hash_len * i + partial_hash_len) (length l.partial_hashes)) out_of_range
        (ok (take partial_hash_len (drop (partial_hash_len * i) l.partial_hashes))))

  length-all_hashes :
      (ts : List Transaction) → length (all_hashes ts) ≡ partial_hash_len * length ts
  length-all_hashes [] = refl
  length-all_hashes (t ∷ ts) = omega (
    arith,
    length-append (get_partial_hash H t) (all_hashes ts),
    length-get_partial_hash H t,
    length-all_hashes ts,
  )

  get_elem?-length :
      (ts : List Transaction) (i : ℕ) {t : Transaction} → get_elem? ts i ≡ some t → i < length ts
  get_elem?-length [] i p = cc
  get_elem?-length (u ∷ ts) zero p = omega arith
  get_elem?-length (u ∷ ts) (suc i) p = omega (arith, get_elem?-length ts i p)

  nth_of_all :
      (ts : List Transaction) (i : ℕ) (t : Transaction)
      → get_elem? ts i ≡ some t
      → take partial_hash_len (drop (partial_hash_len * i) (all_hashes ts)) ≡ get_partial_hash H t
  nth_of_all [] i t p = cc
  nth_of_all (u ∷ ts) zero t p =
      subst (λ n. take n (all_hashes (u ∷ ts)) ≡ get_partial_hash H t) (length-get_partial_hash H u)
        (take-append (get_partial_hash H u) (all_hashes ts) ∙ ap (get_partial_hash H) same)
    where
      same : u ≡ t
      same = cc
  nth_of_all (u ∷ ts) (suc i) t p =
      ap (take partial_hash_len) (
        sym
          (drop-drop (partial_hash_len * i) partial_hash_len _ (all_hashes (u ∷ ts)) (omega arith))
        ∙ ap (drop (partial_hash_len * i)) tail_left)
      ∙ nth_of_all ts i t p
    where
      tail_left : drop partial_hash_len (all_hashes (u ∷ ts)) ≡ all_hashes ts
      tail_left =
          subst (λ n. drop n (all_hashes (u ∷ ts)) ≡ all_hashes ts) (length-get_partial_hash H u)
            (drop-append (get_partial_hash H u) (all_hashes ts))

  -- The hash that a list gives for an index is that of the transaction at the index.
  pub nth_partial_hash-create_partial_hashes_list :
      (ts : List Transaction) (i : ℕ) (t : Transaction)
      → get_elem? ts i ≡ some t
      → nth_partial_hash i (create_partial_hashes_list ts) ≡ ok (get_partial_hash H t)
  unfolding nth_partial_hash create_partial_hashes_list
  nth_partial_hash-create_partial_hashes_list ts i t p =
      check-true (ltb i (length ts)) network_protocol _ (ground (arith, get_elem?-length ts i p))
      ∙ check-true _ out_of_range _ (ground (arith, get_elem?-length ts i p, length-all_hashes ts))
      ∙ ap ok (nth_of_all ts i t p)
