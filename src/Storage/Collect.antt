-- ===== src/Storage/Collect.antt =====
-- The loop of readSetUnsafe and writeByteArrayToSetUnsafe that collects the entries of a set.
use skale_consensus.Prelude.{
  ℕ, zero, suc, ◌+◌, ◌≡◌, ◌≤◌, ◌<◌, List, [], ◌∷◌, ◌++◌, length, take, refl, sym, ap, ◌∙◌, arith,
  Bool-cases, inl, inr, append_assoc, append-[], length-append,
}
use skale_consensus.Prelude.OrderedMap.{OrderedMap, emplace}
use skale_consensus.Storage.LevelDb.{index_key, LevelDb}
use skale_consensus.Storage.Shards.{Shards, Signers, collect, read_set, read_string, is_empty_text}
use skale_consensus.Storage.Life.{locate, read_string-locate}
use skale_consensus.Storage.View.{entries, set_at}

-- Every key is below `i`.
abbrev Below : ℕ → OrderedMap (List ℕ) → Type 0
Below i [] = Unit
Below i ((k, v) ∷ m) = (k < i) × Below i m

emplace_last :
    (i : ℕ) (v : List ℕ) (m : OrderedMap (List ℕ)) → Below i m → emplace i v m ≡ m ++ (i, v) ∷ []
unfolding emplace
emplace_last i v [] h = refl
emplace_last i v ((k, w) ∷ m) h = ground (arith, emplace_last i v m)

Below-append :
    (i : ℕ) (v : List ℕ) (m : OrderedMap (List ℕ)) → Below i m → Below (i + 1) (m ++ (i, v) ∷ [])
Below-append i v [] h = (omega arith, tt)
Below-append i v ((k, w) ∷ m) h = (omega (arith, h.0), Below-append i v m h.1)

Below-suc : (i : ℕ) (m : OrderedMap (List ℕ)) → Below i m → Below (i + 1) m
Below-suc i [] h = tt
Below-suc i ((k, w) ∷ m) h = (omega (arith, h.0), Below-suc i m h.1)

module _ {A : Type 0} where
  take_of_le : (n : ℕ) (xs : List A) → length xs ≤ n → take n xs ≡ xs
  take_of_le zero [] h = refl
  take_of_le zero (x ∷ xs) h = absurd (omega arith)
  take_of_le (suc n) [] h = refl
  take_of_le (suc n) (x ∷ xs) h = ap (λ l. x ∷ l) (take_of_le n xs (omega (arith, h)))

  take-append_eq : (n : ℕ) (xs ys : List A) → length xs ≡ n → take n (xs ++ ys) ≡ xs
  take-append_eq zero [] ys h = refl
  take-append_eq zero (x ∷ xs) ys h = absurd (omega arith)
  take-append_eq (suc n) [] ys h = absurd (omega arith)
  take-append_eq (suc n) (x ∷ xs) ys h = ap (λ l. x ∷ l) (take-append_eq n xs ys (omega (arith, h)))

module _ (L : LevelDb) (g : Signers) (b : ℕ) (ds : Shards L) where
  collect-take :
      (i k : ℕ) (m : OrderedMap (List ℕ))
      → Below i m
      → length m < g.required_signers
      → collect L g b ds i k m ≡ take g.required_signers (m ++ entries (locate L ds) b i k)
  unfolding collect entries
  collect-take i zero m lo h =
      sym (take_of_le g.required_signers m (omega (arith, h)))
      ∙ ap (take g.required_signers) (sym (append-[] m))
  collect-take i (suc k) m lo h =
      elim (Bool-cases (is_empty_text (read_string L (index_key b i) ds))) [
        | inl e ↦ ground (
          arith,
          read_string-locate L (index_key b i) ds,
          collect-take (i + 1) k m (Below-suc i m lo) h,
        )
        | inr e ↦
            let text : List ℕ = read_string L (index_key b i) ds in
            let more : OrderedMap (List ℕ) = m ++ (i, text) ∷ [] in
            let rest : OrderedMap (List ℕ) = entries (locate L ds) b (i + 1) k in
            ground (
              arith,
              read_string-locate L (index_key b i) ds,
              emplace_last i text m,
              length-append m ((i, text) ∷ []),
              append_assoc m ((i, text) ∷ []) rest,
              take-append_eq g.required_signers more rest,
              collect-take (i + 1) k more (Below-append i text m lo),
            )
      ]

  -- It collects the first entries there are, as many as are required.
  pub read_set-set_at : 1 ≤ g.required_signers → read_set L g b ds ≡ set_at g b (locate L ds)
  unfolding read_set set_at
  read_set-set_at h = collect-take 1 g.total_signers [] tt h
