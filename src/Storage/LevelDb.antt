-- ===== src/Storage/LevelDb.antt =====
-- The keys of CacheLevelDB, and LevelDB as the code uses it: a parameter, with what it documents.
use skale_consensus.Prelude.{
  ℕ, ◌≡◌, Bool, true, false, Option, none, some, List, [], ◌∷◌, same_bytes, same_bytes_refl,
  same_bytes→≡, ap,
}

-- createKey and createCounterKey: the text is the format version, the word COUNTER for the second, and
-- the numbers, with colons between them. No number holds a colon, so a key is taken as its parts.
pub data Key : Type 0 where
  numbered : List ℕ → Key
  counter : List ℕ → Key

abbrev pub block_key : ℕ → Key
block_key b = numbered (b ∷ [])

abbrev pub index_key : ℕ → ℕ → Key
index_key b i = numbered (b ∷ i ∷ [])

abbrev pub proposer_key : ℕ → ℕ → ℕ → Key
proposer_key b p i = numbered (b ∷ p ∷ i ∷ [])

abbrev pub counter_key : ℕ → Key
counter_key b = counter (b ∷ [])

abbrev pub same_key : Key → Key → Bool
same_key (numbered xs) (numbered ys) = same_bytes xs ys
same_key (numbered xs) (counter ys) = false
same_key (counter xs) (numbered ys) = false
same_key (counter xs) (counter ys) = same_bytes xs ys

pub same_key_refl : (k : Key) → same_key k k ≡ true
same_key_refl (numbered xs) = same_bytes_refl xs
same_key_refl (counter xs) = same_bytes_refl xs

pub same_key→≡ : (j k : Key) → same_key j k ≡ true → j ≡ k
same_key→≡ (numbered xs) (numbered ys) h = ap numbered (same_bytes→≡ xs ys h)
same_key→≡ (numbered xs) (counter ys) h = cc
same_key→≡ (counter xs) (numbered ys) h = cc
same_key→≡ (counter xs) (counter ys) h = ap counter (same_bytes→≡ xs ys h)

-- An open database: `get` is `none` when the status is NotFound. A status that tells of an input or
-- output error becomes an exception, which is not modelled.
pub record LevelDb : Type 1 where
  pub Db : Type 0
  pub empty : Db
  pub get : Key → Db → Option (List ℕ)
  pub put : Key → List ℕ → Db → Db
  pub get-empty : (k : Key) → get k empty ≡ none
  pub get-put : (k : Key) (v : List ℕ) (d : Db) → get k (put k v d) ≡ some v
  pub get-put_ne :
      (j k : Key) (v : List ℕ) (d : Db) → same_key j k ≡ false → get j (put k v d) ≡ get j d
