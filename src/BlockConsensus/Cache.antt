-- ===== src/BlockConsensus/Cache.antt =====
-- thirdparty/lrucache.hpp, as the agent uses it: a parameter, with what it documents.
use skale_consensus.Prelude.{ℕ, ◌≡◌, ◌≢◌, Option, none, some, ◌⊎◌}

-- An LRU cache from numbers to `V`. `find` is what `exists`, `get` and `getIfExists` read; `touch`
-- is the change of order that the two getters make; `assign` is a write through the pointer that
-- stands in the cache; `put` may evict another key.
pub record LruCache (V : Type 0) : Type 1 where
  pub Cache : Type 0
  pub empty : Cache
  pub find : ℕ → Cache → Option V
  pub put : ℕ → V → Cache → Cache
  pub touch : ℕ → Cache → Cache
  pub assign : ℕ → V → Cache → Cache
  pub find-empty : (k : ℕ) → find k empty ≡ none
  pub find-put : (k : ℕ) (v : V) (c : Cache) → find k (put k v c) ≡ some v
  pub find-put_ne :
      (k j : ℕ) (v : V) (c : Cache)
      → j ≢ k
      → (find j (put k v c) ≡ find j c) ⊎ (find j (put k v c) ≡ none)
  pub find-touch : (k j : ℕ) (c : Cache) → find j (touch k c) ≡ find j c
  pub find-assign :
      (k : ℕ) (v w : V) (c : Cache) → find k c ≡ some w → find k (assign k v c) ≡ some v
  pub find-assign_ne : (k j : ℕ) (v : V) (c : Cache) → j ≢ k → find j (assign k v c) ≡ find j c
