-- ===== src/Transactions/Merkle.antt =====
-- datastructures/ListOfHashes.cpp: the Merkle root of a list of hashes, with merkleTreeMerge of
-- BLAKE3Hash as a parameter.
use skale_consensus.Prelude.{
  ℕ, zero, suc, ◌+◌, ◌*◌, ◌≡◌, ◌≤◌, List, [], ◌∷◌, ◌++◌, length, refl, ap, sym, arith, ◌∙◌,
  length-append, append_assoc, append-[],
}
use skale_consensus.Prelude.Results.{Result, ok, throw, invalid_state}

module _ {A : Type 0} (merge : A → A → A) where
  -- One turn of the loop: the last hash is taken twice if their number is odd, and each pair is
  -- merged.
  unfoldable pub next_level : List A → List A
  next_level [] = []
  next_level (x ∷ []) = merge x x ∷ []
  next_level (x ∷ y ∷ hashes) = merge x y ∷ next_level hashes

  -- The loop, with so many turns allowed; running out of them stands as an error too.
  unfoldable pub merge_levels : ℕ → List A → Result A
  merge_levels fuel [] = throw invalid_state
  merge_levels fuel (x ∷ []) = ok x
  merge_levels zero (x ∷ y ∷ hashes) = throw invalid_state
  merge_levels (suc fuel) (x ∷ y ∷ hashes) = merge_levels fuel (next_level (x ∷ y ∷ hashes))

  -- calculateTopMerkleRoot
  unfoldable pub calculate_top_merkle_root : List A → Result A
  calculate_top_merkle_root hashes = merge_levels (length hashes) hashes

  length-next_level :
      (hashes : List A)
      → (length hashes ≤ 2 * length (next_level hashes))
        × (2 * length (next_level hashes) ≤ length hashes + 1)
  unfolding next_level
  length-next_level [] = (omega arith, omega arith)
  length-next_level (x ∷ []) = (omega arith, omega arith)
  length-next_level (x ∷ y ∷ hashes) =
      let (lo, hi) = length-next_level hashes in (omega (arith, lo), omega (arith, hi))

  merge_levels-ok :
      (fuel : ℕ) (hashes : List A)
      → 1 ≤ length hashes
      → length hashes ≤ fuel + 1
      → (root : A) × (merge_levels fuel hashes ≡ ok root)
  unfolding merge_levels
  merge_levels-ok fuel [] lo hi = absurd (omega (arith, lo))
  merge_levels-ok fuel (x ∷ []) lo hi = (x, refl)
  merge_levels-ok zero (x ∷ y ∷ hashes) lo hi = absurd (omega (arith, hi))
  merge_levels-ok (suc fuel) (x ∷ y ∷ hashes) lo hi =
      let (a, b) = length-next_level (x ∷ y ∷ hashes) in
      merge_levels-ok fuel (next_level (x ∷ y ∷ hashes)) (omega (arith, a)) (omega (arith, b, hi))

  -- Every list of hashes that is not empty has a root: the loop ends within as many turns as there
  -- are hashes.
  pub calculate_top_merkle_root-ok :
      (hashes : List A)
      → 1 ≤ length hashes
      → (root : A) × (calculate_top_merkle_root hashes ≡ ok root)
  unfolding calculate_top_merkle_root
  calculate_top_merkle_root-ok hashes lo = merge_levels-ok (length hashes) hashes lo (omega arith)

  -- A Merkle tree of `k` levels above its hashes, as it is drawn.
  abbrev pub Perfect : ℕ → Type 0
  Perfect zero = A
  Perfect (suc k) = Perfect k × Perfect k

  abbrev pub leaves : (k : ℕ) → Perfect k → List A
  leaves zero a = a ∷ []
  leaves (suc k) (l, r) = leaves k l ++ leaves k r

  abbrev pub root_of : (k : ℕ) → Perfect k → A
  root_of zero a = a
  root_of (suc k) (l, r) = merge (root_of k l) (root_of k r)

  -- The lowest level merged away.
  abbrev collapse : (k : ℕ) → Perfect (suc k) → Perfect k
  collapse zero (a, b) = merge a b
  collapse (suc k) (l, r) = (collapse k l, collapse k r)

  next_level-leaves :
      (k : ℕ) (t : Perfect (suc k)) (rest : List A)
      → next_level (leaves (suc k) t ++ rest) ≡ leaves k (collapse k t) ++ next_level rest
  unfolding next_level
  next_level-leaves zero (a, b) rest = refl
  next_level-leaves (suc k) (l, r) rest =
      ap next_level (append_assoc (leaves (suc k) l) (leaves (suc k) r) rest)
      ∙ next_level-leaves k l (leaves (suc k) r ++ rest)
      ∙ ap (λ hs. leaves k (collapse k l) ++ hs) (next_level-leaves k r rest)
      ∙ sym (append_assoc (leaves k (collapse k l)) (leaves k (collapse k r)) (next_level rest))

  root_of-collapse : (k : ℕ) (t : Perfect (suc k)) → root_of k (collapse k t) ≡ root_of (suc k) t
  root_of-collapse zero (a, b) = refl
  root_of-collapse (suc k) (l, r) =
      ap (λ x. merge x (root_of k (collapse k r))) (root_of-collapse k l)
      ∙ ap (merge (root_of (suc k) l)) (root_of-collapse k r)

  length-leaves : (k : ℕ) (t : Perfect k) → suc k ≤ length (leaves k t)
  length-leaves zero a = omega arith
  length-leaves (suc k) (l, r) =
      omega (arith, length-append (leaves k l) (leaves k r), length-leaves k l, length-leaves k r)

  merge_levels-step :
      (fuel : ℕ) (hashes : List A)
      → 2 ≤ length hashes
      → merge_levels (suc fuel) hashes ≡ merge_levels fuel (next_level hashes)
  unfolding merge_levels
  merge_levels-step fuel [] h = absurd (omega (arith, h))
  merge_levels-step fuel (x ∷ []) h = absurd (omega (arith, h))
  merge_levels-step fuel (x ∷ y ∷ hashes) h = refl

  merge_levels-leaves :
      (k fuel : ℕ) (t : Perfect k) → k ≤ fuel → merge_levels fuel (leaves k t) ≡ ok (root_of k t)
  unfolding merge_levels next_level
  merge_levels-leaves zero zero a h = refl
  merge_levels-leaves zero (suc fuel) a h = refl
  merge_levels-leaves (suc k) zero t h = absurd (omega (arith, h))
  merge_levels-leaves (suc k) (suc fuel) t h =
      merge_levels-step fuel (leaves (suc k) t) (omega (arith, length-leaves (suc k) t))
      ∙ ap (λ hs. merge_levels fuel (next_level hs)) (sym (append-[] (leaves (suc k) t)))
      ∙ ap (merge_levels fuel) (next_level-leaves k t [] ∙ append-[] (leaves k (collapse k t)))
      ∙ merge_levels-leaves k fuel (collapse k t) (omega (arith, h))
      ∙ ap ok (root_of-collapse k t)

  -- Of the hashes at the bottom of a tree in which every pair is merged, the root is computed that the
  -- tree has at its top.
  pub calculate_top_merkle_root-leaves :
      (k : ℕ) (t : Perfect k) → calculate_top_merkle_root (leaves k t) ≡ ok (root_of k t)
  unfolding calculate_top_merkle_root
  calculate_top_merkle_root-leaves k t =
      merge_levels-leaves k (length (leaves k t)) t (omega (arith, length-leaves k t))
