-- ===== src/BinConsensus/Quorum.antt =====
-- What two sets of nodes that pass a threshold have in common.
use native.Mathlib.Decide.{dec_lt}
use skale_consensus.Prelude.{
  ℕ, suc, ◌+◌, ◌≤◌, ◌<◌, ◌≡◌, true, [], ◌∷◌, length, arith, refl, ltb→lt, lt→ltb, if◌then◌else◌,
}
use skale_consensus.Prelude.OrderedMap.{OrderedMap, contains, IsSorted, length-le-range}
use skale_consensus.BinConsensus.State.{Env}
use skale_consensus.BinConsensus.Votes.{is_third, is_two_third}
use skale_consensus.BinConsensus.Invariant.{IsChain}

module _ {ℓ κ} {V : Type ℓ} {W : Type κ} where
  -- How many keys of the one map the other has.
  pub common : OrderedMap V → OrderedMap W → ℕ
  common [] b = 0
  common ((k, v) ∷ a) b = (if contains k b then 1 else 0) + common a b

  common-le : (a : OrderedMap V) (b : OrderedMap W) → common a b ≤ length a
  unfolding common
  common-le [] b = omega arith
  common-le ((k, v) ∷ a) b = ground (arith, common-le a b)

  -- A key below all of the first map's does not count.
  common_below :
      (lo hi j : ℕ) (w : W) (a : OrderedMap V) (b : OrderedMap W)
      → IsSorted lo hi a
      → j < lo
      → common a ((j, w) ∷ b) ≡ common a b
  unfolding common contains
  common_below lo hi j w [] b s h = refl
  common_below lo hi j w ((k, v) ∷ a) b s h = ground (arith, common_below (suc k) hi j w a b s.2)

shared {ℓ κ} :
    {V : Type ℓ} {W : Type κ} (x y : ℕ) (v : V) (w : W) (a : OrderedMap V) (b : OrderedMap W)
    → x ≡ y
    → common ((x, v) ∷ a) ((y, w) ∷ b) ≡ suc (common a ((y, w) ∷ b))
unfolding common contains
shared x y v w a b h = ground arith

meet_bound {ℓ} :
    {V : Type ℓ} (x y hi : ℕ) (b : OrderedMap V)
    → x ≡ y
    → IsSorted (suc y) hi b
    → IsSorted (suc x) hi b
meet_bound x y hi b h t = rw h t

-- Two sets of keys from one range overlap in what does not fit into it.
overlap {ℓ κ} :
    {V : Type ℓ} {W : Type κ} (lo hi : ℕ) (a : OrderedMap V) (b : OrderedMap W)
    → IsSorted lo hi a
    → IsSorted lo hi b
    → lo ≤ suc hi
    → length a + length b + lo ≤ suc hi + common a b
unfolding common
overlap lo hi [] b s t h = omega (arith, length-le-range lo hi b t h)
overlap lo hi ((x, v) ∷ a) [] s t h = omega (arith, length-le-range lo hi ((x, v) ∷ a) s h)
overlap lo hi ((x, v) ∷ a) ((y, w) ∷ b) s t h = elim (dec_lt x y) [
  | yes lt ↦ omega (arith, overlap (suc x) hi a ((y, w) ∷ b) s.2 (lt, t.1, t.2) (omega arith))
  | no ge ↦ elim (dec_lt y x) [
    | yes gt ↦
        rw (common_below (suc y) hi y w ((x, v) ∷ a) b (gt, s.1, s.2) (omega arith))
          (omega (arith, overlap (suc y) hi ((x, v) ∷ a) b (gt, s.1, s.2) t.2 (omega arith)))
    | no le ↦ omega (
      arith,
      shared x y v w a b (omega arith),
      common_below (suc x) hi y w a b s.2,
      overlap (suc x) hi a b s.2 (meet_bound x y hi b (omega arith) t.2),
    )
  ]
]

-- Any two sets of two thirds of a chain's nodes share more than a third of them.
pub quorums_meet {ℓ κ} :
    {V : Type ℓ} {W : Type κ} (e : Env) (a : OrderedMap V) (b : OrderedMap W)
    → IsChain e
    → IsSorted 1 e.node_count a
    → IsSorted 1 e.node_count b
    → is_two_third e (length a) ≡ true
    → is_two_third e (length b) ≡ true
    → is_third e (common a b) ≡ true
unfolding is_third is_two_third
quorums_meet e a b ch s t qa qb = lt→ltb _ _ (
    omega (
      arith,
      ltb→lt _ _ qa,
      ltb→lt _ _ qb,
      overlap 1 e.node_count a b s t,
      length-le-range 1 e.node_count a s,
      length-le-range 1 e.node_count b t,
      common-le a b,
    ))
