-- ===== src/BlockConsensus/Agreement.antt =====
-- The decisions of two nodes for a block id.
use skale_consensus.Prelude.{
  ℕ, ◌+◌, ◌-◌, ◌%◌, ◌≤◌, ◌≡◌, inl, inr, Bool, true, false, some, length, arith, subst, sym, ◌∙◌,
}
use skale_consensus.Prelude.OrderedMap.{contains, IsSorted, contains_of_full}
use skale_consensus.BlockConsensus.Cache.{LruCache}
use skale_consensus.BlockConsensus.Choice.{choose, IsConsistent, choose_agree, choose_first}
use skale_consensus.BlockConsensus.Agent.{
  Signing, ChildDecided, Chain, Decisions, Agent, seed_of, report_consensus_and_decide_if_needed,
}
use skale_consensus.BlockConsensus.Decisions.{
  trues, falses, decided_index, Justified, IsUndecided,
  report_consensus_and_decide_if_needed-Justified,
}
use native.Mathlib.Nat.{mod-lt}

-- Chains that agree on what is committed: one node may be ahead of the other.
pub record AreSameChain (ch ch' : Chain) : Type 0 where
  pub same_nodes : ch.node_count ≡ ch'.node_count
  pub same_seeds : (b : ℕ) → ch.hash_seed b ≡ ch'.hash_seed b

module _ (D : LruCache Decisions) (I : LruCache ℕ) where
  seed_of_agree :
      (ch ch' : Chain) (b : ℕ) {s s' : ℕ}
      → AreSameChain ch ch'
      → seed_of D I ch b ≡ some s
      → seed_of D I ch' b ≡ some s'
      → s ≡ s'
  unfolding seed_of
  seed_of_agree ch ch' b c p q = ground (arith, c.same_seeds (b - 1))

  -- A default block is decided only by a node that has all proposers decided false.
  default_decides_all_false :
      (ch : Chain) (b i : ℕ) (a : Agent D I)
      → IsSorted 1 ch.node_count (falses D I b a)
      → length (falses D I b a) ≡ ch.node_count
      → 1 ≤ i
      → i ≤ ch.node_count
      → contains i (falses D I b a) ≡ true
  default_decides_all_false ch b i a s full lo hi =
      contains_of_full 1 ch.node_count i (falses D I b a) s (omega (arith, full)) lo hi

  choice_meets_default :
      {W : Type 0} (ch ch' : Chain) (b seed y : ℕ) (a a' : Agent D I)
      → AreSameChain ch ch'
      → 1 ≤ ch.node_count
      → IsSorted 1 ch.node_count (falses D I b a)
      → IsConsistent (trues D I b a') (falses D I b a)
      → length (falses D I b a) ≡ ch.node_count
      → choose ch'.node_count seed (trues D I b a') (falses D I b a') ≡ some y
      → W
  choice_meets_default ch ch' b seed y a a' c pos s cons full e =
      let (d, lt, at, has, before) =
        choose_first ch'.node_count seed (trues D I b a') (falses D I b a') e in
      absurd (
        true_not_false
          (default_decides_all_false ch b y a s full (omega (arith, at)) (
            omega (
              arith,
              at,
              c.same_nodes,
              pos,
              mod-lt (seed % ch'.node_count + d) {m = ch'.node_count}
                  (omega (arith, pos, c.same_nodes)),
            )))
          (cons y has))
    where
      true_not_false : {x : Bool} → x ≡ true → x ≡ false → ⊥
      true_not_false p q = cc

  -- Two nodes that hold justified decisions of a block id have decided the same index.
  pub Justified-agree :
      (ch ch' : Chain) (b x y : ℕ) (a a' : Agent D I)
      → AreSameChain ch ch'
      → 1 ≤ ch.node_count
      → IsSorted 1 ch.node_count (falses D I b a)
      → IsSorted 1 ch'.node_count (falses D I b a')
      → IsConsistent (trues D I b a) (falses D I b a')
      → IsConsistent (trues D I b a') (falses D I b a)
      → Justified D I ch b a x
      → Justified D I ch' b a' y
      → x ≡ y
  Justified-agree ch ch' b x y a a' c pos s s' k k' (inl (p, _, _)) (inl (q, _, _)) = p ∙ sym q
  Justified-agree ch ch' b x y a a' c pos s s' k k' (inl (p, _, full)) (inr (seed, _, e)) =
      choice_meets_default ch ch' b seed y a a' c pos s k' full e
  Justified-agree ch ch' b x y a a' c pos s s' k k' (inr (seed, _, e)) (inl (q, _, full)) =
      choice_meets_default ch' ch b seed x a' a
        (record { same_nodes = sym c.same_nodes; same_seeds = λ i. sym (c.same_seeds i) })
        (omega (arith, pos, c.same_nodes)) s' k full e
  Justified-agree ch ch' b x y a a' c pos s s' k k' (inr (seed, p, e)) (inr (seed', q, e')) =
      choose_agree ch.node_count seed (trues D I b a) (falses D I b a) (trues D I b a')
        (falses D I b a') k k' e moved
    where
      moved : choose ch.node_count seed (trues D I b a') (falses D I b a') ≡ some y
      moved =
          subst (λ n. choose n seed (trues D I b a') (falses D I b a') ≡ some y) (sym c.same_nodes)
            (subst (λ r. choose ch'.node_count r (trues D I b a') (falses D I b a') ≡ some y)
              (sym (seed_of_agree ch ch' b c p q)) e')

  -- Two nodes of one chain, neither of which has decided the block id before, that decide it on a
  -- report decide the same index, if the decisions of the binary consensuses that they then hold do
  -- not contradict each other and the false ones are of proposers of the chain.
  pub reports_agree :
      (ch ch' : Chain) (s s' : Signing) (x y : ℕ) (msg msg' : ChildDecided) (a a' : Agent D I)
      → AreSameChain ch ch'
      → 1 ≤ ch.node_count
      → msg.block_id ≡ msg'.block_id
      → IsUndecided D I msg.block_id a
      → IsUndecided D I msg'.block_id a'
      → let b = msg.block_id in
        let o = (report_consensus_and_decide_if_needed D I ch s msg a).agent in
        let o' = (report_consensus_and_decide_if_needed D I ch' s' msg' a').agent in
        IsSorted 1 ch.node_count (falses D I b o)
        → IsSorted 1 ch'.node_count (falses D I b o')
        → IsConsistent (trues D I b o) (falses D I b o')
        → IsConsistent (trues D I b o') (falses D I b o)
        → decided_index D I b o ≡ some x
        → decided_index D I b o' ≡ some y
        → x ≡ y
  reports_agree ch ch' s s' x y msg msg' a a' c pos same u u' st st' k k' p q =
      Justified-agree ch ch' msg.block_id x y o o' c pos st st' k k'
        (report_consensus_and_decide_if_needed-Justified D I ch s x msg a u p)
        (subst (λ b. Justified D I ch' b o' y) (sym same)
          (report_consensus_and_decide_if_needed-Justified D I ch' s' y msg' a' u'
            (subst (λ b. decided_index D I b o' ≡ some y) same q)))
    where
      o : Agent D I
      o = (report_consensus_and_decide_if_needed D I ch s msg a).agent

      o' : Agent D I
      o' = (report_consensus_and_decide_if_needed D I ch' s' msg' a').agent
