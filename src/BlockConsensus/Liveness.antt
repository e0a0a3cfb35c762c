-- ===== src/BlockConsensus/Liveness.antt =====
-- When reportConsensusAndDecideIfNeeded decides a block id.
use skale_consensus.Prelude.{
  ℕ, ◌≤◌, ◌<◌, ◌≡◌, ◌⊎◌, true, Option, none, some, [], String, leb, arith, refl, if_cases, subst,
  ap, sym,
}
use skale_consensus.Prelude.OrderedMap.{contains}
use skale_consensus.BlockConsensus.Cache.{LruCache}
use skale_consensus.BlockConsensus.Choice.{choose, choose_total}
use skale_consensus.BlockConsensus.Agent.{
  Error, signed, ChildDecided, Chain, Decisions, Agent, Outcome, or_empty, record_decision,
  decide_block, seed_of, decide_choice, decide_seeded, is_empty, decide_if_needed, is_decided,
  report_consensus_and_decide_if_needed,
}
use skale_consensus.BlockConsensus.Decisions.{
  trues, falses, decided_index, IsUndecided, is_empty-[], none_not_some,
}

module _ (D : LruCache Decisions) (I : LruCache ℕ) where
  open D use {touch, find-touch}
  open I use {find-put as find_index-put}

  abbrev Decides : ℕ → Outcome D I → Type 0
  Decides b o = (y : ℕ) × (decided_index D I b o.agent ≡ some y)

  decide_choice-Decides :
      (g : Option String) (x : Option Error) (b : ℕ) (a : Agent D I) (o : Option ℕ) {y : ℕ}
      → o ≡ some y
      → Decides b (decide_choice D I (signed g x) b a o)
  unfolding decide_block
  decide_choice-Decides g x b a none e = absurd (none_not_some D I refl e)
  decide_choice-Decides none x b a (some y) e = (y, find_index-put b y a.decided_indices)
  decide_choice-Decides (some g) none b a (some y) e = (y, find_index-put b y a.decided_indices)
  decide_choice-Decides (some g) (some x) b a (some y) e = (y, find_index-put b y a.decided_indices)

  -- Everything is decided of which the block needs a decision, and something of it true.
  abbrev pub AllDecided : ℕ → Decisions → Decisions → Type 0
  AllDecided n ts fs =
      ((x : ℕ) × (1 ≤ x) × (x ≤ n) × (contains x ts ≡ true))
      × ((i : ℕ) → 1 ≤ i → i ≤ n → (contains i ts ≡ true) ⊎ (contains i fs ≡ true))

  decide_if_needed-Decides :
      (ch : Chain) (g : Option String) (x : Option Error) (b seed : ℕ) (a : Agent D I)
      → seed_of D I ch b ≡ some seed
      → AllDecided ch.node_count (trues D I b a) (falses D I b a)
      → Decides b (decide_if_needed D I ch (signed g x) b a)
  unfolding decide_if_needed contains
  decide_if_needed-Decides ch g x b seed a k all =
      if_cases {A = Outcome D I} (Decides b) (is_empty D I (trues D I b t)) _ _
        (λ e. absurd (not_empty (is_empty-[] D I (trues D I b t) e)))
        (λ e.
          subst (λ o. Decides b (decide_seeded D I ch (signed g x) b t o)) (sym k)
            (decide_choice-Decides g x b t _ chosen.1))
    where
      t : Agent D I
      t = record a {
        true_decisions = touch b a.true_decisions;
        false_decisions = touch b a.false_decisions;
      }

      all' : AllDecided ch.node_count (trues D I b t) (falses D I b t)
      all' =
          subst (λ ts. AllDecided ch.node_count ts (falses D I b t))
            (ap or_empty (sym (find-touch b b a.true_decisions)))
            (subst (λ fs. AllDecided ch.node_count (trues D I b a) fs)
              (ap or_empty (sym (find-touch b b a.false_decisions))) all)

      not_empty : trues D I b t ≡ [] → ⊥
      not_empty e = cc (subst (λ m. contains all'.0.0 m ≡ true) e all'.0.3)

      chosen : (y : ℕ) × (choose ch.node_count seed (trues D I b t) (falses D I b t) ≡ some y)
      chosen =
          choose_total ch.node_count seed all'.0.0 (trues D I b t) (falses D I b t) all'.0.1
            all'.0.2 all'.0.3 all'.1

  -- A report for a block id that is not committed and not decided, of a proposer of the chain, decides
  -- it, if the seed can be read, with the message recorded every proposer is decided and one of them
  -- true, and signing the share, saving it and broadcasting it throw nothing. Finalizing the block may
  -- throw.
  pub report_consensus_and_decide_if_needed-Decides :
      (ch : Chain) (g : Option String) (x : Option Error) (seed : ℕ) (msg : ChildDecided)
      (a : Agent D I)
      → ch.last_committed_block_id < msg.block_id
      → msg.block_proposer_index ≤ ch.node_count
      → IsUndecided D I msg.block_id a
      → seed_of D I ch msg.block_id ≡ some seed
      → AllDecided ch.node_count
          (trues D I msg.block_id (record_decision D I msg a))
          (falses D I msg.block_id (record_decision D I msg a))
      → (y : ℕ) × (decided_index D I msg.block_id
            (report_consensus_and_decide_if_needed D I ch (signed g x) msg a).agent
          ≡ some y)
  unfolding report_consensus_and_decide_if_needed is_decided
  report_consensus_and_decide_if_needed-Decides ch g x seed msg a new node u k all =
      if_cases {A = Outcome D I} (Decides msg.block_id)
        (leb msg.block_id ch.last_committed_block_id) _ _ (λ old. absurd (ground arith))
        (λ _.
          if_cases {A = Outcome D I} (Decides msg.block_id)
            (leb msg.block_proposer_index ch.node_count) _ _
            (λ ok.
              if_cases {A = Outcome D I} (Decides msg.block_id) (is_decided D I msg.block_id a) _ _
                (λ decided. absurd (ground (arith, u)))
                (λ _.
                  decide_if_needed-Decides ch g x msg.block_id seed (record_decision D I msg a) k
                    all))
            (λ bad. absurd (ground arith)))
