-- ===== src/BlockConsensus/Examples.antt =====
-- The block consensus of two nodes at concrete inputs.
use skale_consensus.Prelude.{
  ℕ, zero, suc, ◌≤◌, ◌≡◌, ◌⊎◌, inl, inr, Bool, true, false, Option, none, some, List, [], ◌∷◌,
  length, update, arith, refl,
}
use skale_consensus.Prelude.OrderedMap.{contains, emplace}
use skale_consensus.BlockConsensus.Cache.{LruCache}
use skale_consensus.BlockConsensus.Choice.{choose, choose_from, IsConsistent}
use skale_consensus.BlockConsensus.Agent.{
  ChildDecided, Signing, signed, broadcast_throws, invalid_state, Chain, Decisions, Agent,
  add_decision, record_decision, decide_block, seed_of, decide_if_needed, is_decided,
  report_consensus_and_decide_if_needed,
}
use skale_consensus.BlockConsensus.Decisions.{
  report_consensus_and_decide_if_needed-IsFirstTrue, decided_index, trues, falses, IsFirstTrue,
}
use skale_consensus.BlockConsensus.Agreement.{reports_agree}
use skale_consensus.BlockConsensus.Liveness.{report_consensus_and_decide_if_needed-Decides}
use skale_consensus.BlockConsensus.Once.{
  report_all, signatures, failures, fails_signed, signs_once_but_for_failures,
}

-- A cache that never evicts.
abbrev big_cache : (V : Type 0) → LruCache V
big_cache V = record {
  Cache = ℕ → Option V;
  empty = λ k. none;
  find = λ k c. c k;
  put = λ k v c. update c k (some v);
  touch = λ k c. c;
  assign = λ k v c. update c k (some v);
  find-empty = λ k. refl;
  find-put = λ k v c. ground arith;
  find-put_ne = λ k j v c ne. inl (ground arith);
  find-touch = λ k j c. refl;
  find-assign = λ k v w c e. ground arith;
  find-assign_ne = λ k j v c ne. ground arith;
}

abbrev decision_caches : LruCache Decisions
decision_caches = big_cache Decisions

abbrev index_caches : LruCache ℕ
index_caches = big_cache ℕ

-- Two nodes, block 1 next.
abbrev chain2 : Chain
chain2 = record { node_count = 2; last_committed_block_id = 0; hash_seed = λ b. none }

abbrev decided : ℕ → Bool → ChildDecided
decided i v = record {
  block_id = 1;
  block_proposer_index = i;
  value = v;
  round = 0;
  max_processing_time_ms = 0;
  max_latency_time_ms = 0;
}

abbrev agent0 : Agent decision_caches index_caches
agent0 = record {
  true_decisions = λ b. none;
  false_decisions = λ b. none;
  decided_indices = λ b. none;
  effects = [];
}

-- With the second proposer, where the seed starts, decided false.
abbrev agent1 : Agent decision_caches index_caches
agent1 = record agent0 { false_decisions = update (λ b. none) 1 (some ((2, decided 2 false) ∷ [])) }

abbrev report :
    ChildDecided → Agent decision_caches index_caches → Agent decision_caches index_caches
report msg a =
    (report_consensus_and_decide_if_needed decision_caches index_caches chain2 (signed none none)
      msg a).agent

report_waits : decided_index decision_caches index_caches 1 (report (decided 1 true) agent0) ≡ none
unfolding report_consensus_and_decide_if_needed decide_if_needed record_decision add_decision
    is_decided decide_block seed_of choose choose_from contains emplace
report_waits = refl

report_decides :
    decided_index decision_caches index_caches 1 (report (decided 1 true) agent1) ≡ some 1
unfolding report_consensus_and_decide_if_needed decide_if_needed record_decision add_decision
    is_decided decide_block seed_of choose choose_from contains emplace
report_decides = refl

default_decides :
    decided_index decision_caches index_caches 1 (report (decided 1 false) agent1) ≡ some 0
unfolding report_consensus_and_decide_if_needed decide_if_needed record_decision add_decision
    is_decided decide_block seed_of choose choose_from contains emplace
default_decides = refl

IsFirstTrue-example :
    let o = report (decided 1 true) agent1 in
    ((◌≡◌ {A = ℕ} 1 0)
      × (trues decision_caches index_caches 1 o ≡ [])
      × (length (falses decision_caches index_caches 1 o) ≡ 2))
    ⊎ ((seed : ℕ) × (seed_of decision_caches index_caches chain2 1 ≡ some seed)
        × IsFirstTrue decision_caches index_caches 2 seed
            (trues decision_caches index_caches 1 o)
            (falses decision_caches index_caches 1 o)
            1)
IsFirstTrue-example =
    report_consensus_and_decide_if_needed-IsFirstTrue decision_caches index_caches chain2
      (signed none none) 1 (decided 1 true) agent1 refl report_decides

must_decide_example :
    (y : ℕ) × (decided_index decision_caches index_caches 1 (report (decided 1 true) agent1)
      ≡ some y)
unfolding record_decision add_decision seed_of contains emplace
must_decide_example =
    report_consensus_and_decide_if_needed-Decides decision_caches index_caches chain2 none none 1
      (decided 1 true) agent1 (omega arith) (omega arith) refl refl
      ((1, omega arith, omega arith, refl), all_decided)
  where
    all_decided :
        (i : ℕ)
        → 1 ≤ i
        → i ≤ 2
        → (contains i ((1, decided 1 true) ∷ []) ≡ true)
          ⊎ (contains i ((2, decided 2 false) ∷ []) ≡ true)
    all_decided zero lo hi = absurd (omega arith)
    all_decided (suc zero) lo hi = inl refl
    all_decided (suc (suc zero)) lo hi = inr refl
    all_decided (suc (suc (suc i))) lo hi = absurd (omega arith)

-- The broadcast throws at the first report, so that the second signs again.
abbrev two_reports : List (Signing × ChildDecided)
two_reports =
    (broadcast_throws invalid_state, decided 1 true) ∷ (signed none none, decided 1 true) ∷ []

signs_again :
    signatures (report_all decision_caches index_caches chain2 two_reports agent1).effects ≡ 2
unfolding signatures report_all report_consensus_and_decide_if_needed decide_if_needed
    record_decision add_decision is_decided decide_block seed_of choose choose_from contains emplace
signs_again = refl

signs_once_example :
    let after = report_all decision_caches index_caches chain2 two_reports agent1 in
    ((decided_index decision_caches index_caches 1 after ≡ none) × (signatures after.effects ≤ 1))
    ⊎ ((x : ℕ) × (decided_index decision_caches index_caches 1 after ≡ some x)
        × (signatures after.effects ≤ 2))
unfolding signatures failures fails_signed
signs_once_example =
    signs_once_but_for_failures decision_caches index_caches chain2 1 two_reports agent1
      (refl, (refl, tt)) refl

-- Another node, that has heard of the second proposer last.
abbrev agent2 : Agent decision_caches index_caches
agent2 = record agent0 { true_decisions = update (λ b. none) 1 (some ((1, decided 1 true) ∷ [])) }

other_decides :
    decided_index decision_caches index_caches 1 (report (decided 2 false) agent2) ≡ some 1
unfolding report_consensus_and_decide_if_needed decide_if_needed record_decision add_decision
    is_decided decide_block seed_of choose choose_from contains emplace
other_decides = refl

one-IsConsistent : IsConsistent ((1, decided 1 true) ∷ []) ((2, decided 2 false) ∷ [])
unfolding contains
one-IsConsistent x h = ground arith

reports_agree_example : ◌≡◌ {A = ℕ} 1 1
unfolding report_consensus_and_decide_if_needed decide_if_needed record_decision add_decision
    is_decided decide_block seed_of choose choose_from contains emplace
reports_agree_example =
    reports_agree decision_caches index_caches chain2 chain2 (signed none none) (signed none none) 1
      1 (decided 1 true) (decided 2 false) agent1 agent2
      (record { same_nodes = refl; same_seeds = λ b. refl }) (omega arith) refl refl refl
      (omega arith, omega arith, tt) (omega arith, omega arith, tt) one-IsConsistent
      one-IsConsistent report_decides other_decides
