-- ===== src/BinConsensus/Examples.antt =====
-- Tests of the binary consensus, and its theorems at concrete inputs: four nodes, of which this one
-- is the first.
use skale_consensus.Prelude.{
  ℕ, ◌*◌, ◌≤◌, ◌<◌, ◌≡◌, ◌⊎◌, Bool, true, false, Option, none, some, List, [], ◌∷◌, arith, refl,
  ◌≢◌, ap, sym, length, ◌∙◌, String,
}
use skale_consensus.Prelude.OrderedMap.{OrderedMap, contains, emplace, IsSorted}
use skale_consensus.BinConsensus.State.{Env, Instance, broadcast_bvb, fresh, truthy, out_of_fuel}
use skale_consensus.BinConsensus.Votes.{
  is_third, is_two_third, bvb_votes, aux_votes, get_bvb_vote_count, total_aux_votes, bvb_vote,
  aux_vote_core, aux_vote,
}
use skale_consensus.BinConsensus.Rounds.{
  set_proposal, network_broadcast_value, network_broadcast_value_if_third, insert_into_bin_values,
  aux_self_vote_and_broadcast_value, compute_random, decide, common_coin_value,
  play_decision_lottery, proceed_with_decision_lottery_if_aux_two_third,
  add_to_bin_values_if_two_thirds, proceed_with_next_round, round_fuel,
}
use skale_consensus.BinConsensus.Process.{
  MsgType, bvb_broadcast, aux_broadcast, MsgOrigin, origin_network, origin_parent, Envelope,
  update_stats, if_already_decided_send_delayed_estimate_for_next_round, process_bvb, process_aux,
  dispatch_network, process_network_message_impl, process_parent_proposal, dispatch_origin,
  process_message, run,
}
use skale_consensus.BinConsensus.Invariant.{IsChain, Inv, fresh-Inv, Evolves}
use skale_consensus.BinConsensus.Invariant.Messages.{AreFromNodes}
use skale_consensus.BinConsensus.Quorum.{common}
use skale_consensus.BinConsensus.Safety.{
  process_message-Inv, process_message-Evolves, same_round_agreement, deciders_share_a_third,
}
use skale_consensus.BinConsensus.Certified.{run-certified}
use skale_consensus.BinConsensus.Voters.Messages.{IsSent}
use skale_consensus.BinConsensus.Progress.{round_completes}
use skale_consensus.BinConsensus.Termination.{process_message-IsTotal}
use skale_consensus.BinConsensus.Broadcasts.{no_bit_blocks_zero}

abbrev chain4 : Env
chain4 = record {
  node_count = 4;
  schain_index = 1;
  block_id = 5;
  block_proposer_index = 2;
  is_sgx_enabled = false;
  hash_random = λ b r p. r;
  sign_sig_share = λ r. "own";
  verify_sig_share = λ r x. true;
  is_enough = λ xs. true;
  merge_random = λ xs. 0;
}

-- The second node of the same chain.
abbrev chain4' : Env
chain4' = record chain4 { schain_index = 2 }

chain4-IsChain : IsChain chain4
chain4-IsChain = omega arith

chain4'-IsChain : IsChain chain4'
chain4'-IsChain = omega arith

abbrev message : MsgOrigin → MsgType → ℕ → ℕ → ℕ → Envelope
message origin type r v i = record {
  origin = origin;
  msg_type = type;
  block_id = 5;
  block_proposer_index = 2;
  round = r;
  value = v;
  sig_share = none;
  src_schain_index = i;
  time_ms = 10;
  arrival_time = 20;
  now = 30;
}

abbrev bvb : ℕ → ℕ → ℕ → Envelope
bvb = message origin_network bvb_broadcast

abbrev aux : ℕ → ℕ → ℕ → Envelope
aux = message origin_network aux_broadcast

-- All propose 1, and the coin of round 0 is 1.
abbrev history : List Envelope
history =
    message origin_parent bvb_broadcast 0 1 1 ∷ bvb 0 1 2 ∷ bvb 0 1 3 ∷ aux 0 1 2 ∷ aux 0 1 3 ∷ []

abbrev history' : List Envelope
history' =
    message origin_parent bvb_broadcast 0 1 2 ∷ bvb 0 1 1 ∷ bvb 0 1 4 ∷ aux 0 1 1 ∷ aux 0 1 4 ∷ []

history-AreFromNodes : AreFromNodes chain4 history
history-AreFromNodes = omega arith

history'-AreFromNodes : AreFromNodes chain4' history'
history'-AreFromNodes = omega arith

ends : (s : Instance) → ℕ × ℕ × Bool
ends s = (s.decided_value, s.decided_round, s.is_decided)

end_of_history : ends (run chain4 history fresh) ≡ (1, 0, true)
unfolding ends run process_message dispatch_origin process_parent_proposal
    process_network_message_impl update_stats dispatch_network process_bvb process_aux bvb_vote
    aux_vote aux_vote_core network_broadcast_value network_broadcast_value_if_third is_third
    is_two_third get_bvb_vote_count total_aux_votes set_proposal insert_into_bin_values
    aux_self_vote_and_broadcast_value add_to_bin_values_if_two_thirds
    proceed_with_decision_lottery_if_aux_two_third play_decision_lottery compute_random decide
    if_already_decided_send_delayed_estimate_for_next_round contains emplace
end_of_history = refl

end_of_history' : ends (run chain4' history' fresh) ≡ (1, 0, true)
unfolding ends run process_message dispatch_origin process_parent_proposal
    process_network_message_impl update_stats dispatch_network process_bvb process_aux bvb_vote
    aux_vote aux_vote_core network_broadcast_value network_broadcast_value_if_third is_third
    is_two_third get_bvb_vote_count total_aux_votes set_proposal insert_into_bin_values
    aux_self_vote_and_broadcast_value add_to_bin_values_if_two_thirds
    proceed_with_decision_lottery_if_aux_two_third play_decision_lottery compute_random decide
    if_already_decided_send_delayed_estimate_for_next_round contains emplace
end_of_history' = refl

decided : (run chain4 history fresh).is_decided ≡ true
unfolding ends
decided = ap (λ (p : ℕ × ℕ × Bool). p.2) end_of_history

decided' : (run chain4' history' fresh).is_decided ≡ true
unfolding ends
decided' = ap (λ (p : ℕ × ℕ × Bool). p.2) end_of_history'

rounds_agree : (run chain4' history' fresh).decided_round ≡ (run chain4 history fresh).decided_round
unfolding ends
rounds_agree =
    ap (λ (p : ℕ × ℕ × Bool). p.1) end_of_history'
    ∙ sym (ap (λ (p : ℕ × ℕ × Bool). p.1) end_of_history)

round_early : (run chain4 history fresh).decided_round < 4
unfolding ends
round_early = omega (arith, ap (λ (p : ℕ × ℕ × Bool). p.1) end_of_history)

process_message-Inv_example : Inv chain4 (process_message chain4 (bvb 0 1 2) fresh).state
process_message-Inv_example =
    process_message-Inv chain4 (bvb 0 1 2) fresh chain4-IsChain (omega arith) (fresh-Inv chain4)

process_message-Evolves_example : Evolves fresh (process_message chain4 (bvb 0 1 2) fresh).state
process_message-Evolves_example =
    process_message-Evolves chain4 (bvb 0 1 2) fresh chain4-IsChain (omega arith) (fresh-Inv chain4)

run-certified_example :
    let s = run chain4 history fresh in
    let bit = truthy s.decided_value in
    let votes = aux_votes s bit s.decided_round in
    (s.decided_value ≤ 1)
    × (contains s.decided_value (s.bin_values s.decided_round) ≡ true)
    × IsSorted 1 4 votes
    × (2 * 4 < 3 * length votes)
    × ((i : ℕ) → contains i votes ≡ true → (i ≡ 1) ⊎ IsSent chain4 history bit s.decided_round i)
    × (false ≡ false → s.decided_value ≡ common_coin_value s.decided_round)
run-certified_example = run-certified chain4 history chain4-IsChain history-AreFromNodes decided

same_round_agreement_example :
    (run chain4' history' fresh).decided_value ≡ (run chain4 history fresh).decided_value
same_round_agreement_example =
    same_round_agreement chain4 chain4' history history' chain4-IsChain chain4'-IsChain
      history-AreFromNodes history'-AreFromNodes refl refl refl decided decided' rounds_agree
      round_early

deciders_share_a_third_example :
    let s = run chain4 history fresh in
    let t = run chain4' history' fresh in
    is_third chain4 (
      common
        (aux_votes s (truthy s.decided_value) s.decided_round)
        (aux_votes t (truthy t.decided_value) t.decided_round))
    ≡ true
deciders_share_a_third_example =
    deciders_share_a_third chain4 chain4' history history' chain4-IsChain chain4'-IsChain refl
      history-AreFromNodes history'-AreFromNodes decided decided'

process_message-IsTotal_example :
    (process_message chain4 (aux 0 1 2) fresh).error ≢ some out_of_fuel
process_message-IsTotal_example = process_message-IsTotal chain4 (aux 0 1 2) fresh

-- Nodes 1 to 3 have voted 1 in round 0, both by BVB and by AUX.
abbrev voters : OrderedMap (Unit {0})
voters = (1, tt) ∷ (2, tt) ∷ (3, tt) ∷ []

abbrev aux_voters : OrderedMap (Option String)
aux_voters = (1, none) ∷ (2, none) ∷ (3, none) ∷ []

abbrev ready : Instance
ready = record fresh {
  bvb_true_votes = λ r. voters;
  aux_true_votes = λ r. aux_voters;
  bin_values = λ r. (1, tt) ∷ [];
}

ready-Inv : Inv chain4 ready
unfolding contains is_two_third
ready-Inv = record {
  bvb_sorted = λ b r. elim b as (λ c. IsSorted 1 4 (bvb_votes ready c r)) [
    | true ↦ omega arith
    | false ↦ tt
  ];
  aux_sorted = λ b r. elim b as (λ c. IsSorted 1 4 (aux_votes ready c r)) [
    | true ↦ omega arith
    | false ↦ tt
  ];
  bvb_quorum = λ r v h. ground arith;
  round_bound = omega arith;
  decision = λ h. cc;
}

round_completes_example :
    let o =
      proceed_with_decision_lottery_if_aux_two_third chain4
        (proceed_with_next_round chain4 round_fuel)
        0
        ready in
    (o.state.is_decided ≡ true) ⊎ (0 < o.state.current_round)
unfolding compute_random contains is_two_third
round_completes_example =
    round_completes chain4 ready 0 chain4-IsChain ready-Inv refl (omega arith) refl refl

no_bit_blocks_zero_example :
    let t = network_broadcast_value_if_third chain4 0 2 ready in
    (t.effects ≡ broadcast_bvb 0 2 ∷ []) × (network_broadcast_value 0 0 t ≡ t)
unfolding contains is_third get_bvb_vote_count
no_bit_blocks_zero_example = no_bit_blocks_zero chain4 0 2 ready (omega arith) refl refl
