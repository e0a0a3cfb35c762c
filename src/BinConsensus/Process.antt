-- ===== src/BinConsensus/Process.antt =====
-- processMessage and what it dispatches to.
use skale_consensus.Prelude.{
  ℕ, ◌+◌, ◌-◌, ◌^◌, ◌%◌, Bool, true, false, ◌&&◌, Option, none, some, List, [], ◌∷◌, String, ltb,
  leb, ◌==◌, if◌then◌else◌,
}
use skale_consensus.BinConsensus.State.{Env, Instance, Error, invalid_state, Outcome, done, throw}
use skale_consensus.BinConsensus.Votes.{is_two_third, total_aux_votes, bvb_vote, aux_vote}
use skale_consensus.BinConsensus.Rounds.{
  set_proposal, network_broadcast_value, network_broadcast_value_if_third,
  proceed_with_decision_lottery_if_aux_two_third, add_to_bin_values_if_two_thirds,
  proceed_with_next_round, round_fuel,
}

pub data MsgType : Type 0 where
  bvb_broadcast aux_broadcast other_type : MsgType

pub data MsgOrigin : Type 0 where
  origin_network origin_parent origin_child : MsgOrigin

-- A message in its envelope, with the time at which it is processed.
pub record Envelope : Type 0 where
  pub origin : MsgOrigin
  pub msg_type : MsgType
  pub block_id : ℕ
  pub block_proposer_index : ℕ
  pub round : ℕ
  pub value : ℕ  -- uint8_t
  pub sig_share : Option String
  pub src_schain_index : ℕ
  pub time_ms : ℕ
  pub arrival_time : ℕ
  pub now : ℕ

-- int64_t of a difference of two uint64_t, and 0 for a negative one.
abbrev pub nonnegative_difference : ℕ → ℕ → ℕ
nonnegative_difference a b = let d = (a + 2 ^ 64 - b) % 2 ^ 64 in if ltb d (2 ^ 63) then d else 0

unfoldable pub update_stats : Envelope → Instance → Instance
update_stats me s =
    let processing = (me.now + 2 ^ 64 - me.arrival_time) % 2 ^ 64 in
    let latency = nonnegative_difference me.arrival_time me.time_ms in
    record s {
      max_processing_time_ms =
          if ltb s.max_processing_time_ms processing then processing else s.max_processing_time_ms;
      max_latency_time_ms =
          if ltb s.max_latency_time_ms latency then latency else s.max_latency_time_ms;
    }

unfoldable pub if_already_decided_send_delayed_estimate_for_next_round :
    Env → ℕ → Instance → Outcome
if_already_decided_send_delayed_estimate_for_next_round e r s =
    if s.is_decided
      && (r == s.current_round + 1)
      && is_two_third e (total_aux_votes s s.current_round)
    then proceed_with_next_round e round_fuel s.decided_value s
    else done s

-- The last call for a BVB message, unless the one before it threw.
abbrev pub then_add_to_bin_values : Env → ℕ → ℕ → Outcome → Option Error → Outcome
then_add_to_bin_values e r v o (some x) = o
then_add_to_bin_values e r v o none =
    add_to_bin_values_if_two_thirds e (proceed_with_next_round e round_fuel) r v o.state

unfoldable pub process_bvb : Env → Envelope → Instance → Outcome
process_bvb e me s =
    let voted = bvb_vote me.round me.value me.src_schain_index s in
    let sent =
      if_already_decided_send_delayed_estimate_for_next_round e me.round
        (network_broadcast_value_if_third e me.round me.value voted.0) in
    let rest = then_add_to_bin_values e me.round me.value sent sent.error in
    if voted.1 then rest else done voted.0

-- What follows auxVote: nothing for a duplicate, and the lottery for the current round.
abbrev pub after_aux_vote : Env → ℕ → Instance → Option (Instance × Bool) → Outcome
after_aux_vote e r s none = throw invalid_state s
after_aux_vote e r s (some (voted, new)) =
    if new && (r == voted.current_round)
    then proceed_with_decision_lottery_if_aux_two_third e (proceed_with_next_round e round_fuel) r
        voted
    else done voted

unfoldable pub process_aux : Env → Envelope → Instance → Outcome
process_aux e me s =
    after_aux_vote e me.round s (aux_vote e me.round me.value me.src_schain_index me.sig_share s)

unfoldable pub dispatch_network : Env → MsgType → Envelope → Instance → Outcome
dispatch_network e bvb_broadcast me s = process_bvb e me s
dispatch_network e aux_broadcast me s = process_aux e me s
dispatch_network e other_type me s = done s

-- processNetworkMessageImpl, with the test of the message's type in processMessage.
unfoldable pub process_network_message_impl : Env → Envelope → Instance → Outcome
unfolding dispatch_network
process_network_message_impl e me s =
    let timed = update_stats me s in
    if leb me.round (timed.current_round + 1)
    then dispatch_network e me.msg_type me timed
    else throw invalid_state timed

unfoldable pub process_parent_proposal : Env → Envelope → Instance → Outcome
process_parent_proposal e me s =
    if me.round == 0
    then add_to_bin_values_if_two_thirds e (proceed_with_next_round e round_fuel) me.round me.value
        (bvb_vote me.round me.value me.src_schain_index
          (network_broadcast_value me.round me.value (set_proposal me.round me.value s))).0
    else throw invalid_state s

abbrev pub is_bin_consensus_type : MsgType → Bool
is_bin_consensus_type other_type = false
is_bin_consensus_type t = true

unfoldable pub dispatch_origin : Env → MsgOrigin → Envelope → Instance → Outcome
dispatch_origin e origin_network me s =
    if is_bin_consensus_type me.msg_type then process_network_message_impl e me s else done s
dispatch_origin e origin_parent me s = process_parent_proposal e me s
dispatch_origin e origin_child me s = done s

unfoldable pub process_message : Env → Envelope → Instance → Outcome
unfolding dispatch_origin
process_message e me s =
    if (me.block_id == e.block_id) && (me.block_proposer_index == e.block_proposer_index)
    then dispatch_origin e me.origin me s
    else throw invalid_state s

-- A history of messages. The loop that hands them out goes on after an exception.
unfoldable pub run : Env → List Envelope → Instance → Instance
run e [] s = s
run e (me ∷ mes) s = run e mes (process_message e me s).state
