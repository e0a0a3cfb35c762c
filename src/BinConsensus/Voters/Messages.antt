-- ===== src/BinConsensus/Voters/Messages.antt =====
-- Where the AUX votes of an instance come from: its messages and runs.
use skale_consensus.Prelude.{
  ℕ, ◌+◌, ◌≡◌, ◌⊎◌, Bool, ◌&&◌, Option, none, some, List, [], ◌∷◌, leb, ◌==◌, arith, refl, if_cases,
  inl, inr,
}
use skale_consensus.BinConsensus.State.{
  Env, Instance, Error, Outcome, done, throw, invalid_state, truthy,
}
use skale_consensus.BinConsensus.Votes.{
  is_third, is_two_third, get_bvb_vote_count, total_aux_votes, bvb_vote,
}
use skale_consensus.BinConsensus.Rounds.{
  set_proposal, network_broadcast_value, network_broadcast_value_if_third,
  proceed_with_decision_lottery_if_aux_two_third, add_to_bin_values_if_two_thirds,
  proceed_with_next_round, round_fuel,
}
use skale_consensus.BinConsensus.Process.{
  MsgType, bvb_broadcast, aux_broadcast, other_type, MsgOrigin, origin_network, origin_parent,
  origin_child, Envelope, update_stats, if_already_decided_send_delayed_estimate_for_next_round,
  then_add_to_bin_values, process_bvb, after_aux_vote, process_aux, dispatch_network,
  process_network_message_impl, process_parent_proposal, dispatch_origin, process_message, run,
}
use skale_consensus.BinConsensus.Voters.{
  Source, Sourced, Voted, Leaves, network_broadcast_value-Sourced, aux_vote-Sourced,
  lottery-Sourced, add_to_bin_values-Sourced, proceed_with_next_round-Sourced,
}
use skale_consensus.BinConsensus.Process.{is_bin_consensus_type}

-- An AUX message of node `i` to the instance, for the round `r`, with a value that counts as `b`.
pub record IsAux (e : Env) (b : Bool) (r i : ℕ) (me : Envelope) : Type 0 where
  pub from_network : me.origin ≡ origin_network
  pub is_aux : me.msg_type ≡ aux_broadcast
  pub block : me.block_id ≡ e.block_id
  pub proposer : me.block_proposer_index ≡ e.block_proposer_index
  pub round : me.round ≡ r
  pub value : truthy me.value ≡ b
  pub sender : me.src_schain_index ≡ i

-- One of the messages is such a message.
abbrev pub IsSent : Env → List Envelope → Bool → ℕ → ℕ → Type 0
IsSent e [] b r i = ⊥
IsSent e (me ∷ mes) b r i = IsAux e b r i me ⊎ IsSent e mes b r i

module _ (e : Env) (F : Source) (own : (b : Bool) (r : ℕ) → F b r e.schain_index) where
  delayed-Sourced :
      (r : ℕ) (t : Instance)
      → Sourced e F own t
      → Leaves e F own (if_already_decided_send_delayed_estimate_for_next_round e r t)
  unfolding if_already_decided_send_delayed_estimate_for_next_round
  delayed-Sourced r t g =
      if_cases (Leaves e F own)
        (t.is_decided
          && (r == t.current_round + 1)
          && is_two_third e (total_aux_votes t t.current_round))
        (proceed_with_next_round e round_fuel t.decided_value t) (done t)
        (λ h. proceed_with_next_round-Sourced e F own round_fuel t.decided_value t g) (λ h. g)

  then_add_to_bin_values-Sourced :
      (r v : ℕ) (o : Outcome) (x : Option Error)
      → Leaves e F own o
      → Leaves e F own (then_add_to_bin_values e r v o x)
  then_add_to_bin_values-Sourced r v o (some x) g = g
  then_add_to_bin_values-Sourced r v o none g =
      add_to_bin_values-Sourced e F own (proceed_with_next_round e round_fuel)
        (proceed_with_next_round-Sourced e F own round_fuel) r v o.state g

  network_if_third-Sourced :
      (r v : ℕ) (t : Instance)
      → Sourced e F own t
      → Sourced e F own (network_broadcast_value_if_third e r v t)
  unfolding network_broadcast_value_if_third
  network_if_third-Sourced r v t g =
      if_cases (Sourced e F own) (is_third e (get_bvb_vote_count t v r))
        (network_broadcast_value r v t) t (λ h. network_broadcast_value-Sourced e F own r v t g)
        (λ h. g)

  process_bvb-Sourced :
      (me : Envelope) (t : Instance) → Sourced e F own t → Leaves e F own (process_bvb e me t)
  unfolding process_bvb bvb_vote
  process_bvb-Sourced me t g =
      let voted = bvb_vote me.round me.value me.src_schain_index t in
      let sent : Outcome =
        if_already_decided_send_delayed_estimate_for_next_round e me.round
          (network_broadcast_value_if_third e me.round me.value voted.0) in
      if_cases (Leaves e F own) voted.1 (then_add_to_bin_values e me.round me.value sent sent.error)
        (done voted.0)
        (λ new. then_add_to_bin_values-Sourced me.round me.value sent sent.error (
          delayed-Sourced me.round (network_broadcast_value_if_third e me.round me.value voted.0)
            (network_if_third-Sourced me.round me.value voted.0 g)))
        (λ old. g)

  after_aux_vote-Sourced :
      (r : ℕ) (t : Instance)
      → Sourced e F own t
      → (o : Option (Instance × Bool)) → Voted e F own o
      → Leaves e F own (after_aux_vote e r t o)
  after_aux_vote-Sourced r t g none w = g
  after_aux_vote-Sourced r t g (some (u, new)) w =
      if_cases (Leaves e F own) (new && (r == u.current_round))
        (proceed_with_decision_lottery_if_aux_two_third e (proceed_with_next_round e round_fuel) r
          u)
        (done u)
        (λ h.
          lottery-Sourced e F own (proceed_with_next_round e round_fuel)
            (proceed_with_next_round-Sourced e F own round_fuel) r u w)
        (λ h. w)

  module _ (me : Envelope) where
    dispatch_network-Sourced :
        (k : MsgType) (t : Instance)
        → (k ≡ aux_broadcast → F (truthy me.value) me.round me.src_schain_index)
        → Sourced e F own t
        → Leaves e F own (dispatch_network e k me t)
    unfolding dispatch_network process_aux
    dispatch_network-Sourced bvb_broadcast t f g = process_bvb-Sourced me t g
    dispatch_network-Sourced aux_broadcast t f g =
        after_aux_vote-Sourced me.round t g _
          (aux_vote-Sourced e F own me.round me.value me.src_schain_index me.sig_share t (f refl) g)
    dispatch_network-Sourced other_type t f g = g

    process_parent_proposal-Sourced :
        (t : Instance) → Sourced e F own t → Leaves e F own (process_parent_proposal e me t)
    unfolding process_parent_proposal set_proposal bvb_vote
    process_parent_proposal-Sourced t g =
        let shown : Instance =
          network_broadcast_value me.round me.value (set_proposal me.round me.value t) in
        let voted : Instance = (bvb_vote me.round me.value me.src_schain_index shown).0 in
        if_cases (Leaves e F own) (me.round == 0)
          (add_to_bin_values_if_two_thirds e (proceed_with_next_round e round_fuel) me.round
            me.value voted)
          (throw invalid_state t)
          (λ h.
            add_to_bin_values-Sourced e F own (proceed_with_next_round e round_fuel)
              (proceed_with_next_round-Sourced e F own round_fuel) me.round me.value voted
              (network_broadcast_value-Sourced e F own me.round me.value
                (set_proposal me.round me.value t) g))
          (λ h. g)

    process_network-Sourced :
        (t : Instance)
        → (me.msg_type ≡ aux_broadcast → F (truthy me.value) me.round me.src_schain_index)
        → Sourced e F own t
        → Leaves e F own (process_network_message_impl e me t)
    unfolding process_network_message_impl update_stats
    process_network-Sourced t f g =
        let timed : Instance = update_stats me t in
        if_cases (Leaves e F own) (leb me.round (timed.current_round + 1))
          (dispatch_network e me.msg_type me timed) (throw invalid_state timed)
          (λ h. dispatch_network-Sourced me.msg_type timed f g) (λ h. g)

    dispatch_origin-Sourced :
        (k : MsgOrigin) (t : Instance)
        → (k ≡ origin_network
            → me.msg_type ≡ aux_broadcast
            → F (truthy me.value) me.round me.src_schain_index)
        → Sourced e F own t
        → Leaves e F own (dispatch_origin e k me t)
    unfolding dispatch_origin
    dispatch_origin-Sourced origin_network t f g =
        if_cases (Leaves e F own) (is_bin_consensus_type me.msg_type)
          (process_network_message_impl e me t) (done t) (λ h. process_network-Sourced t (f refl) g)
          (λ h. g)
    dispatch_origin-Sourced origin_parent t f g = process_parent_proposal-Sourced t g
    dispatch_origin-Sourced origin_child t f g = g

    process_message-Sourced :
        (t : Instance)
        → ((b : Bool) (r i : ℕ) → IsAux e b r i me → F b r i)
        → Sourced e F own t
        → Leaves e F own (process_message e me t)
    unfolding process_message
    process_message-Sourced t f g =
        if_cases (Leaves e F own)
          ((me.block_id == e.block_id) && (me.block_proposer_index == e.block_proposer_index))
          (dispatch_origin e me.origin me t) (throw invalid_state t)
          (λ h.
            dispatch_origin-Sourced me.origin t
              (λ o k. f (truthy me.value) me.round me.src_schain_index (record {
                from_network = o;
                is_aux = k;
                block = ground (arith, h);
                proposer = ground (arith, h);
                round = refl;
                value = refl;
                sender = refl;
              }))
              g)
          (λ h. g)

  pub run-Sourced :
      (mes : List Envelope) (t : Instance)
      → ((b : Bool) (r i : ℕ) → IsSent e mes b r i → F b r i)
      → Sourced e F own t
      → Sourced e F own (run e mes t)
  unfolding run
  run-Sourced [] t f g = g
  run-Sourced (me ∷ mes) t f g =
      run-Sourced mes (process_message e me t).state (λ b r i s. f b r i (inr s))
        (process_message-Sourced me t (λ b r i s. f b r i (inl s)) g)
