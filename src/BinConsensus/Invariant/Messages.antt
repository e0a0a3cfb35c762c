-- ===== src/BinConsensus/Invariant/Messages.antt =====
-- Messages and histories of messages, against the invariant and the order of states.
-- A message that throws leaves its state behind, and the next one goes on from there.
use skale_consensus.Prelude.{
  ℕ, ◌+◌, ◌≤◌, Bool, ◌&&◌, Option, none, some, List, [], ◌∷◌, leb, ◌==◌, if_cases,
}
use skale_consensus.BinConsensus.State.{Env, Instance, Error, Outcome}
use skale_consensus.BinConsensus.Votes.{bvb_vote}
use skale_consensus.BinConsensus.Rounds.{proceed_with_next_round, round_fuel}
use skale_consensus.BinConsensus.Process.{
  MsgType, bvb_broadcast, aux_broadcast, other_type, MsgOrigin, origin_network, origin_parent,
  origin_child, Envelope, update_stats, if_already_decided_send_delayed_estimate_for_next_round,
  then_add_to_bin_values, process_bvb, after_aux_vote, process_aux, dispatch_network,
  process_network_message_impl, process_parent_proposal, dispatch_origin, process_message, run,
}
use skale_consensus.BinConsensus.Invariant.Defs.{IsChain, Core, core, CoreEvolves-refl, Inv, Good}
use skale_consensus.BinConsensus.Invariant.Steps.{
  network_broadcast_value-Good, network_broadcast_value_if_third-Good, set_proposal-Good,
  bvb_vote-Good, Voted, aux_vote-Good, proceed_with_decision_lottery-Good, add_to_bin_values-Good,
  proceed_with_next_round-Good,
}

-- The sender is a node of the chain: Network::receiveMessage looks it up, and the node's own
-- messages carry its own index.
pub record IsFromNode (e : Env) (me : Envelope) : Type 0 where
  pub first : 1 ≤ me.src_schain_index
  pub last : me.src_schain_index ≤ e.node_count

module _ (e : Env) (ch : IsChain e) (c : Core) where
  delayed-Good :
      (r : ℕ) (t : Instance)
      → Good e c t
      → Good e c (if_already_decided_send_delayed_estimate_for_next_round e r t).state
  unfolding if_already_decided_send_delayed_estimate_for_next_round
  delayed-Good r t g =
      if_cases {A = Outcome} (λ o. Good e c o.state) _ _ _
        (λ h. proceed_with_next_round-Good e ch c round_fuel t.decided_value t g) (λ h. g)

  then_add_to_bin_values-Good :
      (r v : ℕ) (o : Outcome) (x : Option Error)
      → Good e c o.state
      → Good e c (then_add_to_bin_values e r v o x).state
  then_add_to_bin_values-Good r v o (some x) g = g
  then_add_to_bin_values-Good r v o none g =
      add_to_bin_values-Good e ch c (proceed_with_next_round e round_fuel)
        (proceed_with_next_round-Good e ch c round_fuel) r v o.state g

  after_aux_vote-Good :
      (r : ℕ) (t : Instance)
      → Good e c t
      → (o : Option (Instance × Bool)) → Voted e ch c o
      → Good e c (after_aux_vote e r t o).state
  after_aux_vote-Good r t g none w = g
  after_aux_vote-Good r t g (some (u, new)) w =
      if_cases {A = Outcome} (λ o. Good e c o.state) (new && (r == u.current_round)) _ _
        (λ h.
          proceed_with_decision_lottery-Good e ch c (proceed_with_next_round e round_fuel)
            (proceed_with_next_round-Good e ch c round_fuel) r u w)
        (λ h. w)

  module _ (me : Envelope) (from : IsFromNode e me) where
    process_bvb-Good : (t : Instance) → Good e c t → Good e c (process_bvb e me t).state
    unfolding process_bvb
    process_bvb-Good t g =
        if_cases {A = Outcome} (λ o. Good e c o.state)
          (bvb_vote me.round me.value me.src_schain_index t).1 _ _
          (λ new. then_add_to_bin_values-Good me.round me.value _ _ (
            delayed-Good me.round _
              (network_broadcast_value_if_third-Good e ch c me.round me.value _ voted)))
          (λ old. voted)
      where
        voted : Good e c (bvb_vote me.round me.value me.src_schain_index t).0
        voted = bvb_vote-Good e ch c me.round me.value me.src_schain_index t g from.first from.last

    dispatch_network-Good :
        (k : MsgType) (t : Instance) → Good e c t → Good e c (dispatch_network e k me t).state
    unfolding dispatch_network process_aux
    dispatch_network-Good bvb_broadcast t g = process_bvb-Good t g
    dispatch_network-Good aux_broadcast t g = after_aux_vote-Good me.round t g _ (
        aux_vote-Good e ch c me.round me.value me.src_schain_index me.sig_share t g from.first
          from.last)
    dispatch_network-Good other_type t g = g

    process_network-Good :
        (t : Instance) → Good e c t → Good e c (process_network_message_impl e me t).state
    unfolding process_network_message_impl update_stats
    process_network-Good t g =
        if_cases {A = Outcome} (λ o. Good e c o.state) (leb me.round (t.current_round + 1)) _ _
          (λ h. dispatch_network-Good me.msg_type (update_stats me t) g) (λ h. g)

    process_parent_proposal-Good :
        (t : Instance) → Good e c t → Good e c (process_parent_proposal e me t).state
    unfolding process_parent_proposal
    process_parent_proposal-Good t g =
        if_cases {A = Outcome} (λ o. Good e c o.state) (me.round == 0) _ _
          (λ h.
            add_to_bin_values-Good e ch c (proceed_with_next_round e round_fuel)
              (proceed_with_next_round-Good e ch c round_fuel) me.round me.value _
              (bvb_vote-Good e ch c me.round me.value me.src_schain_index _
                (network_broadcast_value-Good e ch c me.round me.value _
                  (set_proposal-Good e ch c me.round me.value t g))
                from.first from.last))
          (λ h. g)

    dispatch_origin-Good :
        (k : MsgOrigin) (t : Instance) → Good e c t → Good e c (dispatch_origin e k me t).state
    unfolding dispatch_origin
    dispatch_origin-Good origin_network t g =
        if_cases {A = Outcome} (λ o. Good e c o.state) _ _ _ (λ h. process_network-Good t g)
          (λ h. g)
    dispatch_origin-Good origin_parent t g = process_parent_proposal-Good t g
    dispatch_origin-Good origin_child t g = g

    pub process_message-Good : (t : Instance) → Good e c t → Good e c (process_message e me t).state
    unfolding process_message
    process_message-Good t g =
        if_cases {A = Outcome} (λ o. Good e c o.state) _ _ _
          (λ h. dispatch_origin-Good me.origin t g) (λ h. g)

-- Every message of a history comes from a node.
abbrev pub AreFromNodes : Env → List Envelope → Type 0
AreFromNodes e [] = Unit
AreFromNodes e (me ∷ mes) = IsFromNode e me × AreFromNodes e mes

pub run-Good :
    (e : Env) (ch : IsChain e) (c : Core) (mes : List Envelope) (t : Instance)
    → AreFromNodes e mes
    → Good e c t
    → Good e c (run e mes t)
unfolding run
run-Good e ch c [] t from g = g
run-Good e ch c (me ∷ mes) t from g =
    run-Good e ch c mes _ from.1 (process_message-Good e ch c me from.0 t g)

-- A state follows itself.
pub Good-refl : (e : Env) (t : Instance) → Inv e t → Good e (core t) t
Good-refl e t v = record { inv = v; evolves = CoreEvolves-refl (core t) }
