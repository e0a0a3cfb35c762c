-- ===== src/BinConsensus/Termination.antt =====
-- The calls from one round into the next, and the bound on their depth.
use skale_consensus.Prelude.{
  ℕ, zero, suc, ◌+◌, ◌≤◌, ◌<◌, ◌∙◌, ◌≡◌, ◌≢◌, Bool, true, false, ◌&&◌, Option, none, some, ltb, leb,
  ◌==◌, if_cases, refl, arith, if◌then◌else◌, String, length,
}
use skale_consensus.Prelude.OrderedMap.{contains}
use skale_consensus.BinConsensus.State.{
  Env, Instance, Error, invalid_state, out_of_fuel, Outcome, done, last_round, emit, write_random,
  value_of,
}
use skale_consensus.BinConsensus.Votes.{
  is_two_third, total_aux_votes, bvb_vote, aux_vote_core, get_bvb_vote_count,
}
use skale_consensus.BinConsensus.Rounds.{
  network_broadcast_value_if_third, broadcast_aux_vote, own_share,
  aux_self_vote_and_broadcast_value, play_decision_lottery, common_coin_value, draw, compute_random,
  proceed_with_decision_lottery_if_aux_two_third, insert_into_bin_values, lottery_if_current,
  add_to_bin_values_if_two_thirds, enter_round, after_own_vote, proceed_with_next_round, round_fuel,
}
use skale_consensus.BinConsensus.Process.{
  MsgType, bvb_broadcast, aux_broadcast, other_type, MsgOrigin, origin_network, origin_parent,
  origin_child, Envelope, update_stats, if_already_decided_send_delayed_estimate_for_next_round,
  then_add_to_bin_values, process_bvb, after_aux_vote, process_aux, dispatch_network,
  process_network_message_impl, process_parent_proposal, dispatch_origin, process_message,
}

abbrev IsTotal : Outcome → Type 0
IsTotal o = o.error ≢ some out_of_fuel

returns : none ≢ some out_of_fuel
returns bad = cc

throws : some invalid_state ≢ some out_of_fuel
throws bad = cc

pub enter_round-current_round : (r v : ℕ) (t : Instance) → (enter_round r v t).current_round ≡ r
unfolding enter_round
enter_round-current_round r v t =
    if_cases {A = Instance} (λ u. u.current_round ≡ r) _ _ _ (λ h. refl) (λ h. refl)

bvb_vote-current_round :
    (r v i : ℕ) (t : Instance) → (bvb_vote r v i t).0.current_round ≡ t.current_round
unfolding bvb_vote
bvb_vote-current_round r v i t = refl

-- In a round `k` from which the next call is total.
module _ (e : Env) (next : ℕ → Instance → Outcome) (k : ℕ)
    (safe : (v : ℕ) (t : Instance) → t.current_round ≡ k → IsTotal (next v t)) where
  broadcast_aux_vote-IsTotal :
      (r v i : ℕ) (x : Option String) (t : Instance)
      → t.current_round ≡ k
      → IsTotal (broadcast_aux_vote e r v t (aux_vote_core r v i x t))
        × ((broadcast_aux_vote e r v t (aux_vote_core r v i x t)).state.current_round ≡ k)
  unfolding aux_vote_core
  broadcast_aux_vote-IsTotal r v i none t h = ground arith
  broadcast_aux_vote-IsTotal r v i (some x) t h = ground arith

  play-IsTotal :
      (a b : Bool) (random : ℕ) (t : Instance)
      → t.current_round ≡ k
      → IsTotal (play_decision_lottery next a b random t)
  unfolding play_decision_lottery
  play-IsTotal a b random t h =
      if_cases IsTotal t.is_decided _ _ (λ q. throws)
        (λ q.
          if_cases IsTotal (a && b) _ _ (λ q. safe _ t h)
            (λ q.
              if_cases IsTotal (value_of a == common_coin_value random) _ _
                (λ q. if_cases IsTotal t.is_decided _ _ (λ z. throws) (λ z. returns))
                (λ q. safe _ t h)))

  draw-IsTotal :
      (r : ℕ) (t : Instance) (o : Option ℕ) → t.current_round ≡ k → IsTotal (draw e next r t o)
  draw-IsTotal r t none h = throws
  draw-IsTotal r t (some random) h = play-IsTotal _ _ random (emit (write_random r random) t) h

  lottery-IsTotal :
      (r : ℕ) (t : Instance)
      → t.current_round ≡ k
      → IsTotal (proceed_with_decision_lottery_if_aux_two_third e next r t)
  unfolding proceed_with_decision_lottery_if_aux_two_third
  lottery-IsTotal r t h =
      if_cases IsTotal t.is_decided _ _ (λ q. returns)
        (λ q.
          if_cases IsTotal (r == t.current_round) _ _
            (λ q.
              if_cases IsTotal _ _ _ (λ q. draw-IsTotal r t (compute_random e r t) h)
                (λ q. returns))
            (λ q. throws))

  lottery_if_current-IsTotal :
      (r : ℕ) (o : Outcome)
      → o.state.current_round ≡ k
      → IsTotal o
      → (x : Option Error) → o.error ≡ x
      → IsTotal (lottery_if_current e next r o x)
  lottery_if_current-IsTotal r o h fine (some x) q = fine
  lottery_if_current-IsTotal r o h fine none q =
      if_cases IsTotal (r == o.state.current_round) _ _ (λ z. lottery-IsTotal r o.state h)
        (λ z. fine)

  add-IsTotal :
      (r v : ℕ) (t : Instance)
      → t.current_round ≡ k
      → IsTotal (add_to_bin_values_if_two_thirds e next r v t)
  unfolding add_to_bin_values_if_two_thirds insert_into_bin_values aux_self_vote_and_broadcast_value
  add-IsTotal r v t h =
      if_cases IsTotal (contains v (t.bin_values r)) _ _ (λ q. returns)
        (λ q.
          if_cases IsTotal (is_two_third e (get_bvb_vote_count t v r)) _ _
            (λ q. lottery_if_current-IsTotal r _ sent.1 sent.0 _ refl) (λ q. returns))
    where
      inserted : Instance
      inserted = insert_into_bin_values r v t

      voted : Outcome
      voted =
          broadcast_aux_vote e r v inserted
            (aux_vote_core r v e.schain_index (own_share e r) inserted)

      sent_done : Outcome
      sent_done = if ltb 1 (length (inserted.bin_values r)) then done inserted else voted

      sent : IsTotal sent_done × (sent_done.state.current_round ≡ k)
      sent =
          if_cases {A = Outcome} (λ o. IsTotal o × (o.state.current_round ≡ k)) _ _ _
            (λ q. (returns, h))
            (λ q. broadcast_aux_vote-IsTotal r v e.schain_index (own_share e r) inserted h)

  after_own_vote-IsTotal :
      (r v : ℕ) (t : Instance) (new : Bool)
      → t.current_round ≡ k
      → IsTotal (after_own_vote e next r v t new)
  after_own_vote-IsTotal r v t false h = returns
  after_own_vote-IsTotal r v t true h = add-IsTotal r v t h

-- Fuel for the rounds that are left is enough.
proceed_with_next_round-IsTotal :
    (e : Env) (fuel v : ℕ) (t : Instance)
    → 0 < fuel
    → last_round + 1 ≤ t.current_round + fuel
    → IsTotal (proceed_with_next_round e fuel v t)
unfolding proceed_with_next_round
proceed_with_next_round-IsTotal e zero v t some_fuel h = absurd (omega arith)
proceed_with_next_round-IsTotal e (suc fuel) v t some_fuel h =
    if_cases IsTotal (ltb t.current_round last_round && quorum) _ _
      (λ q.
        after_own_vote-IsTotal e (proceed_with_next_round e fuel) r
          (λ w u now. proceed_with_next_round-IsTotal e fuel w u (ground (arith, q)) (omega arith))
          r v _ _ (own_round t))
      (λ q. throws)
  where
    r : ℕ
    r = t.current_round + 1

    quorum : Bool
    quorum = is_two_third e (total_aux_votes t t.current_round)

    own_round :
        (u : Instance) → (bvb_vote r v e.schain_index (enter_round r v u)).0.current_round ≡ r
    own_round u = bvb_vote-current_round r v e.schain_index _ ∙ enter_round-current_round r v u

round_fuel-IsTotal :
    (e : Env) (v : ℕ) (t : Instance) → IsTotal (proceed_with_next_round e round_fuel v t)
round_fuel-IsTotal e v t =
    proceed_with_next_round-IsTotal e round_fuel v t (omega arith) (omega arith)

delayed-IsTotal :
    (e : Env) (r : ℕ) (t : Instance)
    → IsTotal (if_already_decided_send_delayed_estimate_for_next_round e r t)
unfolding if_already_decided_send_delayed_estimate_for_next_round
delayed-IsTotal e r t =
    if_cases IsTotal _ _ _ (λ z. round_fuel-IsTotal e t.decided_value t) (λ z. returns)

module _ (e : Env) (me : Envelope) where
  bvb-IsTotal : (t : Instance) → IsTotal (process_bvb e me t)
  unfolding process_bvb
  bvb-IsTotal t =
      if_cases IsTotal (bvb_vote me.round me.value me.src_schain_index t).1 _ _
        (λ q.
          last_call
            (if_already_decided_send_delayed_estimate_for_next_round e me.round (
              network_broadcast_value_if_third e me.round me.value
                (bvb_vote me.round me.value me.src_schain_index t).0))
            _ refl (delayed-IsTotal e me.round _))
        (λ q. returns)
    where
      last_call :
          (o : Outcome) (x : Option Error)
          → o.error ≡ x
          → IsTotal o
          → IsTotal (then_add_to_bin_values e me.round me.value o x)
      last_call o (some x) h fine = fine
      last_call o none h fine =
          add-IsTotal e _ o.state.current_round (λ v u now. round_fuel-IsTotal e v u) me.round
            me.value o.state refl

  aux-IsTotal :
      (t : Instance) (o : Option (Instance × Bool)) → IsTotal (after_aux_vote e me.round t o)
  aux-IsTotal t none = throws
  aux-IsTotal t (some (u, new)) =
      if_cases IsTotal (new && (me.round == u.current_round)) _ _
        (λ q.
          lottery-IsTotal e _ u.current_round (λ v w now. round_fuel-IsTotal e v w) me.round u refl)
        (λ q. returns)

  network-IsTotal : (k : MsgType) (t : Instance) → IsTotal (dispatch_network e k me t)
  unfolding dispatch_network process_aux
  network-IsTotal bvb_broadcast t = bvb-IsTotal t
  network-IsTotal aux_broadcast t = aux-IsTotal t _
  network-IsTotal other_type t = returns

  network_impl-IsTotal : (t : Instance) → IsTotal (process_network_message_impl e me t)
  unfolding process_network_message_impl
  network_impl-IsTotal t =
      if_cases IsTotal (leb me.round ((update_stats me t).current_round + 1)) _ _
        (λ z. network-IsTotal me.msg_type (update_stats me t)) (λ z. throws)

  origin-IsTotal : (k : MsgOrigin) (t : Instance) → IsTotal (dispatch_origin e k me t)
  unfolding dispatch_origin process_parent_proposal
  origin-IsTotal origin_network t =
      if_cases IsTotal _ _ _ (λ q. network_impl-IsTotal t) (λ q. returns)
  origin-IsTotal origin_parent t =
      if_cases IsTotal (me.round == 0) _ _
        (λ q. add-IsTotal e _ _ (λ v u now. round_fuel-IsTotal e v u) me.round me.value _ refl)
        (λ q. throws)
  origin-IsTotal origin_child t = returns

-- Whatever the state and the message, the rounds that one message takes an instance through end
-- within the bound of the model: the call returns, or throws an exception of the source.
pub process_message-IsTotal :
    (e : Env) (me : Envelope) (s : Instance) → (process_message e me s).error ≢ some out_of_fuel
unfolding process_message
process_message-IsTotal e me s =
    if_cases IsTotal _ _ _ (λ q. origin-IsTotal e me me.origin s) (λ q. throws)
