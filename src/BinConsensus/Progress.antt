-- ===== src/BinConsensus/Progress.antt =====
-- How the lottery of a round comes to an end.
use skale_consensus.Prelude.{
  ℕ, suc, ◌+◌, subst, ◌<◌, ◌≡◌, ◌⊎◌, inl, inr, Bool, true, false, ◌&&◌, some, ltb, if_cases, refl,
  sym, arith, ◌==◌,
}
use skale_consensus.Prelude.OrderedMap.{length-le-range}
use skale_consensus.BinConsensus.State.{
  Env, Instance, Outcome, write_random, emit, last_round, value_of,
}
use skale_consensus.BinConsensus.Votes.{is_two_third, aux_votes, total_aux_votes, bvb_vote}
use skale_consensus.BinConsensus.Rounds.{
  common_coin_value, compute_random, verified_count, has_verified, decide,
  set_decided_round_and_value, play_decision_lottery, draw,
  proceed_with_decision_lottery_if_aux_two_third, enter_round, proceed_with_next_round, round_fuel,
}
use skale_consensus.BinConsensus.Invariant.{IsChain, core, Inv}
use skale_consensus.BinConsensus.Invariant.Updates.{is_two_third_mono}
use skale_consensus.BinConsensus.Invariant.Steps.{
  bvb_vote-Good, enter_round-Good, after_own_vote-Good, proceed_with_next_round-Good,
}
use skale_consensus.BinConsensus.Invariant.Messages.{Good-refl}
use skale_consensus.BinConsensus.Termination.{enter_round-current_round}

-- A round before the last with two thirds of the AUX votes is left for the next one.
advances :
    (e : Env) (fuel v : ℕ) (t : Instance)
    → IsChain e
    → Inv e t
    → t.current_round < last_round
    → is_two_third e (total_aux_votes t t.current_round) ≡ true
    → t.current_round < (proceed_with_next_round e (suc fuel) v t).state.current_round
unfolding proceed_with_next_round
advances e fuel v t ch inv early quorum =
    if_cases {A = Outcome} (λ o. t.current_round < o.state.current_round)
      (ltb t.current_round last_round && is_two_third e (total_aux_votes t t.current_round)) _ _
      (λ h.
        let g =
          after_own_vote-Good e ch (core u) (proceed_with_next_round e fuel)
            (proceed_with_next_round-Good e ch (core u) fuel) r v (bvb_vote r v e.schain_index u).0
            (bvb_vote r v e.schain_index u).1
            (bvb_vote-Good e ch (core u) r v e.schain_index u (Good-refl e u entered) ch.first
              ch.last) in
        omega (arith, g.evolves.rounds, enter_round-current_round r v t))
      (λ h. ground (arith, h, quorum))
  where
    r : ℕ
    r = t.current_round + 1

    u : Instance
    u = enter_round r v t

    entered : Inv e u
    entered =
        (enter_round-Good e ch (core t) r v t (Good-refl e t inv) (omega arith) (omega arith)).inv

total_quorum :
    (e : Env) (t : Instance)
    → IsChain e
    → Inv e t
    → is_two_third e
        (verified_count true t.current_round t + verified_count false t.current_round t)
      ≡ true
    → is_two_third e (total_aux_votes t t.current_round) ≡ true
unfolding total_aux_votes
total_quorum e t ch inv quorum =
    is_two_third_mono e ch _ _ (ground arith)
      (omega (
        arith,
        length-le-range 1 e.node_count (aux_votes t true t.current_round) (inv.aux_sorted true _),
        length-le-range 1 e.node_count (aux_votes t false t.current_round) (inv.aux_sorted false _),
      ))
      quorum

-- The lottery is total: with two thirds of AUX votes for values in `binValues`, in a round before
-- the last, an undecided instance whose coin can be computed decides or goes on to a later round.
pub round_completes :
    (e : Env) (s : Instance) (random : ℕ)
    → IsChain e
    → Inv e s
    → s.is_decided ≡ false
    → s.current_round < last_round
    → is_two_third e
        (verified_count true s.current_round s + verified_count false s.current_round s)
      ≡ true
    → compute_random e s.current_round s ≡ some random
    → let o =
        proceed_with_decision_lottery_if_aux_two_third e
          (proceed_with_next_round e round_fuel)
          s.current_round
          s in
      (o.state.is_decided ≡ true) ⊎ (s.current_round < o.state.current_round)
unfolding proceed_with_decision_lottery_if_aux_two_third play_decision_lottery decide
    set_decided_round_and_value total_aux_votes
round_completes e s random ch inv undecided early quorum drawn =
    if_cases P s.is_decided _ _ (λ h. cc)
      (λ h.
        if_cases P (s.current_round == s.current_round) _ _
          (λ now.
            if_cases P
              (is_two_third e
                (verified_count true s.current_round s + verified_count false s.current_round s))
              _ _ (λ q. subst (λ o. P (draw e next s.current_round s o)) (sym drawn) played)
              (λ few. cc))
          (λ other. ground (arith, other)))
  where
    P : Outcome → Type 0
    P o = (o.state.is_decided ≡ true) ⊎ (s.current_round < o.state.current_round)

    next : ℕ → Instance → Outcome
    next = proceed_with_next_round e round_fuel

    t : Instance
    t = emit (write_random s.current_round random) s

    on : (v : ℕ) → P (next v t)
    on v = inr (advances e last_round v t ch inv early (total_quorum e s ch inv quorum))

    a : Bool
    a = has_verified true s.current_round s

    b : Bool
    b = has_verified false s.current_round s

    played : P (play_decision_lottery next a b random t)
    played =
        if_cases P t.is_decided _ _ (λ h. cc)
          (λ h.
            if_cases P (a && b) _ _ (λ z. on _)
              (λ z.
                if_cases P (value_of a == common_coin_value random) _ _
                  (λ y. if_cases P t.is_decided _ _ (λ x. cc) (λ x. inl refl)) (λ y. on _)))
