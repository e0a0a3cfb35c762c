-- ===== src/BinConsensus/Rounds.antt =====
-- Broadcasts, the decision lottery and the passage to the next round.
use skale_consensus.Prelude.{
  ℕ, zero, suc, ◌+◌, ◌%◌, Bool, true, false, ◌&&◌, Option, none, some, List, [], ◌∷◌, ◌++◌, String,
  length, ltb, leb, ◌==◌, if◌then◌else◌, update,
}
use skale_consensus.Prelude.OrderedMap.{OrderedMap, contains, emplace}
use skale_consensus.BinConsensus.State.{
  Env, Instance, broadcast_bvb, broadcast_aux, write_bin_value, write_random, write_current_round,
  write_decided_round, write_decided_value, write_proposal, report_decided, common_coin_round,
  last_round, value_of, emit, Error, invalid_state, out_of_fuel, Outcome, done, throw,
}
use skale_consensus.BinConsensus.Votes.{
  is_third, is_two_third, get_bvb_vote_count, total_aux_votes, bvb_vote, aux_vote_core,
}

unfoldable pub set_current_round : ℕ → Instance → Instance
set_current_round r s = emit (write_current_round r) (record s { current_round = r })

unfoldable pub set_proposal : ℕ → ℕ → Instance → Instance
set_proposal r v s = record (emit (write_proposal r v) s) {
  proposals = update s.proposals r (some v);
}

unfoldable pub set_decided_round_and_value : ℕ → ℕ → Instance → Instance
set_decided_round_and_value r v s =
    record (emit (write_decided_value v) (emit (write_decided_round r) s)) {
      is_decided = true;
      decided_round = r;
      decided_value = v;
    }

-- The set of broadcast values gets `v == 1`, whatever `v` is.
unfoldable pub network_broadcast_value : ℕ → ℕ → Instance → Instance
network_broadcast_value r v s =
    if contains v (s.broadcast_values r) then s else record (emit (broadcast_bvb r v) s) {
      broadcast_values =
          update s.broadcast_values r (emplace (value_of (v == 1)) tt (s.broadcast_values r));
    }

unfoldable pub network_broadcast_value_if_third : Env → ℕ → ℕ → Instance → Instance
unfolding network_broadcast_value
network_broadcast_value_if_third e r v s =
    if is_third e (get_bvb_vote_count s v r) then network_broadcast_value r v s else s

unfoldable pub insert_into_bin_values : ℕ → ℕ → Instance → Instance
insert_into_bin_values r v s = record (emit (write_bin_value r v) s) {
  bin_values = update s.bin_values r (emplace v tt (s.bin_values r));
}

-- The share that the constructor of AUXBroadcastMessage signs.
abbrev pub own_share : Env → ℕ → Option String
own_share e r = if leb common_coin_round r then some (e.sign_sig_share r) else none

-- What auxSelfVoteAndBroadcastValue does with its own vote.
abbrev pub broadcast_aux_vote : Env → ℕ → ℕ → Instance → Option (Instance × Bool) → Outcome
broadcast_aux_vote e r v s none = throw invalid_state s
broadcast_aux_vote e r v s (some (voted, new)) =
    done (emit (broadcast_aux r v (own_share e r)) voted)

-- auxSelfVoteAndBroadcastValue, auxSelfVote within it.
unfoldable pub aux_self_vote_and_broadcast_value : Env → ℕ → ℕ → Instance → Outcome
aux_self_vote_and_broadcast_value e r v s =
    broadcast_aux_vote e r v s (aux_vote_core r v e.schain_index (own_share e r) s)

-- The loops of calculateBLSRandom over the votes of one value: a vote with no share is an error, and
-- enough shares end the loop.
unfoldable pub add_sig_shares :
    Env → OrderedMap (Option String) → List String → Option (List String)
add_sig_shares e [] shares = some shares
add_sig_shares e ((i, none) ∷ votes) shares = none
add_sig_shares e ((i, some x) ∷ votes) shares =
    let added = shares ++ x ∷ [] in
    let rest = add_sig_shares e votes added in if e.is_enough added then some added else rest

-- The votes that count in `binValues`, as the two tests of the source select them.
abbrev pub verified_votes :
    Bool → ℕ → OrderedMap (Option String) → Instance → OrderedMap (Option String)
verified_votes b r votes s = if contains (value_of b) (s.bin_values r) then votes else []

unfoldable pub calculate_bls_random : Env → ℕ → Instance → Option ℕ
unfolding add_sig_shares
calculate_bls_random e r s =
    elim (add_sig_shares e (verified_votes true r (s.aux_true_votes r) s) []) [
      | none ↦ none
      | some a ↦ elim (add_sig_shares e (verified_votes false r (s.aux_false_votes r) s) a) [
        | none ↦ none
        | some b ↦ if e.is_enough b then some (e.merge_random b) else none
      ]
    ]

-- computeRandom, before it is written to the database.
unfoldable pub compute_random : Env → ℕ → Instance → Option ℕ
unfolding calculate_bls_random
compute_random e r s =
    if e.is_sgx_enabled && leb common_coin_round r
    then calculate_bls_random e r s
    else some (e.hash_random e.block_id r e.block_proposer_index)

-- decide: the report goes to the block consensus; nothing of the instance follows it.
unfoldable pub decide : ℕ → Instance → Outcome
unfolding set_decided_round_and_value
decide v s =
    if s.is_decided
    then throw invalid_state s
    else done (
        emit
          (report_decided (v == 1) s.current_round s.max_processing_time_ms s.max_latency_time_ms)
          (set_decided_round_and_value s.current_round v s))

-- `_random % 2 == 0`
abbrev pub common_coin_value : ℕ → ℕ
common_coin_value random = value_of (random % 2 == 0)

-- playDecisionLottery. `next` is proceedWithNextRound.
unfoldable pub play_decision_lottery :
    (ℕ → Instance → Outcome) → Bool → Bool → ℕ → Instance → Outcome
unfolding decide
play_decision_lottery next has_true has_false random s =
    if s.is_decided
    then throw invalid_state s
    else if has_true && has_false
    then next (common_coin_value random) s
    else if value_of has_true == common_coin_value random
    then decide (value_of has_true) s
    else next (value_of has_true) s

-- The votes of one value that proceedWithDecisionLotteryIfAUXTwoThird counts.
abbrev pub verified_count : Bool → ℕ → Instance → ℕ
verified_count true r s = length (verified_votes true r (s.aux_true_votes r) s)
verified_count false r s = length (verified_votes false r (s.aux_false_votes r) s)

abbrev pub has_verified : Bool → ℕ → Instance → Bool
has_verified b r s = ltb 0 (verified_count b r s)

-- The part of proceedWithDecisionLotteryIfAUXTwoThird that follows its test.
abbrev pub draw : Env → (ℕ → Instance → Outcome) → ℕ → Instance → Option ℕ → Outcome
draw e next r s none = throw invalid_state s
draw e next r s (some random) =
    play_decision_lottery next (has_verified true r s) (has_verified false r s) random
      (emit (write_random r random) s)

unfoldable pub proceed_with_decision_lottery_if_aux_two_third :
    Env → (ℕ → Instance → Outcome) → ℕ → Instance → Outcome
proceed_with_decision_lottery_if_aux_two_third e next r s =
    if s.is_decided
    then done s
    else if r == s.current_round
    then if is_two_third e (verified_count true r s + verified_count false r s)
      then draw e next r s (compute_random e r s)
      else done s
    else throw invalid_state s

-- What addToBinValuesIfTwoThirds does last, unless the call before it threw.
abbrev pub lottery_if_current :
    Env → (ℕ → Instance → Outcome) → ℕ → Outcome → Option Error → Outcome
lottery_if_current e next r o (some x) = o
lottery_if_current e next r o none =
    if r == o.state.current_round
    then proceed_with_decision_lottery_if_aux_two_third e next r o.state
    else o

unfoldable pub add_to_bin_values_if_two_thirds :
    Env → (ℕ → Instance → Outcome) → ℕ → ℕ → Instance → Outcome
add_to_bin_values_if_two_thirds e next r v s =
    let inserted = insert_into_bin_values r v s in
    let sent =
      if ltb 1 (length (inserted.bin_values r))
      then done inserted
      else aux_self_vote_and_broadcast_value e r v inserted in
    let rest = lottery_if_current e next r sent sent.error in
    if contains v (s.bin_values r)
    then done s
    else if is_two_third e (get_bvb_vote_count s v r)
    then rest
    else done s

-- What proceedWithNextRound does up to its own vote.
unfoldable pub enter_round : ℕ → ℕ → Instance → Instance
unfolding set_current_round set_proposal network_broadcast_value
enter_round r v s = network_broadcast_value r v (set_proposal r v (set_current_round r s))

-- What proceedWithNextRound does after its own vote, unless that is a duplicate.
abbrev pub after_own_vote : Env → (ℕ → Instance → Outcome) → ℕ → ℕ → Instance → Bool → Outcome
after_own_vote e next r v s false = done s
after_own_vote e next r v s true = add_to_bin_values_if_two_thirds e next r v s

-- proceedWithNextRound. It calls itself through the lottery of the round that it enters, and fuel
-- bounds how deep.
unfoldable pub proceed_with_next_round : Env → ℕ → ℕ → Instance → Outcome
proceed_with_next_round e zero v s = throw out_of_fuel s
proceed_with_next_round e (suc fuel) v s =
    let r = s.current_round + 1 in
    let voted = bvb_vote r v e.schain_index (enter_round r v s) in
    let rest = after_own_vote e (proceed_with_next_round e fuel) r v voted.0 voted.1 in
    if ltb s.current_round last_round && is_two_third e (total_aux_votes s s.current_round)
    then rest
    else throw invalid_state s

-- A round is entered at most this often.
abbrev pub round_fuel : ℕ
round_fuel = last_round + 1
