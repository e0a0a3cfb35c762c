-- ===== src/BinConsensus/Certified.antt =====
-- What stands behind the decisions of a binary consensus.
use skale_consensus.Prelude.{
  ℕ, suc, ◌+◌, ◌*◌, ◌^◌, ◌<◌, ◌≤◌, ◌≡◌, ◌⊎◌, Bool, true, false, ◌&&◌, List, length, leb, arith,
  refl, inl, inr,
}
use skale_consensus.Prelude.OrderedMap.{contains}
use skale_consensus.BinConsensus.State.{Env, Instance, truthy, common_coin_round}
use skale_consensus.BinConsensus.Votes.{is_two_third, aux_votes}
use skale_consensus.BinConsensus.Rounds.{common_coin_value}
use skale_consensus.BinConsensus.Process.{Envelope, run}
use skale_consensus.Prelude.OrderedMap.{IsSorted, length-le-range}
use skale_consensus.BinConsensus.State.{fresh}
use skale_consensus.BinConsensus.Invariant.{IsChain, core, Inv, fresh-Inv}
use skale_consensus.BinConsensus.Invariant.Messages.{AreFromNodes, run-Good, Good-refl}
use skale_consensus.BinConsensus.Safety.{run-Certificate}
use skale_consensus.BinConsensus.Voters.Messages.{IsSent, run-Sourced}

-- Two thirds of the nodes, in numbers.
quorum_lem :
    (e : Env) (count : ℕ)
    → 6 * e.node_count < 2 ^ 64
    → count ≤ e.node_count
    → is_two_third e count ≡ true
    → 2 * e.node_count < 3 * count
unfolding is_two_third
quorum_lem e count few le q = ground (arith, q)

-- After any history of messages from nodes of the chain, a new instance that has decided has decided a
-- bit that is in `binValues` of the round of the decision. More than two thirds of the nodes stand in
-- that round's map of AUX votes for the bit: each is a node of the chain, is there once, and is either
-- the node itself or one that sent, in the history, an AUX message of that round to this instance, with
-- a value that counts as the bit (any but 0 counts as 1). Where the round's coin comes from the hash, the
-- bit is the coin's.
pub run-certified :
    (e : Env) (mes : List Envelope)
    → IsChain e
    → AreFromNodes e mes
    → (run e mes fresh).is_decided ≡ true
    → let s = run e mes fresh in
      let bit = truthy s.decided_value in
      let votes = aux_votes s bit s.decided_round in
      (s.decided_value ≤ 1)
      × (contains s.decided_value (s.bin_values s.decided_round) ≡ true)
      × IsSorted 1 e.node_count votes
      × (2 * e.node_count < 3 * length votes)
      × ((i : ℕ)
          → contains i votes ≡ true
          → (i ≡ e.schain_index) ⊎ IsSent e mes bit s.decided_round i)
      × ((e.is_sgx_enabled && leb common_coin_round s.decided_round) ≡ false
          → s.decided_value
            ≡ common_coin_value (e.hash_random e.block_id s.decided_round e.block_proposer_index))
unfolding contains
run-certified e mes ch from decided =
    let s : Instance = run e mes fresh in
    let bit : Bool = truthy s.decided_value in
    let c = run-Certificate e mes ch from decided in
    let inv : Inv e s =
      (run-Good e ch (core fresh) mes fresh from (Good-refl e fresh (fresh-Inv e))).inv in
    let few : length (aux_votes s bit s.decided_round) + 1 ≤ suc e.node_count =
      length-le-range 1 e.node_count (aux_votes s bit s.decided_round)
        (inv.aux_sorted bit s.decided_round) (omega arith) in
    (
      c.bit,
      c.in_bin_values,
      inv.aux_sorted bit s.decided_round,
      quorum_lem e (length (aux_votes s bit s.decided_round)) ch.few (omega (arith, few))
          c.aux_quorum,
      λ i h.
          run-Sourced e (λ b r j. (j ≡ e.schain_index) ⊎ IsSent e mes b r j) (λ b r. inl refl) mes
            fresh (λ b r j t. inr t) (elim [ true ↦ λ r j x. cc | false ↦ λ r j x. cc ]) bit
            s.decided_round i h,
      c.coin,
    )
