-- ===== src/BinConsensus/Safety.antt =====
-- What holds of an instance after any history of messages.
use skale_consensus.Prelude.{◌*◌, u64, subst, ◌<◌, ◌≡◌, true, List, length, ltb, arith}
use skale_consensus.Prelude.OrderedMap.{IsSorted}
use skale_consensus.BinConsensus.State.{Env, Instance, fresh, truthy, common_coin_round}
use skale_consensus.BinConsensus.Votes.{is_third, is_two_third, aux_votes}
use skale_consensus.BinConsensus.Process.{Envelope, process_message, run}
use skale_consensus.BinConsensus.Invariant.{IsChain, Certificate, core, Inv, fresh-Inv, Evolves}
use skale_consensus.BinConsensus.Invariant.Messages.{
  IsFromNode, AreFromNodes, process_message-Good, run-Good, Good-refl,
}
use skale_consensus.BinConsensus.Quorum.{common, quorums_meet}

-- A message from a node of the chain, also one that makes the call throw, keeps the invariant:
-- votes are of distinct nodes of the chain, a value in `binValues` has two thirds of the BVB votes
-- of its round, the round is at most 100, and a decision has its certificate.
pub process_message-Inv :
    (e : Env) (me : Envelope) (s : Instance)
    → IsChain e
    → IsFromNode e me
    → Inv e s
    → Inv e (process_message e me s).state
process_message-Inv e me s ch from v =
    (process_message-Good e ch (core s) me from s (Good-refl e s v)).inv

-- Under such a message rounds only go up, no vote and no value of `binValues` is lost, and a
-- decision, once made, keeps its value and its round.
pub process_message-Evolves :
    (e : Env) (me : Envelope) (s : Instance)
    → IsChain e
    → IsFromNode e me
    → Inv e s
    → Evolves s (process_message e me s).state
process_message-Evolves e me s ch from v =
    (process_message-Good e ch (core s) me from s (Good-refl e s v)).evolves

-- After any history of messages from nodes of the chain, a new instance that has decided has a
-- certificate.
pub run-Certificate :
    (e : Env) (mes : List Envelope)
    → IsChain e
    → AreFromNodes e mes
    → (run e mes fresh).is_decided ≡ true
    → Certificate e (core (run e mes fresh))
run-Certificate e mes ch from decided =
    (run-Good e ch (core fresh) mes fresh from (Good-refl e fresh (fresh-Inv e))).inv.decision
      decided

-- Two nodes, each after its own history, that decide in the same round, in which the coin comes
-- from the hash, decide the same value.
pub same_round_agreement :
    (e d : Env) (mes mds : List Envelope)
    → IsChain e
    → IsChain d
    → AreFromNodes e mes
    → AreFromNodes d mds
    → d.block_id ≡ e.block_id
    → d.block_proposer_index ≡ e.block_proposer_index
    → d.hash_random ≡ e.hash_random
    → (run e mes fresh).is_decided ≡ true
    → (run d mds fresh).is_decided ≡ true
    → (run d mds fresh).decided_round ≡ (run e mes fresh).decided_round
    → (run e mes fresh).decided_round < common_coin_round
    → (run d mds fresh).decided_value ≡ (run e mes fresh).decided_value
same_round_agreement e d mes mds ch dh from drom block proposer hash de dd rounds early = cc (
  (run-Certificate e mes ch from de).coin (ground arith),
  (run-Certificate d mds dh drom dd).coin (ground arith),
)

-- Two nodes of one chain that decide, in whatever rounds, have AUX votes of more than a third of
-- the nodes in common.
pub deciders_share_a_third :
    (e d : Env) (mes mds : List Envelope)
    → IsChain e
    → IsChain d
    → d.node_count ≡ e.node_count
    → AreFromNodes e mes
    → AreFromNodes d mds
    → (run e mes fresh).is_decided ≡ true
    → (run d mds fresh).is_decided ≡ true
    → let s = run e mes fresh in
      let t = run d mds fresh in
      is_third e (
        common
          (aux_votes s (truthy s.decided_value) s.decided_round)
          (aux_votes t (truthy t.decided_value) t.decided_round))
      ≡ true
unfolding is_two_third
deciders_share_a_third e d mes mds ch dh nodes from drom de dd =
    quorums_meet e _ _ ch (gs.aux_sorted _ _)
      (subst (λ n. IsSorted 1 n (aux_votes t (truthy t.decided_value) t.decided_round)) nodes
        (gt.aux_sorted _ _))
      (run-Certificate e mes ch from de).aux_quorum
      (subst
        (λ n.
          ltb (u64 (2 * n))
            (u64 (length (aux_votes t (truthy t.decided_value) t.decided_round) * 3))
          ≡ true)
        nodes (run-Certificate d mds dh drom dd).aux_quorum)
  where
    t : Instance
    t = run d mds fresh

    gs : Inv e (run e mes fresh)
    gs = (run-Good e ch (core fresh) mes fresh from (Good-refl e fresh (fresh-Inv e))).inv

    gt : Inv d (run d mds fresh)
    gt = (run-Good d dh (core fresh) mds fresh drom (Good-refl d fresh (fresh-Inv d))).inv
