-- ===== src/BinConsensus/Broadcasts.antt =====
-- When a BVB value goes out, and what `broadcastValues` remembers of it.
use skale_consensus.Prelude.{ℕ, ◌≤◌, ◌<◌, ◌≡◌, true, false, ◌∷◌, ◌==◌, arith}
use skale_consensus.Prelude.OrderedMap.{contains, contains-emplace}
use skale_consensus.BinConsensus.State.{Env, Instance, broadcast_bvb, value_of}
use skale_consensus.BinConsensus.Votes.{is_third, get_bvb_vote_count}
use skale_consensus.BinConsensus.Rounds.{network_broadcast_value, network_broadcast_value_if_third}

-- A bit is broadcast at most once in a round: after its broadcast, asking again changes nothing.
pub network_broadcast_value_once :
    (r v : ℕ) (s : Instance)
    → v ≤ 1
    → network_broadcast_value r v (network_broadcast_value r v s) ≡ network_broadcast_value r v s
unfolding network_broadcast_value
network_broadcast_value_once r v s bit =
    ground (arith, contains-emplace v (value_of (v == 1)) tt (s.broadcast_values r))

-- A value of the wire that is no bit goes out, and it is 0 that is remembered as broadcast: the
-- broadcast of 0 that this node owes in that round is then left out.
pub no_bit_blocks_zero :
    (e : Env) (r v : ℕ) (s : Instance)
    → 1 < v
    → contains v (s.broadcast_values r) ≡ false
    → is_third e (get_bvb_vote_count s v r) ≡ true
    → let t = network_broadcast_value_if_third e r v s in
      (t.effects ≡ broadcast_bvb r v ∷ s.effects) × (network_broadcast_value r 0 t ≡ t)
unfolding network_broadcast_value_if_third network_broadcast_value
no_bit_blocks_zero e r v s no_bit new third =
    ground (arith, contains-emplace 0 (value_of (v == 1)) tt (s.broadcast_values r))
