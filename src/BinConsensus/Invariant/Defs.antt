-- ===== src/BinConsensus/Invariant/Defs.antt =====
-- The invariant of a BinConsensusInstance and the order in which its states follow one another.
-- Both read the core of the state alone: what is sent, written and traced is not part of it.
use skale_consensus.Prelude.{
  ℕ, ◌*◌, ◌^◌, ◌≤◌, ◌<◌, ◌≡◌, Bool, true, false, ◌&&◌, Option, String, length, leb, arith, refl,
}
use skale_consensus.Prelude.OrderedMap.{OrderedMap, OrderedSet, contains, IsSorted}
use skale_consensus.BinConsensus.State.{Env, Instance, fresh, common_coin_round, last_round, truthy}
use skale_consensus.BinConsensus.Votes.{is_two_third, bvb_votes, aux_votes}
use skale_consensus.BinConsensus.Rounds.{common_coin_value}

-- A configuration of a chain: the node is one of the nodes, of which there are not absurdly many.
pub record IsChain (e : Env) : Type 0 where
  pub few : 6 * e.node_count < 2 ^ 64
  pub first : 1 ≤ e.schain_index
  pub last : e.schain_index ≤ e.node_count

pub record Core : Type 0 where
  pub is_decided : Bool
  pub decided_value : ℕ
  pub decided_round : ℕ
  pub current_round : ℕ
  pub bvb : Bool → ℕ → OrderedSet
  pub aux : Bool → ℕ → OrderedMap (Option String)
  pub bins : ℕ → OrderedSet

abbrev pub core : Instance → Core
core s = record {
  is_decided = s.is_decided;
  decided_value = s.decided_value;
  decided_round = s.decided_round;
  current_round = s.current_round;
  bvb = bvb_votes s;
  aux = aux_votes s;
  bins = s.bin_values;
}

-- What stands behind a decision.
pub record Certificate (e : Env) (c : Core) : Type 0 where
  pub bit : c.decided_value ≤ 1
  pub past : c.decided_round ≤ c.current_round
  pub in_bin_values : contains c.decided_value (c.bins c.decided_round) ≡ true
  pub aux_quorum : is_two_third e (length (c.aux (truthy c.decided_value) c.decided_round)) ≡ true
  pub coin :
      (e.is_sgx_enabled && leb common_coin_round c.decided_round) ≡ false
      → c.decided_value
        ≡ common_coin_value (e.hash_random e.block_id c.decided_round e.block_proposer_index)

pub record CoreInv (e : Env) (c : Core) : Type 0 where
  pub bvb_sorted : (b : Bool) (r : ℕ) → IsSorted 1 e.node_count (c.bvb b r)
  pub aux_sorted : (b : Bool) (r : ℕ) → IsSorted 1 e.node_count (c.aux b r)
  pub bvb_quorum :
      (r v : ℕ) → contains v (c.bins r) ≡ true → is_two_third e (length (c.bvb (truthy v) r)) ≡ true
  pub round_bound : c.current_round ≤ last_round
  pub decision : c.is_decided ≡ true → Certificate e c

abbrev pub Inv : Env → Instance → Type 0
Inv e s = CoreInv e (core s)

pub fresh-Inv : (e : Env) → Inv e fresh
unfolding contains
fresh-Inv e = record {
  bvb_sorted = λ b r. elim b as (λ c. IsSorted 1 e.node_count (bvb_votes fresh c r)) [
    | true ↦ tt
    | false ↦ tt
  ];
  aux_sorted = λ b r. elim b as (λ c. IsSorted 1 e.node_count (aux_votes fresh c r)) [
    | true ↦ tt
    | false ↦ tt
  ];
  bvb_quorum = λ r v h. cc;
  round_bound = omega arith;
  decision = λ h. cc;
}

-- A decision stands.
abbrev pub KeepsDecision : Core → Core → Type 0
KeepsDecision c d =
    c.is_decided ≡ true
    → (d.is_decided ≡ true)
      × (d.decided_value ≡ c.decided_value)
      × (d.decided_round ≡ c.decided_round)

-- Rounds go up, votes and values stay, a decision stands.
pub record CoreEvolves (c d : Core) : Type 0 where
  pub rounds : c.current_round ≤ d.current_round
  pub decided : KeepsDecision c d
  pub bvb_grows :
      (b : Bool) (r i : ℕ) → contains i (c.bvb b r) ≡ true → contains i (d.bvb b r) ≡ true
  pub aux_grows :
      (b : Bool) (r i : ℕ) → contains i (c.aux b r) ≡ true → contains i (d.aux b r) ≡ true
  pub bins_grow : (r v : ℕ) → contains v (c.bins r) ≡ true → contains v (d.bins r) ≡ true

abbrev pub Evolves : Instance → Instance → Type 0
Evolves s t = CoreEvolves (core s) (core t)

pub CoreEvolves-refl : (c : Core) → CoreEvolves c c
CoreEvolves-refl c = record {
  rounds = omega arith;
  decided = λ h. (h, refl, refl);
  bvb_grows = λ b r i h. h;
  aux_grows = λ b r i h. h;
  bins_grow = λ r v h. h;
}

pub CoreEvolves-trans : {a b c : Core} → CoreEvolves a b → CoreEvolves b c → CoreEvolves a c
CoreEvolves-trans p q = record {
  rounds = omega arith;
  decided = λ h. ground (arith, p.decided h, q.decided);
  bvb_grows = λ b r i h. q.bvb_grows b r i (p.bvb_grows b r i h);
  aux_grows = λ b r i h. q.aux_grows b r i (p.aux_grows b r i h);
  bins_grow = λ r v h. q.bins_grow r v (p.bins_grow r v h);
}

-- What every step of an instance keeps: the invariant, and that it follows the state `c`.
pub record CoreGood (e : Env) (c d : Core) : Type 0 where
  pub inv : CoreInv e d
  pub evolves : CoreEvolves c d

abbrev pub Good : Env → Core → Instance → Type 0
Good e c t = CoreGood e c (core t)
