-- ===== src/BinConsensus/State.antt =====
-- The fields of BinConsensusInstance, what it is configured with, what it sends and writes.
use skale_consensus.Prelude.{
  ℕ, Bool, true, false, not, Option, none, some, List, [], ◌∷◌, String, ◌==◌,
}
use skale_consensus.Prelude.OrderedMap.{OrderedMap, OrderedSet}

-- What an instance reads of its node and of the libraries that it calls. A signature share is the
-- string that stands for it on the wire.
pub record Env : Type 0 where
  pub node_count : ℕ
  pub schain_index : ℕ
  pub block_id : ℕ
  pub block_proposer_index : ℕ
  pub is_sgx_enabled : Bool
  -- The first eight bytes of the BLAKE3 hash of "block id:round:proposer index".
  pub hash_random : ℕ → ℕ → ℕ → ℕ
  -- The node's own share of the common coin, by round, and the check of another node's.
  pub sign_sig_share : ℕ → String
  pub verify_sig_share : ℕ → String → Bool
  -- The threshold signature library, on the shares that were added, oldest first.
  pub is_enough : List String → Bool
  pub merge_random : List String → ℕ

-- COMMON_COIN_ROUND, and the number of the last round.
abbrev pub common_coin_round : ℕ
common_coin_round = 4

abbrev pub last_round : ℕ
last_round = 100

-- What leaves the instance: network broadcasts, writes into the databases, the report to the block
-- consensus. Rounds come before values.
pub data Effect : Type 0 where
  broadcast_bvb : ℕ → ℕ → Effect
  broadcast_aux : ℕ → ℕ → Option String → Effect
  write_bvb_vote : ℕ → ℕ → ℕ → Effect
  write_bin_value : ℕ → ℕ → Effect
  write_random : ℕ → ℕ → Effect
  write_current_round : ℕ → Effect
  write_decided_round : ℕ → Effect
  write_decided_value : ℕ → Effect
  write_proposal : ℕ → ℕ → Effect
  report_decided : Bool → ℕ → ℕ → ℕ → Effect

pub record Instance : Type 0 where
  pub max_processing_time_ms : ℕ
  pub max_latency_time_ms : ℕ
  pub proposals : ℕ → Option ℕ
  pub broadcast_values : ℕ → OrderedSet
  pub is_decided : Bool
  pub decided_value : ℕ
  pub decided_round : ℕ
  pub current_round : ℕ
  pub bvb_true_votes : ℕ → OrderedSet
  pub bvb_false_votes : ℕ → OrderedSet
  pub aux_true_votes : ℕ → OrderedMap (Option String)
  pub aux_false_votes : ℕ → OrderedMap (Option String)
  pub bin_values : ℕ → OrderedSet
  -- Newest first.
  pub effects : List Effect

-- A new instance, not read from the database.
abbrev pub fresh : Instance
fresh = record {
  max_processing_time_ms = 0;
  max_latency_time_ms = 0;
  proposals = λ r. none;
  broadcast_values = λ r. [];
  is_decided = false;
  decided_value = 0;
  decided_round = 0;
  current_round = 0;
  bvb_true_votes = λ r. [];
  bvb_false_votes = λ r. [];
  aux_true_votes = λ r. [];
  aux_false_votes = λ r. [];
  bin_values = λ r. [];
  effects = [];
}

-- `explicit operator bool` of a `bin_consensus_value`, and the value that a `bool` converts to.
abbrev pub truthy : ℕ → Bool
truthy v = not (v == 0)

abbrev pub value_of : Bool → ℕ
value_of true = 1
value_of false = 0

abbrev pub emit : Effect → Instance → Instance
emit x s = record s { effects = x ∷ s.effects }

pub data Error : Type 0 where
  invalid_state : Error
  -- The model's own: the bound on nested rounds was too small.
  out_of_fuel : Error

-- What a call leaves: the state, also where it throws, and what it throws.
pub record Outcome : Type 0 where
  pub state : Instance
  pub error : Option Error

abbrev pub done : Instance → Outcome
done s = record { state = s; error = none }

abbrev pub throw : Error → Instance → Outcome
throw e s = record { state = s; error = some e }
