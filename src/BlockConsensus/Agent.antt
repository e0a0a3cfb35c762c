-- ===== src/BlockConsensus/Agent.antt =====
-- The state of BlockConsensusAgent and its operations.
use skale_consensus.Prelude.{
  ℕ, ◌+◌, ◌-◌, Bool, true, false, not, ◌&&◌, Option, none, some, List, [], ◌∷◌, String, length, ltb,
  leb, ◌==◌, if◌then◌else◌, u64,
}
use skale_consensus.Prelude.OrderedMap.{OrderedMap, emplace}
use skale_consensus.BlockConsensus.Cache.{LruCache}
use skale_consensus.BlockConsensus.Choice.{choose}

-- ChildBVDecidedMessage.
pub record ChildDecided : Type 0 where
  pub block_id : ℕ
  pub block_proposer_index : ℕ
  pub value : Bool
  pub round : ℕ
  pub max_processing_time_ms : ℕ
  pub max_latency_time_ms : ℕ

-- What the agent reads of its chain: the seed is the first eight bytes of a committed block's hash,
-- if the block can be read.
pub record Chain : Type 0 where
  pub node_count : ℕ
  pub last_committed_block_id : ℕ
  pub hash_seed : ℕ → Option ℕ

-- The calls that the agent makes for a block id and a proposer index (0 for the default block): it
-- signs a share, broadcasts it, and finalizes the block with a complete signature. A call that throws
-- is one too, except that a share that could not be signed is none.
pub data Effect : Type 0 where
  sign_block : ℕ → ℕ → Effect
  broadcast_block_sign : ℕ → ℕ → Effect
  finalize_block : ℕ → ℕ → String → Effect

-- `exit_requested` is thrown on as it is, `foreign` is an exception that is not a SkaleException.
pub data Error : Type 0 where
  invalid_argument invalid_state exit_requested foreign : Error

-- `throw_with_nested` of a SkaleException.
abbrev pub nested : Error → Error
nested exit_requested = exit_requested
nested foreign = foreign
nested x = invalid_state

-- What the code that decideBlock calls does: the signing of the share in the constructor of the
-- message throws, or saving the share does, which also merges and verifies, or the broadcast. Else the
-- database of shares has returned the complete signature or none, and finalizing the block with it may
-- throw.
pub data Signing : Type 0 where
  sign_throws save_throws broadcast_throws : Error → Signing
  signed : Option String → Option Error → Signing

-- MAX_ACTIVE_CONSENSUSES
abbrev pub max_active_consensuses : ℕ
max_active_consensuses = 5

-- DECIDED messages by proposer.
abbrev pub Decisions : Type 0
Decisions = OrderedMap ChildDecided

-- A map that is not there is empty.
abbrev pub or_empty : Option Decisions → Decisions
or_empty none = []
or_empty (some m) = m

module _ (D : LruCache Decisions) (I : LruCache ℕ) where
  open D use {Cache as DecisionCache, find, put, touch, assign}
  open I use {Cache as IndexCache, find as find_index, put as put_index}

  pub record Agent : Type 0 where
    pub true_decisions : DecisionCache
    pub false_decisions : DecisionCache
    pub decided_indices : IndexCache
    pub effects : List Effect

  pub record Outcome : Type 0 where
    pub agent : Agent
    pub error : Option Error

  abbrev pub done : Agent → Outcome
  done a = record { agent = a; error = none }

  abbrev pub throw : Error → Agent → Outcome
  throw x a = record { agent = a; error = some x }

  -- What a cache holds for a block id.
  abbrev pub decisions_of : ℕ → DecisionCache → Decisions
  decisions_of b c = or_empty (find b c)

  -- The entry of a block id, made if it is not there, with a message added.
  unfoldable pub add_decision : ChildDecided → DecisionCache → DecisionCache
  add_decision msg c =
      let b = msg.block_id in
      let there : DecisionCache = elim (find b c) [ none ↦ put b [] c | some m ↦ c ] in
      assign b (emplace msg.block_proposer_index msg (decisions_of b there)) (touch b there)

  unfoldable pub record_decision : ChildDecided → Agent → Agent
  record_decision msg a =
      if msg.value
      then record a { true_decisions = add_decision msg a.true_decisions }
      else record a { false_decisions = add_decision msg a.false_decisions }

  abbrev with_effect : Effect → Agent → Agent
  with_effect x a = record a { effects = x ∷ a.effects }

  -- The call of finalizeDecidedAndSignedBlock, if there is a complete signature.
  abbrev finalize_if_signed : Option String → Option Error → ℕ → ℕ → Agent → Outcome
  finalize_if_signed none x b index a = done a
  finalize_if_signed (some s) none b index a = done (with_effect (finalize_block b index s) a)
  finalize_if_signed (some s) (some x) b index a =
      throw (nested x) (with_effect (finalize_block b index s) a)

  -- decideBlock. The decision is recorded once the share is signed, saved and broadcast.
  unfoldable pub decide_block : Signing → ℕ → ℕ → Agent → Outcome
  decide_block (sign_throws x) b index a = throw (nested x) a
  decide_block (save_throws x) b index a = throw (nested x) (with_effect (sign_block b index) a)
  decide_block (broadcast_throws x) b index a =
      throw (nested x)
        (with_effect (broadcast_block_sign b index) (with_effect (sign_block b index) a))
  decide_block (signed signature x) b index a =
      let sent = with_effect (broadcast_block_sign b index) (with_effect (sign_block b index) a) in
      finalize_if_signed signature x b index
        (record sent { decided_indices = put_index b index sent.decided_indices })

  -- The first block's seed is 1; a later one's is the hash of the block before it.
  unfoldable pub seed_of : Chain → ℕ → Option ℕ
  seed_of ch b =
      if leb b 1
      then some 1
      else if leb (b - 1) ch.last_committed_block_id
      then ch.hash_seed (b - 1)
      else none

  -- The turns of the loop, once there is a seed.
  abbrev pub decide_choice : Signing → ℕ → Agent → Option ℕ → Outcome
  decide_choice signing b a none = done a
  decide_choice signing b a (some index) = decide_block signing b index a

  abbrev pub decide_seeded : Chain → Signing → ℕ → Agent → Option ℕ → Outcome
  decide_seeded ch signing b a none = throw invalid_state a
  decide_seeded ch signing b a (some seed) = decide_choice signing b a (
      choose ch.node_count seed (decisions_of b a.true_decisions)
        (decisions_of b a.false_decisions))

  abbrev pub is_empty : Decisions → Bool
  is_empty [] = true
  is_empty (x ∷ m) = false

  -- What follows once the message is recorded. Reading a key moves it to the front of its cache.
  unfoldable pub decide_if_needed : Chain → Signing → ℕ → Agent → Outcome
  decide_if_needed ch signing b a =
      let t = record a {
        true_decisions = touch b a.true_decisions;
        false_decisions = touch b a.false_decisions;
      } in
      if is_empty (decisions_of b t.true_decisions)
      then (if length (decisions_of b t.false_decisions) == ch.node_count
          then decide_block signing b 0 t
          else done t)
      else decide_seeded ch signing b t (seed_of ch b)

  unfoldable pub is_decided : ℕ → Agent → Bool
  is_decided b a = elim (find_index b a.decided_indices) [ none ↦ false | some i ↦ true ]

  -- reportConsensusAndDecideIfNeeded
  unfoldable pub report_consensus_and_decide_if_needed :
      Chain → Signing → ChildDecided → Agent → Outcome
  report_consensus_and_decide_if_needed ch signing msg a =
      if leb msg.block_id ch.last_committed_block_id
      then done a
      else if leb msg.block_proposer_index ch.node_count
      then (if is_decided msg.block_id a
          then done a
          else decide_if_needed ch signing msg.block_id (record_decision msg a))
      else throw invalid_state a

  -- processBlockSignMessage, with what the database of shares returned for the share.
  unfoldable pub process_block_sign_message : Option String → ℕ → ℕ → Agent → Agent
  process_block_sign_message signature b proposer a = elim signature [
    | none ↦ a
    | some s ↦ record a { effects = finalize_block b proposer s ∷ a.effects }
  ]

-- Where routeAndProcessMessage sends a message.
pub data Route : Type 0 where
  start_proposal process_block_sign process_child to_instance : Route

pub data Origin : Type 0 where
  origin_parent origin_child origin_network : Origin

pub data Kind : Type 0 where
  consensus_proposal block_sign_broadcast other_kind : Kind

-- `none` drops the message.
unfoldable pub route : Origin → Kind → Route
route o consensus_proposal = start_proposal
route o block_sign_broadcast = process_block_sign
route origin_child other_kind = process_child
route o other_kind = to_instance

pub data Routing : Type 0 where
  refuse drop : Routing
  send : Route → Routing

abbrev is_parent : Origin → Bool
is_parent origin_parent = true
is_parent o = false

-- The tests of routeAndProcessMessage.
unfoldable pub route_message : ℕ → Origin → Kind → ℕ → Routing
unfolding route
route_message last_committed o k b =
    if ltb 0 b && not (is_parent o) && leb b (u64 (last_committed + 1))
    then (if ltb (u64 (b + max_active_consensuses)) last_committed then drop else send (route o k))
    else refuse

-- shouldPost, with the round and the decision of the instance that the message is for.
unfoldable pub should_post : Bool → ℕ → ℕ → Bool → Bool
should_post is_block_sign r current_round decided =
    if is_block_sign
    then true
    else if ltb (u64 (current_round + 1)) r
    then false
    else if r == u64 (current_round + 1)
    then decided
    else true
