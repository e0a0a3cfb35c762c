-- ===== src/Chain/Bootstrap.antt =====
-- Schain::bootstrap: the blocks that the execution layer has not got yet, and the start of the chain.
use skale_consensus.Prelude.{
  ℕ, zero, suc, ◌+◌, ◌*◌, Bool, true, false, ◌&&◌, Option, none, some, ltb, ◌==◌, if◌then◌else◌,
  u64,
}
use skale_consensus.Proposals.TimeStamps.{TimeStamp}
use skale_consensus.Chain.State.{
  Block, Chain, Outcome, returned, exit_requested, failed, Ran, Around,
}
use skale_consensus.Chain.Commit.{push_block_to_ext_face, propose_next_block}

-- MODERN_TIME
abbrev pub modern_time : ℕ
modern_time = 1547640182

-- The loop's variables: the last block of the execution layer and its time stamp.
pub record Replay : Type 0 where
  pub chain : Chain
  pub last_id : ℕ
  pub stamp : TimeStamp

-- What is left after an attempt to pass a block on: an exception of any kind is caught.
abbrev pub after_push : Block → Replay → Ran → Replay
after_push b r (c, returned) = record { chain = c; last_id = u64 (r.last_id + 1); stamp = b.stamp }
after_push b r (c, exit_requested) = record r { chain = c }
after_push b r (c, failed) = record r { chain = c }

abbrev pub replay_block : Around → Option Block → Replay → Replay
replay_block a none r = r
replay_block a (some b) r = after_push b r (push_block_to_ext_face a b r.chain)

-- The loop that passes on the blocks up to `target`, with what happens around each attempt and the
-- blocks in BlockDB; `none` when the fuel is over.
unfoldable pub replay : ℕ → (ℕ → Around) → (ℕ → Option Block) → ℕ → Replay → Option Replay
replay zero around db target r = if ltb r.last_id target then none else some r
replay (suc fuel) around db target r =
    let next = replay_block (around fuel) (db (u64 (r.last_id + 1))) r in
    let rest = replay fuel around db target next in if ltb r.last_id target then rest else some r

pub record Booted : Type 0 where
  pub state : Chain
  pub outcome : Outcome
  pub is_state_initialized : Bool

-- initLastCommittedBlockInfo, and the block that the chain starts with.
unfoldable pub init_last_committed_block_info : Around → Replay → Chain
init_last_committed_block_info a r = record r.chain {
  bootstrap_block_id = r.last_id;
  last_committed_block_id = r.last_id;
  last_committed_block_time_stamp = r.stamp;
  last_commit_time_ms = a.now;
}

-- The last step. An exception ends it, and is not passed on.
unfoldable pub start_chain : Around → Replay → Booted
start_chain a r =
    let started = init_last_committed_block_info a r in
    if ltb r.stamp.s (2 * modern_time)
    then (if r.last_id == 0 && a.pricing_throws
        then record { state = started; outcome = returned; is_state_initialized = false }
        else if started.is_sync_only
        then record { state = started; outcome = returned; is_state_initialized = true }
        else record {
          state = (propose_next_block a started).0;
          outcome = returned;
          is_state_initialized = true;
        })
    else record {
      state = record r.chain { bootstrap_block_id = r.last_id };
      outcome = returned;
      is_state_initialized = false;
    }

abbrev pub start_if : Around → Option Replay → Option Booted
start_if a none = none
start_if a (some r) = some (start_chain a r)

-- The milliseconds, which the execution layer may not have. A block that cannot be read is one that is
-- not there: an exception of getBlock at this place, which would end the call, is left out.
abbrev pub ms_of : Option Block → ℕ → ℕ
ms_of none ms = ms
ms_of (some b) ms = b.stamp.ms

abbrev pub known_ms : (ℕ → Option Block) → ℕ → ℕ → ℕ
known_ms db id ms = if ms == 0 && ltb 0 id then ms_of (db id) ms else ms

abbrev pub refuse : Outcome → Chain → Option Booted
refuse o c = some (record { state = c; outcome = o; is_state_initialized = false })

-- bootstrap, with whether it was called before, whether exit is requested, and the last block in
-- BlockDB and in the execution layer.
unfoldable pub bootstrap :
    ℕ
    → (ℕ → Around)
    → Around
    → (ℕ → Option Block)
    → Bool
    → Bool
    → ℕ
    → ℕ
    → TimeStamp
    → Chain
    → Option Booted
bootstrap fuel around a db called exits in_consensus last stamp c =
    if called
    then refuse failed c
    else if exits
    then refuse exit_requested c
    else if ltb (u64 (last + 128)) in_consensus
    then refuse failed c
    else if ltb in_consensus last
    then refuse failed c
    else start_if a (
        replay fuel around db in_consensus (record {
          chain = c;
          last_id = last;
          stamp = record { s = stamp.s; ms = known_ms db last stamp.ms };
        }))
