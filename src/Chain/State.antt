-- ===== src/Chain/State.antt =====
-- The state of Schain that committing a block changes, and what happens around a call.
use skale_consensus.Prelude.{ℕ, Bool, true, false, List}
use skale_consensus.Proposals.TimeStamps.{TimeStamp}

-- CommittedBlock, and BlockProposal with what the chain reads of it: the transactions are counted.
pub record Block : Type 0 where
  pub block_id : ℕ
  pub proposer_index : ℕ
  pub stamp : TimeStamp
  pub transactions : ℕ

pub record Chain : Type 0 where
  pub is_sync_only : Bool
  -- Whether there is an execution layer to pass blocks to.
  pub has_ext_face : Bool
  pub start_time_ms : ℕ
  pub bootstrap_block_id : ℕ
  pub last_committed_block_id : ℕ
  pub last_committed_block_time_stamp : TimeStamp
  pub last_commit_time_ms : ℕ
  pub proposal_receipt_time : ℕ
  pub in_create_block : Bool
  pub block_size_average : ℕ
  pub block_time_average_ms : ℕ
  pub tps_average : ℕ
  -- The blocks given to BlockDB::saveBlock, and those that createBlock took, the newest first.
  pub saved : List Block
  pub pushed : List Block
  -- The blocks that were to be proposed next, the newest first.
  pub proposed : List ℕ

-- How a call ends: ExitRequestedException, or another exception.
pub data Outcome : Type 0 where
  returned exit_requested failed : Outcome

abbrev pub Ran : Type 0
Ran = Chain × Outcome

-- What other threads and the code that is called do in a run of processCommittedBlock and
-- proposeNextBlock: whether exit is found to be requested at each of the checks, whether the calls
-- throw, and the time.
pub record Around : Type 0 where
  pub exit_at_start : Bool
  pub exit_at_save : Bool
  pub save_throws : Bool
  pub exit_at_push : Bool
  pub pricing_throws : Bool
  pub exit_before_create : Bool
  pub create_throws : Bool
  pub exit_after_create : Bool
  pub now : ℕ
  pub random_throws : Bool
  pub analysis_throws : Bool
  pub exit_at_propose : Bool
  pub propose_throws : Bool

-- CHECK_STATE, and an exception of a call.
abbrev pub check_state : Bool → Chain → Ran → Ran
check_state true c k = k
check_state false c k = (c, failed)

abbrev pub unless_throws : Bool → Chain → Ran → Ran
unless_throws true c k = (c, failed)
unless_throws false c k = k

-- checkForExit, and checkForExitOnBlockBoundaryAndExitIfNeeded.
abbrev pub check_for_exit : Bool → Chain → Ran → Ran
check_for_exit true c k = (c, exit_requested)
check_for_exit false c k = k

-- What follows a call, if it returns.
abbrev pub and_next : Ran → (Chain → Ran) → Ran
and_next (c, returned) k = k c
and_next (c, exit_requested) k = (c, exit_requested)
and_next (c, failed) k = (c, failed)
