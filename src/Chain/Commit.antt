-- ===== src/Chain/Commit.antt =====
-- Committing blocks: after the block consensus, and in catch-up.
use skale_consensus.Prelude.{
  ℕ, ◌+◌, ◌-◌, ◌*◌, ◌/◌, ◌^◌, Bool, false, ◌||◌, not, Option, none, some, List, [], ◌∷◌, ltb, leb,
  ◌==◌, if◌then◌else◌, u64,
}
use skale_consensus.Proposals.TimeStamps.{TimeStamp, earlier, increment_by_ms}
use skale_consensus.Chain.State.{
  Block, Chain, returned, failed, Ran, Around, check_state, unless_throws, check_for_exit, and_next,
}

abbrev pub next_id : Chain → ℕ
next_id c = u64 (c.last_committed_block_id + 1)

-- saveBlock
unfoldable pub save_block : Around → Block → Chain → Ran
save_block a b c =
    check_for_exit a.exit_at_save c
      (unless_throws a.save_throws c (record c { saved = b ∷ c.saved }, returned))

-- The call of createBlock, if there is an execution layer.
abbrev pub create_block : Around → Block → Chain → Ran
create_block a b c =
    if c.has_ext_face
    then unless_throws a.create_throws (record c { in_create_block = false })
        (record c { in_create_block = false; pushed = b ∷ c.pushed }, returned)
    else (c, returned)

-- pushBlockToExtFace
unfoldable pub push_block_to_ext_face : Around → Block → Chain → Ran
push_block_to_ext_face a b c = check_for_exit a.exit_at_push c (
    unless_throws a.pricing_throws c (
      check_for_exit a.exit_before_create c
        (and_next (create_block a b c) (λ d. check_for_exit a.exit_after_create d (d, returned)))))

abbrev pub time_average : ℕ → ℕ
time_average t = if t == 0 then 1 else t

-- The averages, which are unsigned numbers of 64 bits.
unfoldable pub with_averages : ℕ → ℕ → ℕ → Chain → Chain
with_averages now id size c =
    let size_average : ℕ = u64 (u64 (c.block_size_average * (id - 1)) + size) / id in
    let time : ℕ =
      time_average
        (u64 (now + 2 ^ 64 - c.start_time_ms) / u64 (id + 2 ^ 64 - c.bootstrap_block_id)) in
    record c {
      block_size_average = size_average;
      block_time_average_ms = time;
      tps_average = u64 (size_average * 1000) / time;
    }

-- updateLastCommittedBlockInfo
unfoldable pub update_last_committed_block_info : Around → ℕ → TimeStamp → ℕ → Chain → Ran
update_last_committed_block_info a id stamp size c = check_state (id == next_id c) c (
    check_state (earlier c.last_committed_block_time_stamp stamp) c (
      check_state (leb c.last_commit_time_ms a.now) c (
        let d = with_averages a.now id size (record c {
          last_committed_block_id = id;
          last_committed_block_time_stamp = stamp;
          last_commit_time_ms = a.now;
        }) in
        unless_throws a.random_throws d (d, returned))))

-- processCommittedBlock. The second CHECK_STATE assigns the next number to a copy of the block's, and
-- so asks whether that number is not 0.
unfoldable pub process_committed_block : Around → Block → Chain → Ran
process_committed_block a b c = check_for_exit a.exit_at_start c (
    check_state (next_id c == b.block_id) c (
      let d = record c { proposal_receipt_time = 0 } in
      check_state (not (next_id c == 0)) d (
        and_next (save_block a b d) (λ e. and_next (push_block_to_ext_face a b e) (λ f.
          and_next (update_last_committed_block_info a b.block_id b.stamp b.transactions f)
            (λ g. unless_throws a.analysis_throws g (g, returned)))))))

-- proposeNextBlock, as far as the chain's state goes.
unfoldable pub propose_next_block : Around → Chain → Ran
propose_next_block a c =
    check_for_exit a.exit_at_propose c
      (unless_throws a.propose_throws c (record c { proposed = next_id c ∷ c.proposed }, returned))

-- createDefaultEmptyBlockProposal
unfoldable pub create_default_empty_block_proposal : ℕ → Chain → Block
create_default_empty_block_proposal id c = record {
  block_id = id;
  proposer_index = 0;
  stamp = increment_by_ms c.last_committed_block_time_stamp;
  transactions = 0;
}

-- The proposal that is committed, with what BlockProposalDB has of it.
abbrev pub committed_proposal : ℕ → ℕ → Option Block → Chain → Option Block
committed_proposal id proposer stored c =
    if ltb 0 proposer then stored else some (create_default_empty_block_proposal id c)

abbrev pub commit_proposal : Around → Option Block → Chain → Ran
commit_proposal a none c = (c, failed)
commit_proposal a (some b) c =
    check_state (earlier c.last_committed_block_time_stamp b.stamp) c
      (and_next (process_committed_block a b c) (λ d. propose_next_block a d))

-- blockCommitArrived, on a chain whose state is initialized: whether there is a signature of
-- availability, whether exit is requested at its start, and the proposal in BlockProposalDB.
unfoldable pub block_commit_arrived : Around → Bool → Bool → ℕ → ℕ → Option Block → Chain → Ran
block_commit_arrived a has_da_sig exits id proposer stored c =
    check_state (has_da_sig || proposer == 0) c (
      check_state (not c.is_sync_only) c (
        check_for_exit exits c (
          if leb id c.last_committed_block_id
          then (c, returned)
          else check_state (id == next_id c || c.last_committed_block_id == 0) c
              (commit_proposal a (committed_proposal id proposer stored c) c))))

-- The loop of blockCommitsArrivedThroughCatchup, with what happens around each block and whether exit
-- is requested before it.
unfoldable pub process_blocks : List (Around × Bool × Block) → Chain → Ran
process_blocks [] c = (c, returned)
process_blocks ((a, exits, b) ∷ bs) c =
    let rest = process_blocks bs in
    check_for_exit exits c (
      if b.block_id == next_id c
      then check_state (earlier c.last_committed_block_time_stamp b.stamp) c
          (and_next (process_committed_block a b c) rest)
      else rest c)

-- What follows the loop: the number of blocks committed, and the next proposal.
abbrev pub after_catchup : Around → Chain → Chain → Ran
after_catchup a old c =
    if ltb old.last_committed_block_id c.last_committed_block_id
    then (if c.is_sync_only then (c, returned) else propose_next_block a c)
    else (c, returned)

-- blockCommitsArrivedThroughCatchup, on a chain whose state is initialized and that could be locked.
unfoldable pub block_commits_arrived_through_catchup :
    Around → List (Around × Bool × Block) → Chain → Ran
block_commits_arrived_through_catchup a [] c = (c, returned)
block_commits_arrived_through_catchup a ((first, exits, b) ∷ bs) c =
    check_state (leb b.block_id (next_id c)) c
      (and_next (process_blocks ((first, exits, b) ∷ bs) c) (λ d. after_catchup a c d))
