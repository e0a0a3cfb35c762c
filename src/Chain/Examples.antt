-- ===== src/Chain/Examples.antt =====
-- Commits and catch-up at concrete inputs.
use skale_consensus.Prelude.{
  ℕ, ◌+◌, ◌≡◌, ◌==◌, if◌then◌else◌, Option, true, false, none, some, [], ◌∷◌, refl, arith,
}
use skale_consensus.Proposals.TimeStamps.{TimeStamp, earlier}
use skale_consensus.Chain.State.{Block, Chain, Around, returned}
use skale_consensus.Chain.Commit.{
  block_commit_arrived, block_commits_arrived_through_catchup, create_default_empty_block_proposal,
}
use skale_consensus.Chain.Order.{
  IsOrderly, Advances, here, after, commit, catch_up, none_yet, reaches-IsOrderly,
}
use skale_consensus.Chain.Bootstrap.{Booted, bootstrap}
use skale_consensus.Chain.Booting.{Started, bootstrap-Started, bootstrap_stuck}
use skale_consensus.Chain.Quiet.{IsQuiet}
use skale_consensus.Chain.Catchup.{catchup_commits}
use skale_consensus.Chain.Arrival.{
  Committed, block_commit_arrived_other, block_commit_arrived_next, block_commit_arrived_default,
}

-- Nothing is requested and nothing throws, at this time.
abbrev calm : ℕ → Around
calm now = record {
  exit_at_start = false;
  exit_at_save = false;
  save_throws = false;
  exit_at_push = false;
  pricing_throws = false;
  exit_before_create = false;
  create_throws = false;
  exit_after_create = false;
  now = now;
  random_throws = false;
  analysis_throws = false;
  exit_at_propose = false;
  propose_throws = false;
}

calm-IsQuiet : (now : ℕ) → IsQuiet (calm now)
calm-IsQuiet now = record {
  no_start = refl;
  no_save = refl;
  no_save_throw = refl;
  no_push = refl;
  no_pricing = refl;
  no_before = refl;
  no_create = refl;
  no_after = refl;
  no_random = refl;
  no_analysis = refl;
  no_exit_propose = refl;
  no_propose = refl;
}

abbrev at_second : ℕ → TimeStamp
at_second s = record { s = s; ms = 0 }

abbrev block_at : ℕ → ℕ → Block
block_at id s = record { block_id = id; proposer_index = 2; stamp = at_second s; transactions = 3 }

-- A node that starts with block 10.
abbrev started_chain : Chain
started_chain = record {
  is_sync_only = false;
  has_ext_face = true;
  start_time_ms = 1000;
  bootstrap_block_id = 10;
  last_committed_block_id = 10;
  last_committed_block_time_stamp = at_second 50;
  last_commit_time_ms = 2000;
  proposal_receipt_time = 0;
  in_create_block = false;
  block_size_average = 0;
  block_time_average_ms = 0;
  tps_average = 0;
  saved = [];
  pushed = [];
  proposed = [];
}

-- The execution layer takes block 11, and then exit is requested; catch-up brings the block again.
abbrev interrupted : Around
interrupted = record (calm 3000) { exit_after_create = true }

abbrev once_stopped : Chain
once_stopped =
    (block_commit_arrived interrupted true false 11 2 (some (block_at 11 60)) started_chain).0

abbrev caught_up : Chain
caught_up =
    (block_commits_arrived_through_catchup (calm 5000)
      ((calm 4000, false, block_at 11 60) ∷ (calm 5000, false, block_at 12 70) ∷ []) once_stopped).0

reaches-IsOrderly_example : IsOrderly caught_up × Advances started_chain caught_up
reaches-IsOrderly_example =
    reaches-IsOrderly started_chain caught_up
      (after caught_up
        (after once_stopped here (commit interrupted true false 11 2 (some (block_at 11 60)) refl))
        (catch_up (calm 5000)
          ((calm 4000, false, block_at 11 60) ∷ (calm 5000, false, block_at 12 70) ∷ []) refl))
      (record { face = refl; chained = tt; newest = refl; saved_first = none_yet })

catchup_commits_example :
    ((block_commits_arrived_through_catchup
        (calm 5000)
        ((calm 4000, false, block_at 10 50)
          ∷ (calm 4000, false, block_at 11 60)
          ∷ (calm 5000, false, block_at 12 70)
          ∷ [])
        started_chain).1
      ≡ returned)
    × (((block_commits_arrived_through_catchup
            (calm 5000)
            ((calm 4000, false, block_at 10 50)
              ∷ (calm 4000, false, block_at 11 60)
              ∷ (calm 5000, false, block_at 12 70)
              ∷ [])
            started_chain).0
          ).last_committed_block_id
        ≡ 12)
    × (((block_commits_arrived_through_catchup
            (calm 5000)
            ((calm 4000, false, block_at 10 50)
              ∷ (calm 4000, false, block_at 11 60)
              ∷ (calm 5000, false, block_at 12 70)
              ∷ [])
            started_chain).0
          ).pushed
        ≡ block_at 12 70 ∷ block_at 11 60 ∷ [])
    × (((block_commits_arrived_through_catchup
            (calm 5000)
            ((calm 4000, false, block_at 10 50)
              ∷ (calm 4000, false, block_at 11 60)
              ∷ (calm 5000, false, block_at 12 70)
              ∷ [])
            started_chain).0
          ).proposed
        ≡ 13 ∷ [])
unfolding earlier
catchup_commits_example =
    catchup_commits (calm 5000) ((calm 4000, false, block_at 10 50) ∷ [])
      (calm 4000, false, block_at 11 60) ((calm 5000, false, block_at 12 70) ∷ []) started_chain
      (calm-IsQuiet 5000) refl (refl, refl, tt)
      (
        calm-IsQuiet 4000,
        refl,
        refl,
        omega arith,
        refl,
        omega arith,
        (calm-IsQuiet 5000, refl, refl, omega arith, refl, omega arith, tt),
      )
      (omega arith) refl

block_commit_arrived_other_example :
    (block_commit_arrived (calm 3000) true false 12 2 (some (block_at 12 70)) started_chain).0
    ≡ started_chain
block_commit_arrived_other_example =
    block_commit_arrived_other (calm 3000) true false 12 2 (some (block_at 12 70)) started_chain
      refl (ground arith)

block_commit_arrived_next_example :
    Committed
      (calm 3000)
      (block_at 11 60)
      started_chain
      (block_commit_arrived (calm 3000) true false 11 2 (some (block_at 11 60)) started_chain)
unfolding earlier
block_commit_arrived_next_example =
    block_commit_arrived_next (calm 3000) true 2 (some (block_at 11 60)) (block_at 11 60)
      started_chain refl refl (omega arith) refl refl
      (record {
        quiet = calm-IsQuiet 3000;
        numbered = refl;
        positive = omega arith;
        later = refl;
        clock = omega arith;
      })

block_commit_arrived_default_example :
    Committed
      (calm 3000)
      (create_default_empty_block_proposal 11 started_chain)
      started_chain
      (block_commit_arrived (calm 3000) false false 11 0 none started_chain)
block_commit_arrived_default_example =
    block_commit_arrived_default (calm 3000) false none started_chain refl refl (omega arith)
      (omega arith, omega arith) (omega arith) (calm-IsQuiet 3000)

-- Consensus has the blocks up to 12, the execution layer those up to 10.
abbrev numbered_block : ℕ → Block
numbered_block i = block_at i (40 + i)

abbrev before_boot : Chain
before_boot = record started_chain { last_committed_block_id = 0 }

bootstrap_example :
    (w : Booted) × (bootstrap 5
        (λ i. calm 3000)
        (calm 3000)
        (λ i. some (numbered_block i))
        false
        false
        12
        10
        (at_second 50)
        before_boot
      ≡ some w)
    × Started numbered_block 10 2 before_boot w
bootstrap_example =
    bootstrap-Started 5 (λ i. calm 3000) (calm 3000) (λ i. some (numbered_block i)) numbered_block 2
      10 (at_second 50) before_boot (λ i. calm-IsQuiet 3000) (calm-IsQuiet 3000) refl (omega arith)
      (omega arith) (omega arith) (λ i lo hi. refl) (omega arith)

abbrev without_12 : ℕ → Option Block
without_12 i = if i == 12 then none else some (numbered_block i)

bootstrap_stuck_example :
    bootstrap 1000
      (λ i. calm 3000)
      (calm 3000)
      without_12
      false
      false
      13
      10
      (at_second 50)
      before_boot
    ≡ none
bootstrap_stuck_example =
    bootstrap_stuck 1000 (λ i. calm 3000) (calm 3000) without_12 11 13 10 (at_second 50) before_boot
      (omega arith) (omega arith) (omega arith) (omega arith) refl
