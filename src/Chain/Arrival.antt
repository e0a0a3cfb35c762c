-- ===== src/Chain/Arrival.antt =====
-- blockCommitArrived: which decisions are committed.
use skale_consensus.Prelude.{
  ℕ, ◌+◌, ◌-◌, ◌^◌, ◌≡◌, ◌≢◌, ◌≤◌, ◌<◌, Bool, true, false, ◌||◌, Option, none, some, ◌∷◌, ltb, ◌==◌,
  u64, refl, arith, Bool-cases, inl, inr,
}
use skale_consensus.Proposals.TimeStamps.{TimeStamp, earlier, increment_by_ms, IsTime}
use skale_consensus.Chain.State.{
  Block, Chain, returned, exit_requested, failed, Ran, Around, and_next,
}
use skale_consensus.Chain.Commit.{
  next_id, process_committed_block, propose_next_block, create_default_empty_block_proposal,
  committed_proposal, commit_proposal, block_commit_arrived,
}
use skale_consensus.Chain.Quiet.{IsQuiet, IsNext, IsCommitted, process_quiet-IsCommitted}

-- The number of a stored proposal is the one it is stored under.
abbrev pub HasId : ℕ → Option Block → Type 0
HasId id none = Unit
HasId id (some b) = b.block_id ≡ id

process_other :
    (a : Around) (b : Block) (c : Chain)
    → (next_id c == b.block_id) ≡ false
    → (process_committed_block a b c).0 ≡ c
unfolding process_committed_block
process_other a b c e = ground arith

and_next_stopped :
    (r : Ran) (k : Chain → Ran) (c : Chain) → (r.1 ≡ returned → ⊥) → r.0 ≡ c → (and_next r k).0 ≡ c
and_next_stopped (d, returned) k c n e = absurd (n refl)
and_next_stopped (d, exit_requested) k c n e = e
and_next_stopped (d, failed) k c n e = e

process_other_fails :
    (a : Around) (b : Block) (c : Chain)
    → (next_id c == b.block_id) ≡ false
    → (process_committed_block a b c).1 ≡ returned
    → ⊥
unfolding process_committed_block
process_other_fails a b c e = ground arith

commit_proposal_other :
    (a : Around) (o : Option Block) (id : ℕ) (c : Chain)
    → HasId id o
    → id ≢ next_id c
    → (commit_proposal a o c).0 ≡ c
commit_proposal_other a none id c h n = refl
commit_proposal_other a (some b) id c h n =
    elim (Bool-cases (earlier c.last_committed_block_time_stamp b.stamp)) [
      | inl e ↦ rw e (
          and_next_stopped (process_committed_block a b c) (λ d. propose_next_block a d) c
            (process_other_fails a b c (ground arith)) (process_other a b c (ground arith)))
      | inr e ↦ rw e refl
    ]

HasId-committed_proposal :
    (id proposer : ℕ) (stored : Option Block) (c : Chain)
    → HasId id stored
    → HasId id (committed_proposal id proposer stored c)
unfolding create_default_empty_block_proposal
HasId-committed_proposal id proposer stored c h = elim (Bool-cases (ltb 0 proposer)) [
  | inl e ↦ rw e h
  | inr e ↦ rw e refl
]

-- A decision for any block but the next leaves the chain as it is, whatever happens, given that
-- BlockProposalDB has under a number only proposals for that number.
pub block_commit_arrived_other :
    (a : Around) (s x : Bool) (id proposer : ℕ) (stored : Option Block) (c : Chain)
    → HasId id stored
    → id ≢ next_id c
    → (block_commit_arrived a s x id proposer stored c).0 ≡ c
unfolding block_commit_arrived
block_commit_arrived_other a s x id proposer stored c h n = ground (
  arith,
  commit_proposal_other a (committed_proposal id proposer stored c) id c
      (HasId-committed_proposal id proposer stored c h) n,
)

earlier-increment_by_ms : (t : TimeStamp) → IsTime t → earlier t (increment_by_ms t) ≡ true
unfolding earlier increment_by_ms
earlier-increment_by_ms t h = ground arith

abbrev pub Committed : Around → Block → Chain → Ran → Type 0
Committed a b c r =
    (r.1 ≡ returned)
    × ((r.0).last_committed_block_id ≡ b.block_id)
    × ((r.0).last_committed_block_time_stamp ≡ b.stamp)
    × ((r.0).saved ≡ b ∷ c.saved)
    × ((r.0).pushed ≡ b ∷ c.pushed)
    × ((r.0).proposed ≡ u64 (b.block_id + 1) ∷ c.proposed)

propose_quiet :
    (a : Around) (b : Block) (c d : Chain)
    → IsQuiet a
    → IsCommitted a b c d
    → Committed a b c (propose_next_block a d)
unfolding propose_next_block
propose_quiet a b c d q i = ground arith

commit_proposal_quiet :
    (a : Around) (b : Block) (c : Chain)
    → IsNext a b c
    → c.has_ext_face ≡ true
    → Committed a b c (commit_proposal a (some b) c)
commit_proposal_quiet a b c n f =
    let p = process_quiet-IsCommitted a b c n f in
    rw n.later (rw p.0 (propose_quiet a b c ((process_committed_block a b c).0) n.quiet p.1))

-- The decision for the next block, with its proposal, is committed when nothing is requested or
-- throws on a node that is no sync node: given a signature of availability, unless it is the default
-- block, a later time stamp than the last and a clock that has not gone back, the block is saved,
-- passed to the execution layer and becomes the last committed one, and the one after it is proposed.
pub block_commit_arrived_next :
    (a : Around) (s : Bool) (proposer : ℕ) (stored : Option Block) (b : Block) (c : Chain)
    → c.has_ext_face ≡ true
    → c.is_sync_only ≡ false
    → c.last_committed_block_id < b.block_id
    → (s || proposer == 0) ≡ true
    → committed_proposal b.block_id proposer stored c ≡ some b
    → IsNext a b c
    → Committed a b c (block_commit_arrived a s false b.block_id proposer stored c)
unfolding block_commit_arrived
block_commit_arrived_next a s proposer stored b c f sync grow sig e n =
    rw (sig, e) (ground (arith, commit_proposal_quiet a b c n f))

-- The default block is committed in the same circumstances, since its time stamp is later than the
-- last, if that has at most 999 milliseconds and fewer than 2^54 seconds.
pub block_commit_arrived_default :
    (a : Around) (s : Bool) (stored : Option Block) (c : Chain)
    → c.has_ext_face ≡ true
    → c.is_sync_only ≡ false
    → c.last_committed_block_id < 2 ^ 64 - 1
    → IsTime c.last_committed_block_time_stamp
    → c.last_commit_time_ms ≤ a.now
    → IsQuiet a
    → Committed a
        (create_default_empty_block_proposal (c.last_committed_block_id + 1) c)
        c
        (block_commit_arrived a s false (c.last_committed_block_id + 1) 0 stored c)
unfolding create_default_empty_block_proposal
block_commit_arrived_default a s stored c f sync small time clock q =
    let b : Block = create_default_empty_block_proposal (c.last_committed_block_id + 1) c in
    block_commit_arrived_next a s 0 stored b c f sync (ground arith) (ground arith) refl (record {
      quiet = q;
      numbered = ground arith;
      positive = ground arith;
      later = earlier-increment_by_ms c.last_committed_block_time_stamp time;
      clock = clock;
    })
