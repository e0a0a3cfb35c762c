-- ===== src/Chain/Proposing.antt =====
-- proposeNextBlock across restarts of the node.
use skale_consensus.Prelude.{ℕ, ◌+◌, Option, none, some, List, [], ◌∷◌, leb, if◌then◌else◌, u64}
use skale_consensus.Chain.ProposalDb.{
  Proposal, ProposalDb, Hashes, add_block_proposal, get_block_proposal, cleanup, have_proposal,
  check_and_save_hash,
}

pub record Proposer : Type 0 where
  pub last_committed_block_id : ℕ
  pub db : ProposalDb
  pub hashes : Hashes
  -- What was given to the client that sends proposals, the newest first.
  pub enqueued : List Proposal

-- Where a crash cuts a call short.
pub data Cut : Type 0 where
  before_hash before_enqueue uncut : Cut

-- proposedBlockArrived
unfoldable pub proposed_block_arrived : ℕ → Proposal → Proposer → Proposer
proposed_block_arrived own p s =
    if leb p.block_id s.last_committed_block_id
    then s
    else record s { db = add_block_proposal own p s.db }

abbrev pub send : ℕ → Cut → Proposal → Proposer → Proposer
send own before_hash p s = proposed_block_arrived own p s
send own before_enqueue p s =
    let t = proposed_block_arrived own p s in
    record t { hashes = (check_and_save_hash p.block_id p.hash t.hashes).0 }
send own uncut p s =
    let t = proposed_block_arrived own p s in
    record t {
      hashes = (check_and_save_hash p.block_id p.hash t.hashes).0;
      enqueued = p ∷ t.enqueued;
    }

-- `none` is a failed CHECK_STATE.
abbrev pub send_if : ℕ → Cut → Option Proposal → Proposer → Proposer
send_if own cut none s = s
send_if own cut (some p) s = send own cut p s

-- proposeNextBlock, with the hash of the proposal that buildBlockProposal would make.
unfoldable pub propose_next_block : ℕ → Cut → List ℕ → Proposer → Proposer
propose_next_block own cut hash s =
    let id = u64 (s.last_committed_block_id + 1) in
    send_if own cut
      (if have_proposal id s.hashes
        then get_block_proposal own id own s.db
        else some (record { block_id = id; proposer_index = own; hash = hash }))
      s

-- What happens to a node: it proposes, it commits a block of a proposer, and it starts again after a
-- crash or an exit, with what is on disk.
pub data Event : Type 0 where
  propose : Cut → List ℕ → Event
  commit : ℕ → ℕ → Event
  restart : Event

unfoldable pub happen : ℕ → Event → Proposer → Proposer
happen own (propose cut hash) s = propose_next_block own cut hash s
happen own (commit id proposer) s = record s {
  last_committed_block_id = id;
  db = cleanup id proposer s.db;
}
happen own restart s = record s { db = record { caches = λ i. none; stored = s.db.stored } }

unfoldable pub happen_all : ℕ → List Event → Proposer → Proposer
happen_all own [] s = s
happen_all own (e ∷ es) s = happen_all own es (happen own e s)

-- A node with no proposals.
abbrev pub new_proposer : ℕ → Proposer
new_proposer last = record {
  last_committed_block_id = last;
  db = record { caches = λ i. none; stored = λ i. none };
  hashes = λ i. none;
  enqueued = [];
}
