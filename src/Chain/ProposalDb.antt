-- ===== src/Chain/ProposalDb.antt =====
-- BlockProposalDB and ProposalHashDB.
use skale_consensus.Prelude.{
  ℕ, ◌≡◌, arith, Bool, true, false, ◌||◌, not, Option, none, some, List, same_bytes, ltb, leb, ◌==◌,
  if◌then◌else◌, update,
}

-- A block proposal by its block, its proposer and its hash.
pub record Proposal : Type 0 where
  pub block_id : ℕ
  pub proposer_index : ℕ
  pub hash : List ℕ

-- The newest proposal of each proposer, in memory, and the node's own in LevelDB.
pub record ProposalDb : Type 0 where
  pub caches : ℕ → Option Proposal
  pub stored : ℕ → Option Proposal

-- Whether a cached proposal is for a later block. The source makes this test a second time where its
-- message tells of the same block.
abbrev pub is_later : Option Proposal → Proposal → Bool
is_later none p = false
is_later (some previous) p = ltb p.block_id previous.block_id

-- addProposalToCacheIfDoesNotExist, for a proposer in range.
unfoldable pub add_proposal_to_cache : Proposal → ProposalDb → ProposalDb
add_proposal_to_cache p d =
    if is_later (d.caches p.proposer_index) p
    then d
    else record d { caches = update d.caches p.proposer_index (some p) }

abbrev pub or_first : Option Proposal → Proposal → Option Proposal
or_first none p = some p
or_first (some q) p = some q

-- serializeProposalAndSaveItToLevelDB: an entry that is there stays.
unfoldable pub save_own : Proposal → ProposalDb → ProposalDb
save_own p d = record d { stored = update d.stored p.block_id (or_first (d.stored p.block_id) p) }

-- addBlockProposal, for a signed proposal with a proposer in range.
unfoldable pub add_block_proposal : ℕ → Proposal → ProposalDb → ProposalDb
add_block_proposal own p d =
    let cached = add_proposal_to_cache p d in
    if p.proposer_index == own then save_own p cached else cached

abbrev pub cached_for : ℕ → Option Proposal → Option Proposal
cached_for id none = none
cached_for id (some p) = if p.block_id == id then some p else none

abbrev pub or_stored : Option Proposal → Option Proposal → Option Proposal
or_stored none o = o
or_stored (some p) o = some p

-- getBlockProposal
unfoldable pub get_block_proposal : ℕ → ℕ → ℕ → ProposalDb → Option Proposal
get_block_proposal own id proposer d =
    or_stored (cached_for id (d.caches proposer)) (if own == proposer then d.stored id else none)

abbrev pub is_dropped : ℕ → ℕ → Option Proposal → Option Proposal
is_dropped id proposer none = none
is_dropped id proposer (some p) =
    if not (p.proposer_index == proposer) || leb p.block_id id then none else some p

-- cleanupUnneededMemoryBeforePushingToEvm, for a committed block.
unfoldable pub cleanup : ℕ → ℕ → ProposalDb → ProposalDb
cleanup id proposer d = record d { caches = λ i. is_dropped id proposer (d.caches i) }

-- The hashes of a proposer's proposals; none is empty.
abbrev pub Hashes : Type 0
Hashes = ℕ → Option (List ℕ)

abbrev pub is_saved : Option (List ℕ) → Bool
is_saved none = false
is_saved (some h) = true

abbrev matches_saved : Option (List ℕ) → List ℕ → Bool
matches_saved none h = true
matches_saved (some previous) h = same_bytes previous h

abbrev pub saved_or : Option (List ℕ) → List ℕ → Option (List ℕ)
saved_or none h = some h
saved_or (some previous) h = some previous

-- haveProposal, and checkAndSaveHash with what it returns.
unfoldable pub have_proposal : ℕ → Hashes → Bool
have_proposal id hs = is_saved (hs id)

unfoldable pub check_and_save_hash : ℕ → List ℕ → Hashes → Hashes × Bool
check_and_save_hash id h hs = (update hs id (saved_or (hs id) h), matches_saved (hs id) h)

-- A proposal that is added is found, whatever stood there before, the node's own too: unless its
-- proposer has one for a later block in memory, it takes the place of any other, also of one for the
-- same block.
pub get_block_proposal-add_block_proposal :
    (own : ℕ) (p : Proposal) (d : ProposalDb)
    → is_later (d.caches p.proposer_index) p ≡ false
    → get_block_proposal own p.block_id p.proposer_index (add_block_proposal own p d) ≡ some p
unfolding get_block_proposal add_block_proposal add_proposal_to_cache save_own
get_block_proposal-add_block_proposal own p d h = ground arith
