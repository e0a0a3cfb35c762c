-- ===== src/BinConsensus.antt =====
-- protocols/binconsensus/BinConsensusInstance.{h,cpp}: one binary consensus, on whether the block
-- that one proposer made for one block id is in.
pub mod State
pub mod Votes
pub mod Rounds
pub mod Process
pub mod Invariant
pub mod Quorum
pub mod Safety
pub mod Voters
pub mod Certified
pub mod Progress
pub mod Termination
pub mod Broadcasts
mod Examples
