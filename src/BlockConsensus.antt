-- ===== src/BlockConsensus.antt =====
-- protocols/blockconsensus/BlockConsensusAgent.{h,cpp}: from the decisions of the binary consensuses
-- of a block id to the one block that is signed.
pub mod Choice
pub mod Cache
pub mod Agent
pub mod Decisions
pub mod Agreement
pub mod Liveness
pub mod Once
mod Examples
