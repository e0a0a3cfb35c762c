-- ===== src/Chain.antt =====
-- Schain: the last committed block, how the next is committed, and the node's own proposals.
pub mod State
pub mod Commit
pub mod Stages
pub mod Progress
pub mod Order
pub mod Quiet
pub mod Catchup
pub mod Arrival
pub mod Bootstrap
pub mod Booting
pub mod ProposalDb
pub mod Proposing
pub mod Consistent
pub mod OneProposal
pub mod Starting
pub mod Started
pub mod StartedOnce
pub mod Restart
pub mod Examples
pub mod ProposalExamples
