-- ===== src/BinConsensus/Invariant.antt =====
-- What holds of an instance after every message, and what a message can change of it.
pub mod Defs
pub mod Updates
pub mod Steps
pub mod Messages
pub use Defs.*
