-- ===== src/Network.antt =====
-- network/Network.cpp: messages that wait, those to be handled later and those to be sent again.
pub mod Deferred
pub mod Waiting
pub mod Delayed
pub mod Broadcast
mod Examples
