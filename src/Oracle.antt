-- ===== src/Oracle.antt =====
-- OracleReceivedResults: the results that the nodes report for an oracle request.
pub mod Received
pub mod Counts
pub mod Confirmed
pub mod Examples
