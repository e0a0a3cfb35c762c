-- ===== src/Transactions.antt =====
-- datastructures/Transaction.cpp, TransactionList.cpp, PartialHashesList.cpp and ListOfHashes.cpp:
-- transactions, their bytes and their hashes.
pub mod Codec
pub mod Hashes
pub mod Merkle
pub mod RoundTrip
pub mod Canonical
mod Examples
