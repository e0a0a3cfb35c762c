-- ===== src/Lib.antt =====
-- skale-consensus: the asynchronous binary consensus of a SKALE chain, the block consensus on top of
-- it, the chain that commits its blocks, and the data, databases and queues around them.
--
-- The program. Every node of a chain proposes a block. For each block id and each proposer an
-- instance of the binary consensus decides whether the proposal is taken; the block consensus starts
-- the instances from a vector of the proposals that are available, collects their decisions, and
-- picks one proposer, or the default block, which it signs. Messages travel over the network, which
-- keeps back those that come too early and sends again those that did not arrive. The chain saves a
-- decided block, passes it to the execution layer and proposes the next; a node that has fallen behind
-- gets blocks by catch-up. What must survive a crash is in databases over LevelDB.
--
-- BinConsensus: protocols/binconsensus/BinConsensusInstance.{h,cpp}. State has the instance as a
--   record, with a function from rounds for each of its maps, and the environment (keys, coin, chain)
--   as a parameter; what a message sends or writes is a list of effects, the newest first. Votes are
--   the votes and thresholds, Rounds the handlers from broadcastValue to proceedWithNextRound, Process
--   the dispatch of messages and the runs. Quorum is the arithmetic of thresholds; Invariant, Safety,
--   Voters, Certified, Progress, Termination and Broadcasts hold the proofs. One message can take an instance through
--   several rounds, by calls of proceedWithNextRound: fuel bounds how deep, one more than the last
--   round, which is enough because each call enters a later round and the last is tested for.
-- BlockConsensus: protocols/blockconsensus/BlockConsensusAgent.{h,cpp}. Agent is the state and its
--   handlers, Choice the loop that picks the proposer, Cache the interface of thirdparty/lrucache.hpp.
--   What signing, the database of signature shares, the broadcast and the finalization do in a call,
--   exceptions included, is an argument.
-- Transactions: datastructures/Transaction.cpp, TransactionList.cpp and PartialHashesList.cpp, and
--   createPartialHashesList of BlockProposal.cpp; Merkle is the root of ListOfHashes.cpp, whose loop
--   has as much fuel as there are hashes. Bytes are numbers; the hash function is a parameter.
-- Network: network/Network.cpp. Deferred and Delayed are the two kinds of queue, Waiting has the
--   proofs about the first, Broadcast is the
--   loop of broadcastMessageImpl, with fuel for its turns: the source waits without a bound.
-- Pricing: pricing/ and db/PriceDB.cpp, with unsigned 256-bit arithmetic that wraps.
-- Proposals: datastructures/BooleanProposalVector.cpp and TimeStamp.cpp, and the fragments of a
--   proposal: Fragment models getFragment of BlockProposal.cpp, BlockProposalFragment.cpp and
--   BlockProposalFragmentList.cpp; Missing, Adding and Reassembly hold their proofs.
-- Storage: db/CacheLevelDB.cpp, ProposalVectorDB.cpp and DAProofDB.cpp. LevelDb is the interface of
--   LevelDB, with what it documents as laws. Shards is the window of LevelDBs that rotates, with the
--   sets of entries; View is what it promises, on one map from keys to values that live for a number
--   of rotations; Life, Writes, Collect, Operations and Refine relate the two, Counting, Sets and
--   Complete are about sets. Whether the newest database is too large is an argument of each write.
--   Vectors has the databases of proposal vectors and of proofs; Enough counts what they make available.
-- Chain: chains/Schain.cpp and SchainGettersSetters.cpp. State and Commit are the commit of a block,
--   where Around says what other threads and the code that is called do in a run: exit requests,
--   exceptions, the clock. Bootstrap has fuel for the attempts of its loop, which in the source has no
--   bound; Booting holds its proofs. Stages, Progress, Order, Quiet, Catchup and Arrival hold the proofs.
--   ProposalDb is db/BlockProposalDB.cpp and db/ProposalHashDB.cpp; Proposing is proposeNextBlock on
--   top of them, with crashes between its steps; Consistent and OneProposal hold their proofs.
--   Starting is the start of the block consensus over Storage.Vectors, with proofs in Started,
--   StartedOnce and Restart.
-- Oracle: oracle/OracleReceivedResults.cpp, the results that nodes report for a request.
-- Prelude: lists, ordered maps, results and tests that the parts share.
--
-- Numbers are natural numbers; where the source computes in 64 bits and a value can leave them, the
-- wrap-around is written out. Locks are taken to make an operation atomic, except where the source
-- releases one in the middle (Network.Delayed). CHECK_STATE and CHECK_ARGUMENT are errors as values;
-- the re-throwing of an exception under another type is left out where only the type changes.
--
-- Not modelled: sockets, threads and timers, LevelDB, cryptography (all parameters), the download of
-- blocks and fragments, the exchange of proposals and their proofs, the other databases,
-- oracle requests, configuration, logging and statistics, and everything third-party.
mod Prelude
pub mod BinConsensus
pub mod BlockConsensus
pub mod Transactions
pub mod Storage
pub mod Chain
pub mod Oracle
pub mod Network
pub mod Pricing
pub mod Proposals
