-- ===== src/Proposals.antt =====
-- The proposals of a block: datastructures/BooleanProposalVector.cpp, TimeStamp.cpp, and the fragments of
-- a proposal, of BlockProposal.cpp, BlockProposalFragment.cpp and BlockProposalFragmentList.cpp.
pub mod BooleanVector
pub mod TimeStamps
pub mod Fragment
pub mod Missing
pub mod Adding
pub mod Reassembly
mod Examples
mod FragmentExamples
