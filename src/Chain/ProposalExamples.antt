-- ===== src/Chain/ProposalExamples.antt =====
-- Proposals and starts of the block consensus at concrete inputs.
use skale_consensus.Prelude.{
  ℕ, ◌≡◌, ◌≤◌, true, false, none, some, List, [], ◌∷◌, same_bytes, refl, arith,
}
use mathlib.Core.List.Memᴰ.{head, tail}
use skale_consensus.Proposals.BooleanVector.{
  BooleanProposalVector, of_proofs, has_proofs, to_string, write_bits, count_true,
}
use skale_consensus.Prelude.Decimal as Decimal
use skale_consensus.Prelude.OrderedMap.{contains, emplace}
use skale_consensus.Prelude.Results.{ok}
use skale_consensus.Storage.Shards.{
  Signers, write_string, write_string_to_set, rotate_dbs_if_needed, drop_oldest, new_shards,
  key_exists, read_string, write_batch, write_to_containing, read_set, collect,
}
use skale_consensus.Storage.Life.{locate}
use skale_consensus.Storage.Vectors.{
  try_saving_proposal_vector, add_da_proof, get_current_proposal_vector, get_vector,
}
use skale_consensus.Storage.Examples.{tables}
use skale_consensus.Chain.ProposalDb.{
  Proposal, ProposalDb, add_proposal_to_cache, save_own, have_proposal, check_and_save_hash,
  add_block_proposal, get_block_proposal, get_block_proposal-add_block_proposal,
}
use skale_consensus.Chain.Proposing.{
  proposed_block_arrived, propose_next_block, happen, before_hash, uncut, propose, restart,
  happen_all, new_proposer,
}
use skale_consensus.Chain.OneProposal.{one_proposal, two_proposals}
use skale_consensus.Chain.Starting.{
  Starter, da_proof_arrived, block_proposal_receipt_timeout_arrived, try_starting_consensus,
  start_consensus,
}
use skale_consensus.Chain.Started.{posts, AllSaved}
use skale_consensus.Chain.StartedOnce.{timeout, proof, started_once}
use skale_consensus.Chain.StartedOnce as Once
use skale_consensus.Chain.Restart.{get_vector-posted}

abbrev proposal : ℕ → ℕ → Proposal
proposal i hash = record { block_id = 11; proposer_index = i; hash = hash ∷ [] }

abbrev no_proposals : ProposalDb
no_proposals = record { caches = λ i. none; stored = λ i. none }

-- The second proposal of node 2 for a block takes the place of the first.
get_block_proposal_example :
    get_block_proposal 1 11 2
      (add_block_proposal 1 (proposal 2 8) (add_block_proposal 1 (proposal 2 7) no_proposals))
    ≡ some (proposal 2 8)
unfolding add_block_proposal add_proposal_to_cache save_own
get_block_proposal_example =
    get_block_proposal-add_block_proposal 1 (proposal 2 8)
      (add_block_proposal 1 (proposal 2 7) no_proposals) refl

one_proposal_example : proposal 1 5 ≡ proposal 1 5
unfolding happen_all happen propose_next_block have_proposal get_block_proposal
    proposed_block_arrived add_block_proposal add_proposal_to_cache save_own check_and_save_hash
one_proposal_example =
    one_proposal 1 10 (propose uncut (5 ∷ []) ∷ restart ∷ propose uncut (6 ∷ []) ∷ [])
      (proposal 1 5) (proposal 1 5) (omega arith) tt (head refl) (tail (head refl)) refl

two_proposals_example :
    (happen_all 1
      (propose before_hash (5 ∷ [])
        ∷ restart
        ∷ propose uncut (6 ∷ [])
        ∷ restart
        ∷ propose uncut (7 ∷ [])
        ∷ [])
      (new_proposer 10)).enqueued
    ≡ proposal 1 5 ∷ proposal 1 6 ∷ []
two_proposals_example = two_proposals 1 10 (5 ∷ []) (6 ∷ []) (7 ∷ []) (omega arith)

abbrev four_nodes : Signers
four_nodes = record { total_signers = 4; required_signers = 3 }

-- Three proofs for block 11, then the end of the time for proposals.
abbrev proofs_then_timeout : List (Once.Event tables)
proofs_then_timeout =
    proof false false (7 ∷ []) 11 1
    ∷ proof false false (8 ∷ []) 11 4
    ∷ proof false false (9 ∷ []) 11 2
    ∷ timeout false 11
    ∷ []

abbrev after_proofs : Starter tables
after_proofs = Once.happen_all tables four_nodes proofs_then_timeout (Once.new_starter tables 10)

started_once_example :
    ((id : ℕ) → posts id after_proofs.posted ≤ 1)
    × AllSaved (locate tables after_proofs.vectors) after_proofs.posted
started_once_example = started_once tables four_nodes 10 proofs_then_timeout

abbrev vector : BooleanProposalVector
vector = record {
  node_count = 4;
  proposals = false ∷ true ∷ true ∷ false ∷ true ∷ [];
  true_count = 5;
}

posted_once : after_proofs.posted ≡ (11, vector) ∷ []
unfolding Once.happen_all Once.happen da_proof_arrived block_proposal_receipt_timeout_arrived
    try_starting_consensus start_consensus try_saving_proposal_vector add_da_proof
    get_current_proposal_vector of_proofs has_proofs to_string write_bits contains write_string
    write_string_to_set rotate_dbs_if_needed drop_oldest new_shards key_exists read_string
    write_batch write_to_containing read_set collect same_bytes Decimal.to_string Decimal.digits
    Decimal.stoull Decimal.read_digits emplace
posted_once = refl

get_vector-posted_example :
    get_vector tables 4 11 after_proofs.vectors ≡ ok (some (record vector { true_count = 3 }))
unfolding count_true
get_vector-posted_example =
    get_vector-posted tables four_nodes 10 proofs_then_timeout 11 vector (omega arith)
      (rw posted_once (head refl))
