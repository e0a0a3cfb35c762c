-- ===== src/Chain/Starting.antt =====
-- How Schain starts the block consensus, once there are enough proposals or the time for them is over.
use skale_consensus.Prelude.{
  ℕ, ◌+◌, Bool, true, false, Option, none, some, List, ◌∷◌, ltb, leb, if◌then◌else◌, u64,
}
use skale_consensus.Prelude.Results.{Result, ok, throw}
use skale_consensus.Proposals.BooleanVector.{BooleanProposalVector}
use skale_consensus.Storage.LevelDb.{LevelDb}
use skale_consensus.Storage.Shards.{Shards, Signers, write_string_to_set}
use skale_consensus.Storage.Vectors.{
  try_saving_proposal_vector, get_vector, add_da_proof, get_current_proposal_vector,
}

module _ (L : LevelDb) where
  pub record Starter : Type 0 where
    pub last_committed_block_id : ℕ
    -- ProposalVectorDB and DAProofDB.
    pub vectors : Shards L
    pub proofs : Shards L
    -- The messages to the block consensus, the newest first.
    pub posted : List (ℕ × BooleanProposalVector)

  -- startConsensus, with whether exit is found to be requested. An exception leaves the state as it is.
  unfoldable pub start_consensus : Bool → ℕ → BooleanProposalVector → Starter → Starter
  start_consensus exits id v s =
      if exits
      then s
      else if leb id s.last_committed_block_id
      then s
      else if ltb (u64 (s.last_committed_block_id + 1)) id
      then s
      else record s { posted = (id, v) ∷ s.posted }

  abbrev pub start_if : Bool → ℕ → BooleanProposalVector → Result Bool → Starter → Starter
  start_if exits id v (ok true) s = start_consensus exits id v s
  start_if exits id v (ok false) s = s
  start_if exits id v (throw e) s = s

  -- tryStartingConsensus, with whether the newest database of vectors is too large.
  unfoldable pub try_starting_consensus :
      Bool → Bool → BooleanProposalVector → ℕ → Starter → Starter
  try_starting_consensus too_large exits v id s =
      let t = try_saving_proposal_vector L too_large id v s.vectors in
      start_if exits id v t.result (record s { vectors = t.shards })

  -- blockProposalReceiptTimeoutArrived
  unfoldable pub block_proposal_receipt_timeout_arrived :
      Signers → Bool → Bool → ℕ → Starter → Starter
  block_proposal_receipt_timeout_arrived g too_large exits id s =
      if leb id s.last_committed_block_id
      then s
      else try_starting_consensus too_large exits (get_current_proposal_vector L g id s.proofs) id s

  abbrev pub start_with :
      Bool → Bool → ℕ → Result (Option BooleanProposalVector) → Starter → Starter
  start_with too_large exits id (throw e) s = s
  start_with too_large exits id (ok none) s = s
  start_with too_large exits id (ok (some v)) s = try_starting_consensus too_large exits v id s

  -- daProofArrived, with the text of the proof's signature, and whether the newest database of proofs
  -- is too large.
  unfoldable pub da_proof_arrived :
      Signers → Bool → Bool → Bool → List ℕ → ℕ → ℕ → Starter → Starter
  da_proof_arrived g proofs_too_large too_large exits sig id index s =
      if leb id s.last_committed_block_id
      then s
      else (let w = write_string_to_set L proofs_too_large g sig id index s.proofs in
          start_with too_large exits id (add_da_proof L g w) (record s { proofs = w.shards }))

  abbrev pub start_again : Bool → ℕ → Result (Option BooleanProposalVector) → Starter → Starter
  start_again exits id (throw e) s = s
  start_again exits id (ok none) s = s
  start_again exits id (ok (some v)) s = start_consensus exits id v s

  -- ifIncompleteConsensusDetectedRestartAndRebroadcastAllMessagesForCurrentBlock, without the messages.
  unfoldable pub if_incomplete_consensus_detected : Signers → Bool → Starter → Starter
  if_incomplete_consensus_detected g exits s =
      let id = u64 (s.last_committed_block_id + 1) in
      start_again exits id (get_vector L g.total_signers id s.vectors) s
