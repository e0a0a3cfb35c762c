-- ===== src/Storage/Vectors.antt =====
-- ProposalVectorDB and DAProofDB, over CacheLevelDB.
use skale_consensus.Prelude.{
  ℕ, Bool, true, false, Option, none, some, List, length, ◌==◌, if◌then◌else◌,
}
use skale_consensus.Prelude.OrderedMap.{OrderedMap}
use skale_consensus.Prelude.Results.{Result, ok, throw, check, and_then, invalid_state}
use skale_consensus.Proposals.BooleanVector.{BooleanProposalVector, of_proofs, of_string, to_string}
use skale_consensus.Storage.LevelDb.{block_key, LevelDb}
use skale_consensus.Storage.Shards.{
  Shards, Signers, Written, is_empty_text, read_string, read_set, write_string,
}

module _ (L : LevelDb) where
  pub record Tried : Type 0 where
    pub shards : Shards L
    pub result : Result Bool

  abbrev pub save_vector : Bool → ℕ → Result (List ℕ) → Shards L → Tried
  save_vector too_large id (throw e) ds = record { shards = ds; result = throw e }
  save_vector too_large id (ok text) ds =
      if is_empty_text text
      then record { shards = ds; result = throw invalid_state }
      else if is_empty_text (read_string L (block_key id) ds)
      then record {
        shards = write_string L too_large (block_key id) text false ds;
        result = ok true;
      }
      else record { shards = ds; result = ok false }

  -- trySavingProposalVector: whether the vector was saved, which is if there was none.
  unfoldable pub try_saving_proposal_vector : Bool → ℕ → BooleanProposalVector → Shards L → Tried
  try_saving_proposal_vector too_large id v ds = save_vector too_large id (to_string v) ds

  -- getVector, for so many nodes.
  unfoldable pub get_vector : ℕ → ℕ → Shards L → Result (Option BooleanProposalVector)
  get_vector nodes id ds =
      let value = read_string L (block_key id) ds in
      if is_empty_text value then ok none else and_then (of_string nodes value) (λ v. ok (some v))

  abbrev pub vector_of_set :
      Signers → Result (Option (OrderedMap (List ℕ))) → Result (Option BooleanProposalVector)
  vector_of_set g (throw e) = throw e
  vector_of_set g (ok none) = ok none
  vector_of_set g (ok (some proofs)) =
      check (length proofs == g.required_signers) invalid_state
        (ok (some (of_proofs g.total_signers proofs)))

  -- addDAProof: the vector, if the proof completes the set.
  unfoldable pub add_da_proof : Signers → Written L → Result (Option BooleanProposalVector)
  add_da_proof g w = vector_of_set g w.returned

  -- getCurrentProposalVector
  unfoldable pub get_current_proposal_vector : Signers → ℕ → Shards L → BooleanProposalVector
  get_current_proposal_vector g id ds = of_proofs g.total_signers (read_set L g id ds)
