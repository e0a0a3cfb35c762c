-- ===== src/Chain/Started.antt =====
-- The starts of the block consensus against the view of ProposalVectorDB.
use skale_consensus.Prelude.{
  ℕ, ◌+◌, ◌≡◌, ◌≤◌, false, not, List, [], ◌∷◌, ◌==◌, if◌then◌else◌, arith, same_bytes,
}
use skale_consensus.Prelude.Results.{ok}
use skale_consensus.Proposals.BooleanVector.{BooleanProposalVector, to_string}
use skale_consensus.Storage.LevelDb.{same_key, block_key}
use skale_consensus.Storage.Shards.{is_empty_text}
use skale_consensus.Storage.Life.{View, value_of, is_living, set_key}
use skale_consensus.Storage.View.{newest}

-- How often the consensus was started for a block.
abbrev pub posts : ℕ → List (ℕ × BooleanProposalVector) → ℕ
posts id [] = 0
posts id ((j, v) ∷ ps) = if id == j then posts id ps + 1 else posts id ps

-- The vector of each start is what is saved for the block.
abbrev pub AllSaved : View → List (ℕ × BooleanProposalVector) → Type 0
AllSaved f [] = Unit
AllSaved f ((id, v) ∷ ps) = (to_string v ≡ ok (value_of (f (block_key id)))) × AllSaved f ps

-- What becomes true of a view and the starts.
pub record IsStarted (f : View) (ps : List (ℕ × BooleanProposalVector)) : Type 0 where
  pub full :
      (id : ℕ) → is_empty_text (value_of (f (block_key id))) ≡ not (is_living (f (block_key id)))
  pub once : (id : ℕ) → posts id ps ≤ (if is_living (f (block_key id)) then 1 else 0)
  pub saved : AllSaved f ps

same_block : (i j : ℕ) → same_key (block_key i) (block_key j) ≡ i == j
unfolding same_bytes
same_block i j = ground arith

module _ (f : View) (ps : List (ℕ × BooleanProposalVector)) (id : ℕ) (text : List ℕ)
    (s : IsStarted f ps) (new : is_living (f (block_key id)) ≡ false)
    (nonempty : is_empty_text text ≡ false) where
  abbrev pub added_view : View
  added_view = set_key (block_key id) (newest text) f

  added_at : (j : ℕ) → added_view (block_key j) ≡ (if j == id then newest text else f (block_key j))
  unfolding set_key
  added_at j = ground (arith, same_block j id)

  added_full :
      (j : ℕ)
      → is_empty_text (value_of (added_view (block_key j)))
        ≡ not (is_living (added_view (block_key j)))
  added_full j = ground (arith, added_at j, s.full j)

  added_once : (j : ℕ) → posts j ps ≤ (if is_living (added_view (block_key j)) then 1 else 0)
  added_once j = ground (arith, added_at j, s.once j)

  -- A view that gains the block keeps what the others have: none of the starts is the block's.
  kept_saved :
      (qs : List (ℕ × BooleanProposalVector))
      → posts id qs ≡ 0
      → AllSaved f qs
      → AllSaved added_view qs
  kept_saved [] e a = tt
  kept_saved ((j, v) ∷ qs) e a = (ground (arith, added_at j), kept_saved qs (ground arith) a.1)

  not_posted : posts id ps ≡ 0
  not_posted = ground (arith, s.once id)

  pub added_IsStarted : IsStarted added_view ps
  added_IsStarted = record {
    full = added_full;
    once = added_once;
    saved = kept_saved ps not_posted s.saved;
  }

  pub posted_IsStarted :
      (v : BooleanProposalVector) → to_string v ≡ ok text → IsStarted added_view ((id, v) ∷ ps)
  posted_IsStarted v e = record {
    full = added_full;
    once = λ j. ground (arith, added_at j, s.once j, not_posted);
    saved = (ground (arith, added_at id), kept_saved ps not_posted s.saved);
  }
