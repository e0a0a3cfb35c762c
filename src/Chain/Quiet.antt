-- ===== src/Chain/Quiet.antt =====
-- processCommittedBlock when no exit is requested and nothing throws.
use skale_consensus.Prelude.{◌≡◌, ◌≤◌, true, false, ◌∷◌, refl, sym, ◌∙◌, ap, subst, arith}
use skale_consensus.Proposals.TimeStamps.{earlier}
use skale_consensus.Chain.State.{Block, Chain, returned, Ran, Around}
use skale_consensus.Chain.Commit.{
  next_id, save_block, push_block_to_ext_face, with_averages, update_last_committed_block_info,
  process_committed_block,
}

-- No exit is requested, and no call throws.
pub record IsQuiet (a : Around) : Type 0 where
  pub no_start : a.exit_at_start ≡ false
  pub no_save : a.exit_at_save ≡ false
  pub no_save_throw : a.save_throws ≡ false
  pub no_push : a.exit_at_push ≡ false
  pub no_pricing : a.pricing_throws ≡ false
  pub no_before : a.exit_before_create ≡ false
  pub no_create : a.create_throws ≡ false
  pub no_after : a.exit_after_create ≡ false
  pub no_random : a.random_throws ≡ false
  pub no_analysis : a.analysis_throws ≡ false
  pub no_exit_propose : a.exit_at_propose ≡ false
  pub no_propose : a.propose_throws ≡ false

-- The block that comes next, with a later time stamp, at a time that is not before the last commit.
pub record IsNext (a : Around) (b : Block) (c : Chain) : Type 0 where
  pub quiet : IsQuiet a
  pub numbered : b.block_id ≡ next_id c
  pub positive : 1 ≤ b.block_id
  pub later : earlier c.last_committed_block_time_stamp b.stamp ≡ true
  pub clock : c.last_commit_time_ms ≤ a.now

-- What committing a block changes, besides averages.
pub record IsCommitted (a : Around) (b : Block) (c d : Chain) : Type 0 where
  pub last : d.last_committed_block_id ≡ b.block_id
  pub stamped : d.last_committed_block_time_stamp ≡ b.stamp
  pub timed : d.last_commit_time_ms ≡ a.now
  pub logged : d.pushed ≡ b ∷ c.pushed
  pub stored : d.saved ≡ b ∷ c.saved
  pub faced : d.has_ext_face ≡ true
  pub synced : d.is_sync_only ≡ c.is_sync_only
  pub asked : d.proposed ≡ c.proposed

module _ (a : Around) (b : Block) where
  save_quiet :
      (c : Chain) → IsQuiet a → save_block a b c ≡ (record c { saved = b ∷ c.saved }, returned)
  unfolding save_block
  save_quiet c q = ground arith

  pub push_quiet :
      (c : Chain)
      → IsQuiet a
      → c.has_ext_face ≡ true
      → push_block_to_ext_face a b c
        ≡ (record c { in_create_block = false; pushed = b ∷ c.pushed }, returned)
  unfolding push_block_to_ext_face
  push_quiet c q f = ground arith

  abbrev stamped_chain : Chain → Chain
  stamped_chain c = with_averages a.now b.block_id b.transactions (record c {
    last_committed_block_id = b.block_id;
    last_committed_block_time_stamp = b.stamp;
    last_commit_time_ms = a.now;
  })

  update_quiet :
      (c : Chain)
      → IsNext a b c
      → update_last_committed_block_info a b.block_id b.stamp b.transactions c
        ≡ (stamped_chain c, returned)
  unfolding update_last_committed_block_info
  update_quiet c n = ground arith

  process_quiet :
      (c : Chain)
      → IsNext a b c
      → c.has_ext_face ≡ true
      → process_committed_block a b c ≡ (
        stamped_chain (record c {
          proposal_receipt_time = 0;
          saved = b ∷ c.saved;
          in_create_block = false;
          pushed = b ∷ c.pushed;
        }),
        returned,
      )
  unfolding process_committed_block
  process_quiet c n f =
      let d : Chain = record c { proposal_receipt_time = 0 } in
      let e : Chain = record c { proposal_receipt_time = 0; saved = b ∷ c.saved } in
      let g : Chain = record c {
        proposal_receipt_time = 0;
        saved = b ∷ c.saved;
        in_create_block = false;
        pushed = b ∷ c.pushed;
      } in
      ground (
        arith,
        save_quiet d n.quiet,
        push_quiet e n.quiet f,
        update_quiet g (record {
          quiet = n.quiet;
          numbered = n.numbered;
          positive = n.positive;
          later = n.later;
          clock = n.clock;
        }),
      )

  stamped-IsCommitted :
      (c : Chain)
      → c.has_ext_face ≡ true
      → IsCommitted a b c (
          stamped_chain (record c {
            proposal_receipt_time = 0;
            saved = b ∷ c.saved;
            in_create_block = false;
            pushed = b ∷ c.pushed;
          }))
  unfolding with_averages
  stamped-IsCommitted c f = record {
    last = refl;
    stamped = refl;
    timed = refl;
    logged = refl;
    stored = refl;
    faced = f;
    synced = refl;
    asked = refl;
  }

  -- The chain after a block that nothing disturbs.
  pub process_quiet-IsCommitted :
      (c : Chain)
      → IsNext a b c
      → c.has_ext_face ≡ true
      → (process_committed_block a b c ≡ ((process_committed_block a b c).0, returned))
        × IsCommitted a b c ((process_committed_block a b c).0)
  process_quiet-IsCommitted c n f =
      let p = process_quiet c n f in
      (
        p ∙ sym (ap (λ (r : Ran). (r.0, returned)) p),
        subst (λ (r : Ran). IsCommitted a b c (r.0)) (sym p) (stamped-IsCommitted c f),
      )
