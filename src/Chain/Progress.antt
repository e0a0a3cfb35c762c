-- ===== src/Chain/Progress.antt =====
-- How far processCommittedBlock gets.
use skale_consensus.Prelude.{
  ◌≡◌, ◌⊎◌, Bool, true, false, not, ◌∷◌, ◌==◌, refl, sym, ◌∙◌, ap, arith, inl, inr,
}
use skale_consensus.Proposals.TimeStamps.{earlier}
use skale_consensus.Chain.State.{
  Block, Chain, Outcome, returned, exit_requested, failed, Ran, Around, unless_throws, and_next,
}
use skale_consensus.Chain.Commit.{
  next_id, save_block, push_block_to_ext_face, update_last_committed_block_info,
  process_committed_block,
}
use skale_consensus.Chain.Stages.{
  Settled, Uncommitted, Saved, save_block_lem, Pushed, push_block_lem, Updated, update_lem,
  and_next_cases, check_for_exit_cases, check_state_cases,
}

-- The four states in which it can leave the chain, exceptions included.
pub data Progress (b : Block) (c d : Chain) : Type 0 where
  untouched : Uncommitted c d → d.saved ≡ c.saved → d.pushed ≡ c.pushed → Progress b c d
  only_saved : Uncommitted c d → d.saved ≡ b ∷ c.saved → d.pushed ≡ c.pushed → Progress b c d
  only_pushed :
      Uncommitted c d
      → b.block_id ≡ next_id c
      → d.saved ≡ b ∷ c.saved
      → d.pushed ≡ b ∷ c.pushed
      → Progress b c d
  committed :
      b.block_id ≡ next_id c
      → d.last_committed_block_id ≡ b.block_id
      → d.last_committed_block_time_stamp ≡ b.stamp
      → earlier c.last_committed_block_time_stamp b.stamp ≡ true
      → d.saved ≡ b ∷ c.saved
      → d.pushed ≡ b ∷ c.pushed
      → Progress b c d

-- Where a run of processCommittedBlock can end.
abbrev pub Processed : Block → Chain → Ran → Type 0
Processed b c r =
    Settled c (r.0)
    × Progress b c (r.0)
    × (r.1 ≡ returned → (r.0).last_committed_block_id ≡ b.block_id)

Settled-trans : (c d e : Chain) → Settled c d → Settled d e → Settled c e
Settled-trans c d e p q = record {
  same_start = q.same_start ∙ p.same_start;
  same_ext_face = q.same_ext_face ∙ p.same_ext_face;
}

Uncommitted-trans : (c d e : Chain) → Uncommitted c d → Uncommitted d e → Uncommitted c e
Uncommitted-trans c d e p q = record {
  same_id = q.same_id ∙ p.same_id;
  same_stamp = q.same_stamp ∙ p.same_stamp;
}

abbrev after_update : Around → Chain → Ran
after_update a g = unless_throws a.analysis_throws g (g, returned)

abbrev after_push : Around → Block → Chain → Ran
after_push a b f =
    and_next (update_last_committed_block_info a b.block_id b.stamp b.transactions f)
      (after_update a)

abbrev after_save : Around → Block → Chain → Ran
after_save a b e = and_next (push_block_to_ext_face a b e) (after_push a b)

module _ (a : Around) (b : Block) (c : Chain) (next : b.block_id ≡ next_id c) where
  ending :
      (t : Bool) (g : Chain)
      → Settled c g
      → Progress b c g
      → g.last_committed_block_id ≡ b.block_id
      → Processed b c (unless_throws t g (g, returned))
  ending true g s p e = (s, p, λ x. cc)
  ending false g s p e = (s, p, λ x. e)

  stamp_from :
      (f : Chain)
      → Uncommitted c f
      → earlier f.last_committed_block_time_stamp b.stamp ≡ true
      → earlier c.last_committed_block_time_stamp b.stamp ≡ true
  stamp_from f u h = ap (λ t. earlier t b.stamp) (sym u.same_stamp) ∙ h

  push_part :
      (f : Chain)
      → Settled c f
      → Uncommitted c f
      → f.saved ≡ b ∷ c.saved
      → f.pushed ≡ b ∷ c.pushed
      → Processed b c (after_push a b f)
  push_part f s u p q =
      and_next_cases (Updated b f) (Processed b c)
        (update_last_committed_block_info a b.block_id b.stamp b.transactions f) (after_update a)
        (update_lem a b f)
        (λ g h.
          ending a.analysis_throws g (Settled-trans c f g s h.0)
            (committed next h.3 h.4 (stamp_from f u h.5) (h.1 ∙ p) (h.2 ∙ q)) h.3)
        (λ g h. absurd h)
        (λ g h. (
          Settled-trans c f g s h.0,
          elim h.3 [
            | inl v ↦ only_pushed (Uncommitted-trans c f g u v) next (h.1 ∙ p) (h.2 ∙ q)
            | inr v ↦ committed next v.0 v.1 (stamp_from f u v.2) (h.1 ∙ p) (h.2 ∙ q)
          ],
          λ x. cc,
        ))

  save_part :
      c.has_ext_face ≡ true
      → (e : Chain) → Settled c e
      → Uncommitted c e
      → e.saved ≡ b ∷ c.saved
      → e.pushed ≡ c.pushed
      → Processed b c (after_save a b e)
  save_part face e s u p q =
      and_next_cases (Pushed b e) (Processed b c) (push_block_to_ext_face a b e) (after_push a b)
        (push_block_lem a b e (s.same_ext_face ∙ face))
        (λ f h.
          push_part f (Settled-trans c e f s h.0) (Uncommitted-trans c e f u h.1) (h.2 ∙ p)
            (h.3 ∙ ap (λ l. b ∷ l) q))
        (λ f h. (Settled-trans c e f s h.0, stopped f h, λ x. cc))
        (λ f h. (Settled-trans c e f s h.0, stopped f h, λ x. cc))
    where
      stopped :
          (f : Chain)
          → Settled e f
            × Uncommitted e f
            × (f.saved ≡ e.saved)
            × ((f.pushed ≡ e.pushed) ⊎ (f.pushed ≡ b ∷ e.pushed))
          → Progress b c f
      stopped f (t, v, x, inl y) = only_saved (Uncommitted-trans c e f u v) (x ∙ p) (y ∙ q)
      stopped f (t, v, x, inr y) =
          only_pushed (Uncommitted-trans c e f u v) next (x ∙ p) (y ∙ ap (λ l. b ∷ l) q)

  save_start :
      c.has_ext_face ≡ true
      → (d : Chain) → Settled c d
      → Uncommitted c d
      → d.saved ≡ c.saved
      → d.pushed ≡ c.pushed
      → Processed b c (and_next (save_block a b d) (after_save a b))
  save_start face d s u p q =
      and_next_cases (Saved b d) (Processed b c) (save_block a b d) (after_save a b)
        (save_block_lem a b d)
        (λ e h.
          save_part face e (Settled-trans c d e s h.0) (Uncommitted-trans c d e u h.1)
            (h.2 ∙ ap (λ l. b ∷ l) p) (h.3 ∙ q))
        (λ e h. (
          Settled-trans c d e s h.0,
          untouched (Uncommitted-trans c d e u h.1) (h.2 ∙ p) (h.3 ∙ q),
          λ x. cc,
        ))
        (λ e h. (
          Settled-trans c d e s h.0,
          untouched (Uncommitted-trans c d e u h.1) (h.2 ∙ p) (h.3 ∙ q),
          λ x. cc,
        ))

-- With an execution layer, whatever happens around it.
pub process_committed_block_lem :
    (a : Around) (b : Block) (c : Chain)
    → c.has_ext_face ≡ true
    → Processed b c (process_committed_block a b c)
unfolding process_committed_block
process_committed_block_lem a b c face =
    check_for_exit_cases (Processed b c) a.exit_at_start c _
      (stopped c exit_requested (λ x. cc) refl refl refl refl refl refl)
      (check_state_cases (Processed b c) (next_id c == b.block_id) c _
        (stopped c failed (λ x. cc) refl refl refl refl refl refl)
        (λ f.
          check_state_cases (Processed b c) (not (next_id c == 0))
            (record c { proposal_receipt_time = 0 }) _
            (stopped (record c { proposal_receipt_time = 0 }) failed (λ x. cc) refl refl refl refl
              refl refl)
            (λ g.
              save_start a b c (ground arith) face (record c { proposal_receipt_time = 0 })
                (record { same_start = refl; same_ext_face = refl })
                (record { same_id = refl; same_stamp = refl }) refl refl)))
  where
    stopped :
        (d : Chain) (o : Outcome)
        → (o ≡ returned → ⊥)
        → d.bootstrap_block_id ≡ c.bootstrap_block_id
        → d.has_ext_face ≡ c.has_ext_face
        → d.last_committed_block_id ≡ c.last_committed_block_id
        → d.last_committed_block_time_stamp ≡ c.last_committed_block_time_stamp
        → d.saved ≡ c.saved
        → d.pushed ≡ c.pushed
        → Processed b c (d, o)
    stopped d o n p q r s t u = (
      record { same_start = p; same_ext_face = q },
      untouched (record { same_id = r; same_stamp = s }) t u,
      λ x. absurd (n x),
    )
