-- ===== src/Chain/OneProposal.antt =====
-- A node's own proposals for one block.
use skale_consensus.Prelude.{
  ℕ, ◌+◌, ◌-◌, ◌^◌, ◌≡◌, ◌<◌, Option, none, some, List, [], ◌∷◌, if◌then◌else◌, u64, refl, sym, ◌∙◌,
  ap, arith, Option-cases, inl, inr,
}
use mathlib.Core.List.{Memᴰ}
use mathlib.Core.List.Memᴰ.{head, tail}
use skale_consensus.Chain.ProposalDb.{
  Proposal, is_dropped, add_proposal_to_cache, save_own, add_block_proposal, get_block_proposal,
  cleanup, have_proposal, check_and_save_hash,
}
use skale_consensus.Chain.Proposing.{
  Proposer, Cut, before_hash, before_enqueue, uncut, proposed_block_arrived, send_if,
  propose_next_block, Event, propose, commit, restart, happen, happen_all, new_proposer,
}
use skale_consensus.Chain.Consistent.{
  AllStored, IsConsistent, send-IsConsistent, get_block_proposal-stored,
}

-- No crash between the database of proposals and that of hashes; block numbers leave room.
abbrev pub IsUncut : List Event → Type 0
IsUncut [] = Unit
IsUncut (propose before_hash hash ∷ es) = ⊥
IsUncut (propose before_enqueue hash ∷ es) = IsUncut es
IsUncut (propose uncut hash ∷ es) = IsUncut es
IsUncut (commit id proposer ∷ es) = (id < 2 ^ 64 - 1) × IsUncut es
IsUncut (restart ∷ es) = IsUncut es

-- What is proposed next.
abbrev chosen : ℕ → List ℕ → Proposer → Option Proposal
chosen own hash s =
    let id : ℕ = u64 (s.last_committed_block_id + 1) in
    if have_proposal id s.hashes
    then get_block_proposal own id own s.db
    else some (record { block_id = id; proposer_index = own; hash = hash })

chosen_lem :
    (own : ℕ) (hash : List ℕ) (s : Proposer) (p : Proposal)
    → IsConsistent own s
    → chosen own hash s ≡ some p
    → (p.proposer_index ≡ own)
      × (p.block_id ≡ s.last_committed_block_id + 1)
      × ((q : Proposal) → s.db.stored p.block_id ≡ some q → q ≡ p)
unfolding have_proposal
chosen_lem own hash s p c e = elim (Option-cases (s.hashes (u64 (s.last_committed_block_id + 1)))) [
  | inl t ↦
      let f : s.db.stored (u64 (s.last_committed_block_id + 1)) ≡ none =
        c.fresh (u64 (s.last_committed_block_id + 1)) t in
      (ground arith, ground (arith, c.small), λ q r. ground arith)
  | inr (h, t) ↦
      let f : s.db.stored (u64 (s.last_committed_block_id + 1)) ≡ some p =
        get_block_proposal-stored own (u64 (s.last_committed_block_id + 1)) s p c (ground arith) in
      let k = c.named (u64 (s.last_committed_block_id + 1)) p f in
      (k.1, ground (arith, c.small, k.0), λ q r. ground (arith, k.0))
]

propose-IsConsistent :
    (own : ℕ) (cut : Cut) (hash : List ℕ) (s : Proposer)
    → (cut ≡ before_hash → ⊥)
    → IsConsistent own s
    → IsConsistent own (propose_next_block own cut hash s)
unfolding propose_next_block
propose-IsConsistent own cut hash s n c = by_choice (chosen own hash s) refl
  where
    by_choice :
        (o : Option Proposal) → chosen own hash s ≡ o → IsConsistent own (send_if own cut o s)
    by_choice none e = c
    by_choice (some p) e =
        let k = chosen_lem own hash s p c e in send-IsConsistent own cut s p n c k.0 k.1 k.2

cleanup-IsConsistent :
    (own id proposer : ℕ) (s : Proposer)
    → id < 2 ^ 64 - 1
    → IsConsistent own s
    → IsConsistent own (record s { last_committed_block_id = id; db = cleanup id proposer s.db })
unfolding cleanup
cleanup-IsConsistent own id proposer s small c = record {
  small = small;
  fresh = c.fresh;
  kept = c.kept;
  named = c.named;
  cached = λ p e. c.cached p (of_dropped p (s.db.caches own) e);
  sent = c.sent;
}
  where
    of_dropped :
        (p : Proposal) (o : Option Proposal) → is_dropped id proposer o ≡ some p → o ≡ some p
    of_dropped p none e = cc
    of_dropped p (some q) e = ground arith

restart-IsConsistent :
    (own : ℕ) (s : Proposer)
    → IsConsistent own s
    → IsConsistent own (record s { db = record { caches = λ i. none; stored = s.db.stored } })
restart-IsConsistent own s c = record {
  small = c.small;
  fresh = c.fresh;
  kept = c.kept;
  named = c.named;
  cached = λ p e. cc;
  sent = c.sent;
}

happen_all-IsConsistent :
    (own : ℕ) (es : List Event) (s : Proposer)
    → IsUncut es
    → IsConsistent own s
    → IsConsistent own (happen_all own es s)
unfolding happen_all happen
happen_all-IsConsistent own [] s u c = c
happen_all-IsConsistent own (propose before_hash hash ∷ es) s u c = absurd u
happen_all-IsConsistent own (propose before_enqueue hash ∷ es) s u c =
    happen_all-IsConsistent own es (propose_next_block own before_enqueue hash s) u
      (propose-IsConsistent own before_enqueue hash s (λ x. cc) c)
happen_all-IsConsistent own (propose uncut hash ∷ es) s u c =
    happen_all-IsConsistent own es (propose_next_block own uncut hash s) u
      (propose-IsConsistent own uncut hash s (λ x. cc) c)
happen_all-IsConsistent own (commit id proposer ∷ es) s u c =
    happen_all-IsConsistent own es
      (record s { last_committed_block_id = id; db = cleanup id proposer s.db }) u.1
      (cleanup-IsConsistent own id proposer s u.0 c)
happen_all-IsConsistent own (restart ∷ es) s u c =
    happen_all-IsConsistent own es
      (record s { db = record { caches = λ i. none; stored = s.db.stored } }) u
      (restart-IsConsistent own s c)

sent-stored :
    (f : ℕ → Option Proposal) (ps : List Proposal) (p : Proposal)
    → AllStored f ps
    → Memᴰ p ps
    → f p.block_id ≡ some p
sent-stored f [] p h x = elim x [ ]
sent-stored f (q ∷ ps) p h (head e) = ap (λ (r : Proposal). f r.block_id) e ∙ h.0 ∙ ap some (sym e)
sent-stored f (q ∷ ps) p h (tail m) = sent-stored f ps p h.1 m

-- However often a node starts again, commits blocks and proposes, and whatever it would have built
-- each time: if no crash falls between the saving of a proposal and that of its hash, all proposals
-- that it sends for one block are the same. Block numbers stay below 2^64 - 1. The databases of
-- proposals and of hashes, here maps, do not grow so large that they are rotated.
pub one_proposal :
    (own last : ℕ) (es : List Event) (p q : Proposal)
    → last < 2 ^ 64 - 1
    → IsUncut es
    → Memᴰ p ((happen_all own es (new_proposer last)).enqueued)
    → Memᴰ q ((happen_all own es (new_proposer last)).enqueued)
    → p.block_id ≡ q.block_id
    → p ≡ q
one_proposal own last es p q small u m n e =
    let c = happen_all-IsConsistent own es (new_proposer last) u (record {
      small = small;
      fresh = λ id x. refl;
      kept = λ id h x. cc;
      named = λ id r x. cc;
      cached = λ r x. cc;
      sent = tt;
    }) in
    let f = (happen_all own es (new_proposer last)).db.stored in
    let sent_list = (happen_all own es (new_proposer last)).enqueued in
    ground (arith, sent-stored f sent_list p c.sent m, sent-stored f sent_list q c.sent n)

-- A crash between the two: of what the node would have built before the crash and after it, it sends
-- the second and, started again, the first.
pub two_proposals :
    (own last : ℕ) (first second third : List ℕ)
    → last < 2 ^ 64 - 1
    → (happen_all own
        (propose before_hash first
          ∷ restart
          ∷ propose uncut second
          ∷ restart
          ∷ propose uncut third
          ∷ [])
        (new_proposer last)).enqueued
      ≡ record { block_id = last + 1; proposer_index = own; hash = first }
        ∷ record { block_id = last + 1; proposer_index = own; hash = second }
        ∷ []
unfolding happen_all happen propose_next_block have_proposal get_block_proposal
    proposed_block_arrived add_block_proposal add_proposal_to_cache save_own check_and_save_hash
two_proposals own last first second third small = ground arith
