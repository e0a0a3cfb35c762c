-- ===== src/Chain/Consistent.antt =====
-- What holds of a node's own proposals, and that sending one keeps it.
use skale_consensus.Prelude.{
  ℕ, ◌+◌, ◌-◌, ◌^◌, ◌≡◌, ◌⊎◌, ◌<◌, Option, none, some, List, [], ◌∷◌, ◌==◌, if◌then◌else◌, update,
  refl, ap, subst, arith, Option-cases, Bool-cases, inl, inr,
}
use skale_consensus.Chain.ProposalDb.{
  Proposal, Hashes, or_first, saved_or, add_proposal_to_cache, save_own, add_block_proposal,
  get_block_proposal, check_and_save_hash,
}
use skale_consensus.Chain.Proposing.{
  Proposer, Cut, before_hash, before_enqueue, uncut, proposed_block_arrived, send,
}

-- Every element is stored under its block.
abbrev pub AllStored : (ℕ → Option Proposal) → List Proposal → Type 0
AllStored f [] = Unit
AllStored f (p ∷ ps) = (f p.block_id ≡ some p) × AllStored f ps

-- A hash is saved exactly of what is stored, and all else is stored: the cached proposal and those
-- that were sent.
pub record IsConsistent (own : ℕ) (s : Proposer) : Type 0 where
  pub small : s.last_committed_block_id < 2 ^ 64 - 1
  pub fresh : (id : ℕ) → s.hashes id ≡ none → s.db.stored id ≡ none
  pub kept :
      (id : ℕ) (h : List ℕ) → s.hashes id ≡ some h → (p : Proposal) × (s.db.stored id ≡ some p)
  pub named :
      (id : ℕ) (p : Proposal)
      → s.db.stored id ≡ some p
      → (p.block_id ≡ id) × (p.proposer_index ≡ own)
  pub cached : (p : Proposal) → s.db.caches own ≡ some p → s.db.stored p.block_id ≡ some p
  pub sent : AllStored s.db.stored s.enqueued

-- What is stored stays.
abbrev Extends : (ℕ → Option Proposal) → (ℕ → Option Proposal) → Type 0
Extends f g = (id : ℕ) (p : Proposal) → f id ≡ some p → g id ≡ some p

AllStored-Extends :
    (f g : ℕ → Option Proposal) (ps : List Proposal) → Extends f g → AllStored f ps → AllStored g ps
AllStored-Extends f g [] e h = tt
AllStored-Extends f g (p ∷ ps) e h = (e p.block_id p h.0, AllStored-Extends f g ps e h.1)

module _ (own : ℕ) (s : Proposer) (c : IsConsistent own s) (p : Proposal)
    (mine : p.proposer_index ≡ own) (next : p.block_id ≡ s.last_committed_block_id + 1)
    (known : (q : Proposal) → s.db.stored p.block_id ≡ some q → q ≡ p) where
  abbrev arrived : Proposer
  arrived = proposed_block_arrived own p s

  abbrev hashed : Proposer
  hashed = record arrived { hashes = (check_and_save_hash p.block_id p.hash arrived.hashes).0 }

  arrived-stored :
      (id : ℕ)
      → arrived.db.stored id
        ≡ (if p.block_id == id then or_first (s.db.stored p.block_id) p else s.db.stored id)
  unfolding proposed_block_arrived add_block_proposal add_proposal_to_cache save_own
  arrived-stored id = ground (arith, mine, next)

  arrived-cached :
      (q : Proposal) → arrived.db.caches own ≡ some q → (q ≡ p) ⊎ (s.db.caches own ≡ some q)
  unfolding proposed_block_arrived add_block_proposal add_proposal_to_cache save_own
  arrived-cached q e = ground (arith, mine, next)

  arrived-Extends : Extends s.db.stored arrived.db.stored
  arrived-Extends id q e = ground (arith, arrived-stored id)

  stored_now : arrived.db.stored p.block_id ≡ some p
  stored_now = elim (Option-cases (s.db.stored p.block_id)) [
    | inl e ↦ ground (arith, arrived-stored p.block_id)
    | inr (q, e) ↦ ground (arith, arrived-stored p.block_id, known q)
  ]

  arrived-others :
      (arrived.last_committed_block_id ≡ s.last_committed_block_id)
      × (arrived.hashes ≡ s.hashes)
      × (arrived.enqueued ≡ s.enqueued)
  unfolding proposed_block_arrived
  arrived-others = ground (arith, next)

  hashed-hashes :
      (id : ℕ)
      → hashed.hashes id
        ≡ (if p.block_id == id then saved_or (s.hashes p.block_id) p.hash else s.hashes id)
  unfolding check_and_save_hash
  hashed-hashes id =
      ap (λ (hs : Hashes). update hs p.block_id (saved_or (hs p.block_id) p.hash) id)
        arrived-others.1

  hashed-fresh : (id : ℕ) → hashed.hashes id ≡ none → arrived.db.stored id ≡ none
  hashed-fresh id e = ground (arith, hashed-hashes id, arrived-stored id, c.fresh id)

  hashed-kept :
      (id : ℕ) (h : List ℕ)
      → hashed.hashes id ≡ some h
      → (q : Proposal) × (arrived.db.stored id ≡ some q)
  hashed-kept id h e = elim (Bool-cases (p.block_id == id)) [
    | inl t ↦ (p, subst (λ (k : ℕ). arrived.db.stored k ≡ some p) (ground arith) stored_now)
    | inr t ↦
        let k = c.kept id h (ground (arith, hashed-hashes id)) in (k.0, arrived-Extends id k.0 k.1)
  ]

  arrived-named :
      (id : ℕ) (q : Proposal)
      → arrived.db.stored id ≡ some q
      → (q.block_id ≡ id) × (q.proposer_index ≡ own)
  arrived-named id q e = elim (Bool-cases (p.block_id == id)) [
    | inl t ↦ ground (arith, arrived-stored id, c.named id q, stored_now, mine)
    | inr t ↦ c.named id q (ground (arith, arrived-stored id))
  ]

  cached-stored :
      (q : Proposal) → arrived.db.caches own ≡ some q → arrived.db.stored q.block_id ≡ some q
  cached-stored q e = elim (arrived-cached q e) [
    | inl t ↦ rw t stored_now
    | inr t ↦ arrived-Extends q.block_id q (c.cached q t)
  ]

  sent_still : AllStored arrived.db.stored s.enqueued
  sent_still = AllStored-Extends s.db.stored arrived.db.stored s.enqueued arrived-Extends c.sent

  hashed-IsConsistent : IsConsistent own hashed
  unfolding check_and_save_hash
  hashed-IsConsistent = record {
    small = rw arrived-others.0 c.small;
    fresh = hashed-fresh;
    kept = hashed-kept;
    named = arrived-named;
    cached = cached-stored;
    sent = rw arrived-others.2 sent_still;
  }

  sent-IsConsistent : IsConsistent own (record hashed { enqueued = p ∷ arrived.enqueued })
  unfolding check_and_save_hash
  sent-IsConsistent = record {
    small = rw arrived-others.0 c.small;
    fresh = hashed-fresh;
    kept = hashed-kept;
    named = arrived-named;
    cached = cached-stored;
    sent = (stored_now, rw arrived-others.2 sent_still);
  }

-- The proposal that is sent: the one that is stored, or a new one.
pub send-IsConsistent :
    (own : ℕ) (cut : Cut) (s : Proposer) (p : Proposal)
    → (cut ≡ before_hash → ⊥)
    → IsConsistent own s
    → p.proposer_index ≡ own
    → p.block_id ≡ s.last_committed_block_id + 1
    → ((q : Proposal) → s.db.stored p.block_id ≡ some q → q ≡ p)
    → IsConsistent own (send own cut p s)
send-IsConsistent own before_hash s p n c m e k = absurd (n refl)
send-IsConsistent own before_enqueue s p n c m e k = hashed-IsConsistent own s c p m e k
send-IsConsistent own uncut s p n c m e k = sent-IsConsistent own s c p m e k

-- What BlockProposalDB has for the next block is what is stored.
pub get_block_proposal-stored :
    (own id : ℕ) (s : Proposer) (p : Proposal)
    → IsConsistent own s
    → get_block_proposal own id own s.db ≡ some p
    → s.db.stored id ≡ some p
unfolding get_block_proposal
get_block_proposal-stored own id s p c e = elim (Option-cases (s.db.caches own)) [
  | inl t ↦ ground arith
  | inr (q, t) ↦ ground (arith, c.cached q t)
]
