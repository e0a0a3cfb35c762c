-- ===== src/Chain/Catchup.antt =====
-- Catch-up when no exit is requested and nothing throws.
use skale_consensus.Prelude.{
  ℕ, ◌+◌, ◌≡◌, ◌≤◌, ◌<◌, Bool, true, false, List, [], ◌∷◌, ◌++◌, leb, ◌==◌, if◌then◌else◌, u64,
  refl, sym, ◌∙◌, ap, subst, arith,
}
use skale_consensus.Proposals.TimeStamps.{TimeStamp, earlier}
use skale_consensus.Chain.State.{
  Block, Chain, returned, exit_requested, failed, Ran, Around, and_next,
}
use skale_consensus.Chain.Commit.{
  next_id, process_committed_block, propose_next_block, process_blocks, after_catchup,
  block_commits_arrived_through_catchup,
}
use skale_consensus.Chain.Quiet.{IsQuiet, IsNext, IsCommitted, process_quiet-IsCommitted}

-- A run of blocks that follow the last one, each later than the one before.
abbrev pub Follows : ℕ → TimeStamp → ℕ → List (Around × Bool × Block) → Type 0
Follows last stamp clock [] = Unit
Follows last stamp clock ((a, exits, b) ∷ bs) =
    IsQuiet a
    × (exits ≡ false)
    × (b.block_id ≡ u64 (last + 1))
    × (1 ≤ b.block_id)
    × (earlier stamp b.stamp ≡ true)
    × (clock ≤ a.now)
    × Follows b.block_id b.stamp a.now bs

-- The blocks, newest first, before others.
abbrev pub pushed_after : List (Around × Bool × Block) → List Block → List Block
pushed_after [] ps = ps
pushed_after ((a, exits, b) ∷ bs) ps = pushed_after bs (b ∷ ps)

abbrev pub last_after : List (Around × Bool × Block) → ℕ → ℕ
last_after [] last = last
last_after ((a, exits, b) ∷ bs) last = last_after bs b.block_id

abbrev Caught : List (Around × Bool × Block) → Chain → Ran → Type 0
Caught bs c r =
    (r.1 ≡ returned)
    × ((r.0).last_committed_block_id ≡ last_after bs c.last_committed_block_id)
    × ((r.0).pushed ≡ pushed_after bs c.pushed)
    × ((r.0).is_sync_only ≡ c.is_sync_only)
    × ((r.0).proposed ≡ c.proposed)

module _ (a : Around) (exits : Bool) (b : Block) (bs : List (Around × Bool × Block)) (c : Chain)
    (f : c.has_ext_face ≡ true)
    (h : Follows c.last_committed_block_id c.last_committed_block_time_stamp c.last_commit_time_ms
      ((a, exits, b) ∷ bs)) where
  abbrev next_chain : Chain
  next_chain = (process_committed_block a b c).0

  first_step : IsNext a b c
  first_step = record { quiet = h.0; numbered = h.2; positive = h.3; later = h.4; clock = h.5 }

  next_IsCommitted : IsCommitted a b c next_chain
  next_IsCommitted = (process_quiet-IsCommitted a b c first_step f).1

  -- The first block is committed, then the others.
  first_block : process_blocks ((a, exits, b) ∷ bs) c ≡ process_blocks bs next_chain
  unfolding process_blocks
  first_block = ground (arith, (process_quiet-IsCommitted a b c first_step f).0)

  rest_Follows :
      Follows next_chain.last_committed_block_id next_chain.last_committed_block_time_stamp
        next_chain.last_commit_time_ms bs
  rest_Follows =
      subst
        (λ (k : ℕ).
          Follows k next_chain.last_committed_block_time_stamp next_chain.last_commit_time_ms bs)
        (sym next_IsCommitted.last)
        (subst (λ t. Follows b.block_id t next_chain.last_commit_time_ms bs)
          (sym next_IsCommitted.stamped)
          (subst (λ (k : ℕ). Follows b.block_id b.stamp k bs) (sym next_IsCommitted.timed) (h.6)))

  first_Caught : (r : Ran) → Caught bs next_chain r → Caught ((a, exits, b) ∷ bs) c r
  first_Caught r w =
      let n = next_IsCommitted in
      (
        w.0,
        w.1 ∙ ap (last_after bs) n.last,
        w.2 ∙ ap (pushed_after bs) n.logged,
        w.3 ∙ n.synced,
        w.4 ∙ n.asked,
      )

process_blocks_quiet :
    (bs : List (Around × Bool × Block)) (c : Chain)
    → c.has_ext_face ≡ true
    → Follows c.last_committed_block_id c.last_committed_block_time_stamp c.last_commit_time_ms bs
    → Caught bs c (process_blocks bs c)
unfolding process_blocks
process_blocks_quiet [] c f h = (refl, refl, refl, refl, refl)
process_blocks_quiet ((a, exits, b) ∷ bs) c f h =
    let d : Chain = next_chain a exits b bs c f h in
    subst (Caught ((a, exits, b) ∷ bs) c) (sym (first_block a exits b bs c f h)) (
      first_Caught a exits b bs c f h (process_blocks bs d) (
        process_blocks_quiet bs d (next_IsCommitted a exits b bs c f h).faced
          (rest_Follows a exits b bs c f h)))

-- Blocks that are not the next are passed over.
abbrev pub IsPassed : ℕ → List (Around × Bool × Block) → Type 0
IsPassed next [] = Unit
IsPassed next ((a, exits, b) ∷ bs) =
    (exits ≡ false) × ((b.block_id == next) ≡ false) × IsPassed next bs

process_blocks-append :
    (old bs : List (Around × Bool × Block)) (c : Chain)
    → IsPassed (next_id c) old
    → process_blocks (old ++ bs) c ≡ process_blocks bs c
unfolding process_blocks
process_blocks-append [] bs c h = refl
process_blocks-append ((a, exits, b) ∷ old) bs c h = ground (arith, process_blocks-append old bs c)

-- The number of the very first block.
abbrev pub oldest : List (Around × Bool × Block) → Around × Bool × Block → ℕ
oldest [] (a, exits, b) = b.block_id
oldest ((a, exits, b) ∷ old) first = b.block_id

catchup_start :
    (last : Around) (old : List (Around × Bool × Block)) (first : Around × Bool × Block)
    (bs : List (Around × Bool × Block)) (c : Chain)
    → leb (oldest old first) (next_id c) ≡ true
    → block_commits_arrived_through_catchup last (old ++ first ∷ bs) c
      ≡ and_next (process_blocks (old ++ first ∷ bs) c) (after_catchup last c)
unfolding block_commits_arrived_through_catchup
catchup_start last [] (a, exits, b) bs c low = ground arith
catchup_start last ((a, exits, b) ∷ old) first bs c low = ground arith

and_next-returned : (r : Ran) (k : Chain → Ran) → r.1 ≡ returned → and_next r k ≡ k (r.0)
and_next-returned (c, returned) k e = refl
and_next-returned (c, exit_requested) k e = cc
and_next-returned (c, failed) k e = cc

after_catchup_quiet :
    (last : Around) (c d : Chain) (id : ℕ) (ps : List Block)
    → IsQuiet last
    → c.last_committed_block_id < id
    → d.last_committed_block_id ≡ id
    → d.pushed ≡ ps
    → d.is_sync_only ≡ c.is_sync_only
    → d.proposed ≡ c.proposed
    → ((after_catchup last c d).1 ≡ returned)
      × (((after_catchup last c d).0).last_committed_block_id ≡ id)
      × (((after_catchup last c d).0).pushed ≡ ps)
      × (((after_catchup last c d).0).proposed
          ≡ (if c.is_sync_only then c.proposed else u64 (id + 1) ∷ c.proposed))
unfolding propose_next_block
after_catchup_quiet last c d id ps q grow e p s t = ground arith

-- Catch-up with blocks of which the first are not the next to be committed, though the very first is
-- no later than that one, and the others, at least one, follow the last committed block one by one,
-- each with a later time stamp and at a time not before the last commit, ends well when no exit is
-- requested and nothing throws: the last of them is then the last committed block, all of them have
-- been passed on in order, and, unless the node is a sync node, the next block is proposed.
pub catchup_commits :
    (last : Around) (old : List (Around × Bool × Block)) (first : Around × Bool × Block)
    (bs : List (Around × Bool × Block)) (c : Chain)
    → IsQuiet last
    → c.has_ext_face ≡ true
    → IsPassed (next_id c) old
    → Follows c.last_committed_block_id c.last_committed_block_time_stamp c.last_commit_time_ms
        (first ∷ bs)
    → c.last_committed_block_id < last_after (first ∷ bs) c.last_committed_block_id
    → (leb (oldest old first) (next_id c) ≡ true)
    → let r = block_commits_arrived_through_catchup last (old ++ first ∷ bs) c in
      (r.1 ≡ returned)
      × ((r.0).last_committed_block_id ≡ last_after (first ∷ bs) c.last_committed_block_id)
      × ((r.0).pushed ≡ pushed_after (first ∷ bs) c.pushed)
      × ((r.0).proposed ≡ (
          if c.is_sync_only
          then c.proposed
          else u64 (last_after (first ∷ bs) c.last_committed_block_id + 1) ∷ c.proposed))
catchup_commits last old first bs c q f p h grow low =
    let r : Ran = process_blocks (first ∷ bs) c in
    let w = process_blocks_quiet (first ∷ bs) c f h in
    subst
      (λ (x : Ran).
        (x.1 ≡ returned)
        × ((x.0).last_committed_block_id ≡ last_after (first ∷ bs) c.last_committed_block_id)
        × ((x.0).pushed ≡ pushed_after (first ∷ bs) c.pushed)
        × ((x.0).proposed ≡ (
            if c.is_sync_only
            then c.proposed
            else u64 (last_after (first ∷ bs) c.last_committed_block_id + 1) ∷ c.proposed)))
      (sym (
        catchup_start last old first bs c low
        ∙ ap (λ x. and_next x (after_catchup last c)) (process_blocks-append old (first ∷ bs) c p)
        ∙ and_next-returned r (after_catchup last c) w.0))
      (after_catchup_quiet last c (r.0) (last_after (first ∷ bs) c.last_committed_block_id)
        (pushed_after (first ∷ bs) c.pushed) q grow w.1 w.2 w.3 w.4)
