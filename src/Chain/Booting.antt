-- ===== src/Chain/Booting.antt =====
-- When bootstrap ends, and with what.
use skale_consensus.Prelude.{
  ℕ, zero, suc, ◌+◌, ◌-◌, ◌*◌, ◌^◌, ◌≡◌, ◌≤◌, ◌<◌, true, false, Option, none, some, List, ◌∷◌, ◌==◌,
  if◌then◌else◌, u64, refl, sym, ap, subst, ◌∙◌, arith, Option-cases, Bool-cases, inl, inr,
}
use skale_consensus.Proposals.TimeStamps.{TimeStamp}
use skale_consensus.Chain.State.{Block, Chain, returned, exit_requested, failed, Ran, Around}
use skale_consensus.Chain.Commit.{push_block_to_ext_face, propose_next_block}
use skale_consensus.Chain.Quiet.{IsQuiet, push_quiet}
use skale_consensus.Chain.Bootstrap.{
  modern_time, Replay, after_push, replay_block, replay, Booted, init_last_committed_block_info,
  start_chain, start_if, known_ms, bootstrap,
}

after_push-last_id : (b : Block) (r : Replay) (x : Ran) → (after_push b r x).last_id ≤ r.last_id + 1
after_push-last_id b r (c, returned) = omega arith
after_push-last_id b r (c, exit_requested) = omega arith
after_push-last_id b r (c, failed) = omega arith

-- An attempt goes on by at most one, and not at all where there is no block.
replay_block-last_id :
    (a : Around) (db : ℕ → Option Block) (k : ℕ) (r : Replay)
    → k < 2 ^ 64 - 1
    → db (k + 1) ≡ none
    → r.last_id ≤ k
    → (replay_block a (db (u64 (r.last_id + 1))) r).last_id ≤ k
replay_block-last_id a db k r small gap low = elim (Option-cases (db (u64 (r.last_id + 1)))) [
  | inl e ↦ rw e low
  | inr (b, e) ↦
      rw e (omega (arith, after_push-last_id b r (push_block_to_ext_face a b r.chain), apart b e))
]
  where
    not_there :
        (b : Block) → db (u64 (r.last_id + 1)) ≡ none → db (u64 (r.last_id + 1)) ≡ some b → ⊥
    not_there b x y = cc

    apart : (b : Block) → db (u64 (r.last_id + 1)) ≡ some b → r.last_id + 1 ≤ k
    apart b e = elim (Bool-cases (r.last_id == k)) [
      | inl t ↦ absurd (not_there b (sym (ap db (ground arith)) ∙ gap) e)
      | inr t ↦ ground arith
    ]

-- The loop never ends if a block is missing, whatever happens around its attempts.
pub replay_stuck :
    (fuel : ℕ) (around : ℕ → Around) (db : ℕ → Option Block) (target k : ℕ) (r : Replay)
    → k < 2 ^ 64 - 1
    → db (k + 1) ≡ none
    → r.last_id ≤ k
    → k < target
    → replay fuel around db target r ≡ none
unfolding replay
replay_stuck zero around db target k r small gap low high = ground arith
replay_stuck (suc fuel) around db target k r small gap low high = ground (
  arith,
  replay_stuck fuel around db target k (replay_block (around fuel) (db (u64 (r.last_id + 1))) r)
      small gap,
  replay_block-last_id (around fuel) db k r small gap low,
)

-- The blocks from the one after `id`, before others.
abbrev pub pushed_from : (ℕ → Block) → ℕ → ℕ → List Block → List Block
pushed_from block id zero ps = ps
pushed_from block id (suc n) ps = pushed_from block (id + 1) n (block (id + 1) ∷ ps)

abbrev pub stamp_from : (ℕ → Block) → ℕ → ℕ → TimeStamp → TimeStamp
stamp_from block id zero t = t
stamp_from block id (suc n) t = stamp_from block (id + 1) n (block (id + 1)).stamp

abbrev Replayed : (ℕ → Block) → ℕ → Replay → Replay → Type 0
Replayed block n r s =
    (s.last_id ≡ r.last_id + n)
    × (s.stamp ≡ stamp_from block r.last_id n r.stamp)
    × (s.chain.pushed ≡ pushed_from block r.last_id n r.chain.pushed)
    × (s.chain.is_sync_only ≡ r.chain.is_sync_only)
    × (s.chain.proposed ≡ r.chain.proposed)

replay_block_quiet :
    (a : Around) (db : ℕ → Option Block) (b : Block) (r : Replay)
    → IsQuiet a
    → r.chain.has_ext_face ≡ true
    → r.last_id < 2 ^ 64 - 1
    → db (r.last_id + 1) ≡ some b
    → replay_block a (db (u64 (r.last_id + 1))) r ≡ record {
      chain = record r.chain { in_create_block = false; pushed = b ∷ r.chain.pushed };
      last_id = r.last_id + 1;
      stamp = b.stamp;
    }
replay_block_quiet a db b r q face small has =
    ap (λ o. replay_block a o r) (ap db wraps ∙ has)
    ∙ ap (after_push b r) (push_quiet a b r.chain q face)
    ∙ ground (arith, wraps)
  where
    wraps : u64 (r.last_id + 1) ≡ r.last_id + 1
    wraps = ground arith

replay_quiet :
    (n fuel : ℕ) (around : ℕ → Around) (db : ℕ → Option Block) (block : ℕ → Block) (target : ℕ)
    (r : Replay)
    → ((i : ℕ) → IsQuiet (around i))
    → r.chain.has_ext_face ≡ true
    → n ≤ fuel
    → r.last_id + n ≡ target
    → target < 2 ^ 64
    → ((i : ℕ) → r.last_id < i → i ≤ target → db i ≡ some (block i))
    → (s : Replay) × (replay fuel around db target r ≡ some s) × Replayed block n r s
unfolding replay
replay_quiet zero zero around db block target r q face f e small has =
    (r, ground arith, (omega arith, refl, refl, refl, refl))
replay_quiet zero (suc fuel) around db block target r q face f e small has =
    (r, ground arith, (omega arith, refl, refl, refl, refl))
replay_quiet (suc n) zero around db block target r q face f e small has = absurd (omega arith)
replay_quiet (suc n) (suc fuel) around db block target r q face f e small has =
    let b : Block = block (r.last_id + 1) in
    let next : Replay = record {
      chain = record r.chain { in_create_block = false; pushed = b ∷ r.chain.pushed };
      last_id = r.last_id + 1;
      stamp = b.stamp;
    } in
    let step : replay_block (around fuel) (db (u64 (r.last_id + 1))) r ≡ next =
      replay_block_quiet (around fuel) db b r (q fuel) face (omega (arith, e, small))
        (has (r.last_id + 1) (omega arith) (omega (arith, e))) in
    let ih =
      replay_quiet n fuel around db block target next q face (omega (arith, f)) (omega (arith, e))
        small (λ i lo hi. has i (omega (arith, lo)) hi) in
    (ih.0, ground (arith, step, ih.1), (omega (arith, ih.2.0), ih.2.1, ih.2.2, ih.2.3, ih.2.4))

-- If a block that the execution layer has not got is not in BlockDB, and the difference is not too
-- large, bootstrap never ends: no number of attempts suffices, whatever happens around them.
pub bootstrap_stuck :
    (fuel : ℕ) (around : ℕ → Around) (a : Around) (db : ℕ → Option Block) (k in_consensus last : ℕ)
    (stamp : TimeStamp) (c : Chain)
    → last ≤ k
    → k < in_consensus
    → in_consensus ≤ last + 128
    → last + 128 < 2 ^ 64
    → db (k + 1) ≡ none
    → bootstrap fuel around a db false false in_consensus last stamp c ≡ none
unfolding bootstrap
bootstrap_stuck fuel around a db k in_consensus last stamp c low high near small gap =
    let r : Replay = record {
      chain = c;
      last_id = last;
      stamp = record { s = stamp.s; ms = known_ms db last stamp.ms };
    } in
    ground (
      arith,
      replay_stuck fuel around db in_consensus k r (omega (arith, low, high, near, small)) gap low
          high,
    )

-- How a chain starts.
abbrev pub Started : (ℕ → Block) → ℕ → ℕ → Chain → Booted → Type 0
Started block last n c w =
    (w.outcome ≡ returned)
    × (w.is_state_initialized ≡ true)
    × (w.state.bootstrap_block_id ≡ last + n)
    × (w.state.last_committed_block_id ≡ last + n)
    × (w.state.pushed ≡ pushed_from block last n c.pushed)
    × (w.state.proposed ≡ (if c.is_sync_only then c.proposed else u64 (last + n + 1) ∷ c.proposed))

start_chain-Started :
    (block : ℕ → Block) (last n : ℕ) (c : Chain) (a : Around) (r : Replay)
    → IsQuiet a
    → r.last_id ≡ last + n
    → r.stamp.s < 2 * modern_time
    → r.chain.pushed ≡ pushed_from block last n c.pushed
    → r.chain.is_sync_only ≡ c.is_sync_only
    → r.chain.proposed ≡ c.proposed
    → Started block last n c (start_chain a r)
unfolding start_chain init_last_committed_block_info propose_next_block
start_chain-Started block last n c a r q e old p s t = ground arith

-- When the blocks that the execution layer has not got, at most 128, are in BlockDB, nothing is
-- requested or throws, and the last time stamp is not too far in the future, bootstrap ends once as
-- many attempts are allowed: those blocks have been passed on in order, the last of them is the last
-- committed block, the state counts as initialized, and, unless the node is a sync node, the next block
-- is proposed.
pub bootstrap-Started :
    (fuel : ℕ) (around : ℕ → Around) (a : Around) (db : ℕ → Option Block) (block : ℕ → Block)
    (n last : ℕ) (stamp : TimeStamp) (c : Chain)
    → ((i : ℕ) → IsQuiet (around i))
    → IsQuiet a
    → c.has_ext_face ≡ true
    → n ≤ 128
    → n ≤ fuel
    → last + 128 < 2 ^ 64
    → ((i : ℕ) → last < i → i ≤ last + n → db i ≡ some (block i))
    → (stamp_from block last n (record { s = stamp.s; ms = known_ms db last stamp.ms })).s
      < 2 * modern_time
    → (w : Booted) × (bootstrap fuel around a db false false (last + n) last stamp c ≡ some w)
      × Started block last n c w
unfolding bootstrap
bootstrap-Started fuel around a db block n last stamp c quiet q face near f small has old =
    let r : Replay = record {
      chain = c;
      last_id = last;
      stamp = record { s = stamp.s; ms = known_ms db last stamp.ms };
    } in
    let k =
      replay_quiet n fuel around db block (last + n) r quiet face f refl
        (omega (arith, near, small)) has in
    (
      start_chain a k.0,
      ground (arith, ap (start_if a) k.1),
      start_chain-Started block last n c a k.0 q k.2.0
          (subst (λ (t : TimeStamp). t.s < 2 * modern_time) (sym k.2.1) old) k.2.2 k.2.3 k.2.4,
    )
