-- ===== src/BlockConsensus/Once.antt =====
-- Runs of reports for one block id, and the signatures that they lead to.
use skale_consensus.Prelude.{
  ℕ, suc, ◌+◌, ◌≤◌, ◌≡◌, ◌⊎◌, inl, inr, false, Option, none, some, List, [], ◌∷◌, length, leb, ◌==◌,
  arith, if_cases, ap, sym, subst, ◌∙◌,
}
use skale_consensus.BlockConsensus.Cache.{LruCache}
use skale_consensus.BlockConsensus.Agent.{
  Signing, sign_throws, save_throws, broadcast_throws, signed, ChildDecided, Chain, Decisions,
  Agent, Outcome, record_decision, decide_block, decide_choice, decide_seeded, is_empty,
  decide_if_needed, is_decided, report_consensus_and_decide_if_needed, Effect, sign_block,
  broadcast_block_sign, finalize_block,
}
use skale_consensus.BlockConsensus.Decisions.{
  trues, falses, decided_index, IsUndecided, record_decision-decided_index,
}

-- How many signatures the agent has made.
unfoldable pub signatures : List Effect → ℕ
signatures [] = 0
signatures (sign_block b i ∷ es) = suc (signatures es)
signatures (broadcast_block_sign b i ∷ es) = signatures es
signatures (finalize_block b i s ∷ es) = signatures es

module _ (D : LruCache Decisions) (I : LruCache ℕ) where
  open D use {touch}
  open I use {find-put as find_index-put}

  -- The reports of the binary consensuses, one after the other, each with what the database of
  -- shares returns if it makes the agent sign.
  unfoldable pub report_all : Chain → List (Signing × ChildDecided) → Agent D I → Agent D I
  report_all ch [] a = a
  report_all ch ((s, msg) ∷ msgs) a =
      report_all ch msgs (report_consensus_and_decide_if_needed D I ch s msg a).agent

  abbrev pub AreFor : ℕ → List (Signing × ChildDecided) → Type 0
  AreFor b [] = Unit
  AreFor b ((s, msg) ∷ msgs) = (msg.block_id ≡ b) × AreFor b msgs

  -- Whether signing fails once the share is signed, before the decision is recorded.
  unfoldable pub fails_signed : Signing → ℕ
  fails_signed (sign_throws x) = 0
  fails_signed (save_throws x) = 1
  fails_signed (broadcast_throws x) = 1
  fails_signed (signed g x) = 0

  -- How many of the reports meet such a failure if they make the agent sign.
  unfoldable pub failures : List (Signing × ChildDecided) → ℕ
  failures [] = 0
  failures ((s, msg) ∷ msgs) = fails_signed s + failures msgs

  -- Undecided with at most `k` signatures made, or decided with at most one more.
  abbrev SignsOnce : ℕ → ℕ → Agent D I → Type 0
  SignsOnce b k a =
      ((decided_index D I b a ≡ none) × (signatures a.effects ≤ k))
      ⊎ ((x : ℕ) × (decided_index D I b a ≡ some x) × (signatures a.effects ≤ k + 1))

  decide_block-SignsOnce :
      (s : Signing) (b i : ℕ) (a : Agent D I)
      → IsUndecided D I b a
      → SignsOnce b (signatures a.effects + fails_signed s) (decide_block D I s b i a).agent
  unfolding decide_block signatures fails_signed
  decide_block-SignsOnce (sign_throws x) b i a u = inl (u, omega arith)
  decide_block-SignsOnce (save_throws x) b i a u = inl (u, omega arith)
  decide_block-SignsOnce (broadcast_throws x) b i a u = inl (u, omega arith)
  decide_block-SignsOnce (signed none x) b i a u =
      inr (i, find_index-put b i a.decided_indices, omega arith)
  decide_block-SignsOnce (signed (some g) none) b i a u =
      inr (i, find_index-put b i a.decided_indices, omega arith)
  decide_block-SignsOnce (signed (some g) (some x)) b i a u =
      inr (i, find_index-put b i a.decided_indices, omega arith)

  decide_choice-SignsOnce :
      (s : Signing) (b : ℕ) (a : Agent D I) (o : Option ℕ)
      → IsUndecided D I b a
      → SignsOnce b (signatures a.effects + fails_signed s) (decide_choice D I s b a o).agent
  decide_choice-SignsOnce s b a none u = inl (u, omega arith)
  decide_choice-SignsOnce s b a (some i) u = decide_block-SignsOnce s b i a u

  decide_seeded-SignsOnce :
      (ch : Chain) (s : Signing) (b : ℕ) (a : Agent D I) (o : Option ℕ)
      → IsUndecided D I b a
      → SignsOnce b (signatures a.effects + fails_signed s) (decide_seeded D I ch s b a o).agent
  decide_seeded-SignsOnce ch s b a none u = inl (u, omega arith)
  decide_seeded-SignsOnce ch s b a (some seed) u = decide_choice-SignsOnce s b a _ u

  decide_if_needed-SignsOnce :
      (ch : Chain) (s : Signing) (b : ℕ) (a : Agent D I)
      → IsUndecided D I b a
      → SignsOnce b (signatures a.effects + fails_signed s) (decide_if_needed D I ch s b a).agent
  unfolding decide_if_needed
  decide_if_needed-SignsOnce ch s b a u =
      if_cases {A = Outcome D I} P (is_empty D I (trues D I b t)) _ _
        (λ e.
          if_cases {A = Outcome D I} P (length (falses D I b t) == ch.node_count) _ _
            (λ all. decide_block-SignsOnce s b 0 t u) (λ few. inl (u, omega arith)))
        (λ e. decide_seeded-SignsOnce ch s b t _ u)
    where
      P : Outcome D I → Type 0
      P o = SignsOnce b (signatures a.effects + fails_signed s) o.agent

      t : Agent D I
      t = record a {
        true_decisions = touch b a.true_decisions;
        false_decisions = touch b a.false_decisions;
      }

  record_decision-effects :
      (msg : ChildDecided) (a : Agent D I) → (record_decision D I msg a).effects ≡ a.effects
  unfolding record_decision
  record_decision-effects msg a = ground arith

  SignsOnce-weaken : (b k l : ℕ) (a : Agent D I) → k ≤ l → SignsOnce b k a → SignsOnce b l a
  SignsOnce-weaken b k l a h (inl (u, e)) = inl (u, omega arith)
  SignsOnce-weaken b k l a h (inr (x, p, e)) = inr (x, p, omega arith)

  report-SignsOnce :
      (ch : Chain) (s : Signing) (k : ℕ) (msg : ChildDecided) (a : Agent D I)
      → SignsOnce msg.block_id k a
      → SignsOnce msg.block_id
          (k + fails_signed s)
          (report_consensus_and_decide_if_needed D I ch s msg a).agent
  unfolding report_consensus_and_decide_if_needed is_decided
  report-SignsOnce ch s k msg a h =
      if_cases {A = Outcome D I} P (leb msg.block_id ch.last_committed_block_id) _ _
        (λ old. weaken h)
        (λ new.
          if_cases {A = Outcome D I} P (leb msg.block_proposer_index ch.node_count) _ _
            (λ ok.
              if_cases {A = Outcome D I} P (is_decided D I msg.block_id a) _ _ (λ decided. weaken h)
                (λ undecided. step h undecided))
            (λ bad. weaken h))
    where
      P : Outcome D I → Type 0
      P o = SignsOnce msg.block_id (k + fails_signed s) o.agent

      weaken : SignsOnce msg.block_id k a → SignsOnce msg.block_id (k + fails_signed s) a
      weaken = SignsOnce-weaken msg.block_id k (k + fails_signed s) a (omega arith)

      step :
          SignsOnce msg.block_id k a
          → is_decided D I msg.block_id a ≡ false
          → P (decide_if_needed D I ch s msg.block_id (record_decision D I msg a))
      step (inl (u, e)) n =
          SignsOnce-weaken msg.block_id
            (signatures (record_decision D I msg a).effects + fails_signed s) (k + fails_signed s)
            (decide_if_needed D I ch s msg.block_id (record_decision D I msg a)).agent
            (omega (arith, ap signatures (record_decision-effects msg a), e))
            (decide_if_needed-SignsOnce ch s msg.block_id (record_decision D I msg a)
              (record_decision-decided_index D I msg.block_id msg a ∙ u))
      step (inr (x, p, e)) n = absurd (ground (arith, p))

  report_all-SignsOnce :
      (ch : Chain) (b k : ℕ) (msgs : List (Signing × ChildDecided)) (a : Agent D I)
      → AreFor b msgs
      → SignsOnce b k a
      → SignsOnce b (k + failures msgs) (report_all ch msgs a)
  unfolding report_all failures
  report_all-SignsOnce ch b k [] a m h = SignsOnce-weaken b k (k + 0) a (omega arith) h
  report_all-SignsOnce ch b k ((s, msg) ∷ msgs) a (e, m) h =
      let next : Agent D I = (report_consensus_and_decide_if_needed D I ch s msg a).agent in
      SignsOnce-weaken b (k + fails_signed s + failures msgs) (k + (fails_signed s + failures msgs))
        (report_all ch msgs next) (omega arith)
        (report_all-SignsOnce ch b (k + fails_signed s) msgs next m (
          subst (λ c. SignsOnce c (k + fails_signed s) next) e
            (report-SignsOnce ch s k msg a (subst (λ c. SignsOnce c k a) (sym e) h))))

  -- However many reports come for a block id that is undecided at first, and whatever they say, the
  -- agent makes at most one signature for it, and one more for each report at which saving or
  -- broadcasting the share throws, since the decision is then not recorded. As long as the block id is
  -- undecided it has made no more signatures than there are such reports.
  pub signs_once_but_for_failures :
      (ch : Chain) (b : ℕ) (msgs : List (Signing × ChildDecided)) (a : Agent D I)
      → AreFor b msgs
      → IsUndecided D I b a
      → let after = report_all ch msgs a in
        ((decided_index D I b after ≡ none)
          × (signatures after.effects ≤ signatures a.effects + failures msgs))
        ⊎ ((x : ℕ) × (decided_index D I b after ≡ some x)
            × (signatures after.effects ≤ signatures a.effects + failures msgs + 1))
  signs_once_but_for_failures ch b msgs a m u =
      report_all-SignsOnce ch b (signatures a.effects) msgs a m (inl (u, omega arith))
