-- ===== src/BlockConsensus/Decisions.antt =====
-- What reportConsensusAndDecideIfNeeded decides, and on what grounds.
use skale_consensus.Prelude.OrderedMap.{contains}
use skale_consensus.Prelude.{
  ℕ, ◌+◌, ◌%◌, ◌<◌, ◌≡◌, ◌⊎◌, inl, inr, true, Option, none, some, [], ◌∷◌, length, leb, ◌==◌, arith,
  refl, if_cases, ==_iff, ap, sym, ◌∙◌,
}
use skale_consensus.BlockConsensus.Cache.{LruCache}
use skale_consensus.BlockConsensus.Choice.{choose, choose_first, index_at}
use skale_consensus.BlockConsensus.Agent.{
  Signing, sign_throws, save_throws, broadcast_throws, signed, ChildDecided, Chain, Decisions,
  Agent, Outcome, done, decisions_of, record_decision, decide_block, seed_of, decide_choice,
  decide_seeded, is_empty, decide_if_needed, is_decided, report_consensus_and_decide_if_needed,
}

module _ (D : LruCache Decisions) (I : LruCache ℕ) where
  open D use {touch}
  open I use {find as find_index, find-put as find_index-put}

  -- The maps of a block id.
  abbrev pub trues : ℕ → Agent D I → Decisions
  trues b a = decisions_of D I b a.true_decisions

  abbrev pub falses : ℕ → Agent D I → Decisions
  falses b a = decisions_of D I b a.false_decisions

  -- The proposer that an agent has decided for a block id.
  abbrev pub decided_index : ℕ → Agent D I → Option ℕ
  decided_index b a = find_index b a.decided_indices

  -- A decision that the maps of the agent justify: of the default block with no proposer decided
  -- true and as many decided false as there are nodes, else of the proposer of the loop's choice.
  abbrev pub Justified : Chain → ℕ → Agent D I → ℕ → Type 0
  Justified ch b a x =
      ((x ≡ 0) × (trues b a ≡ []) × (length (falses b a) ≡ ch.node_count))
      ⊎ ((seed : ℕ) × (seed_of D I ch b ≡ some seed)
          × (choose ch.node_count seed (trues b a) (falses b a) ≡ some x))

  -- Nothing decided yet.
  abbrev pub IsUndecided : ℕ → Agent D I → Type 0
  IsUndecided b a = decided_index b a ≡ none

  -- A decision that a call has made is justified by what the agent holds after it.
  abbrev pub DecidesJustly : Chain → ℕ → ℕ → Outcome D I → Type 0
  DecidesJustly ch b x o = decided_index b o.agent ≡ some x → Justified ch b o.agent x

  pub none_not_some : {o : Option ℕ} {x : ℕ} → o ≡ none → o ≡ some x → ⊥
  none_not_some p q = cc

  undecided-DecidesJustly :
      (ch : Chain) (b x : ℕ) (o : Outcome D I) → IsUndecided b o.agent → DecidesJustly ch b x o
  undecided-DecidesJustly ch b x o u p = absurd (none_not_some u p)

  some_injective : (x y : ℕ) → some x ≡ some y → x ≡ y
  some_injective x y p = cc

  decide_block-decided_index :
      (s : Signing) (b i x : ℕ) (a : Agent D I)
      → IsUndecided b a
      → decided_index b (decide_block D I s b i a).agent ≡ some x
      → (i ≡ x)
        × (trues b (decide_block D I s b i a).agent ≡ trues b a)
        × (falses b (decide_block D I s b i a).agent ≡ falses b a)
  unfolding decide_block
  decide_block-decided_index (sign_throws y) b i x a u p = absurd (none_not_some u p)
  decide_block-decided_index (save_throws y) b i x a u p = absurd (none_not_some u p)
  decide_block-decided_index (broadcast_throws y) b i x a u p = absurd (none_not_some u p)
  decide_block-decided_index (signed none y) b i x a u p =
      (some_injective i x (sym (find_index-put b i a.decided_indices) ∙ p), refl, refl)
  decide_block-decided_index (signed (some g) none) b i x a u p =
      (some_injective i x (sym (find_index-put b i a.decided_indices) ∙ p), refl, refl)
  decide_block-decided_index (signed (some g) (some y)) b i x a u p =
      (some_injective i x (sym (find_index-put b i a.decided_indices) ∙ p), refl, refl)

  decide_block-seeded :
      (ch : Chain) (s : Signing) (b i x seed : ℕ) (a : Agent D I)
      → seed_of D I ch b ≡ some seed
      → choose ch.node_count seed (trues b a) (falses b a) ≡ some i
      → IsUndecided b a
      → DecidesJustly ch b x (decide_block D I s b i a)
  decide_block-seeded ch s b i x seed a k e u p =
      let (same, ts, fs) = decide_block-decided_index s b i x a u p in
      inr (seed, k, rw (ts, fs) (e ∙ ap some same))

  decide_choice-DecidesJustly :
      (ch : Chain) (s : Signing) (b x seed : ℕ) (a : Agent D I) (o : Option ℕ)
      → seed_of D I ch b ≡ some seed
      → choose ch.node_count seed (trues b a) (falses b a) ≡ o
      → IsUndecided b a
      → DecidesJustly ch b x (decide_choice D I s b a o)
  decide_choice-DecidesJustly ch s b x seed a none k e u p = absurd (none_not_some u p)
  decide_choice-DecidesJustly ch s b x seed a (some i) k e u p =
      decide_block-seeded ch s b i x seed a k e u p

  decide_seeded-DecidesJustly :
      (ch : Chain) (s : Signing) (b x : ℕ) (a : Agent D I) (o : Option ℕ)
      → seed_of D I ch b ≡ o
      → IsUndecided b a
      → DecidesJustly ch b x (decide_seeded D I ch s b a o)
  decide_seeded-DecidesJustly ch s b x a none k u = undecided-DecidesJustly ch b x (done D I a) u
  decide_seeded-DecidesJustly ch s b x a (some seed) k u =
      decide_choice-DecidesJustly ch s b x seed a _ k refl u

  pub is_empty-[] : (m : Decisions) → is_empty D I m ≡ true → m ≡ []
  is_empty-[] [] p = refl
  is_empty-[] (x ∷ m) p = cc

  decide_if_needed-DecidesJustly :
      (ch : Chain) (s : Signing) (b x : ℕ) (a : Agent D I)
      → IsUndecided b a
      → DecidesJustly ch b x (decide_if_needed D I ch s b a)
  unfolding decide_if_needed
  decide_if_needed-DecidesJustly ch s b x a u =
      if_cases {A = Outcome D I} (DecidesJustly ch b x) (is_empty D I (trues b t)) _ _
        (λ e.
          if_cases {A = Outcome D I} (DecidesJustly ch b x) (length (falses b t) == ch.node_count) _
            _
            (λ all p.
              let (same, ts, fs) = decide_block-decided_index s b 0 x t u p in
              inl (
                sym same,
                ts ∙ is_empty-[] (trues b t) e,
                ap length fs ∙ (==_iff (length (falses b t)) ch.node_count).0 all,
              ))
            (λ few. undecided-DecidesJustly ch b x (done D I t) u))
        (λ e. decide_seeded-DecidesJustly ch s b x t _ refl u)
    where
      t : Agent D I
      t = record a {
        true_decisions = touch b a.true_decisions;
        false_decisions = touch b a.false_decisions;
      }

  pub record_decision-decided_index :
      (b : ℕ) (msg : ChildDecided) (a : Agent D I)
      → decided_index b (record_decision D I msg a) ≡ decided_index b a
  unfolding record_decision
  record_decision-decided_index b msg a = ground arith

  pub report_consensus_and_decide_if_needed-Justified :
      (ch : Chain) (s : Signing) (x : ℕ) (msg : ChildDecided) (a : Agent D I)
      → IsUndecided msg.block_id a
      → decided_index msg.block_id (report_consensus_and_decide_if_needed D I ch s msg a).agent
        ≡ some x
      → Justified ch msg.block_id (report_consensus_and_decide_if_needed D I ch s msg a).agent x
  unfolding report_consensus_and_decide_if_needed
  report_consensus_and_decide_if_needed-Justified ch s x msg a u =
      if_cases {A = Outcome D I} P (leb b ch.last_committed_block_id) _ _
        (λ old. undecided-DecidesJustly ch b x (done D I a) u)
        (λ new.
          if_cases {A = Outcome D I} P (leb msg.block_proposer_index ch.node_count) _ _
            (λ ok.
              if_cases {A = Outcome D I} P (is_decided D I b a) _ _
                (λ decided. undecided-DecidesJustly ch b x (done D I a) u)
                (λ open_yet.
                  decide_if_needed-DecidesJustly ch s b x (record_decision D I msg a)
                    (record_decision-decided_index b msg a ∙ u)))
            (λ bad. undecided-DecidesJustly ch b x (done D I a) u))
    where
      b : ℕ
      b = msg.block_id

      P : Outcome D I → Type 0
      P = DecidesJustly ch b x

  -- Counting the proposers in a circle from `seed % n`, `x` is decided true and all that come before it
  -- are decided false.
  abbrev pub IsFirstTrue : ℕ → ℕ → Decisions → Decisions → ℕ → Type 0
  IsFirstTrue n seed ts fs x =
      (d : ℕ) × (d < n)
      × (x ≡ index_at n (seed % n + d))
      × (contains x ts ≡ true)
      × ((j : ℕ) → j < d → contains (index_at n (seed % n + j)) fs ≡ true)

  Justified-IsFirstTrue :
      (ch : Chain) (b x : ℕ) (a : Agent D I)
      → Justified ch b a x
      → ((x ≡ 0) × (trues b a ≡ []) × (length (falses b a) ≡ ch.node_count))
        ⊎ ((seed : ℕ) × (seed_of D I ch b ≡ some seed)
            × IsFirstTrue ch.node_count seed (trues b a) (falses b a) x)
  Justified-IsFirstTrue ch b x a (inl h) = inl h
  Justified-IsFirstTrue ch b x a (inr (seed, k, e)) =
      inr (seed, k, choose_first ch.node_count seed (trues b a) (falses b a) e)

  -- A report that decides an undecided block id, whatever signing does, decides either the default block,
  -- with no proposer decided true and as many decided false as there are nodes, or the first proposer
  -- that is decided true, counting in a circle from the one that the seed gives: all that come before it
  -- are decided false. The decisions are those that the agent holds after the report, and the seed is 1
  -- for the first block and else of the block before.
  pub report_consensus_and_decide_if_needed-IsFirstTrue :
      (ch : Chain) (s : Signing) (x : ℕ) (msg : ChildDecided) (a : Agent D I)
      → IsUndecided msg.block_id a
      → let b = msg.block_id in
        let o = (report_consensus_and_decide_if_needed D I ch s msg a).agent in
        decided_index b o ≡ some x
        → ((x ≡ 0) × (trues b o ≡ []) × (length (falses b o) ≡ ch.node_count))
          ⊎ ((seed : ℕ) × (seed_of D I ch b ≡ some seed)
              × IsFirstTrue ch.node_count seed (trues b o) (falses b o) x)
  report_consensus_and_decide_if_needed-IsFirstTrue ch s x msg a u p =
      Justified-IsFirstTrue ch msg.block_id x
        ((report_consensus_and_decide_if_needed D I ch s msg a).agent)
        (report_consensus_and_decide_if_needed-Justified ch s x msg a u p)
