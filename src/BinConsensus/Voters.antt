-- ===== src/BinConsensus/Voters.antt =====
-- Where the AUX votes of an instance come from: its routines.
pub mod Messages
use skale_consensus.Prelude.{
  ℕ, zero, suc, ◌+◌, ◌≡◌, Bool, true, false, ◌&&◌, Option, none, some, String, length,
  if◌then◌else◌, ltb, leb, ◌==◌, arith, sym, subst, update, if_cases, inl, inr, Bool-cases, ==_iff,
}
use skale_consensus.Prelude.OrderedMap.{OrderedMap, contains, emplace, contains-emplace}
use skale_consensus.BinConsensus.State.{
  Env, Instance, Error, Outcome, done, truthy, value_of, common_coin_round, last_round, emit,
  write_random,
}
use skale_consensus.BinConsensus.Votes.{
  is_two_third, aux_votes, put_aux_vote, get_bvb_vote_count, total_aux_votes, bvb_vote,
  aux_vote_core, aux_vote,
}
use skale_consensus.BinConsensus.Rounds.{
  insert_into_bin_values, set_current_round, set_proposal, set_decided_round_and_value,
  network_broadcast_value, own_share, broadcast_aux_vote, aux_self_vote_and_broadcast_value,
  compute_random, decide, common_coin_value, play_decision_lottery, verified_count, draw,
  proceed_with_decision_lottery_if_aux_two_third, lottery_if_current,
  add_to_bin_values_if_two_thirds, enter_round, after_own_vote, proceed_with_next_round,
}

abbrev pub Source : Type 1
Source = Bool → ℕ → ℕ → Type 0

module _ (e : Env) (F : Source) (own : (b : Bool) (r : ℕ) → F b r e.schain_index) where
  -- Each AUX vote has its source.
  abbrev pub Sourced : Instance → Type 0
  Sourced t = (b : Bool) (r i : ℕ) → contains i (aux_votes t b r) ≡ true → F b r i

  update-Sourced :
      (b : Bool) (r i : ℕ) (x : Option String) (votes : ℕ → OrderedMap (Option String))
      → F b r i
      → ((q j : ℕ) → contains j (votes q) ≡ true → F b q j)
      → (q j : ℕ) → contains j (update votes r (emplace i x (votes r)) q) ≡ true
      → F b q j
  update-Sourced b r i x votes f g q j h = elim (Bool-cases (q == r)) [
    | inl same ↦ elim (Bool-cases (j == i)) [
      | inl this ↦
          subst (λ k. F b k j) (sym ((==_iff q r).0 same))
            (subst (F b r) (sym ((==_iff j i).0 this)) f)
      | inr other ↦
          g q j
            (ground (arith, h, same, other, contains-emplace j i x (votes r), (==_iff q r).0 same))
    ]
    | inr apart ↦ g q j (ground (arith, h, apart))
  ]

  put_aux_vote-Sourced :
      (b : Bool) (r i : ℕ) (x : Option String) (t : Instance)
      → F b r i
      → Sourced t
      → Sourced (put_aux_vote b r i x t)
  put_aux_vote-Sourced true r i x t f g true q j h =
      update-Sourced true r i x (t.aux_true_votes) f (g true) q j h
  put_aux_vote-Sourced true r i x t f g false q j h = g false q j h
  put_aux_vote-Sourced false r i x t f g true q j h = g true q j h
  put_aux_vote-Sourced false r i x t f g false q j h =
      update-Sourced false r i x (t.aux_false_votes) f (g false) q j h

  pub network_broadcast_value-Sourced :
      (r v : ℕ) (t : Instance) → Sourced t → Sourced (network_broadcast_value r v t)
  unfolding network_broadcast_value
  network_broadcast_value-Sourced r v t g =
      if_cases Sourced (contains v (t.broadcast_values r)) _ _ (λ h. g) (λ h. g)

  abbrev pub Voted : Option (Instance × Bool) → Type 0
  Voted none = Unit
  Voted (some (u, new)) = Sourced u

  pub aux_vote_core-Sourced :
      (r v i : ℕ) (x : Option String) (t : Instance)
      → F (truthy v) r i
      → Sourced t
      → Voted (aux_vote_core r v i x t)
  unfolding aux_vote_core
  aux_vote_core-Sourced r v i none t f g = elim (Bool-cases (ltb r common_coin_round)) [
    | inl h ↦ rw h (put_aux_vote-Sourced (truthy v) r i none t f g)
    | inr h ↦ rw h tt
  ]
  aux_vote_core-Sourced r v i (some x) t f g = elim (Bool-cases (leb common_coin_round r)) [
    | inl h ↦ rw h (put_aux_vote-Sourced (truthy v) r i (some x) t f g)
    | inr h ↦ rw h tt
  ]

  pub aux_vote-Sourced :
      (r v i : ℕ) (x : Option String) (t : Instance)
      → F (truthy v) r i
      → Sourced t
      → Voted (aux_vote e r v i x t)
  unfolding aux_vote
  aux_vote-Sourced r v i none t f g = elim (Bool-cases (leb common_coin_round r)) [
    | inl h ↦ rw h tt
    | inr h ↦ rw h (aux_vote_core-Sourced r v i none t f g)
  ]
  aux_vote-Sourced r v i (some x) t f g = elim (Bool-cases (leb common_coin_round r)) [
    | inl h ↦ elim (Bool-cases (e.verify_sig_share r x)) [
      | inl k ↦ rw (h, k) (aux_vote_core-Sourced r v i (some x) t f g)
      | inr k ↦ rw (h, k) tt
    ]
    | inr h ↦ rw h (aux_vote_core-Sourced r v i none t f g)
  ]

  broadcast_aux_vote-Sourced :
      (r v : ℕ) (t : Instance)
      → Sourced t
      → (o : Option (Instance × Bool)) → Voted o
      → Sourced (broadcast_aux_vote e r v t o).state
  broadcast_aux_vote-Sourced r v t g none w = g
  broadcast_aux_vote-Sourced r v t g (some (u, new)) w = w

  self_vote-Sourced :
      (r v : ℕ) (t : Instance)
      → Sourced t
      → Sourced (aux_self_vote_and_broadcast_value e r v t).state
  unfolding aux_self_vote_and_broadcast_value
  self_vote-Sourced r v t g =
      broadcast_aux_vote-Sourced r v t g _
        (aux_vote_core-Sourced r v e.schain_index (own_share e r) t (own (truthy v) r) g)

  -- What holds of the state that a call leaves.
  abbrev pub Leaves : Outcome → Type 0
  Leaves o = Sourced o.state

  abbrev KeepsSourced : (ℕ → Instance → Outcome) → Type 0
  KeepsSourced next = (v : ℕ) (t : Instance) → Sourced t → Leaves (next v t)

  module _ (next : ℕ → Instance → Outcome) (keep : KeepsSourced next) where
    play_decision_lottery-Sourced :
        (has_true has_false : Bool) (random : ℕ) (t : Instance)
        → Sourced t
        → Leaves (play_decision_lottery next has_true has_false random t)
    unfolding play_decision_lottery decide set_decided_round_and_value
    play_decision_lottery-Sourced has_true has_false random t g =
        if_cases Leaves t.is_decided _ _ (λ h. g)
          (λ open_yet.
            if_cases Leaves (has_true && has_false) _ _ (λ h. keep _ t g)
              (λ one.
                if_cases Leaves (value_of has_true == common_coin_value random) _ _
                  (λ hit. if_cases Leaves t.is_decided _ _ (λ h. g) (λ h. g)) (λ miss. keep _ t g)))

    draw-Sourced : (r : ℕ) (t : Instance) → Sourced t → (o : Option ℕ) → Leaves (draw e next r t o)
    draw-Sourced r t g none = g
    draw-Sourced r t g (some random) =
        play_decision_lottery-Sourced _ _ random (emit (write_random r random) t) g

    pub lottery-Sourced :
        (r : ℕ) (t : Instance)
        → Sourced t
        → Leaves (proceed_with_decision_lottery_if_aux_two_third e next r t)
    unfolding proceed_with_decision_lottery_if_aux_two_third
    lottery-Sourced r t g =
        if_cases Leaves t.is_decided _ _ (λ h. g)
          (λ open_yet.
            if_cases Leaves (r == t.current_round) _ _
              (λ now.
                if_cases Leaves
                  (is_two_third e (verified_count true r t + verified_count false r t))
                  (draw e next r t (compute_random e r t)) (done t)
                  (λ quorum. draw-Sourced r t g (compute_random e r t)) (λ few. g))
              (λ past. g))

    lottery_if_current-Sourced :
        (r : ℕ) (o : Outcome) (x : Option Error)
        → Leaves o
        → Leaves (lottery_if_current e next r o x)
    lottery_if_current-Sourced r o (some x) g = g
    lottery_if_current-Sourced r o none g =
        if_cases Leaves (r == o.state.current_round) _ _ (λ now. lottery-Sourced r o.state g)
          (λ later. g)

    pub add_to_bin_values-Sourced :
        (r v : ℕ) (t : Instance) → Sourced t → Leaves (add_to_bin_values_if_two_thirds e next r v t)
    unfolding add_to_bin_values_if_two_thirds insert_into_bin_values
    add_to_bin_values-Sourced r v t g =
        let inserted : Instance = insert_into_bin_values r v t in
        let voted : Outcome = aux_self_vote_and_broadcast_value e r v inserted in
        let many : Bool = ltb 1 (length (inserted.bin_values r)) in
        let sent : Outcome = if many then done inserted else voted in
        let kept : Leaves sent =
          if_cases Leaves many (done inserted) voted (λ h. g)
            (λ h. self_vote-Sourced r v inserted g) in
        let rest : Outcome = lottery_if_current e next r sent sent.error in
        let tested : Outcome = if is_two_third e (get_bvb_vote_count t v r) then rest else done t in
        if_cases Leaves (contains v (t.bin_values r)) (done t) tested (λ h. g)
          (λ new.
            if_cases Leaves (is_two_third e (get_bvb_vote_count t v r)) rest (done t)
              (λ quorum. lottery_if_current-Sourced r sent sent.error kept) (λ few. g))

    after_own_vote-Sourced :
        (r v : ℕ) (t : Instance) (new : Bool) → Sourced t → Leaves (after_own_vote e next r v t new)
    after_own_vote-Sourced r v t false g = g
    after_own_vote-Sourced r v t true g = add_to_bin_values-Sourced r v t g

  pub proceed_with_next_round-Sourced : (fuel : ℕ) → KeepsSourced (proceed_with_next_round e fuel)
  unfolding proceed_with_next_round enter_round set_current_round set_proposal bvb_vote
  proceed_with_next_round-Sourced zero v t g = g
  proceed_with_next_round-Sourced (suc fuel) v t g =
      let r : ℕ = t.current_round + 1 in
      if_cases Leaves
        (ltb t.current_round last_round && is_two_third e (total_aux_votes t t.current_round)) _ _
        (λ h.
          after_own_vote-Sourced (proceed_with_next_round e fuel)
            (proceed_with_next_round-Sourced fuel) r v
            (bvb_vote r v e.schain_index (enter_round r v t)).0 _
            (network_broadcast_value-Sourced r v (set_proposal r v (set_current_round r t)) g))
        (λ h. g)
