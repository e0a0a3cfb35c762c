-- ===== src/BinConsensus/Invariant/Steps.antt =====
-- The routines of an instance, against the invariant and the order of states.
use skale_consensus.Prelude.{
  ℕ, zero, suc, ◌+◌, ◌≤◌, ◌≡◌, Bool, true, false, ◌&&◌, Option, none, some, String, length, ltb,
  leb, ◌==◌, arith, refl, sym, subst, ==_iff, if_cases, inl, inr, Bool-cases,
}
use skale_consensus.Prelude.OrderedMap.{contains}
use skale_consensus.BinConsensus.State.{
  Env, Instance, common_coin_round, last_round, truthy, value_of, emit, write_random, Error,
  Outcome,
}
use skale_consensus.BinConsensus.Votes.{
  is_third, is_two_third, aux_votes, get_bvb_vote_count, total_aux_votes, bvb_vote, aux_vote_core,
  aux_vote,
}
use skale_consensus.BinConsensus.Rounds.{
  insert_into_bin_values, set_current_round, set_proposal, set_decided_round_and_value,
  network_broadcast_value, network_broadcast_value_if_third, own_share, broadcast_aux_vote,
  aux_self_vote_and_broadcast_value, compute_random, decide, common_coin_value,
  play_decision_lottery, verified_count, has_verified, draw,
  proceed_with_decision_lottery_if_aux_two_third, lottery_if_current,
  add_to_bin_values_if_two_thirds, enter_round, after_own_vote, proceed_with_next_round,
}
use skale_consensus.BinConsensus.Invariant.Defs.{IsChain, Certificate, Core, core, Good}
use skale_consensus.BinConsensus.Invariant.Updates.{
  put_bvb_vote-Good, put_aux_vote-Good, insert_into_bin_values-Good, set_current_round-Good,
  set_decided_round_and_value-Good,
}

-- Of votes that count, there are as many as of votes, and their value is in `binValues`.
verified :
    (b : Bool) (r : ℕ) (t : Instance)
    → has_verified b r t ≡ true
    → (contains (value_of b) (t.bin_values r) ≡ true)
      × (verified_count b r t ≡ length (aux_votes t b r))
verified true r t h = ground arith
verified false r t h = ground arith

-- Nobody's votes are no two thirds.
no_quorum : (e : Env) → is_two_third e 0 ≡ false
unfolding is_two_third
no_quorum e = ground arith

coin_of :
    (e : Env) (r : ℕ) (t : Instance) (random : ℕ)
    → compute_random e r t ≡ some random
    → (e.is_sgx_enabled && leb common_coin_round r) ≡ false
    → random ≡ e.hash_random e.block_id r e.block_proposer_index
unfolding compute_random
coin_of e r t random h plain = ground arith

ltb_zero : (x : ℕ) → ltb 0 x ≡ false → x ≡ 0
ltb_zero x h = ground arith

truthy-value_of : (b : Bool) → truthy (value_of b) ≡ b
truthy-value_of true = refl
truthy-value_of false = refl

-- Two thirds of the votes for one value that is in `binValues` and that the coin shows.
certificate :
    (e : Env) (t : Instance) (random : ℕ) (b : Bool)
    → is_two_third e (verified_count b t.current_round t) ≡ true
    → has_verified b t.current_round t ≡ true
    → compute_random e t.current_round t ≡ some random
    → value_of b ≡ common_coin_value random
    → Certificate e (core (set_decided_round_and_value t.current_round (value_of b) t))
unfolding set_decided_round_and_value
certificate e t random b quorum some_vote drawn hit = record {
  bit = elim b as (λ x. value_of x ≤ 1) [ true ↦ omega arith | false ↦ omega arith ];
  past = omega arith;
  in_bin_values = (verified b t.current_round t some_vote).0;
  aux_quorum =
      rw (truthy-value_of b)
        (subst (λ k. is_two_third e k ≡ true) (verified b t.current_round t some_vote).1 quorum);
  coin = λ plain. rw (← coin_of e t.current_round t random drawn plain) hit;
}

-- One value only has votes that count, and the coin shows it.
lucky :
    (e : Env) (t : Instance) (random : ℕ)
    → is_two_third e
        (verified_count true t.current_round t + verified_count false t.current_round t)
      ≡ true
    → compute_random e t.current_round t ≡ some random
    → (has_verified true t.current_round t && has_verified false t.current_round t) ≡ false
    → value_of (has_verified true t.current_round t) ≡ common_coin_value random
    → Certificate e (
        core (
          set_decided_round_and_value t.current_round
            (value_of (has_verified true t.current_round t))
            t))
lucky e t random quorum drawn one hit = elim (Bool-cases (has_verified true r t)) [
  | inl yes_true ↦ rw yes_true (
      certificate e t random true
        (subst (λ k. is_two_third e k ≡ true) (omega (arith, ltb_zero b (ground arith))) quorum)
        yes_true drawn (rw yes_true at hit))
  | inr no_true ↦ elim (Bool-cases (has_verified false r t)) [
    | inl yes_false ↦ rw no_true (
        certificate e t random false
          (subst (λ k. is_two_third e k ≡ true) (omega (arith, ltb_zero a no_true)) quorum)
          yes_false drawn (rw no_true at hit))
    | inr no_false ↦
        let none_voted : a + b ≡ 0 = omega (arith, ltb_zero a no_true, ltb_zero b no_false) in
        let bad : is_two_third e 0 ≡ true =
          subst (λ k. is_two_third e k ≡ true) none_voted quorum in
        cc (no_quorum e)
  ]
]
  where
    r : ℕ
    r = t.current_round

    a : ℕ
    a = verified_count true r t

    b : ℕ
    b = verified_count false r t

module _ (e : Env) (ch : IsChain e) (c : Core) where
  pub network_broadcast_value-Good :
      (r v : ℕ) (t : Instance) → Good e c t → Good e c (network_broadcast_value r v t)
  unfolding network_broadcast_value
  network_broadcast_value-Good r v t g = elim (Bool-cases (contains v (t.broadcast_values r))) [
    | inl h ↦ rw h g
    | inr h ↦ rw h g
  ]

  pub set_proposal-Good : (r v : ℕ) (t : Instance) → Good e c t → Good e c (set_proposal r v t)
  unfolding set_proposal
  set_proposal-Good r v t g = g

  pub network_broadcast_value_if_third-Good :
      (r v : ℕ) (t : Instance) → Good e c t → Good e c (network_broadcast_value_if_third e r v t)
  unfolding network_broadcast_value_if_third
  network_broadcast_value_if_third-Good r v t g =
      elim (Bool-cases (is_third e (get_bvb_vote_count t v r))) [
        | inl h ↦ rw h (network_broadcast_value-Good r v t g)
        | inr h ↦ rw h g
      ]

  pub bvb_vote-Good :
      (r v i : ℕ) (t : Instance)
      → Good e c t
      → 1 ≤ i
      → i ≤ e.node_count
      → Good e c (bvb_vote r v i t).0
  unfolding bvb_vote
  bvb_vote-Good r v i t g lo hi = put_bvb_vote-Good e ch c t g (truthy v) r i lo hi

  -- The state with a new vote, where there is one.
  abbrev pub Voted : Option (Instance × Bool) → Type 0
  Voted none = Unit
  Voted (some (u, new)) = Good e c u

  aux_vote_core-Good :
      (r v i : ℕ) (x : Option String) (t : Instance)
      → Good e c t
      → 1 ≤ i
      → i ≤ e.node_count
      → Voted (aux_vote_core r v i x t)
  unfolding aux_vote_core
  aux_vote_core-Good r v i none t g lo hi = elim (Bool-cases (ltb r common_coin_round)) [
    | inl h ↦ rw h (put_aux_vote-Good e ch c t g (truthy v) r i none lo hi)
    | inr h ↦ rw h tt
  ]
  aux_vote_core-Good r v i (some x) t g lo hi = elim (Bool-cases (leb common_coin_round r)) [
    | inl h ↦ rw h (put_aux_vote-Good e ch c t g (truthy v) r i (some x) lo hi)
    | inr h ↦ rw h tt
  ]

  pub aux_vote-Good :
      (r v i : ℕ) (x : Option String) (t : Instance)
      → Good e c t
      → 1 ≤ i
      → i ≤ e.node_count
      → Voted (aux_vote e r v i x t)
  unfolding aux_vote
  aux_vote-Good r v i none t g lo hi = elim (Bool-cases (leb common_coin_round r)) [
    | inl h ↦ rw h tt
    | inr h ↦ rw h (aux_vote_core-Good r v i none t g lo hi)
  ]
  aux_vote-Good r v i (some x) t g lo hi = elim (Bool-cases (leb common_coin_round r)) [
    | inl h ↦ elim (Bool-cases (e.verify_sig_share r x)) [
      | inl k ↦ rw (h, k) (aux_vote_core-Good r v i (some x) t g lo hi)
      | inr k ↦ rw (h, k) tt
    ]
    | inr h ↦ rw h (aux_vote_core-Good r v i none t g lo hi)
  ]

  broadcast_aux_vote-Good :
      (r v : ℕ) (t : Instance)
      → Good e c t
      → (o : Option (Instance × Bool)) → Voted o
      → Good e c (broadcast_aux_vote e r v t o).state
  broadcast_aux_vote-Good r v t g none w = g
  broadcast_aux_vote-Good r v t g (some (u, new)) w = w

  aux_self_vote_and_broadcast_value-Good :
      (r v : ℕ) (t : Instance)
      → Good e c t
      → Good e c (aux_self_vote_and_broadcast_value e r v t).state
  unfolding aux_self_vote_and_broadcast_value
  aux_self_vote_and_broadcast_value-Good r v t g =
      broadcast_aux_vote-Good r v t g _
        (aux_vote_core-Good r v e.schain_index (own_share e r) t g ch.first ch.last)

  pub enter_round-Good :
      (r v : ℕ) (t : Instance)
      → Good e c t
      → t.current_round ≤ r
      → r ≤ last_round
      → Good e c (enter_round r v t)
  unfolding enter_round
  enter_round-Good r v t g up bound =
      network_broadcast_value-Good r v (set_proposal r v (set_current_round r t)) (
        set_proposal-Good r v (set_current_round r t)
          (set_current_round-Good e ch c t g r up bound))

  -- What proceedWithNextRound has to keep, where it is called.
  abbrev pub KeepsGood : (ℕ → Instance → Outcome) → Type 0
  KeepsGood next = (v : ℕ) (t : Instance) → Good e c t → Good e c (next v t).state

  module _ (next : ℕ → Instance → Outcome) (keep : KeepsGood next) where
    decide-Good :
        (v : ℕ) (t : Instance)
        → Good e c t
        → Certificate e (core (set_decided_round_and_value t.current_round v t))
        → Good e c (decide v t).state
    unfolding decide
    decide-Good v t g k =
        if_cases {A = Outcome} (λ o. Good e c o.state) t.is_decided _ _ (λ h. g)
          (λ h. set_decided_round_and_value-Good e ch c t g t.current_round v h k)

    play_decision_lottery-Good :
        (has_true has_false : Bool) (random : ℕ) (t : Instance)
        → Good e c t
        → ((has_true && has_false) ≡ false
            → value_of has_true ≡ common_coin_value random
            → Certificate e
                (core (set_decided_round_and_value t.current_round (value_of has_true) t)))
        → Good e c (play_decision_lottery next has_true has_false random t).state
    unfolding play_decision_lottery
    play_decision_lottery-Good has_true has_false random t g k =
        if_cases P t.is_decided _ _ (λ h. g)
          (λ open_yet.
            if_cases P (has_true && has_false) _ _ (λ h. keep _ t g)
              (λ one.
                if_cases P (value_of has_true == common_coin_value random) _ _
                  (λ hit. decide-Good _ t g (k one ((==_iff _ _).0 hit))) (λ miss. keep _ t g)))
      where
        P : Outcome → Type 0
        P o = Good e c o.state

    draw-Good :
        (t : Instance)
        → Good e c t
        → is_two_third e
            (verified_count true t.current_round t + verified_count false t.current_round t)
          ≡ true
        → (o : Option ℕ) → compute_random e t.current_round t ≡ o
        → Good e c (draw e next t.current_round t o).state
    unfolding set_decided_round_and_value
    draw-Good t g quorum none drawn = g
    draw-Good t g quorum (some random) drawn =
        play_decision_lottery-Good _ _ random (emit (write_random t.current_round random) t) g
          (lucky e t random quorum drawn)

    pub proceed_with_decision_lottery-Good :
        (r : ℕ) (t : Instance)
        → Good e c t
        → Good e c (proceed_with_decision_lottery_if_aux_two_third e next r t).state
    unfolding proceed_with_decision_lottery_if_aux_two_third
    proceed_with_decision_lottery-Good r t g =
        if_cases P t.is_decided _ _ (λ h. g)
          (λ open_yet.
            if_cases P (r == t.current_round) _ _
              (λ now.
                if_cases P _ _ _
                  (λ quorum.
                    subst (λ k. P (draw e next k t (compute_random e k t)))
                      (sym ((==_iff r t.current_round).0 now))
                      (draw-Good t g
                        (subst
                          (λ k.
                            is_two_third e (verified_count true k t + verified_count false k t)
                            ≡ true)
                          ((==_iff r t.current_round).0 now) quorum)
                        _ refl))
                  (λ few. g))
              (λ past. g))
      where
        P : Outcome → Type 0
        P o = Good e c o.state

    lottery_if_current-Good :
        (r : ℕ) (o : Outcome) (x : Option Error)
        → Good e c o.state
        → Good e c (lottery_if_current e next r o x).state
    lottery_if_current-Good r o (some x) g = g
    lottery_if_current-Good r o none g =
        if_cases {A = Outcome} (λ u. Good e c u.state) (r == o.state.current_round) _ _
          (λ now. proceed_with_decision_lottery-Good r o.state g) (λ later. g)

    pub add_to_bin_values-Good :
        (r v : ℕ) (t : Instance)
        → Good e c t
        → Good e c (add_to_bin_values_if_two_thirds e next r v t).state
    unfolding add_to_bin_values_if_two_thirds get_bvb_vote_count
    add_to_bin_values-Good r v t g =
        if_cases P (contains v (t.bin_values r)) _ _ (λ h. g)
          (λ new.
            if_cases P _ _ _
              (λ quorum.
                let added = insert_into_bin_values-Good e ch c t g r v quorum in
                lottery_if_current-Good r _ _ (
                  if_cases P _ _ _ (λ h. added)
                    (λ h.
                      aux_self_vote_and_broadcast_value-Good r v (insert_into_bin_values r v t)
                        added)))
              (λ few. g))
      where
        P : Outcome → Type 0
        P o = Good e c o.state

    pub after_own_vote-Good :
        (r v : ℕ) (t : Instance) (new : Bool)
        → Good e c t
        → Good e c (after_own_vote e next r v t new).state
    after_own_vote-Good r v t false g = g
    after_own_vote-Good r v t true g = add_to_bin_values-Good r v t g

  pub proceed_with_next_round-Good : (fuel : ℕ) → KeepsGood (proceed_with_next_round e fuel)
  unfolding proceed_with_next_round
  proceed_with_next_round-Good zero v t g = g
  proceed_with_next_round-Good (suc fuel) v t g =
      if_cases P (ltb t.current_round last_round && quorum) _ _
        (λ h.
          after_own_vote-Good (proceed_with_next_round e fuel) (proceed_with_next_round-Good fuel) r
            v (bvb_vote r v e.schain_index (enter_round r v t)).0 _
            (bvb_vote-Good r v e.schain_index (enter_round r v t)
              (enter_round-Good r v t g (omega arith) (ground (arith, h))) ch.first ch.last))
        (λ h. g)
    where
      r : ℕ
      r = t.current_round + 1

      quorum : Bool
      quorum = is_two_third e (total_aux_votes t t.current_round)

      P : Outcome → Type 0
      P o = Good e c o.state
