-- ===== src/BinConsensus/Invariant/Updates.antt =====
-- The writes to the core of an instance, against the invariant and the order of states.
use skale_consensus.Prelude.{
  ℕ, ◌*◌, ◌≤◌, ◌≡◌, Bool, true, false, Option, String, length, ◌==◌, arith, refl, u64, ltb→lt,
  lt→ltb, update_cases, inl, inr, Bool-cases,
}
use skale_consensus.Prelude.OrderedMap.{
  OrderedMap, OrderedSet, contains, emplace, IsSorted, contains-emplace, length-le-emplace,
  emplace-IsSorted, length-le-range,
}
use skale_consensus.BinConsensus.State.{Env, Instance, last_round, truthy}
use skale_consensus.BinConsensus.Votes.{
  is_two_third, bvb_votes, aux_votes, put_bvb_vote, put_aux_vote,
}
use skale_consensus.BinConsensus.Rounds.{
  insert_into_bin_values, set_current_round, set_decided_round_and_value,
}
use skale_consensus.BinConsensus.Invariant.Defs.{
  IsChain, Certificate, Core, core, CoreInv, CoreEvolves, CoreEvolves-trans, CoreGood, Good,
}

pub is_two_third_mono :
    (e : Env)
    → IsChain e
    → (a b : ℕ) → a ≤ b
    → b ≤ 2 * e.node_count
    → is_two_third e a ≡ true
    → is_two_third e b ≡ true
unfolding is_two_third
is_two_third_mono e ch a b le few h =
    lt→ltb _ _ (omega (arith, ltb→lt (u64 (2 * e.node_count)) (u64 (a * 3)) h))

module _ {ℓ} {V : Type ℓ} (e : Env) (ch : IsChain e) (i : ℕ) (v : V) where
  quorum-emplace :
      (m : OrderedMap V)
      → 1 ≤ i
      → i ≤ e.node_count
      → IsSorted 1 e.node_count m
      → is_two_third e (length m) ≡ true
      → is_two_third e (length (emplace i v m)) ≡ true
  quorum-emplace m lo hi s h =
      is_two_third_mono e ch (length m) (length (emplace i v m)) (length-le-emplace i v m)
        (omega (
          arith,
          length-le-range 1 e.node_count (emplace i v m) (emplace-IsSorted 1 _ i v m lo hi s),
        ))
        h

grows-emplace {ℓ} :
    {V : Type ℓ} (i : ℕ) (v : V) (j : ℕ) (m : OrderedMap V)
    → contains j m ≡ true
    → contains j (emplace i v m) ≡ true
grows-emplace i v j m h = ground (arith, contains-emplace j i v m)

bvb_cases :
    (P : OrderedSet → Type 0) (b c : Bool) (r q i : ℕ) (t : Instance)
    → P (bvb_votes t c q)
    → P (emplace i tt (bvb_votes t c q))
    → P (bvb_votes (put_bvb_vote b r i t) c q)
bvb_cases P true true r q i t old new = update_cases P t.bvb_true_votes (emplace i tt) r q old new
bvb_cases P true false r q i t old new = old
bvb_cases P false true r q i t old new = old
bvb_cases P false false r q i t old new =
    update_cases P t.bvb_false_votes (emplace i tt) r q old new

aux_cases :
    (P : OrderedMap (Option String) → Type 0) (b c : Bool) (r q i : ℕ) (x : Option String)
    (t : Instance)
    → P (aux_votes t c q)
    → P (emplace i x (aux_votes t c q))
    → P (aux_votes (put_aux_vote b r i x t) c q)
aux_cases P true true r q i x t old new = update_cases P t.aux_true_votes (emplace i x) r q old new
aux_cases P true false r q i x t old new = old
aux_cases P false true r q i x t old new = old
aux_cases P false false r q i x t old new =
    update_cases P t.aux_false_votes (emplace i x) r q old new

module _ (e : Env) (ch : IsChain e) (s : Core) (t : Instance) (g : Good e s t) where
  -- A step that follows `t` follows `s`.
  follow : {d : Core} → CoreInv e d → CoreEvolves (core t) d → CoreGood e s d
  follow inv next = record { inv = inv; evolves = CoreEvolves-trans g.evolves next }

  pub put_bvb_vote-Good :
      (b : Bool) (r i : ℕ) → 1 ≤ i → i ≤ e.node_count → Good e s (put_bvb_vote b r i t)
  put_bvb_vote-Good b r i lo hi =
      follow
        (record {
          bvb_sorted = λ c q.
              bvb_cases (IsSorted 1 e.node_count) b c r q i t (g.inv.bvb_sorted c q)
                (emplace-IsSorted 1 e.node_count i tt _ lo hi (g.inv.bvb_sorted c q));
          aux_sorted = g.inv.aux_sorted;
          bvb_quorum = λ q v h.
              bvb_cases (λ m. is_two_third e (length m) ≡ true) b (truthy v) r q i t
                (g.inv.bvb_quorum q v h)
                (quorum-emplace e ch i tt _ lo hi (g.inv.bvb_sorted (truthy v) q)
                  (g.inv.bvb_quorum q v h));
          round_bound = g.inv.round_bound;
          decision = λ h.
              let k = g.inv.decision h in
              record {
                bit = k.bit;
                past = k.past;
                in_bin_values = k.in_bin_values;
                aux_quorum = k.aux_quorum;
                coin = k.coin;
              };
        })
        (record {
          rounds = omega arith;
          decided = λ h. (h, refl, refl);
          bvb_grows = λ c q j h.
              bvb_cases (λ m. contains j m ≡ true) b c r q i t h (grows-emplace i tt j _ h);
          aux_grows = λ c q j h. h;
          bins_grow = λ q v h. h;
        })

  pub put_aux_vote-Good :
      (b : Bool) (r i : ℕ) (x : Option String)
      → 1 ≤ i
      → i ≤ e.node_count
      → Good e s (put_aux_vote b r i x t)
  put_aux_vote-Good b r i x lo hi =
      follow
        (record {
          bvb_sorted = g.inv.bvb_sorted;
          aux_sorted = λ c q.
              aux_cases (IsSorted 1 e.node_count) b c r q i x t (g.inv.aux_sorted c q)
                (emplace-IsSorted 1 e.node_count i x _ lo hi (g.inv.aux_sorted c q));
          bvb_quorum = g.inv.bvb_quorum;
          round_bound = g.inv.round_bound;
          decision = λ h.
              let k = g.inv.decision h in
              record {
                bit = k.bit;
                past = k.past;
                in_bin_values = k.in_bin_values;
                aux_quorum =
                    aux_cases (λ m. is_two_third e (length m) ≡ true) b (truthy t.decided_value) r
                      t.decided_round i x t k.aux_quorum
                      (quorum-emplace e ch i x _ lo hi
                        (g.inv.aux_sorted (truthy t.decided_value) t.decided_round) k.aux_quorum);
                coin = k.coin;
              };
        })
        (record {
          rounds = omega arith;
          decided = λ h. (h, refl, refl);
          bvb_grows = λ c q j h. h;
          aux_grows = λ c q j h.
              aux_cases (λ m. contains j m ≡ true) b c r q i x t h (grows-emplace i x j _ h);
          bins_grow = λ q v h. h;
        })

  -- A value goes into `binValues` behind two thirds of the votes.
  quorum_of_insert :
      (r v q w : ℕ)
      → is_two_third e (length (bvb_votes t (truthy v) r)) ≡ true
      → contains w ((insert_into_bin_values r v t).bin_values q) ≡ true
      → is_two_third e (length (bvb_votes t (truthy w) q)) ≡ true
  unfolding insert_into_bin_values
  quorum_of_insert r v q w quorum h = elim (Bool-cases (r == q)) [
    | inl same ↦ elim (Bool-cases (w == v)) [
      | inl hit ↦ ground (arith, quorum)
      | inr miss ↦
          g.inv.bvb_quorum q w
            (ground (arith, contains-emplace w v tt (t.bin_values q), same, miss))
    ]
    | inr other ↦ g.inv.bvb_quorum q w (rw other at h)
  ]

  pub insert_into_bin_values-Good :
      (r v : ℕ)
      → is_two_third e (length (bvb_votes t (truthy v) r)) ≡ true
      → Good e s (insert_into_bin_values r v t)
  unfolding insert_into_bin_values
  insert_into_bin_values-Good r v quorum =
      follow
        (record {
          bvb_sorted = g.inv.bvb_sorted;
          aux_sorted = g.inv.aux_sorted;
          bvb_quorum = λ q w h. quorum_of_insert r v q w quorum h;
          round_bound = g.inv.round_bound;
          decision = λ h.
              let k = g.inv.decision h in
              record {
                bit = k.bit;
                past = k.past;
                in_bin_values =
                    update_cases (λ m. contains t.decided_value m ≡ true) t.bin_values
                      (emplace v tt) r t.decided_round k.in_bin_values
                      (grows-emplace v tt t.decided_value _ k.in_bin_values);
                aux_quorum = k.aux_quorum;
                coin = k.coin;
              };
        })
        (record {
          rounds = omega arith;
          decided = λ h. (h, refl, refl);
          bvb_grows = λ c q j h. h;
          aux_grows = λ c q j h. h;
          bins_grow = λ q w h.
              update_cases (λ m. contains w m ≡ true) t.bin_values (emplace v tt) r q h
                (grows-emplace v tt w _ h);
        })

  pub set_current_round-Good :
      (r : ℕ) → t.current_round ≤ r → r ≤ last_round → Good e s (set_current_round r t)
  unfolding set_current_round
  set_current_round-Good r up bound =
      follow
        (record {
          bvb_sorted = g.inv.bvb_sorted;
          aux_sorted = g.inv.aux_sorted;
          bvb_quorum = g.inv.bvb_quorum;
          round_bound = bound;
          decision = λ h.
              let k = g.inv.decision h in
              record {
                bit = k.bit;
                past = omega (arith, k.past);
                in_bin_values = k.in_bin_values;
                aux_quorum = k.aux_quorum;
                coin = k.coin;
              };
        })
        (record {
          rounds = up;
          decided = λ h. (h, refl, refl);
          bvb_grows = λ c q j h. h;
          aux_grows = λ c q j h. h;
          bins_grow = λ q v h. h;
        })

  -- A first decision, with all that its certificate asks for.
  pub set_decided_round_and_value-Good :
      (r v : ℕ)
      → t.is_decided ≡ false
      → Certificate e (core (set_decided_round_and_value r v t))
      → Good e s (set_decided_round_and_value r v t)
  unfolding set_decided_round_and_value
  set_decided_round_and_value-Good r v new k =
      follow
        (record {
          bvb_sorted = g.inv.bvb_sorted;
          aux_sorted = g.inv.aux_sorted;
          bvb_quorum = g.inv.bvb_quorum;
          round_bound = g.inv.round_bound;
          decision = λ h. k;
        })
        (record {
          rounds = omega arith;
          decided = λ h. cc;
          bvb_grows = λ c q j h. h;
          aux_grows = λ c q j h. h;
          bins_grow = λ q v h. h;
        })
