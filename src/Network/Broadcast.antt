-- ===== src/Network/Broadcast.antt =====
-- broadcastMessageImpl: the loop over the nodes until enough of them have the message, and what is
-- put off for the others.
use skale_consensus.Prelude.{
  ℕ, zero, suc, ◌+◌, ◌*◌, ◌≡◌, ◌≤◌, inl, inr, Bool, true, false, not, ◌&&◌, Option, none, some,
  length, ltb, ◌==◌, if◌then◌else◌, arith, if_cases, Bool-cases, ==_iff, subst, sym,
}
use skale_consensus.Prelude.OrderedMap.{OrderedSet, contains, emplace, contains-emplace}
use skale_consensus.Network.Delayed.{Delayed, add_to_delayed_sends}

-- Whether a message reaches a node in a turn of the loop.
abbrev pub Link : Type 0
Link = ℕ → ℕ → Bool

-- One turn: the nodes 1, …, `n` that do not have the message yet are sent it.
unfoldable pub send_turn : ℕ → (ℕ → Bool) → ℕ → OrderedSet → OrderedSet
send_turn self reaches zero sent = sent
send_turn self reaches (suc i) sent =
    let before = send_turn self reaches i sent in
    if not (suc i == self) && not (contains (suc i) before) && reaches (suc i)
    then emplace (suc i) tt before
    else before

-- `while ( 3 * ( sent.size() + 1 ) < nodeCount * 2 )`
abbrev pub needs_more : ℕ → OrderedSet → Bool
needs_more n sent = ltb (3 * (length sent + 1)) (n * 2)

-- So many turns of the loop at most; `none` if more are needed.
unfoldable pub send_turns : ℕ → ℕ → Link → ℕ → ℕ → OrderedSet → Option OrderedSet
send_turns self n link turn zero sent = if needs_more n sent then none else some sent
send_turns self n link turn (suc fuel) sent =
    let rest = send_turns self n link (turn + 1) fuel (send_turn self (link turn) n sent) in
    if needs_more n sent then rest else some sent

-- The second loop: the nodes that do not have the message.
unfoldable pub delay_others : ℕ → ℕ → ℕ → OrderedSet → Delayed → Delayed
delay_others self m zero sent d = d
delay_others self m (suc i) sent d =
    let before = delay_others self m i sent d in
    if not (suc i == self) && not (contains (suc i) sent)
    then add_to_delayed_sends m i before
    else before

send_turn-keeps :
    (self : ℕ) (reaches : ℕ → Bool) (i j : ℕ) (sent : OrderedSet)
    → contains j sent ≡ true
    → contains j (send_turn self reaches i sent) ≡ true
unfolding send_turn
send_turn-keeps self reaches zero j sent h = h
send_turn-keeps self reaches (suc i) j sent h = ground (
  arith,
  send_turn-keeps self reaches i j sent h,
  contains-emplace j (suc i) tt (send_turn self reaches i sent),
)

send_turn-keeps_one :
    (self : ℕ) (reaches : ℕ → Bool) (i j : ℕ) (sent : OrderedSet)
    → contains j (send_turn self reaches i sent) ≡ true
    → contains j (send_turn self reaches (suc i) sent) ≡ true
unfolding send_turn
send_turn-keeps_one self reaches i j sent h =
    ground (arith, h, contains-emplace j (suc i) tt (send_turn self reaches i sent))

-- Every other node that a turn can reach has the message after it.
pub send_turn-reaches :
    (self : ℕ) (reaches : ℕ → Bool) (i j : ℕ) (sent : OrderedSet)
    → 1 ≤ j
    → j ≤ i
    → (j == self) ≡ false
    → reaches j ≡ true
    → contains j (send_turn self reaches i sent) ≡ true
unfolding send_turn
send_turn-reaches self reaches zero j sent lo hi ne r = absurd (omega arith)
send_turn-reaches self reaches (suc i) j sent lo hi ne r = elim (Bool-cases (j == suc i)) [
  | inl same ↦ last_one ((==_iff j (suc i)).0 same)
  | inr apart ↦
      send_turn-keeps_one self reaches i j sent
        (send_turn-reaches self reaches i j sent lo (ground arith) ne r)
]
  where
    before : OrderedSet
    before = send_turn self reaches i sent

    last_one : j ≡ suc i → contains j (send_turn self reaches (suc i) sent) ≡ true
    last_one e =
        if_cases {A = OrderedSet} (λ s. contains j s ≡ true)
          (not (suc i == self) && not (contains (suc i) before) && reaches (suc i)) _ _
          (λ t. ground (arith, contains-emplace j (suc i) tt before))
          (λ t.
            subst (λ k. contains k before ≡ true) (sym e)
              (ground (
                arith,
                t,
                subst (λ k. reaches k ≡ true) e r,
                subst (λ k. (k == self) ≡ false) e ne,
              )))

-- The loop ends only with the message sent to so many nodes that with this one they are two thirds.
pub send_turns-enough :
    (self n : ℕ) (link : Link) (turn fuel : ℕ) (sent : OrderedSet) {after : OrderedSet}
    → send_turns self n link turn fuel sent ≡ some after
    → n * 2 ≤ 3 * (length after + 1)
unfolding send_turns
send_turns-enough self n link turn zero sent {after} =
    if_cases {A = Option OrderedSet} (λ o. o ≡ some after → n * 2 ≤ 3 * (length after + 1))
      (needs_more n sent) none (some sent) (λ _ p. absurd (none_not_some p))
      (λ enough p. settled enough p)
  where
    none_not_some : {x : OrderedSet} → none ≡ some x → ⊥
    none_not_some p = cc

    settled : needs_more n sent ≡ false → some sent ≡ some after → n * 2 ≤ 3 * (length after + 1)
    settled enough p = subst (λ s. n * 2 ≤ 3 * (length s + 1)) (some_injective p) (ground arith)
      where
        some_injective : some sent ≡ some after → sent ≡ after
        some_injective q = cc
send_turns-enough self n link turn (suc fuel) sent {after} =
    if_cases {A = Option OrderedSet} (λ o. o ≡ some after → n * 2 ≤ 3 * (length after + 1))
      (needs_more n sent) _ (some sent) (λ _ p. send_turns-enough self n link (turn + 1) fuel _ p)
      (λ enough p. subst (λ s. n * 2 ≤ 3 * (length s + 1)) (some_injective p) (ground arith))
  where
    some_injective : some sent ≡ some after → sent ≡ after
    some_injective q = cc
