-- ===== src/Network/Waiting.antt =====
-- Messages that wait in the deferred queues until they are pulled.
use skale_consensus.Prelude.{
  ℕ, ◌+◌, ◌≡◌, ◌≤◌, ◌<◌, ◌⊎◌, inl, inr, subst, ==_iff, true, false, List, [], ◌∷◌, ◌++◌, length,
  drop, ltb, leb, ◌==◌, if◌then◌else◌, u64, refl, ap, sym, arith, ◌∙◌, if_cases, length-append,
  append_assoc,
}
use skale_consensus.Network.Deferred.{
  max_deferred_queue_size_for_block, Message, Queues, push_bounded, add_to_deferred_message_queue,
  pull_messages_for_current_block_id,
}

-- A message among others.
abbrev pub HasMessage : Message → List Message → Type 0
HasMessage m xs = (pre : List Message) × (post : List Message) × (xs ≡ pre ++ m ∷ post)

HasMessage-append : (m : Message) (xs ys : List Message) → HasMessage m xs → HasMessage m (xs ++ ys)
HasMessage-append m xs ys (pre, post, e) =
    (pre, post ++ ys, ap (λ l. l ++ ys) e ∙ append_assoc pre (m ∷ post) ys)

HasMessage-append_right :
    (m : Message) (xs ys : List Message) → HasMessage m ys → HasMessage m (xs ++ ys)
HasMessage-append_right m xs ys (pre, post, e) =
    (xs ++ pre, post, ap (λ l. xs ++ l) e ∙ sym (append_assoc xs pre (m ∷ post)))

-- The message, with at most `k` behind it.
abbrev HasNear : ℕ → Message → List Message → Type 0
HasNear k m xs =
    (pre : List Message) × (post : List Message) × (xs ≡ pre ++ m ∷ post) × (length post ≤ k)

-- With fewer than 1023 behind it, a message stays when one more is pushed.
push_bounded-HasNear :
    (k : ℕ) (m x : Message) (queue : List Message)
    → k + 1 < max_deferred_queue_size_for_block
    → HasNear k m queue
    → HasNear (k + 1) m (push_bounded queue x)
unfolding push_bounded
push_bounded-HasNear k m x queue room (pre, post, e, near) =
    if_cases (HasNear (k + 1) m) (ltb max_deferred_queue_size_for_block (length (queue ++ x ∷ [])))
      _ _ (λ full. dropped_front pre whole (ground (arith, full)))
      (λ fits. (pre, post ++ x ∷ [], whole, few))
  where
    whole : queue ++ x ∷ [] ≡ pre ++ (m ∷ (post ++ x ∷ []))
    whole = ap (λ l. l ++ x ∷ []) e ∙ append_assoc pre (m ∷ post) (x ∷ [])

    few : length (post ++ x ∷ []) ≤ k + 1
    few = omega (arith, near, length-append post (x ∷ []))

    dropped_front :
        (front : List Message)
        → queue ++ x ∷ [] ≡ front ++ (m ∷ (post ++ x ∷ []))
        → max_deferred_queue_size_for_block < length (queue ++ x ∷ [])
        → HasNear (k + 1) m (drop 1 (queue ++ x ∷ []))
    dropped_front [] w full =
        absurd (omega (arith, few, room, full, ap (λ (l : List Message). length l) w))
    dropped_front (y ∷ front) w full =
        (front, post ++ x ∷ [], ap (λ (l : List Message). drop 1 l) w, few)

push_bounded-last : (m : Message) (queue : List Message) → HasNear 0 m (push_bounded queue m)
unfolding push_bounded
push_bounded-last m queue =
    if_cases (HasNear 0 m) (ltb max_deferred_queue_size_for_block (length (queue ++ m ∷ []))) _ _
      (λ full. dropped_front queue (ground (arith, full, length-append queue (m ∷ []))))
      (λ fits. (queue, [], refl, omega arith))
  where
    dropped_front : (q : List Message) → 1 ≤ length q → HasNear 0 m (drop 1 (q ++ m ∷ []))
    dropped_front [] h = absurd (omega arith)
    dropped_front (y ∷ q) h = (q, [], refl, omega arith)

-- The queue of the message's block id has it, with at most `k` behind it.
abbrev Waits : ℕ → Message → Queues → Type 0
Waits k m [] = ⊥
Waits k m ((b, queue) ∷ qs) = ((m.block_id ≡ b) × HasNear k m queue) ⊎ Waits k m qs

Waits-weaken : (k l : ℕ) (m : Message) (qs : Queues) → k ≤ l → Waits k m qs → Waits l m qs
Waits-weaken k l m [] h w = w
Waits-weaken k l m ((b, queue) ∷ qs) h (inl (e, (pre, post, f, near))) =
    inl (e, (pre, post, f, omega (arith, near)))
Waits-weaken k l m ((b, queue) ∷ qs) h (inr w) = inr (Waits-weaken k l m qs h w)

add-Waits : (m : Message) (qs : Queues) → Waits 0 m (add_to_deferred_message_queue m qs)
unfolding add_to_deferred_message_queue
add-Waits m [] = inl (refl, push_bounded-last m [])
add-Waits m ((b, queue) ∷ qs) =
    if_cases (Waits 0 m) (ltb m.block_id b) _ _ (λ _. inl (refl, push_bounded-last m []))
      (λ _.
        if_cases (Waits 0 m) (m.block_id == b) _ _
          (λ same. inl ((==_iff m.block_id b).0 same, push_bounded-last m queue))
          (λ _. inr (add-Waits m qs)))

-- 1 for a message of the same block id.
abbrev pub is_for : Message → Message → ℕ
is_for m x = if x.block_id == m.block_id then 1 else 0

more-Waits :
    (k : ℕ) (m x : Message) (qs : Queues)
    → k + is_for m x < max_deferred_queue_size_for_block
    → Waits k m qs
    → Waits (k + is_for m x) m (add_to_deferred_message_queue x qs)
unfolding add_to_deferred_message_queue
more-Waits k m x [] room w = absurd w
more-Waits k m x ((b, queue) ∷ qs) room w =
    if_cases (Waits l m) (ltb x.block_id b) ((x.block_id, push_bounded [] x) ∷ (b, queue) ∷ qs)
      (if x.block_id == b
        then (b, push_bounded queue x) ∷ qs
        else (b, queue) ∷ add_to_deferred_message_queue x qs)
      (λ _. inr (Waits-weaken k l m ((b, queue) ∷ qs) (omega arith) w))
      (λ _.
        if_cases (Waits l m) (x.block_id == b) ((b, push_bounded queue x) ∷ qs)
          ((b, queue) ∷ add_to_deferred_message_queue x qs) (λ same. pushed same w)
          (λ _. behind (more-Waits k m x qs room) w))
  where
    l : ℕ
    l = k + is_for m x

    pushed :
        (x.block_id == b) ≡ true
        → Waits k m ((b, queue) ∷ qs)
        → Waits l m ((b, push_bounded queue x) ∷ qs)
    pushed same (inr v) = inr (Waits-weaken k l m qs (omega arith) v)
    pushed same (inl (e, near)) =
        let counts : l ≡ k + 1 = ground (arith, same, e) in
        inl (
          e,
          subst (λ n. HasNear n m (push_bounded queue x)) (sym counts)
              (push_bounded-HasNear k m x queue (omega (arith, room, counts)) near),
        )

    behind :
        (Waits k m qs → Waits l m (add_to_deferred_message_queue x qs))
        → Waits k m ((b, queue) ∷ qs)
        → Waits l m ((b, queue) ∷ add_to_deferred_message_queue x qs)
    behind rest (inr v) = inr (rest v)
    behind rest (inl (e, (pre, post, f, near))) = inl (e, (pre, post, f, omega (arith, near)))

-- Messages that are deferred one after the other.
unfoldable pub add_all : List Message → Queues → Queues
add_all [] qs = qs
add_all (x ∷ xs) qs = add_all xs (add_to_deferred_message_queue x qs)

-- How many of the messages are for the block id of `m`.
unfoldable pub count_for : Message → List Message → ℕ
count_for m [] = 0
count_for m (x ∷ xs) = is_for m x + count_for m xs

add_all-Waits :
    (k : ℕ) (m : Message) (xs : List Message) (qs : Queues)
    → k + count_for m xs < max_deferred_queue_size_for_block
    → Waits k m qs
    → Waits (k + count_for m xs) m (add_all xs qs)
unfolding add_all count_for
add_all-Waits k m [] qs room w = Waits-weaken k (k + 0) m qs (omega arith) w
add_all-Waits k m (x ∷ xs) qs room w =
    Waits-weaken (k + is_for m x + count_for m xs) (k + (is_for m x + count_for m xs)) m
      (add_all xs (add_to_deferred_message_queue x qs)) (omega arith)
      (add_all-Waits (k + is_for m x) m xs (add_to_deferred_message_queue x qs)
        (omega (arith, room)) (more-Waits k m x qs (omega (arith, room)) w))

-- The queues that a pull takes.
pulled : ℕ → Queues → List Message
pulled last_committed qs = (pull_messages_for_current_block_id last_committed qs).0

pulled-Waits :
    (last_committed k : ℕ) (m : Message) (qs : Queues)
    → leb m.block_id (u64 (last_committed + 1)) ≡ true
    → Waits k m qs
    → HasMessage m (pulled last_committed qs)
unfolding pull_messages_for_current_block_id pulled
pulled-Waits last_committed k m [] due w = absurd w
pulled-Waits last_committed k m ((b, queue) ∷ qs) due w =
    if_cases {A = List Message × Queues} (λ r. HasMessage m r.0) (leb b (u64 (last_committed + 1)))
      (queue ++ pulled last_committed qs, (pull_messages_for_current_block_id last_committed qs).1)
      (
        pulled last_committed qs,
        (b, queue) ∷ (pull_messages_for_current_block_id last_committed qs).1,
      )
      (λ _. taken (pulled-Waits last_committed k m qs due) w)
      (λ late. left (pulled-Waits last_committed k m qs due) late w)
  where
    taken :
        (Waits k m qs → HasMessage m (pulled last_committed qs))
        → Waits k m ((b, queue) ∷ qs)
        → HasMessage m (queue ++ pulled last_committed qs)
    taken rest (inl (e, (pre, post, f, near))) =
        HasMessage-append m queue (pulled last_committed qs) (pre, post, f)
    taken rest (inr v) = HasMessage-append_right m queue (pulled last_committed qs) (rest v)

    left :
        (Waits k m qs → HasMessage m (pulled last_committed qs))
        → leb b (u64 (last_committed + 1)) ≡ false
        → Waits k m ((b, queue) ∷ qs)
        → HasMessage m (pulled last_committed qs)
    left rest late (inl (e, near)) = absurd (ground (arith, late, due, e))
    left rest late (inr v) = rest v

-- A message that is deferred, into whatever queues, and after which others are deferred, fewer than
-- 1024 of them for its block id, is among those that are pulled next, if its block id is then at most
-- the current one.
pub pull-add_to_deferred_message_queue :
    (last_committed : ℕ) (m : Message) (later : List Message) (qs : Queues)
    → count_for m later < max_deferred_queue_size_for_block
    → leb m.block_id (u64 (last_committed + 1)) ≡ true
    → HasMessage m
        (pull_messages_for_current_block_id last_committed
          (add_all later (add_to_deferred_message_queue m qs))).0
unfolding pulled
pull-add_to_deferred_message_queue last_committed m later qs few due =
    pulled-Waits last_committed (0 + count_for m later) m
      (add_all later (add_to_deferred_message_queue m qs)) due
      (add_all-Waits 0 m later (add_to_deferred_message_queue m qs) (omega (arith, few))
        (add-Waits m qs))
