-- ===== src/Network/Deferred.antt =====
-- addToDeferredMessageQueue, pullMessagesForCurrentBlockID and postDeferOrDrop.
use skale_consensus.Prelude.{
  ℕ, ◌+◌, ◌≤◌, Bool, List, [], ◌∷◌, ◌++◌, length, drop, ltb, leb, ◌==◌, if◌then◌else◌, u64, arith,
  if_cases, length-append, length-drop,
}
use skale_consensus.Prelude.OrderedMap.{OrderedMap}
use skale_consensus.BlockConsensus.Agent.{max_active_consensuses}

-- MAX_DEFERRED_QUEUE_SIZE_FOR_BLOCK
abbrev pub max_deferred_queue_size_for_block : ℕ
max_deferred_queue_size_for_block = 1024

-- What the code reads of a message.
pub record Message : Type 0 where
  pub block_id : ℕ
  pub is_oracle : Bool
  pub id : ℕ

-- A queue for each block id.
abbrev pub Queues : Type 0
Queues = OrderedMap (List Message)

-- A queue with a message at its end; the oldest one goes when there are too many.
unfoldable pub push_bounded : List Message → Message → List Message
push_bounded queue m =
    if ltb max_deferred_queue_size_for_block (length (queue ++ m ∷ []))
    then drop 1 (queue ++ m ∷ [])
    else queue ++ m ∷ []

unfoldable pub add_to_deferred_message_queue : Message → Queues → Queues
add_to_deferred_message_queue m [] = (m.block_id, push_bounded [] m) ∷ []
add_to_deferred_message_queue m ((b, queue) ∷ qs) =
    let rest = add_to_deferred_message_queue m qs in
    if ltb m.block_id b
    then (m.block_id, push_bounded [] m) ∷ (b, queue) ∷ qs
    else if m.block_id == b
    then (b, push_bounded queue m) ∷ qs
    else (b, queue) ∷ rest

-- The messages that are returned, and the queues that stay.
unfoldable pub pull_messages_for_current_block_id : ℕ → Queues → List Message × Queues
pull_messages_for_current_block_id last_committed [] = ([], [])
pull_messages_for_current_block_id last_committed ((b, queue) ∷ qs) =
    let (pulled, kept) = pull_messages_for_current_block_id last_committed qs in
    if leb b (u64 (last_committed + 1))
    then (queue ++ pulled, kept)
    else (pulled, (b, queue) ∷ kept)

-- Where a message goes.
pub data Posted : Type 0 where
  dropped deferred posted_to_oracle posted_to_consensus : Posted

-- postDeferOrDrop, with what shouldPost of the block consensus answers.
unfoldable pub destination : (Message → Bool) → ℕ → Message → Posted
destination should_post last_committed m =
    let current = u64 (last_committed + 1) in
    if ltb current m.block_id
    then deferred
    else if leb (u64 (m.block_id + max_active_consensuses)) current
    then dropped
    else if m.is_oracle
    then posted_to_oracle
    else if should_post m
    then posted_to_consensus
    else deferred

abbrev defer_if : Posted → Message → Queues → Queues
defer_if deferred m qs = add_to_deferred_message_queue m qs
defer_if p m qs = qs

unfoldable pub post_defer_or_drop : (Message → Bool) → ℕ → Message → Queues → Posted × Queues
post_defer_or_drop should_post last_committed m qs =
    let p = destination should_post last_committed m in (p, defer_if p m qs)

-- No queue is longer than allowed.
abbrev pub IsBounded : Queues → Type 0
IsBounded [] = Unit
IsBounded ((b, queue) ∷ qs) = (length queue ≤ max_deferred_queue_size_for_block) × IsBounded qs

push_bounded-length :
    (queue : List Message) (m : Message)
    → length queue ≤ max_deferred_queue_size_for_block
    → length (push_bounded queue m) ≤ max_deferred_queue_size_for_block
unfolding push_bounded
push_bounded-length queue m h =
    ground (arith, length-append queue (m ∷ []), length-drop 1 (queue ++ m ∷ []))

-- Adding a message leaves every queue within the bound, if they were before.
pub add_to_deferred_message_queue-IsBounded :
    (m : Message) (qs : Queues) → IsBounded qs → IsBounded (add_to_deferred_message_queue m qs)
unfolding add_to_deferred_message_queue
add_to_deferred_message_queue-IsBounded m [] h = (push_bounded-length [] m (omega arith), tt)
add_to_deferred_message_queue-IsBounded m ((b, queue) ∷ qs) (q, h) =
    if_cases IsBounded (ltb m.block_id b) _ _
      (λ _. (push_bounded-length [] m (omega arith), (q, h)))
      (λ _.
        if_cases IsBounded (m.block_id == b) _ _ (λ _. (push_bounded-length queue m q, h))
          (λ _. (q, add_to_deferred_message_queue-IsBounded m qs h)))
