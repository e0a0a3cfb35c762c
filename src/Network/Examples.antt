-- ===== src/Network/Examples.antt =====
-- The network's queues at concrete messages.
use skale_consensus.Prelude.{
  ℕ, zero, suc, ◌≡◌, ◌≤◌, Bool, true, false, List, [], ◌∷◌, ◌++◌, length, leb, refl, arith, ◌==◌,
}
use skale_consensus.Network.Deferred.{
  Message, Queues, add_to_deferred_message_queue, pull_messages_for_current_block_id, deferred,
  dropped, posted_to_consensus, destination,
}
use skale_consensus.Network.Waiting.{
  HasMessage, add_all, count_for, pull-add_to_deferred_message_queue,
}
use skale_consensus.Network.Delayed.{
  Delayed, max_delayed_message_sends, send_front, send_front_loses,
}

abbrev message : ℕ → ℕ → Message
message b i = record { block_id = b; is_oracle = false; id = i }

abbrev queues : Queues
queues = (8, message 8 1 ∷ []) ∷ []

abbrev always : Message → Bool
always m = true

future_is_deferred : destination always 6 (message 8 2) ≡ deferred
unfolding destination
future_is_deferred = refl

current_is_posted : destination always 7 (message 8 2) ≡ posted_to_consensus
unfolding destination
current_is_posted = refl

old_is_dropped : destination always 20 (message 8 2) ≡ dropped
unfolding destination
old_is_dropped = refl

abbrev later : List Message
later = message 8 3 ∷ message 9 4 ∷ message 8 5 ∷ []

pull_example :
    HasMessage
      (message 8 2)
      (pull_messages_for_current_block_id 7
        (add_all later (add_to_deferred_message_queue (message 8 2) queues))).0
unfolding count_for
pull_example = pull-add_to_deferred_message_queue 7 (message 8 2) later queues (omega arith) refl

-- Two messages wait for the second node.
abbrev waiting : Delayed
waiting dst = if_second (dst == 1)
  where
    if_second : Bool → List ℕ
    if_second true = 11 ∷ 12 ∷ []
    if_second false = []

abbrev reaches_all : ℕ → ℕ → Bool
reaches_all dst m = true

abbrev one_more : ℕ → List ℕ
one_more dst = 5 ∷ []

two_bound : (dst : ℕ) → length (waiting dst) ≤ max_delayed_message_sends
two_bound dst = ground arith

abbrev many : ℕ → List ℕ
many zero = []
many (suc n) = n ∷ many n

send_front_loses_example : send_front (λ m. true) (5 ∷ []) (1 ∷ 2 ∷ many 126) ≡ many 126 ++ 5 ∷ []
send_front_loses_example = send_front_loses (λ m. true) 5 1 2 (many 126) refl refl

abbrev first_two : ℕ → ℕ → Bool
first_two turn dst = leb dst 3
