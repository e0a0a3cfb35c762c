-- ===== src/Network/Delayed.antt =====
-- addToDelayedSends and trySendingDelayedSends: what could not be sent, by destination.
use skale_consensus.Prelude.{
  ℕ, zero, suc, ◌+◌, ◌≡◌, ◌≤◌, Bool, true, List, [], ◌∷◌, ◌++◌, length, drop, ltb, ◌==◌,
  if◌then◌else◌, arith, if_cases, length-append, length-drop, update,
}

-- MAX_DELAYED_MESSAGE_SENDS
abbrev pub max_delayed_message_sends : ℕ
max_delayed_message_sends = 128

-- The queue of each destination; messages are known by their numbers.
abbrev pub Delayed : Type 0
Delayed = ℕ → List ℕ

unfoldable pub push_delayed : ℕ → List ℕ → List ℕ
push_delayed m queue =
    if ltb max_delayed_message_sends (length (queue ++ m ∷ []))
    then drop 1 (queue ++ m ∷ [])
    else queue ++ m ∷ []

-- addToDelayedSends, for the index of the destination's queue.
unfoldable pub add_to_delayed_sends : ℕ → ℕ → Delayed → Delayed
add_to_delayed_sends m dst d = update d dst (push_delayed m (d dst))

-- What happens at one destination in a pass. The lock is not held while a message is sent: `meantime`
-- are the messages that addToDelayedSends adds between the look at the front and its removal.
abbrev pub push_all : List ℕ → List ℕ → List ℕ
push_all [] queue = queue
push_all (m ∷ ms) queue = push_all ms (push_delayed m queue)

unfoldable pub send_front : (ℕ → Bool) → List ℕ → List ℕ → List ℕ
send_front send_message meantime [] = push_all meantime []
send_front send_message meantime (m ∷ queue) =
    if send_message m then drop 1 (push_all meantime (m ∷ queue)) else push_all meantime (m ∷ queue)

-- trySendingDelayedSends over the destinations below `node_count`, but for the node itself. The
-- block that leaves the loop of a destination stands behind the removal, not in an else branch.
unfoldable pub try_sending_delayed_sends : ℕ → (ℕ → ℕ → Bool) → (ℕ → List ℕ) → ℕ → Delayed → Delayed
try_sending_delayed_sends self send_message meantime zero d = d
try_sending_delayed_sends self send_message meantime (suc i) d =
    let before = try_sending_delayed_sends self send_message meantime i d in
    if suc i == self
    then before
    else update before i (send_front (send_message i) (meantime i) (before i))

-- computeTotalDelayedSends over the destinations below a number.
unfoldable pub compute_total_delayed_sends : ℕ → Delayed → ℕ
compute_total_delayed_sends zero d = 0
compute_total_delayed_sends (suc i) d = compute_total_delayed_sends i d + length (d i)

abbrev pub IsBounded : Delayed → Type 0
IsBounded d = (i : ℕ) → length (d i) ≤ max_delayed_message_sends

push_delayed-length :
    (m : ℕ) (queue : List ℕ)
    → length queue ≤ max_delayed_message_sends
    → length (push_delayed m queue) ≤ max_delayed_message_sends
unfolding push_delayed
push_delayed-length m queue h =
    ground (arith, length-append queue (m ∷ []), length-drop 1 (queue ++ m ∷ []))

push_all-length :
    (ms queue : List ℕ)
    → length queue ≤ max_delayed_message_sends
    → length (push_all ms queue) ≤ max_delayed_message_sends
push_all-length [] queue h = h
push_all-length (m ∷ ms) queue h = push_all-length ms _ (push_delayed-length m queue h)

send_front-length :
    (send_message : ℕ → Bool) (meantime queue : List ℕ)
    → length queue ≤ max_delayed_message_sends
    → length (send_front send_message meantime queue) ≤ max_delayed_message_sends
unfolding send_front
send_front-length send_message meantime [] h = push_all-length meantime [] h
send_front-length send_message meantime (m ∷ queue) h =
    ground
      (arith, push_all-length meantime (m ∷ queue) h, length-drop 1 (push_all meantime (m ∷ queue)))

update-IsBounded :
    (d : Delayed) (i : ℕ) (queue : List ℕ)
    → IsBounded d
    → length queue ≤ max_delayed_message_sends
    → IsBounded (update d i queue)
update-IsBounded d i queue h q j = ground (arith, h j)

-- Whatever is sent, refused or added meanwhile, a pass leaves every queue within the bound, if they
-- were before.
pub try_sending_delayed_sends-IsBounded :
    (self : ℕ) (send_message : ℕ → ℕ → Bool) (meantime : ℕ → List ℕ) (n : ℕ) (d : Delayed)
    → IsBounded d
    → IsBounded (try_sending_delayed_sends self send_message meantime n d)
unfolding try_sending_delayed_sends
try_sending_delayed_sends-IsBounded self send_message meantime zero d h = h
try_sending_delayed_sends-IsBounded self send_message meantime (suc i) d h =
    let rest = try_sending_delayed_sends-IsBounded self send_message meantime i d h in
    if_cases IsBounded (suc i == self) _ _ (λ _. rest)
      (λ _.
        update-IsBounded _ i _ rest (send_front-length (send_message i) (meantime i) _ (rest i)))

-- So does the addition of a message.
pub add_to_delayed_sends-IsBounded :
    (m dst : ℕ) (d : Delayed) → IsBounded d → IsBounded (add_to_delayed_sends m dst d)
unfolding add_to_delayed_sends
add_to_delayed_sends-IsBounded m dst d h =
    update-IsBounded d dst _ h (push_delayed-length m (d dst) (h dst))

-- What one try leaves of a queue: all but the front if that can be sent, else all.
abbrev pub left_over : (ℕ → Bool) → List ℕ → List ℕ
left_over send_message [] = []
left_over send_message (m ∷ queue) = if send_message m then queue else m ∷ queue

-- A message that is added to a full queue while the front is being sent costs the message behind the
-- front: it leaves the queue and has not been sent.
pub send_front_loses :
    (send_message : ℕ → Bool) (m x y : ℕ) (queue : List ℕ)
    → send_message x ≡ true
    → length (x ∷ y ∷ queue) ≡ max_delayed_message_sends
    → send_front send_message (m ∷ []) (x ∷ y ∷ queue) ≡ queue ++ m ∷ []
unfolding send_front push_delayed
send_front_loses send_message m x y queue sent full =
    rw sent (ground (arith, length-append queue (m ∷ [])))
