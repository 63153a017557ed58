-- ===== src/Broker/Threads/Select.antt =====
-- The part of a sequence of elements that is one topic's, or that is responses; the elements that the
-- threads of PubSub/Broker/outgoing_buffer.cpp hold.
use ikp_projekat.Common.{
  ℕ, ◌≡◌, refl, ap, Bool, true, false, some, List, [], ◌∷◌, ◌++◌, ◌==◌, if◌then◌else◌, Bool-cases,
  inl, inr,
}
use ikp_projekat.Memory.{Block}
use ikp_projekat.Broker.OutgoingBuffer.{OneOrMoreSockets, more, one, OutgoingBufferElement}
use ikp_projekat.Broker.Threads.{
  ProducerPlace, ConsumerPlace, MainPlace, producing, asleep_at_buffer, sending, sending_last,
  responding, asleep_with, wake_producer, wake_consumer, topic_element, response_element,
}

abbrev pub is_for : ℕ → OneOrMoreSockets → Bool
is_for j (more i) = j == i
is_for j (one socket) = false

abbrev pub is_response : OneOrMoreSockets → Bool
is_response (more i) = false
is_response (one socket) = true

-- The elements whose sockets pass a test, in their order.
abbrev pub select :
    (OneOrMoreSockets → Bool) → List OutgoingBufferElement → List OutgoingBufferElement
select test [] = []
select test (e ∷ es) =
    let rest = select test es in if test e.one_or_more_sockets then e ∷ rest else rest

pub select-append :
    (test : OneOrMoreSockets → Bool) (xs ys : List OutgoingBufferElement)
    → select test (xs ++ ys) ≡ select test xs ++ select test ys
select-append test [] ys = refl
select-append test (e ∷ es) ys = elim (Bool-cases (test e.one_or_more_sockets)) [
  | inl kept ↦ rw (kept, select-append test es ys) refl
  | inr left_out ↦ rw (left_out, select-append test es ys) refl
]

-- What a topic's thread holds, and the main thread.
abbrev pub held : ℕ → ProducerPlace → List OutgoingBufferElement
held i (producing message) = topic_element i message ∷ []
held i (asleep_at_buffer message) = topic_element i message ∷ []
held i _ = []

abbrev pub held_response : MainPlace → List OutgoingBufferElement
held_response (responding socket response) = response_element socket response ∷ []
held_response (asleep_with socket response) = response_element socket response ∷ []
held_response _ = []

abbrev pub in_hand : ConsumerPlace → List OutgoingBufferElement
in_hand (sending e) = e ∷ []
in_hand (sending_last e) = e ∷ []
in_hand _ = []

-- The elements of messages.
abbrev pub elements : ℕ → List Block → List OutgoingBufferElement
elements i [] = []
elements i (message ∷ rest) = topic_element i (some message) ∷ elements i rest

pub elements-append :
    (i : ℕ) (xs ys : List Block) → elements i (xs ++ ys) ≡ elements i xs ++ elements i ys
elements-append i [] ys = refl
elements-append i (x ∷ xs) ys = ap (λ l. topic_element i (some x) ∷ l) (elements-append i xs ys)

-- Waking a thread changes nothing of what it holds.
pub held-wake_producer :
    (i : ℕ) (place : ProducerPlace) → held i (wake_producer place) ≡ held i place
held-wake_producer i ProducerPlace.testing = refl
held-wake_producer i ProducerPlace.dequeuing = refl
held-wake_producer i ProducerPlace.asleep_at_queue = refl
held-wake_producer i (ProducerPlace.producing message) = refl
held-wake_producer i (ProducerPlace.asleep_at_buffer message) = refl
held-wake_producer i ProducerPlace.ended = refl

pub in_hand-wake_consumer : (place : ConsumerPlace) → in_hand (wake_consumer place) ≡ in_hand place
in_hand-wake_consumer ConsumerPlace.testing = refl
in_hand-wake_consumer ConsumerPlace.getting = refl
in_hand-wake_consumer ConsumerPlace.asleep = refl
in_hand-wake_consumer (ConsumerPlace.sending e) = refl
in_hand-wake_consumer (ConsumerPlace.sending_last e) = refl
in_hand-wake_consumer ConsumerPlace.ended = refl
