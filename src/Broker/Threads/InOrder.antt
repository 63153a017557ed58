-- ===== src/Broker/Threads/InOrder.antt =====
-- Until a shutdown no message of PubSub/Broker is lost, repeated or overtaken, and no thread sleeps
-- over work.
use ikp_projekat.Common.{ℕ, ◌≡◌, ap, false, List, [], ◌++◌, append_assoc, length}
use ikp_projekat.Broker.OutgoingBuffer.{OutgoingBufferElement, max_outgoing_buffer_size}
use ikp_projekat.Broker.OutgoingBuffer.Window.{contents, window}
use ikp_projekat.Broker.Threads.{State, asleep, asleep_at_queue}
use ikp_projekat.Broker.Threads.Steps.{Reachable}
use ikp_projekat.Broker.Threads.Select.{
  is_for, is_response, select, select-append, held, held_response, in_hand, elements,
}
use ikp_projekat.Broker.Threads.Running.{Reachable-Holds}

-- In every state that the threads reach without a shutdown, from whatever the ring's array holds at
-- first: what has been published on a topic is, in this order and each message once, the topic's part
-- of what the consumer has finished sending, its part of what the consumer has in hand and the ring
-- holds, what the topic's thread holds, and what the topic's queue holds.
pub Reachable-topic_in_order :
    {garbage : List OutgoingBufferElement} {s : State} (j : ℕ)
    → length garbage ≡ max_outgoing_buffer_size
    → Reachable garbage s
    → s.flag ≡ false
    → select (is_for j) s.sent
        ++ (select (is_for j) (in_hand s.consumer ++ contents s.outgoing_buffer)
            ++ (held j (s.topics j).place ++ elements j (s.topics j).message_queue))
      ≡ elements j (s.topics j).published
Reachable-topic_in_order {garbage} {s} j whole reached clear =
    rw
      (
        select-append (is_for j) s.sent (in_hand s.consumer ++ contents s.outgoing_buffer),
        append_assoc (select (is_for j) s.sent),
      )
      at ((Reachable-Holds whole reached clear).topics j).flow

-- The same of the responses: those that commands have given are what the consumer has sent, what it
-- has in hand and the ring holds of them, and what the main thread holds.
pub Reachable-responses_in_order :
    {garbage : List OutgoingBufferElement} {s : State}
    → length garbage ≡ max_outgoing_buffer_size
    → Reachable garbage s
    → s.flag ≡ false
    → select is_response s.sent
        ++ (select is_response (in_hand s.consumer ++ contents s.outgoing_buffer)
            ++ held_response s.main)
      ≡ s.responses
Reachable-responses_in_order {garbage} {s} whole reached clear =
    rw
      (
        select-append is_response s.sent (in_hand s.consumer ++ contents s.outgoing_buffer),
        append_assoc (select is_response s.sent),
      )
      at (Reachable-Holds whole reached clear).responses

-- In every state that the threads reach without a shutdown, the consumer sleeps only while the ring
-- is empty, and a topic's thread sleeps in `dequeue` only while the topic's queue is empty.
pub Reachable-no_lost_wake_up :
    {garbage : List OutgoingBufferElement} {s : State}
    → length garbage ≡ max_outgoing_buffer_size
    → Reachable garbage s
    → s.flag ≡ false
    → (s.consumer ≡ asleep → contents s.outgoing_buffer ≡ [])
      × ((j : ℕ) → (s.topics j).place ≡ asleep_at_queue → (s.topics j).message_queue ≡ [])
Reachable-no_lost_wake_up {garbage} {s} whole reached clear =
    let h = Reachable-Holds whole reached clear in
    (
      λ e. ap (λ n. window s.outgoing_buffer.array s.outgoing_buffer.use_idx n) (h.waits e),
      λ j e. (h.topics j).waits e,
    )
