-- ===== src/Broker/Threads/Flow.antt =====
-- What becomes of a topic's messages in one step of a thread of PubSub/Broker/outgoing_buffer.cpp.
use ikp_projekat.Common.{
  ℕ, ◌≡◌, refl, sym, false, Option, List, [], ◌∷◌, ◌++◌, ◌==◌, ==_refl, ==→eq, ◌≢◌, Bool-cases, inl,
  inr, append_assoc, append-nil,
}
use ikp_projekat.Memory.{Block}
use ikp_projekat.Broker.OutgoingBuffer.{OutgoingBufferElement}
use ikp_projekat.Broker.OutgoingBuffer.Window.{contents}
use ikp_projekat.Broker.Threads.{
  ProducerPlace, TopicThread, State, update, asleep_at_queue, dequeuing, producing, testing,
  wake_producer, topic_element, dequeue_turn,
}
use ikp_projekat.Broker.Threads.Select.{
  is_for, select, select-append, held, in_hand, elements, elements-append, held-wake_producer,
}

-- What has been sent, is being sent, or is in the ring, oldest first.
abbrev pub pipeline : State → List OutgoingBufferElement
pipeline s = s.sent ++ (in_hand s.consumer ++ contents s.outgoing_buffer)

-- Behind a pipeline, what the topic's thread holds and what its queue holds are all that is left of
-- what has been published, in this order; and the thread sleeps in `dequeue` only at an empty queue.
pub record IsServed (j : ℕ) (p : List OutgoingBufferElement) (t : TopicThread) : Type 0 where
  pub flow :
      select (is_for j) p ++ (held j t.place ++ elements j t.message_queue) ≡ elements j t.published
  pub waits : t.place ≡ asleep_at_queue → t.message_queue ≡ []

pub update-IsServed :
    (topics : ℕ → TopicThread) (p : List OutgoingBufferElement) (i : ℕ) (t : TopicThread)
    → ((j : ℕ) → IsServed j p (topics j))
    → IsServed i p t
    → (j : ℕ) → IsServed j p (update topics i t j)
update-IsServed topics p i t all one j = elim (Bool-cases (j == i)) [
  | inl same ↦ rw (same, ==→eq j i same) one
  | inr other ↦ rw other (all j)
]

-- The thread goes on with no message in hand.
pub place-IsServed :
    (j : ℕ) (p : List OutgoingBufferElement) (t : TopicThread) (place : ProducerPlace)
    → IsServed j p t
    → held j place ≡ held j t.place
    → place ≢ asleep_at_queue
    → IsServed j p (record t { place = place })
place-IsServed j p t place ok same awake = record {
  flow = rw same ok.flow;
  waits = λ e. absurd (awake e);
}

pub enqueue-IsServed :
    (j : ℕ) (p : List OutgoingBufferElement) (t : TopicThread) (message : Block)
    → IsServed j p t
    → IsServed j p (record {
      place = wake_producer t.place;
      message_queue = t.message_queue ++ (message ∷ []);
      published = t.published ++ (message ∷ []);
    })
enqueue-IsServed j p t message ok = record {
  flow =
      rw
        (
          held-wake_producer j t.place,
          elements-append j t.message_queue (message ∷ []),
          elements-append j t.published (message ∷ []),
          sym ok.flow,
          append_assoc (select (is_for j) p) (held j t.place ++ elements j t.message_queue)
              (elements j (message ∷ [])),
          append_assoc (held j t.place) (elements j t.message_queue) (elements j (message ∷ [])),
        )
        refl;
  waits = λ e. absurd (awake t.place e);
}
  where
    awake : (place : ProducerPlace) → wake_producer place ≢ asleep_at_queue
    awake ProducerPlace.testing e = cc
    awake ProducerPlace.dequeuing e = cc
    awake ProducerPlace.asleep_at_queue e = cc
    awake (ProducerPlace.producing message) e = cc
    awake (ProducerPlace.asleep_at_buffer message) e = cc
    awake ProducerPlace.ended e = cc

abbrev thread : ProducerPlace → List Block → List Block → TopicThread
thread place queue published = record {
  place = place;
  message_queue = queue;
  published = published;
}

turn_at :
    (j : ℕ) (p : List OutgoingBufferElement) (place : ProducerPlace) (queue published : List Block)
    → IsServed j p (thread place queue published)
    → place ≡ dequeuing
    → IsServed j p (dequeue_turn false false (thread place queue published))
unfolding dequeue_turn
turn_at j p place [] published ok at = record { flow = rw at at ok.flow; waits = λ e. refl }
turn_at j p place (message ∷ rest) published ok at = record {
  flow = rw at at ok.flow;
  waits = λ e. absurd (cc e);
}

-- A turn of `dequeue` that sees no shutdown.
pub dequeue_turn-IsServed :
    (j : ℕ) (p : List OutgoingBufferElement) (t : TopicThread)
    → IsServed j p t
    → t.place ≡ dequeuing
    → IsServed j p (dequeue_turn false false t)
dequeue_turn-IsServed j p t ok at = turn_at j p t.place t.message_queue t.published ok at

-- A topic's thread hands its message over.
pub hand_over-IsServed :
    (j : ℕ) (p : List OutgoingBufferElement) (t : TopicThread) (message : Option Block)
    → IsServed j p t
    → t.place ≡ producing message
    → IsServed j (p ++ (topic_element j message ∷ [])) (record t { place = testing })
hand_over-IsServed j p t message ok at = record {
  flow =
      rw
        (
          select-append (is_for j) p (topic_element j message ∷ []),
          ==_refl j,
          append_assoc (select (is_for j) p) (topic_element j message ∷ [])
              (elements j t.message_queue),
        )
        (rw at at ok.flow);
  waits = λ e. absurd (cc e);
}

-- An element of another thread changes nothing for a topic.
pub other-IsServed :
    (j : ℕ) (p : List OutgoingBufferElement) (t : TopicThread) (e : OutgoingBufferElement)
    → is_for j e.one_or_more_sockets ≡ false
    → IsServed j p t
    → IsServed j (p ++ (e ∷ [])) t
other-IsServed j p t e other ok = record {
  flow = rw (select-append (is_for j) p (e ∷ []), other, append-nil) ok.flow;
  waits = ok.waits;
}
