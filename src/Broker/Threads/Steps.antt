-- ===== src/Broker/Threads/Steps.antt =====
-- The steps of the broker's threads, from their start on: the loops of `produce` and `consume` in
-- PubSub/Broker/outgoing_buffer.cpp, and what the main thread does.
use ikp_projekat.Common.{ℕ, suc, ◌≡◌, Bool, true, false, Option, some, List, [], ◌∷◌, ◌++◌}
use ikp_projekat.Memory.{Block}
use ikp_projekat.Broker.OutgoingBuffer.{
  initialize_outgoing_buffer, OutgoingBufferElement, produce_new_message, Consumed, consume,
}
use ikp_projekat.Broker.Threads.{
  ProducerPlace, ConsumerPlace, State, update, topic_element, response_element, enqueue_step,
  dequeue_turn, topic_produced, main_produced, consumed, place_topic, dequeuing, asleep_at_queue,
  producing, asleep_at_buffer, getting, asleep, sending, sending_last, between, responding,
  asleep_with,
}

-- The flags of a turn: a shutdown that is seen is there, and is seen from then on.
abbrev pub Seen : (flag in_loop after_loop : Bool) → Type 0
Seen flag in_loop after_loop =
    (in_loop ≡ true → after_loop ≡ true) × (after_loop ≡ true → flag ≡ true)

-- One step of one of the threads.
pub data Step : State → State → Type 0 where
  -- The main thread executes a publish command.
  enqueues :
      (i : ℕ) (message : Block) {s : State} → s.main ≡ between → Step s (enqueue_step i message s)
  -- It has a response to hand over.
  responds :
      (socket : ℕ) (response : Block) {s : State}
      → s.main ≡ between
      → Step s (record s {
        main = responding socket response;
        responses = s.responses ++ (response_element socket response ∷ []);
      })
  main_turn :
      (in_loop after_loop : Bool) (socket : ℕ) (response : Block) {s : State}
      → s.main ≡ responding socket response
      → Seen s.flag in_loop after_loop
      → Step s (
          main_produced socket response
            (produce_new_message in_loop after_loop s.outgoing_buffer
              (response_element socket response))
            s)
  main_wakes :
      (socket : ℕ) (response : Block) {s : State}
      → s.main ≡ asleep_with socket response
      → Step s (record s { main = responding socket response })
  -- A topic's `produce` goes on or ends.
  topic_goes_on :
      (i : ℕ) {s : State}
      → (s.topics i).place ≡ ProducerPlace.testing
      → s.flag ≡ false
      → Step s (place_topic i dequeuing s)
  topic_ends :
      (i : ℕ) {s : State}
      → (s.topics i).place ≡ ProducerPlace.testing
      → s.flag ≡ true
      → Step s (
          place_topic i ProducerPlace.ended
            (record s { num_of_shut_down_threads = suc s.num_of_shut_down_threads }))
  dequeue_turns :
      (in_loop after_loop : Bool) (i : ℕ) {s : State}
      → (s.topics i).place ≡ dequeuing
      → Seen s.flag in_loop after_loop
      → Step s
          (record s { topics = update s.topics i (dequeue_turn in_loop after_loop (s.topics i)) })
  topic_turn :
      (in_loop after_loop : Bool) (i : ℕ) (message : Option Block) {s : State}
      → (s.topics i).place ≡ producing message
      → Seen s.flag in_loop after_loop
      → Step s (
          topic_produced i message
            (produce_new_message in_loop after_loop s.outgoing_buffer (topic_element i message))
            s)
  topic_wakes_at_queue :
      (i : ℕ) {s : State}
      → (s.topics i).place ≡ asleep_at_queue
      → Step s (place_topic i dequeuing s)
  topic_wakes_at_buffer :
      (i : ℕ) (message : Option Block) {s : State}
      → (s.topics i).place ≡ asleep_at_buffer message
      → Step s (place_topic i (producing message) s)
  -- `consume` goes on or ends.
  consumer_goes_on :
      {s : State}
      → s.consumer ≡ ConsumerPlace.testing
      → s.flag ≡ false
      → Step s (record s { consumer = getting })
  consumer_ends :
      {s : State}
      → s.consumer ≡ ConsumerPlace.testing
      → s.flag ≡ true
      → Step s (record s {
        consumer = ConsumerPlace.ended;
        num_of_shut_down_threads = suc s.num_of_shut_down_threads;
      })
  consume_turn :
      (in_loop after_loop : Bool) (c : Consumed) {s : State}
      → s.consumer ≡ getting
      → Seen s.flag in_loop after_loop
      → consume in_loop after_loop s.outgoing_buffer ≡ some c
      → Step s (consumed c s)
  consumer_wakes : {s : State} → s.consumer ≡ asleep → Step s (record s { consumer = getting })
  sends :
      (e : OutgoingBufferElement) {s : State}
      → s.consumer ≡ sending e
      → Step s (record s { consumer = ConsumerPlace.testing; sent = s.sent ++ (e ∷ []) })
  sends_last :
      (e : OutgoingBufferElement) {s : State}
      → s.consumer ≡ sending_last e
      → Step s (record s {
        consumer = ConsumerPlace.ended;
        sent = s.sent ++ (e ∷ []);
        num_of_shut_down_threads = suc s.num_of_shut_down_threads;
      })
  -- The main thread begins the shutdown.
  shuts_down : {s : State} → s.main ≡ between → Step s (record s { flag = true })

-- The threads have just been started.
unfoldable pub start : List OutgoingBufferElement → State
start garbage = record {
  topics = λ i. record { place = ProducerPlace.testing; message_queue = []; published = [] };
  main = between;
  consumer = ConsumerPlace.testing;
  outgoing_buffer = initialize_outgoing_buffer garbage;
  responses = [];
  sent = [];
  flag = false;
  num_of_shut_down_threads = 0;
}

pub data Reachable (garbage : List OutgoingBufferElement) : State → Type 0 where
  starts : Reachable garbage (start garbage)
  then_step : {s s' : State} → Reachable garbage s → Step s s' → Reachable garbage s'
