-- ===== src/Broker/Threads.antt =====
-- The broker's threads while they run: `produce` and `consume` of PubSub/Broker/outgoing_buffer.cpp,
-- the main thread's calls of `enqueue` and `produce_new_message`, and the flag of
-- PubSub/Broker/global.cpp. A critical section is one step; a condition variable may also wake a
-- thread for no reason.
pub mod Steps
pub mod Select
pub mod Flow
pub mod Invariant
pub mod Running
pub mod InOrder
use ikp_projekat.Common.{
  ℕ, suc, ◌+◌, ◌≡◌, Bool, true, false, ◌&&◌, not, Option, none, some, List, [], ◌∷◌, ◌++◌, ◌==◌,
  if◌then◌else◌,
}
use ikp_projekat.Memory.{Block}
use ikp_projekat.Broker.OutgoingBuffer.{
  initialize_outgoing_buffer, OneOrMoreSockets, more, one, OutgoingBufferElement, OutgoingBuffer,
  Produced, waits, returns, stores, produce_new_message, Consumed, sleeps, ends, goes_on, consume,
}

-- Where a topic's `produce` is: at its loop's test, in `dequeue` awake or asleep, in
-- `produce_new_message` awake or asleep with a message, or at its end.
pub data ProducerPlace : Type 0 where
  testing : ProducerPlace
  dequeuing : ProducerPlace
  asleep_at_queue : ProducerPlace
  producing : Option Block → ProducerPlace
  asleep_at_buffer : Option Block → ProducerPlace
  ended : ProducerPlace

-- A topic's thread, its message queue, and what has been published on the topic so far.
pub record TopicThread : Type 0 where
  pub place : ProducerPlace
  pub message_queue : List Block
  pub published : List Block

-- Where `consume` is: at its loop's test, in its critical section awake or asleep, sending an
-- element, sending the last one because of a shutdown, or at its end.
pub data ConsumerPlace : Type 0 where
  testing : ConsumerPlace
  getting : ConsumerPlace
  asleep : ConsumerPlace
  sending : OutgoingBufferElement → ConsumerPlace
  sending_last : OutgoingBufferElement → ConsumerPlace
  ended : ConsumerPlace

-- Where the main thread is: between commands, or in `produce_new_message` with a response to a
-- socket, awake or asleep.
pub data MainPlace : Type 0 where
  between : MainPlace
  responding : ℕ → Block → MainPlace
  asleep_with : ℕ → Block → MainPlace

-- `topics` by index. `responses` are the elements made of responses so far, `sent` those sent.
pub record State : Type 0 where
  pub topics : ℕ → TopicThread
  pub main : MainPlace
  pub consumer : ConsumerPlace
  pub outgoing_buffer : OutgoingBuffer
  pub responses : List OutgoingBufferElement
  pub sent : List OutgoingBufferElement
  pub flag : Bool
  pub num_of_shut_down_threads : ℕ

abbrev pub update : (ℕ → TopicThread) → ℕ → TopicThread → ℕ → TopicThread
update topics i t j = if j == i then t else topics j

-- `WakeConditionVariable` on a queue's variable, and on `fill_cv_ptr`.
abbrev pub wake_producer : ProducerPlace → ProducerPlace
wake_producer asleep_at_queue = dequeuing
wake_producer place = place

abbrev pub wake_consumer : ConsumerPlace → ConsumerPlace
wake_consumer asleep = getting
wake_consumer place = place

-- The elements that `produce` and `execute_command_and_produce` make.
abbrev pub topic_element : ℕ → Option Block → OutgoingBufferElement
topic_element i message = record { message = message; one_or_more_sockets = more i }

abbrev pub response_element : ℕ → Block → OutgoingBufferElement
response_element socket response = record {
  message = some response;
  one_or_more_sockets = one socket;
}

-- `enqueue`
abbrev pub enqueue_step : ℕ → Block → State → State
enqueue_step i message s =
    let t = s.topics i in
    record s {
      topics = update s.topics i (record {
        place = wake_producer t.place;
        message_queue = t.message_queue ++ (message ∷ []);
        published = t.published ++ (message ∷ []);
      });
    }

abbrev pub is_empty : List Block → Bool
is_empty [] = true
is_empty (message ∷ rest) = false

-- `dequeue_unsafe`
abbrev pub take_message : List Block → TopicThread → TopicThread
take_message [] t = record t { place = producing none }
take_message (message ∷ rest) t = record t {
  place = producing (some message);
  message_queue = rest;
}

-- A turn of `dequeue`; the flags are what the calls of `is_shutting_down` return.
unfoldable pub dequeue_turn : (in_loop after_loop : Bool) → TopicThread → TopicThread
dequeue_turn in_loop after_loop t =
    if is_empty t.message_queue && not in_loop
    then record t { place = asleep_at_queue }
    else if after_loop
    then record t { place = producing none }
    else take_message t.message_queue t

-- `put` and the wake-up of the consumer.
abbrev pub stored : OutgoingBuffer → State → State
stored b s = record s { outgoing_buffer = b; consumer = wake_consumer s.consumer }

-- What follows a topic's turn of `produce_new_message`.
abbrev pub topic_produced : ℕ → Option Block → Produced → State → State
topic_produced i message waits s = record s {
  topics = update s.topics i (record (s.topics i) { place = asleep_at_buffer message });
}
topic_produced i message returns s = record s {
  topics = update s.topics i (record (s.topics i) { place = testing });
}
topic_produced i message (stores b) s =
    stored b (record s { topics = update s.topics i (record (s.topics i) { place = testing }) })

abbrev pub main_produced : ℕ → Block → Produced → State → State
main_produced socket response waits s = record s { main = asleep_with socket response }
main_produced socket response returns s = record s { main = between }
main_produced socket response (stores b) s = stored b (record s { main = between })

abbrev pub consumed : Consumed → State → State
consumed sleeps s = record s { consumer = asleep }
consumed (ends e b) s = record s { outgoing_buffer = b; consumer = sending_last e }
consumed (goes_on e b) s = record s { outgoing_buffer = b; consumer = sending e }

abbrev pub place_topic : ℕ → ProducerPlace → State → State
place_topic i place s = record s {
  topics = update s.topics i (record (s.topics i) { place = place });
}
