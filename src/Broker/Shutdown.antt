-- ===== src/Broker/Shutdown.antt =====
-- `shut_down_threads` of PubSub/Broker/mad.cpp, and what the other threads do from then on. A turn
-- of a thread sees the flag as it is; a thread that was not created does nothing.
pub mod Measure
pub mod Produce
pub mod Consume
pub mod Invariant
pub mod Waking
pub mod Progress
pub mod Ends
pub mod Fresh
pub mod Complete
pub mod Stuck
use ikp_projekat.Common.{
  ℕ, suc, ◌+◌, ◌<◌, ◌≤◌, ◌≡◌, Bool, true, false, Option, none, some, List, [], ◌∷◌, ◌++◌,
  if◌then◌else◌, ◌>>=◌,
}
use ikp_projekat.Memory.{Block}
use ikp_projekat.Broker.OutgoingBuffer.{produce_new_message, consume}
use ikp_projekat.Broker.Threads.{
  ProducerPlace, dequeuing, asleep_at_queue, producing, asleep_at_buffer, ConsumerPlace, getting,
  asleep, sending, sending_last, State, update, wake_producer, wake_consumer, topic_element,
  dequeue_turn, topic_produced, consumed, place_topic,
}

-- One more step of a topic's `produce`: `none` where it sleeps or has ended.
unfoldable pub produce_runs : ℕ → State → Option State
produce_runs i s = elim (s.topics i).place [
  | ProducerPlace.testing ↦
      if s.flag
      then some (
          place_topic i ProducerPlace.ended
            (record s { num_of_shut_down_threads = suc s.num_of_shut_down_threads }))
      else some (place_topic i dequeuing s)
  | dequeuing ↦
      some (record s { topics = update s.topics i (dequeue_turn s.flag s.flag (s.topics i)) })
  | asleep_at_queue ↦ none
  | producing message ↦ some (
      topic_produced i message
        (produce_new_message s.flag s.flag s.outgoing_buffer (topic_element i message)) s)
  | asleep_at_buffer message ↦ none
  | ProducerPlace.ended ↦ none
]

-- One more step of `consume`.
unfoldable pub consume_runs : State → Option State
consume_runs s = elim s.consumer [
  | ConsumerPlace.testing ↦
      if s.flag
      then some (record s {
        consumer = ConsumerPlace.ended;
        num_of_shut_down_threads = suc s.num_of_shut_down_threads;
      })
      else some (record s { consumer = getting })
  | getting ↦ (do c ← consume s.flag s.flag s.outgoing_buffer; some (consumed c s))
  | asleep ↦ none
  | sending e ↦ some (record s { consumer = ConsumerPlace.testing; sent = s.sent ++ (e ∷ []) })
  | sending_last e ↦ some (record s {
    consumer = ConsumerPlace.ended;
    sent = s.sent ++ (e ∷ []);
    num_of_shut_down_threads = suc s.num_of_shut_down_threads;
  })
  | ConsumerPlace.ended ↦ none
]

-- `WakeAllConditionVariable(empty_cv_ptr)`, for one of the producers.
abbrev pub wake_at_buffer : ProducerPlace → ProducerPlace
wake_at_buffer (asleep_at_buffer message) = producing message
wake_at_buffer place = place

-- A thread that sleeps wakes.
pub data IsWoken : ProducerPlace → ProducerPlace → Type 0 where
  at_queue : IsWoken asleep_at_queue dequeuing
  at_buffer : (message : Option Block) → IsWoken (asleep_at_buffer message) (producing message)

-- Where the main thread is behind the setting of the flag: about to wake the thread of a topic,
-- about to wake those that sleep at the ring, in the loop that waits, or behind it.
pub data MainPhase : Type 0 where
  waking : ℕ → MainPhase
  waking_buffer waiting over : MainPhase

pub record Ending : Type 0 where
  pub threads : State
  pub phase : MainPhase

-- The main thread has set the flag.
abbrev pub begins : State → Ending
begins s = record { threads = record s { flag = true }; phase = waking 0 }

-- `WakeConditionVariable` on the condition variable of a topic's queue, by the loop over the topics.
abbrev pub wakes_queue : ℕ → State → State
wakes_queue i s = place_topic i (wake_producer (s.topics i).place) s

abbrev pub wakes_buffer : State → State
wakes_buffer s = record s {
  topics = λ j. record (s.topics j) { place = wake_at_buffer (s.topics j).place };
  consumer = wake_consumer s.consumer;
}

abbrev pub goes_to : State → MainPhase → Ending
goes_to s phase = record { threads = s; phase = phase }

-- The threads that were created: of each topic, and the consumer.
pub record Created : Type 0 where
  pub topics : ℕ → Bool
  pub consumer : Bool

module _ (number_of_topics : ℕ) (created : Created) where
  -- A step of one thread; a thread that sleeps may also wake for no reason.
  pub data EndStep : Ending → Ending → Type 0 where
    produce_step :
        (i : ℕ) {e : Ending} {s' : State}
        → i < number_of_topics
        → created.topics i ≡ true
        → produce_runs i e.threads ≡ some s'
        → EndStep e (goes_to s' e.phase)
    consume_step :
        {e : Ending} {s' : State}
        → created.consumer ≡ true
        → consume_runs e.threads ≡ some s'
        → EndStep e (goes_to s' e.phase)
    produce_wakes :
        (i : ℕ) (place : ProducerPlace) {e : Ending}
        → i < number_of_topics
        → created.topics i ≡ true
        → IsWoken (e.threads.topics i).place place
        → EndStep e (goes_to (place_topic i place e.threads) e.phase)
    consume_wakes :
        {e : Ending}
        → created.consumer ≡ true
        → e.threads.consumer ≡ asleep
        → EndStep e (goes_to (record e.threads { consumer = getting }) e.phase)
    wakes_topic :
        (i : ℕ) {e : Ending}
        → e.phase ≡ waking i
        → i < number_of_topics
        → EndStep e (goes_to (wakes_queue i e.threads) (waking (suc i)))
    topics_woken :
        (i : ℕ) {e : Ending}
        → e.phase ≡ waking i
        → number_of_topics ≤ i
        → EndStep e (goes_to e.threads waking_buffer)
    wakes_at_buffer :
        {e : Ending}
        → e.phase ≡ waking_buffer
        → EndStep e (goes_to (wakes_buffer e.threads) waiting)
    stops_waiting :
        {e : Ending}
        → e.phase ≡ waiting
        → number_of_topics + 1 ≤ e.threads.num_of_shut_down_threads
        → EndStep e (goes_to e.threads over)

  -- A run of some steps.
  pub data Runs (first : Ending) : ℕ → Ending → Type 0 where
    at_first : Runs first 0 first
    one_more : {k : ℕ} {e e' : Ending} → Runs first k e → EndStep e e' → Runs first (suc k) e'
