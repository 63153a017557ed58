-- ===== src/Broker/Wakes.antt =====
-- The wake-ups at the ring of PubSub/Broker/outgoing_buffer.cpp: a thread that sleeps in
-- `produce_new_message` is woken by the consumer, one for each element taken, or for no reason.
pub mod Asleep
pub mod Runs
use ikp_projekat.Common.{ℕ, ◌+◌, ◌<◌, ◌≡◌, Bool, true, false, Option, some, List}
use ikp_projekat.Memory.{Block}
use ikp_projekat.Broker.OutgoingBuffer.{
  OutgoingBuffer, OutgoingBufferElement, Consumed, goes_on, consume,
}
use ikp_projekat.Broker.Threads.{
  ProducerPlace, producing, asleep_at_buffer, getting, MainPlace, responding, asleep_with, State,
  consumed, place_topic,
}
use ikp_projekat.Broker.Threads.Steps.{
  Seen, Step, start, enqueues, topic_goes_on, topic_ends, dequeue_turns, topic_turn,
  topic_wakes_at_queue, topic_wakes_at_buffer, consume_turn,
}
use ikp_projekat.Broker.Shutdown.Measure.{sum_below}

-- Whether a topic's thread sleeps at the ring, or is awake in `produce_new_message`; the main thread.
abbrev pub sleeping : ProducerPlace → ℕ
sleeping (asleep_at_buffer message) = 1
sleeping place = 0

abbrev pub awake : ProducerPlace → ℕ
awake (producing message) = 1
awake place = 0

abbrev pub main_sleeping : MainPlace → ℕ
main_sleeping (asleep_with socket response) = 1
main_sleeping place = 0

abbrev pub main_awake : MainPlace → ℕ
main_awake (responding socket response) = 1
main_awake place = 0

module _ (number_of_topics : ℕ) where
  -- How many threads sleep at the ring, and how many are awake in `produce_new_message`.
  abbrev pub all_sleeping : State → ℕ
  all_sleeping s =
      sum_below number_of_topics (λ j. sleeping (s.topics j).place) + main_sleeping s.main

  abbrev pub all_awake : State → ℕ
  all_awake s = sum_below number_of_topics (λ j. awake (s.topics j).place) + main_awake s.main

  -- `WakeConditionVariable(empty_cv_ptr)`: it wakes one of the threads that sleep there, if any.
  pub data Wakes (s : State) : State → Type 0 where
    wakes_topic :
        (i : ℕ) (message : Option Block)
        → i < number_of_topics
        → (s.topics i).place ≡ asleep_at_buffer message
        → Wakes s (place_topic i (producing message) s)
    wakes_main :
        (socket : ℕ) (response : Block)
        → s.main ≡ asleep_with socket response
        → Wakes s (record s { main = responding socket response })
    wakes_none : all_sleeping s ≡ 0 → Wakes s s

  -- A step of a topic that there is, and not one that takes an element.
  abbrev pub IsPlain : {s s' : State} → Step s s' → Type 0
  IsPlain (enqueues i message idle) = i < number_of_topics
  IsPlain (topic_goes_on i at flag) = i < number_of_topics
  IsPlain (topic_ends i at flag) = i < number_of_topics
  IsPlain (dequeue_turns in_loop after_loop i at seen) = i < number_of_topics
  IsPlain (topic_turn in_loop after_loop i message at seen) = i < number_of_topics
  IsPlain (topic_wakes_at_queue i at) = i < number_of_topics
  IsPlain (topic_wakes_at_buffer i message at) = i < number_of_topics
  IsPlain (consume_turn in_loop after_loop (goes_on e b) at seen run) = ⊥
  IsPlain step = Unit {0}

  pub data WakingStep : State → State → Type 0 where
    plain : {s s' : State} (step : Step s s') → IsPlain step → WakingStep s s'
    takes :
        (in_loop after_loop : Bool) (e : OutgoingBufferElement) (b : OutgoingBuffer) {s s' : State}
        → s.consumer ≡ getting
        → Seen s.flag in_loop after_loop
        → consume in_loop after_loop s.outgoing_buffer ≡ some (goes_on e b)
        → Wakes (consumed (goes_on e b) s) s'
        → WakingStep s s'

  pub data WakingRun (garbage : List OutgoingBufferElement) : State → Type 0 where
    from_start : WakingRun garbage (start garbage)
    then_waking : {s s' : State} → WakingRun garbage s → WakingStep s s' → WakingRun garbage s'
