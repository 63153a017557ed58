-- ===== src/Broker/Wakes/Asleep.antt =====
-- The threads of PubSub/Broker that sleep at the ring of PubSub/Broker/outgoing_buffer.cpp, in one
-- step.
use ikp_projekat.Common.{
  ℕ, ◌+◌, ◌<◌, ◌≤◌, ◌≡◌, refl, ap, Bool, false, ◌&&◌, not, ◌⊎◌, inl, inr, Option, List, [], ◌∷◌,
  arith, Bool-cases,
}
use ikp_projekat.Memory.{Block}
use ikp_projekat.Broker.OutgoingBuffer.{
  max_outgoing_buffer_size, OutgoingBufferElement, OutgoingBuffer, Produced, waits, returns, stores,
  goes_on,
}
use ikp_projekat.Broker.OutgoingBuffer.Turn.{ProducesRight}
use ikp_projekat.Broker.Threads.{
  ProducerPlace, dequeuing, asleep_at_queue, producing, asleep_at_buffer, responding, State,
  TopicThread, update, wake_producer, topic_element, response_element, topic_produced,
  main_produced, consumed, dequeue_turn, take_message, is_empty,
}
use ikp_projekat.Broker.Shutdown.Measure.{sum_below, sum_below-update}
use ikp_projekat.Broker.Wakes.{
  sleeping, awake, main_awake, all_sleeping, all_awake, Wakes, wakes_topic, wakes_main, wakes_none,
}

-- Nobody sleeps at the ring, or those awake will fill it.
abbrev pub IsEnough : ℕ → State → Type 0
IsEnough n s =
    (all_sleeping n s ≡ 0) ⊎ (max_outgoing_buffer_size ≤ s.outgoing_buffer.count + all_awake n s)

pub awake_producer :
    (place : ProducerPlace)
    → (sleeping (wake_producer place) ≡ sleeping place)
      × (awake (wake_producer place) ≡ awake place)
awake_producer ProducerPlace.testing = (refl, refl)
awake_producer dequeuing = (refl, refl)
awake_producer asleep_at_queue = (refl, refl)
awake_producer (producing message) = (refl, refl)
awake_producer (asleep_at_buffer message) = (refl, refl)
awake_producer ProducerPlace.ended = (refl, refl)

pub dequeue_turn-sleeping :
    (in_loop after_loop : Bool) (t : TopicThread)
    → sleeping (dequeue_turn in_loop after_loop t).place ≡ 0
unfolding dequeue_turn
dequeue_turn-sleeping in_loop after_loop t =
    elim (Bool-cases (is_empty t.message_queue && not in_loop)) [
      | inl empty ↦ rw empty refl
      | inr filled ↦ elim (Bool-cases after_loop) [
        | inl down ↦ rw (filled, down) refl
        | inr up ↦ rw (filled, up) (taken t.message_queue)
      ]
    ]
  where
    taken : (queue : List Block) → sleeping (take_message queue t).place ≡ 0
    taken [] = refl
    taken (message ∷ rest) = refl

module _ (n : ℕ) where
  -- A topic's thread goes to a place where it does not sleep more, and is not awake less.
  pub topic_goes :
      (i : ℕ) (t : TopicThread) (s : State)
      → i < n
      → sleeping t.place ≤ sleeping (s.topics i).place
      → awake (s.topics i).place ≤ awake t.place
      → IsEnough n s
      → IsEnough n (record s { topics = update s.topics i t })
  topic_goes i t s below less more enough = elim enough [
    | inl nobody ↦ inl (omega (arith, nobody, less, sleeping_sum))
    | inr filled ↦ inr (omega (arith, filled, more, awake_sum))
  ]
    where
      sleeping_sum :
          sum_below n (λ j. sleeping (update s.topics i t j).place) + sleeping (s.topics i).place
          ≡ sum_below n (λ j. sleeping (s.topics j).place) + sleeping t.place
      sleeping_sum = sum_below-update (λ x. sleeping x.place) s.topics i n t below

      awake_sum :
          sum_below n (λ j. awake (update s.topics i t j).place) + awake (s.topics i).place
          ≡ sum_below n (λ j. awake (s.topics j).place) + awake t.place
      awake_sum = sum_below-update (λ x. awake x.place) s.topics i n t below

  pub topic_turn-IsEnough :
      (i : ℕ) (message : Option Block) (p : Produced) (s : State)
      → i < n
      → (s.topics i).place ≡ producing message
      → ProducesRight false false s.outgoing_buffer (topic_element i message) p
      → IsEnough n s
      → IsEnough n (topic_produced i message p s)
  topic_turn-IsEnough i message waits s below at right enough = inr (omega (arith, right.0))
  topic_turn-IsEnough i message returns s below at right enough = absurd (cc right)
  topic_turn-IsEnough i message (stores b) s below at right enough = elim enough [
    | inl nobody ↦ inl (
        omega (
          arith,
          nobody,
          ap sleeping at,
          sum_below-update (λ x. sleeping x.place) s.topics i n t below,
        ))
    | inr filled ↦ inr (
        omega (
          arith,
          filled,
          right.2,
          ap awake at,
          sum_below-update (λ x. awake x.place) s.topics i n t below,
        ))
  ]
    where
      t : TopicThread
      t = record (s.topics i) { place = ProducerPlace.testing }

  pub main_turn-IsEnough :
      (socket : ℕ) (response : Block) (p : Produced) (s : State)
      → s.main ≡ responding socket response
      → ProducesRight false false s.outgoing_buffer (response_element socket response) p
      → IsEnough n s
      → IsEnough n (main_produced socket response p s)
  main_turn-IsEnough socket response waits s at right enough = inr (omega (arith, right.0))
  main_turn-IsEnough socket response returns s at right enough = absurd (cc right)
  main_turn-IsEnough socket response (stores b) s at right enough = elim enough [
    | inl nobody ↦ inl (omega (arith, nobody))
    | inr filled ↦ inr (omega (arith, filled, right.2, ap main_awake at))
  ]

  -- The consumer takes an element, and wakes a thread that sleeps, if any.
  pub takes-IsEnough :
      (e : OutgoingBufferElement) (b : OutgoingBuffer) (s s' : State)
      → s.outgoing_buffer.count ≡ b.count + 1
      → Wakes n (consumed (goes_on e b) s) s'
      → IsEnough n s
      → IsEnough n s'
  takes-IsEnough e b s s' one_less (wakes_topic i message below at) enough = elim enough [
    | inl nobody ↦ inl (
        omega (
          arith,
          nobody,
          ap sleeping at,
          sum_below-update (λ x. sleeping x.place) s.topics i n
              (record (s.topics i) { place = producing message }) below,
        ))
    | inr filled ↦ inr (
        omega (
          arith,
          filled,
          one_less,
          ap awake at,
          sum_below-update (λ x. awake x.place) s.topics i n
              (record (s.topics i) { place = producing message }) below,
        ))
  ]
  takes-IsEnough e b s s' one_less (wakes_main socket response at) enough = elim enough [
    | inl nobody ↦ inl (omega (arith, nobody))
    | inr filled ↦ inr (omega (arith, filled, one_less, ap main_awake at))
  ]
  takes-IsEnough e b s s' one_less (wakes_none nobody) enough = inl nobody
