-- ===== src/Broker/Shutdown/Measure.antt =====
-- How far the threads of PubSub/Broker are from their ends.
use ikp_projekat.Common.{
  ℕ, zero, suc, ◌+◌, ◌-◌, ◌<◌, ◌≤◌, ◌≡◌, ◌≢◌, refl, arith, ap, sym, ℕ_discrete, ==_refl, ==_of_ne,
}
use ikp_projekat.Broker.Threads.{
  ProducerPlace, dequeuing, asleep_at_queue, producing, asleep_at_buffer, ConsumerPlace, getting,
  asleep, sending, sending_last, TopicThread, State, update,
}
use ikp_projekat.Broker.Shutdown.{MainPhase, waking, waking_buffer, waiting, over, Ending}

abbrev pub sum_below : ℕ → (ℕ → ℕ) → ℕ
sum_below zero f = 0
sum_below (suc n) f = sum_below n f + f n

pub sum_below_same :
    (n : ℕ) (f g : ℕ → ℕ) → ((j : ℕ) → j < n → f j ≡ g j) → sum_below n f ≡ sum_below n g
sum_below_same zero f g same = refl
sum_below_same (suc n) f g same =
    omega (arith, sum_below_same n f g (λ j h. same j (omega arith)), same n (omega arith))

pub sum_below_none : (n : ℕ) → sum_below n (λ j. 0) ≡ 0
sum_below_none zero = refl
sum_below_none (suc n) = omega (arith, sum_below_none n)

pub sum_below_mono : (n : ℕ) (f g : ℕ → ℕ) → ((j : ℕ) → f j ≤ g j) → sum_below n f ≤ sum_below n g
sum_below_mono zero f g less = omega arith
sum_below_mono (suc n) f g less = omega (arith, sum_below_mono n f g less, less n)

module _ {ℓ} {A : Type ℓ} (measure : TopicThread → A) (topics : ℕ → TopicThread) (i : ℕ)
    (t : TopicThread) where
  pub update-same : (j : ℕ) → j ≡ i → measure (update topics i t j) ≡ measure t
  update-same j same = rw (same, ==_refl i) refl

  pub update-other : (j : ℕ) → j ≢ i → measure (update topics i t j) ≡ measure (topics j)
  update-other j other = rw (==_of_ne j i other) refl

-- One thread changes: the sum changes by what this thread counts.
pub sum_below-update :
    (measure : TopicThread → ℕ) (topics : ℕ → TopicThread) (i n : ℕ) (t : TopicThread)
    → i < n
    → sum_below n (λ j. measure (update topics i t j)) + measure (topics i)
      ≡ sum_below n (λ j. measure (topics j)) + measure t
sum_below-update measure topics i zero t below = absurd (omega arith)
sum_below-update measure topics i (suc n) t below = elim (ℕ_discrete i n) [
  | yes last ↦ omega (
    arith,
    update-same measure topics i t n (sym last),
    ap (λ k. measure (topics k)) last,
    sum_below_same n (λ j. measure (update topics i t j)) (λ j. measure (topics j))
        (λ j h. update-other measure topics i t j (λ e. omega (arith, h, e, last))),
  )
  | no other ↦
      let below' : i < n = omega (arith, below, other) in
      omega (
        arith,
        update-other measure topics i t n (λ e. other (sym e)),
        sum_below-update measure topics i n t below',
      )
]

abbrev pub producer_rank : ProducerPlace → ℕ
producer_rank ProducerPlace.testing = 1
producer_rank dequeuing = 3
producer_rank asleep_at_queue = 4
producer_rank (producing message) = 2
producer_rank (asleep_at_buffer message) = 3
producer_rank ProducerPlace.ended = 0

abbrev pub consumer_rank : ConsumerPlace → ℕ
consumer_rank ConsumerPlace.testing = 1
consumer_rank getting = 2
consumer_rank asleep = 3
consumer_rank (sending e) = 2
consumer_rank (sending_last e) = 1
consumer_rank ConsumerPlace.ended = 0

abbrev pub producer_ended : ProducerPlace → ℕ
producer_ended ProducerPlace.ended = 1
producer_ended place = 0

abbrev pub consumer_ended : ConsumerPlace → ℕ
consumer_ended ConsumerPlace.ended = 1
consumer_ended place = 0

module _ (number_of_topics : ℕ) where
  abbrev pub phase_rank : MainPhase → ℕ
  phase_rank (waking i) = (number_of_topics - i) + 3
  phase_rank waking_buffer = 2
  phase_rank waiting = 1
  phase_rank over = 0

  -- The steps that are left, at most.
  abbrev pub threads_rank : State → ℕ
  threads_rank s =
      sum_below number_of_topics (λ j. producer_rank (s.topics j).place) + consumer_rank s.consumer

  abbrev pub rank : Ending → ℕ
  rank e = threads_rank e.threads + phase_rank e.phase

  -- The threads that have ended.
  abbrev pub ended_threads : State → ℕ
  ended_threads s =
      sum_below number_of_topics (λ j. producer_ended (s.topics j).place)
      + consumer_ended s.consumer
