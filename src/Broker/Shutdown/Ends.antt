-- ===== src/Broker/Shutdown/Ends.antt =====
-- `shut_down_threads` of PubSub/Broker/mad.cpp comes to its end, and only when all threads have ended.
use ikp_projekat.Common.{
  ℕ, ℕ_discrete, zero, suc, ◌+◌, ◌<◌, ◌≤◌, ◌≡◌, ◌≢◌, refl, ap, dec_lt, ◌∙◌, true, arith, inl, inr,
  ◌⊎◌,
}
use ikp_projekat.Broker.Threads.{ProducerPlace, ConsumerPlace, State, asleep, TopicThread}
use ikp_projekat.Broker.Shutdown.{
  MainPhase, waking, waking_buffer, waiting, over, Ending, goes_to, Created, EndStep, Runs,
  at_first, one_more, produce_step, consume_step, wakes_topic, topics_woken, stops_waiting,
}
use ikp_projekat.Broker.Shutdown.Measure.{producer_ended, consumer_ended, rank, sum_below}
use ikp_projekat.Broker.Shutdown.Produce.{
  next_place-awake, produce_runs-flag, moved, sleeps_anywhere,
}
use ikp_projekat.Broker.Shutdown.Consume.{consume_runs-moves}
use ikp_projekat.Broker.Shutdown.Invariant.{Never, IsEnding}
use ikp_projekat.Broker.Shutdown.Progress.{EndStep-nearer}

-- The threads of all topics, and the consumer.
abbrev pub AllEnded : ℕ → State → Type 0
AllEnded n s =
    ((j : ℕ) → j < n → (s.topics j).place ≡ ProducerPlace.ended)
    × (s.consumer ≡ ConsumerPlace.ended)

abbrev pub AllCreated : ℕ → Created → Type 0
AllCreated n created = ((j : ℕ) → j < n → created.topics j ≡ true) × (created.consumer ≡ true)

producer_at_end : (place : ProducerPlace) → producer_ended place ≡ 1 → place ≡ ProducerPlace.ended
producer_at_end ProducerPlace.testing h = absurd (omega arith)
producer_at_end ProducerPlace.dequeuing h = absurd (omega arith)
producer_at_end ProducerPlace.asleep_at_queue h = absurd (omega arith)
producer_at_end (ProducerPlace.producing message) h = absurd (omega arith)
producer_at_end (ProducerPlace.asleep_at_buffer message) h = absurd (omega arith)
producer_at_end ProducerPlace.ended h = refl

producer_ended_le : (place : ProducerPlace) → producer_ended place ≤ 1
producer_ended_le ProducerPlace.testing = omega arith
producer_ended_le ProducerPlace.dequeuing = omega arith
producer_ended_le ProducerPlace.asleep_at_queue = omega arith
producer_ended_le (ProducerPlace.producing message) = omega arith
producer_ended_le (ProducerPlace.asleep_at_buffer message) = omega arith
producer_ended_le ProducerPlace.ended = omega arith

-- The consumer has ended, or it can go on where it does not sleep.
consumer_at_end :
    (place : ConsumerPlace)
    → ((place ≡ ConsumerPlace.ended) × (consumer_ended place ≡ 1))
      ⊎ ((place ≢ ConsumerPlace.ended) × (consumer_ended place ≡ 0))
consumer_at_end ConsumerPlace.testing = inr (λ e. cc e, refl)
consumer_at_end ConsumerPlace.getting = inr (λ e. cc e, refl)
consumer_at_end ConsumerPlace.asleep = inr (λ e. cc e, refl)
consumer_at_end (ConsumerPlace.sending x) = inr (λ e. cc e, refl)
consumer_at_end (ConsumerPlace.sending_last x) = inr (λ e. cc e, refl)
consumer_at_end ConsumerPlace.ended = inl (refl, refl)

-- Of the first threads, some one has not ended, or all have.
first_running :
    (n : ℕ) (topics : ℕ → TopicThread)
    → ((j : ℕ) → j < n → (topics j).place ≡ ProducerPlace.ended)
      ⊎ ((j : ℕ) × (j < n) × (producer_ended (topics j).place ≢ 1))
first_running zero topics = inl (λ j below. absurd (omega (arith, below)))
first_running (suc n) topics = elim (ℕ_discrete (producer_ended (topics n).place) 1) [
  | no running ↦ inr (n, omega arith, running)
  | yes ended ↦ elim (first_running n topics) [
    | inr (j, below, running) ↦ inr (j, omega (arith, below), running)
    | inl all ↦ inl λ j below.
        elim (ℕ_discrete j n) as (λ d. (topics j).place ≡ ProducerPlace.ended) [
          | yes last ↦ rw last (producer_at_end (topics n).place ended)
          | no other ↦ all j (omega (arith, below, other))
        ]
  ]
]

sum_ended_le :
    (n : ℕ) (topics : ℕ → TopicThread) → sum_below n (λ j. producer_ended (topics j).place) ≤ n
sum_ended_le zero topics = omega arith
sum_ended_le (suc n) topics =
    omega (arith, sum_ended_le n topics, producer_ended_le (topics n).place)

-- Where as many threads have ended as there are, each of them has.
sum_ended_full :
    (n : ℕ) (topics : ℕ → TopicThread)
    → n ≤ sum_below n (λ j. producer_ended (topics j).place)
    → (j : ℕ) → j < n
    → producer_ended (topics j).place ≡ 1
sum_ended_full zero topics full j below = absurd (omega arith)
sum_ended_full (suc n) topics full j below = elim (ℕ_discrete j n) [
  | yes last ↦
      rw last (omega (arith, full, sum_ended_le n topics, producer_ended_le (topics n).place))
  | no other ↦
      sum_ended_full n topics (omega (arith, full, producer_ended_le (topics n).place)) j
        (omega (arith, below, other))
]

sum_ended_all :
    (n : ℕ) (topics : ℕ → TopicThread)
    → ((j : ℕ) → j < n → (topics j).place ≡ ProducerPlace.ended)
    → sum_below n (λ j. producer_ended (topics j).place) ≡ n
sum_ended_all zero topics all = refl
sum_ended_all (suc n) topics all = omega (
  arith,
  sum_ended_all n topics (λ j below. all j (omega (arith, below))),
  ap producer_ended (all n (omega arith)),
)

module _ (number_of_topics : ℕ) (created : Created) where
  -- Who is still running goes on, or the main thread stops waiting.
  waiting_goes_on :
      (e : Ending)
      → e.phase ≡ waiting
      → IsEnding number_of_topics e
      → AllCreated number_of_topics created
      → (e' : Ending) × EndStep number_of_topics created e e'
  waiting_goes_on e at h (all_topics, consumer_created) =
      elim (first_running number_of_topics e.threads.topics) [
        | inr (j, below, running) ↦
            elim (next_place-awake (e.threads.topics j).place (awake.0 j below)) [
              | inl ended ↦ absurd (running ended)
              | inr (place', next) ↦ (
                goes_to (moved j place' e.threads) e.phase,
                produce_step j below (all_topics j below) (
                    produce_runs-flag j e.threads (e.threads.topics j).place refl h.flag
                    ∙ rw next refl),
              )
            ]
        | inl all ↦ elim (consumer_at_end e.threads.consumer) [
          | inr (running, zero_ended) ↦
              let (s', goes, m) =
                consume_runs-moves e.threads e.threads.consumer refl awake.1 running h.flag
                  h.ring in
              (goes_to s' e.phase, consume_step consumer_created goes)
          | inl (ended, one_ended) ↦ (
            goes_to e.threads over,
            stops_waiting at (
                omega (
                  arith,
                  h.counted,
                  one_ended,
                  sum_ended_all number_of_topics e.threads.topics all,
                )),
          )
        ]
      ]
    where
      awake :
          Never sleeps_anywhere number_of_topics e.threads.topics × (e.threads.consumer ≢ asleep)
      awake = rw at at h.awake

  pub goes_on :
      (e : Ending) (phase : MainPhase)
      → e.phase ≡ phase
      → IsEnding number_of_topics e
      → AllCreated number_of_topics created
      → (e.phase ≡ over) ⊎ ((e' : Ending) × EndStep number_of_topics created e e')
  goes_on e (waking i) at h all = elim (dec_lt i number_of_topics) [
    | yes below ↦ inr (_, wakes_topic i at below)
    | no reached ↦ inr (_, topics_woken i at (omega (arith, reached)))
  ]
  goes_on e waking_buffer at h all = inr (_, EndStep.wakes_at_buffer at)
  goes_on e waiting at h all = inr (waiting_goes_on e at h all)
  goes_on e over at h all = inl at

  pub all_ended :
      (e : Ending)
      → IsEnding number_of_topics e
      → e.phase ≡ over
      → AllEnded number_of_topics e.threads
  all_ended e h at = elim (consumer_at_end e.threads.consumer) [
    | inr (running, zero_ended) ↦ absurd (
        omega (
          arith,
          h.waited at,
          h.counted,
          zero_ended,
          sum_ended_le number_of_topics e.threads.topics,
        ))
    | inl (ended, one_ended) ↦ (
      λ j below. producer_at_end (e.threads.topics j).place (
          sum_ended_full number_of_topics e.threads.topics
            (omega (arith, h.waited at, h.counted, one_ended)) j below),
      ended,
    )
  ]

  -- In a run the steps made and those left are not more than those left at first.
  pub Runs-IsEnding :
      {first e : Ending} {k : ℕ}
      → IsEnding number_of_topics first
      → Runs number_of_topics created first k e
      → IsEnding number_of_topics e × (k + rank number_of_topics e ≤ rank number_of_topics first)
  Runs-IsEnding h at_first = (h, omega arith)
  Runs-IsEnding h (one_more before step) =
      let (h', fewer) = Runs-IsEnding h before in
      let (h'', nearer) = EndStep-nearer number_of_topics created h' step in
      (h'', omega (arith, fewer, nearer))
