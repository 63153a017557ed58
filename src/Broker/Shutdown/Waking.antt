-- ===== src/Broker/Shutdown/Waking.antt =====
-- The wake-ups of `shut_down_threads` of PubSub/Broker/mad.cpp.
use ikp_projekat.Broker.Threads.Invariant.{not_asleep}
use ikp_projekat.Broker.Shutdown.Invariant.{Never, IsEnding}
use ikp_projekat.Common.{ℕ, suc, ◌+◌, ◌<◌, ◌≤◌, ◌≡◌, ℕ_discrete, refl, ◌∙◌, false, arith}
use ikp_projekat.Broker.Threads.{
  ProducerPlace, ConsumerPlace, getting, asleep, TopicThread, update, wake_producer, wake_consumer,
  dequeuing, asleep_at_queue, producing, asleep_at_buffer, sending, sending_last,
}
use ikp_projekat.Broker.Shutdown.{
  waking, waking_buffer, waiting, over, Ending, goes_to, wakes_queue, wakes_buffer, wake_at_buffer,
}
use ikp_projekat.Broker.Shutdown.Measure.{
  producer_rank, consumer_rank, producer_ended, consumer_ended, rank, sum_below, sum_below-update,
  sum_below_mono, sum_below_same, update-same, update-other,
}
use ikp_projekat.Broker.Shutdown.Produce.{sleeps_at_queue, sleeps_anywhere}

-- The main thread wakes a topic's thread.
awake_rank : (place : ProducerPlace) → producer_rank (wake_producer place) ≤ producer_rank place
awake_rank ProducerPlace.testing = omega arith
awake_rank dequeuing = omega arith
awake_rank asleep_at_queue = omega arith
awake_rank (producing message) = omega arith
awake_rank (asleep_at_buffer message) = omega arith
awake_rank ProducerPlace.ended = omega arith

pub awake_ended :
    (place : ProducerPlace) → producer_ended (wake_producer place) ≡ producer_ended place
awake_ended ProducerPlace.testing = refl
awake_ended dequeuing = refl
awake_ended asleep_at_queue = refl
awake_ended (producing message) = refl
awake_ended (asleep_at_buffer message) = refl
awake_ended ProducerPlace.ended = refl

awake_at_queue : (place : ProducerPlace) → sleeps_at_queue (wake_producer place) ≡ false
awake_at_queue ProducerPlace.testing = refl
awake_at_queue dequeuing = refl
awake_at_queue asleep_at_queue = refl
awake_at_queue (producing message) = refl
awake_at_queue (asleep_at_buffer message) = refl
awake_at_queue ProducerPlace.ended = refl

pub topic_woken :
    (n i : ℕ) (e : Ending)
    → e.phase ≡ waking i
    → i < n
    → IsEnding n e
    → IsEnding n (goes_to (wakes_queue i e.threads) (waking (suc i)))
      × (rank n (goes_to (wakes_queue i e.threads) (waking (suc i))) < rank n e)
topic_woken n i e at below h = (
  record {
    flag = h.flag;
    ring = h.ring;
    counted = omega (arith, h.counted, ended_same, awake_ended place);
    awake = λ j before. elim (ℕ_discrete j i) [
      | yes same ↦
          update-same (λ x. sleeps_at_queue x.place) e.threads.topics i t j same
          ∙ awake_at_queue place
      | no other ↦
          update-other (λ x. sleeps_at_queue x.place) e.threads.topics i t j other
          ∙ awake j (omega (arith, before, other))
    ];
    waited = λ late. absurd (cc late);
  },
  rw at (omega (arith, ranked, awake_rank place, below)),
)
  where
    place : ProducerPlace
    place = (e.threads.topics i).place

    t : TopicThread
    t = record (e.threads.topics i) { place = wake_producer place }

    awake : Never sleeps_at_queue i e.threads.topics
    awake = rw at at h.awake

    ended_same :
        sum_below n (λ j. producer_ended (update e.threads.topics i t j).place)
          + producer_ended place
        ≡ sum_below n (λ j. producer_ended (e.threads.topics j).place)
          + producer_ended (wake_producer place)
    ended_same = sum_below-update (λ x. producer_ended x.place) e.threads.topics i n t below

    ranked :
        sum_below n (λ j. producer_rank (update e.threads.topics i t j).place) + producer_rank place
        ≡ sum_below n (λ j. producer_rank (e.threads.topics j).place)
          + producer_rank (wake_producer place)
    ranked = sum_below-update (λ x. producer_rank x.place) e.threads.topics i n t below

woken_rank : (place : ProducerPlace) → producer_rank (wake_at_buffer place) ≤ producer_rank place
woken_rank ProducerPlace.testing = omega arith
woken_rank dequeuing = omega arith
woken_rank asleep_at_queue = omega arith
woken_rank (producing message) = omega arith
woken_rank (asleep_at_buffer message) = omega arith
woken_rank ProducerPlace.ended = omega arith

pub woken_ended :
    (place : ProducerPlace) → producer_ended (wake_at_buffer place) ≡ producer_ended place
woken_ended ProducerPlace.testing = refl
woken_ended dequeuing = refl
woken_ended asleep_at_queue = refl
woken_ended (producing message) = refl
woken_ended (asleep_at_buffer message) = refl
woken_ended ProducerPlace.ended = refl

woken_anywhere :
    (place : ProducerPlace) → sleeps_anywhere (wake_at_buffer place) ≡ sleeps_at_queue place
woken_anywhere ProducerPlace.testing = refl
woken_anywhere dequeuing = refl
woken_anywhere asleep_at_queue = refl
woken_anywhere (producing message) = refl
woken_anywhere (asleep_at_buffer message) = refl
woken_anywhere ProducerPlace.ended = refl

pub consumer_woken :
    (place : ConsumerPlace)
    → (consumer_rank (wake_consumer place) ≤ consumer_rank place)
      × (consumer_ended (wake_consumer place) ≡ consumer_ended place)
consumer_woken ConsumerPlace.testing = (omega arith, refl)
consumer_woken getting = (omega arith, refl)
consumer_woken asleep = (omega arith, refl)
consumer_woken (sending e) = (omega arith, refl)
consumer_woken (sending_last e) = (omega arith, refl)
consumer_woken ConsumerPlace.ended = (omega arith, refl)

pub buffer_woken :
    (n : ℕ) (e : Ending)
    → e.phase ≡ waking_buffer
    → IsEnding n e
    → IsEnding n (goes_to (wakes_buffer e.threads) waiting)
      × (rank n (goes_to (wakes_buffer e.threads) waiting) < rank n e)
buffer_woken n e at h =
    let (ranked, ended) = consumer_woken e.threads.consumer in
    (
      record {
        flag = h.flag;
        ring = h.ring;
        counted = omega (
          arith,
          h.counted,
          ended,
          sum_below_same n (λ j. producer_ended (wake_at_buffer (e.threads.topics j).place))
              (λ j. producer_ended (e.threads.topics j).place)
              (λ j below. woken_ended (e.threads.topics j).place),
        );
        awake = (
          λ j below. woken_anywhere (e.threads.topics j).place ∙ awake j below,
          not_asleep e.threads.consumer,
        );
        waited = λ late. absurd (cc late);
      },
      rw at (
          omega (
            arith,
            ranked,
            sum_below_mono n (λ j. producer_rank (wake_at_buffer (e.threads.topics j).place))
                (λ j. producer_rank (e.threads.topics j).place)
                (λ j. woken_rank (e.threads.topics j).place),
          )),
    )
  where
    awake : Never sleeps_at_queue n e.threads.topics
    awake = rw at at h.awake

pub topics_all_woken :
    (n i : ℕ) (e : Ending)
    → e.phase ≡ waking i
    → n ≤ i
    → IsEnding n e
    → IsEnding n (goes_to e.threads waking_buffer)
      × (rank n (goes_to e.threads waking_buffer) < rank n e)
topics_all_woken n i e at reached h = (
  record {
    flag = h.flag;
    ring = h.ring;
    counted = h.counted;
    awake = λ j below. awake j (omega (arith, below, reached));
    waited = λ late. absurd (cc late);
  },
  rw at (omega arith),
)
  where
    awake : Never sleeps_at_queue i e.threads.topics
    awake = rw at at h.awake

pub wait_over :
    (n : ℕ) (e : Ending)
    → e.phase ≡ waiting
    → n + 1 ≤ e.threads.num_of_shut_down_threads
    → IsEnding n e
    → IsEnding n (goes_to e.threads over) × (rank n (goes_to e.threads over) < rank n e)
wait_over n e at all h = (
  record {
    flag = h.flag;
    ring = h.ring;
    counted = h.counted;
    awake = rw at at h.awake;
    waited = λ late. all;
  },
  rw at (omega arith),
)
