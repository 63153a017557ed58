-- ===== src/Broker/Shutdown/Complete.antt =====
-- The shutdown of PubSub/Broker/mad.cpp from any state that the threads have reached.
use ikp_projekat.Common.{ℕ, zero, suc, ◌+◌, ◌*◌, ◌≤◌, ◌≡◌, refl, false, List, arith, length, ◌⊎◌}
use ikp_projekat.Broker.OutgoingBuffer.{OutgoingBufferElement, max_outgoing_buffer_size}
use ikp_projekat.Broker.OutgoingBuffer.Window.{IsValid}
use ikp_projekat.Broker.Threads.{
  ProducerPlace, dequeuing, asleep_at_queue, producing, asleep_at_buffer, ConsumerPlace, getting,
  asleep, sending, sending_last, State,
}
use ikp_projekat.Broker.Threads.Running.{Reachable-Holds}
use ikp_projekat.Broker.Threads.Steps.{Reachable}
use ikp_projekat.Broker.Shutdown.{over, Ending, begins, Created, EndStep, Runs}
use ikp_projekat.Broker.Shutdown.Measure.{
  producer_rank, consumer_rank, producer_ended, consumer_ended, rank, sum_below, sum_below_mono,
  sum_below_same, sum_below_none,
}
use ikp_projekat.Broker.Shutdown.Invariant.{IsEnding}
use ikp_projekat.Broker.Shutdown.Fresh.{is_late, NoneEnded, Reachable-NoneEnded}
use ikp_projekat.Broker.Shutdown.Ends.{AllEnded, AllCreated, goes_on, all_ended, Runs-IsEnding}

pub early-running : (place : ConsumerPlace) → is_late place ≡ false → consumer_ended place ≡ 0
early-running ConsumerPlace.testing h = refl
early-running getting h = refl
early-running asleep h = refl
early-running (sending e) h = refl
early-running (sending_last e) h = refl
early-running ConsumerPlace.ended h = absurd (cc h)

sum_below_four : (n : ℕ) → sum_below n (λ j. 4) ≡ 4 * n
sum_below_four zero = refl
sum_below_four (suc n) = omega (arith, sum_below_four n)

producer_rank_le : (place : ProducerPlace) → producer_rank place ≤ 4
producer_rank_le ProducerPlace.testing = omega arith
producer_rank_le dequeuing = omega arith
producer_rank_le asleep_at_queue = omega arith
producer_rank_le (producing message) = omega arith
producer_rank_le (asleep_at_buffer message) = omega arith
producer_rank_le ProducerPlace.ended = omega arith

consumer_rank_le : (place : ConsumerPlace) → consumer_rank place ≤ 3
consumer_rank_le ConsumerPlace.testing = omega arith
consumer_rank_le getting = omega arith
consumer_rank_le asleep = omega arith
consumer_rank_le (sending e) = omega arith
consumer_rank_le (sending_last e) = omega arith
consumer_rank_le ConsumerPlace.ended = omega arith

pub begins-IsEnding :
    (n : ℕ) {s : State} → NoneEnded s → IsValid s.outgoing_buffer → IsEnding n (begins s)
begins-IsEnding n {s} none_ended ring = record {
  flag = refl;
  ring = (ring.whole, ring.use_in);
  counted = omega (
    arith,
    none_ended.num,
    early-running s.consumer none_ended.consumer,
    sum_below_same n (λ j. producer_ended (s.topics j).place) (λ j. 0)
        (λ j below. none_ended.topics j),
    sum_below_none n,
  );
  awake = λ j below. absurd (omega (arith, below));
  waited = λ late. absurd (cc late);
}

begins-rank : (n : ℕ) (s : State) → rank n (begins s) ≤ 5 * n + 6
begins-rank n s = omega (
  arith,
  consumer_rank_le s.consumer,
  sum_below_mono n (λ j. producer_rank (s.topics j).place) (λ j. 4)
      (λ j. producer_rank_le (s.topics j).place),
  sum_below_four n,
)

-- From every state that the threads reach before a shutdown, where the threads of all topics and the
-- consumer were created: in whatever order the threads run behind the setting of the flag, they make
-- at most 5 steps for each topic and 6 more; until `shut_down_threads` returns, there always is a
-- thread that can make a step; and when it returns, the threads of all topics and the consumer have
-- ended.
pub shut_down_threads-ends :
    {garbage : List OutgoingBufferElement} {s : State} {e : Ending} {k : ℕ} (number_of_topics : ℕ)
    (created : Created)
    → length garbage ≡ max_outgoing_buffer_size
    → Reachable garbage s
    → s.flag ≡ false
    → AllCreated number_of_topics created
    → Runs number_of_topics created (begins s) k e
    → (k ≤ 5 * number_of_topics + 6)
      × ((e.phase ≡ over) ⊎ ((e' : Ending) × EndStep number_of_topics created e e'))
      × (e.phase ≡ over → AllEnded number_of_topics e.threads)
shut_down_threads-ends {s = s} {e = e} {k = k} n created whole reached clear all runs =
    let first =
      begins-IsEnding n (Reachable-NoneEnded whole reached clear)
        (Reachable-Holds whole reached clear).ring in
    let (h, fewer) = Runs-IsEnding n created first runs in
    (
      omega (arith, fewer, begins-rank n s),
      goes_on n created e e.phase refl h all,
      all_ended n created e h,
    )
