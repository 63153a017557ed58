-- ===== src/Broker/Shutdown/Progress.antt =====
-- During `shut_down_threads` of PubSub/Broker/mad.cpp every step is a step towards the end.
use ikp_projekat.Broker.Shutdown.Waking.{topic_woken, topics_all_woken, buffer_woken, wait_over}
use ikp_projekat.Broker.Shutdown.Invariant.{IsEnding, IsAwake-moved, IsAwake-consumer}
use ikp_projekat.Common.{ℕ, ◌+◌, ◌<◌, ◌≡◌, ◌≢◌, refl, sym, subst, ◌∙◌, true, some, arith}
use mathlib.Core.Option.{some-injective}
use ikp_projekat.Broker.Threads.{
  ProducerPlace, ConsumerPlace, getting, asleep, State, TopicThread, update, place_topic, sending,
  sending_last,
}
use ikp_projekat.Broker.Shutdown.{
  Ending, goes_to, Created, EndStep, IsWoken, consume_runs, produce_step, consume_step,
  produce_wakes, consume_wakes, wakes_topic, topics_woken, stops_waiting,
}
use ikp_projekat.Broker.Shutdown.Measure.{
  producer_rank, producer_ended, rank, sum_below, sum_below-update,
}
use ikp_projekat.Broker.Shutdown.Produce.{IsNearer, counted-ended, moved, produce_runs-moved}
use ikp_projekat.Broker.Shutdown.Consume.{IsReadable, ConsumerMoves, consume_runs-moves}

-- A topic's thread goes nearer to its end.
producer_nearer :
    (n i : ℕ) (place : ProducerPlace) (e : Ending)
    → i < n
    → IsEnding n e
    → IsNearer (e.threads.topics i).place place
    → IsEnding n (goes_to (moved i place e.threads) e.phase)
      × (rank n (goes_to (moved i place e.threads) e.phase) < rank n e)
producer_nearer n i place e below h (nearer, running, up) = (
  record {
    flag = h.flag;
    ring = h.ring;
    counted = omega (arith, counted_more, h.counted, ended_more, running);
    awake = IsAwake-moved n i place e.phase e.threads up h.awake;
    waited = λ at. omega (arith, counted_more, h.waited at);
  },
  omega (arith, ranked, nearer),
)
  where
    t : TopicThread
    t = record (e.threads.topics i) { place = place }

    counted_more :
        (moved i place e.threads).num_of_shut_down_threads
        ≡ e.threads.num_of_shut_down_threads + producer_ended place
    counted_more = counted-ended place e.threads.num_of_shut_down_threads

    ended_more :
        sum_below n (λ j. producer_ended (update e.threads.topics i t j).place)
          + producer_ended (e.threads.topics i).place
        ≡ sum_below n (λ j. producer_ended (e.threads.topics j).place) + producer_ended place
    ended_more = sum_below-update (λ x. producer_ended x.place) e.threads.topics i n t below

    ranked :
        sum_below n (λ j. producer_rank (update e.threads.topics i t j).place)
          + producer_rank (e.threads.topics i).place
        ≡ sum_below n (λ j. producer_rank (e.threads.topics j).place) + producer_rank place
    ranked = sum_below-update (λ x. producer_rank x.place) e.threads.topics i n t below

-- The consumer goes nearer to its end.
consumer_nearer :
    (n : ℕ) (s' : State) (e : Ending)
    → IsEnding n e
    → ConsumerMoves e.threads s'
    → IsEnding n (goes_to s' e.phase) × (rank n (goes_to s' e.phase) < rank n e)
consumer_nearer n s' e h m = (
  record {
    flag = m.flag ∙ h.flag;
    ring = m.ring;
    counted = rw m.topics (omega (arith, h.counted, m.counted, m.running));
    awake = IsAwake-consumer n e.phase e.threads s' m.topics m.awake h.awake;
    waited = λ at. omega (arith, m.counted, h.waited at);
  },
  rw m.topics (omega (arith, m.nearer)),
)

pub consume_runs-nearer :
    (s s' : State) (place : ConsumerPlace)
    → s.consumer ≡ place
    → s.flag ≡ true
    → IsReadable s.outgoing_buffer
    → consume_runs s ≡ some s'
    → ConsumerMoves s s'
unfolding consume_runs
consume_runs-nearer s s' place at set ring runs =
    elim place as (λ p. s.consumer ≡ p → ConsumerMoves s s') [
      | ConsumerPlace.testing ↦ λ at'. moves at' (λ e. cc e) (λ e. cc e)
      | getting ↦ λ at'. moves at' (λ e. cc e) (λ e. cc e)
      | asleep ↦ λ at'. absurd (cc (rw (consume_runs, at') at runs))
      | sending e ↦ λ at'. moves at' (λ e. cc e) (λ e. cc e)
      | sending_last e ↦ λ at'. moves at' (λ e. cc e) (λ e. cc e)
      | ConsumerPlace.ended ↦ λ at'. absurd (cc (rw (consume_runs, at') at runs))
    ]
      at
  where
    moves :
        {p : ConsumerPlace}
        → s.consumer ≡ p
        → p ≢ asleep
        → p ≢ ConsumerPlace.ended
        → ConsumerMoves s s'
    moves {p} at' up going =
        let (next, goes, m) = consume_runs-moves s p at' up going set ring in
        subst (ConsumerMoves s) (some-injective next s' (sym goes ∙ runs)) m

-- A sleeping thread's wake-up is a step towards its end.
woken-IsNearer : {place place' : ProducerPlace} → IsWoken place place' → IsNearer place place'
woken-IsNearer IsWoken.at_queue = (omega arith, refl, refl)
woken-IsNearer (IsWoken.at_buffer message) = (omega arith, refl, refl)

moved-woken :
    (i : ℕ) (s : State) {place place' : ProducerPlace}
    → IsWoken place place'
    → moved i place' s ≡ place_topic i place' s
moved-woken i s IsWoken.at_queue = refl
moved-woken i s (IsWoken.at_buffer message) = refl

-- One of the steps that are left.
abbrev Nearer : ℕ → Ending → Ending → Type 0
Nearer n e e' = IsEnding n e' × (rank n e' < rank n e)

module _ (number_of_topics : ℕ) (created : Created) where
  -- Every step keeps the invariant and is one of those that are left.
  pub EndStep-nearer :
      {e e' : Ending}
      → IsEnding number_of_topics e
      → EndStep number_of_topics created e e'
      → IsEnding number_of_topics e' × (rank number_of_topics e' < rank number_of_topics e)
  EndStep-nearer {e} h (produce_step i {s' = s'} below is_created runs) =
      let (place', same, near) = produce_runs-moved i e.threads s' h.flag runs in
      subst (λ s. Nearer number_of_topics e (goes_to s e.phase)) (sym same)
        (producer_nearer number_of_topics i place' e below h near)
  EndStep-nearer {e} h (consume_step {s' = s'} is_created runs) =
      consumer_nearer number_of_topics s' e h
        (consume_runs-nearer e.threads s' e.threads.consumer refl h.flag h.ring runs)
  EndStep-nearer {e} h (produce_wakes i place below is_created woken) =
      subst (λ s. Nearer number_of_topics e (goes_to s e.phase)) (moved-woken i e.threads woken)
        (producer_nearer number_of_topics i place e below h (woken-IsNearer woken))
  EndStep-nearer {e} h (consume_wakes is_created at) =
      consumer_nearer number_of_topics (record e.threads { consumer = getting }) e h
        (record {
          topics = refl;
          flag = refl;
          ring = h.ring;
          nearer = rw at (omega arith);
          running = rw at refl;
          awake = λ l. cc l;
          counted = omega arith;
        })
  EndStep-nearer {e} h (wakes_topic i at below) = topic_woken number_of_topics i e at below h
  EndStep-nearer {e} h (topics_woken i at reached) =
      topics_all_woken number_of_topics i e at reached h
  EndStep-nearer {e} h (EndStep.wakes_at_buffer at) = buffer_woken number_of_topics e at h
  EndStep-nearer {e} h (stops_waiting at all) = wait_over number_of_topics e at all h
