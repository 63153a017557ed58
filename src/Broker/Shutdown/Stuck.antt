-- ===== src/Broker/Shutdown/Stuck.antt =====
-- `shut_down_threads` of PubSub/Broker/mad.cpp where a thread was not created.
use ikp_projekat.Common.{
  ℕ, ◌<◌, ◌≡◌, ◌≢◌, refl, sym, ◌∙◌, ap, subst, true, false, List, arith, length, inl, inr, ◌⊎◌,
  ℕ_discrete,
}
use ikp_projekat.Broker.OutgoingBuffer.{OutgoingBufferElement, max_outgoing_buffer_size}
use ikp_projekat.Broker.Threads.{ProducerPlace, State, TopicThread, update}
use ikp_projekat.Broker.Threads.Steps.{Reachable}
use ikp_projekat.Broker.Shutdown.{
  over, Ending, begins, Created, EndStep, Runs, at_first, one_more, produce_step, consume_step,
  produce_wakes, consume_wakes, wakes_topic, topics_woken, stops_waiting,
}
use ikp_projekat.Broker.Shutdown.Measure.{producer_ended, consumer_ended, update-same, update-other}
use ikp_projekat.Broker.Shutdown.Produce.{produce_runs-moved}
use ikp_projekat.Broker.Shutdown.Waking.{awake_ended, woken_ended, consumer_woken}
use ikp_projekat.Broker.Shutdown.Invariant.{IsEnding}
use ikp_projekat.Broker.Shutdown.Progress.{consume_runs-nearer}
use ikp_projekat.Broker.Shutdown.Fresh.{Reachable-NoneEnded}
use ikp_projekat.Broker.Shutdown.Ends.{all_ended, Runs-IsEnding}
use ikp_projekat.Broker.Shutdown.Complete.{begins-IsEnding, early-running}
use ikp_projekat.Broker.Threads.Running.{Reachable-Holds}

abbrev pub IsAbsent : ℕ → Created → Type 0
IsAbsent number_of_topics created =
    ((i : ℕ) × (i < number_of_topics) × (created.topics i ≡ false)) ⊎ (created.consumer ≡ false)

other_topic :
    (i j : ℕ) (topics : ℕ → TopicThread) (place : ProducerPlace) (created : Created)
    → created.topics i ≡ false
    → created.topics j ≡ true
    → producer_ended (topics i).place ≡ 0
    → producer_ended (update topics j (record (topics j) { place = place }) i).place ≡ 0
other_topic i j topics place created absent here running =
    update-other (λ x. producer_ended x.place) topics j (record (topics j) { place = place }) i
      (λ same. cc (ap created.topics same, absent, here))
    ∙ running

module _ (number_of_topics : ℕ) (created : Created) where
  -- The thread of a topic that was not created never ends.
  absent_topic :
      (i : ℕ) {e e' : Ending}
      → created.topics i ≡ false
      → EndStep number_of_topics created e e'
      → IsEnding number_of_topics e
      → producer_ended (e.threads.topics i).place ≡ 0
      → producer_ended (e'.threads.topics i).place ≡ 0
  absent_topic i {e} absent (produce_step j {s' = s'} below here runs) h running =
      let (place', same, near) = produce_runs-moved j e.threads s' h.flag runs in
      subst (λ s. producer_ended (s.topics i).place ≡ 0) (sym same)
        (other_topic i j e.threads.topics place' created absent here running)
  absent_topic i {e} absent (consume_step {s' = s'} here runs) h running =
      let m = consume_runs-nearer e.threads s' e.threads.consumer refl h.flag h.ring runs in
      rw m.topics running
  absent_topic i {e} absent (produce_wakes j place below here woken) h running =
      other_topic i j e.threads.topics place created absent here running
  absent_topic i {e} absent (consume_wakes here at) h running = running
  absent_topic i {e} absent (wakes_topic j at below) h running = elim (ℕ_discrete i j) [
    | yes same ↦
        update-same (λ x. producer_ended x.place) e.threads.topics j _ i same
        ∙ awake_ended (e.threads.topics j).place
        ∙ sym (ap (λ k. producer_ended (e.threads.topics k).place) same)
        ∙ running
    | no other ↦ update-other (λ x. producer_ended x.place) e.threads.topics j _ i other ∙ running
  ]
  absent_topic i {e} absent (topics_woken j at reached) h running = running
  absent_topic i {e} absent (EndStep.wakes_at_buffer at) h running =
      woken_ended (e.threads.topics i).place ∙ running
  absent_topic i {e} absent (stops_waiting at all) h running = running

  absent_consumer :
      {e e' : Ending}
      → created.consumer ≡ false
      → EndStep number_of_topics created e e'
      → IsEnding number_of_topics e
      → consumer_ended e.threads.consumer ≡ 0
      → consumer_ended e'.threads.consumer ≡ 0
  absent_consumer {e} absent (produce_step j {s' = s'} below here runs) h running =
      let (place', same, near) = produce_runs-moved j e.threads s' h.flag runs in
      subst (λ s. consumer_ended s.consumer ≡ 0) (sym same) running
  absent_consumer {e} absent (consume_step here runs) h running = absurd (cc (absent, here))
  absent_consumer {e} absent (produce_wakes j place below here woken) h running = running
  absent_consumer {e} absent (consume_wakes here at) h running = absurd (cc (absent, here))
  absent_consumer {e} absent (wakes_topic j at below) h running = running
  absent_consumer {e} absent (topics_woken j at reached) h running = running
  absent_consumer {e} absent (EndStep.wakes_at_buffer at) h running =
      (consumer_woken e.threads.consumer).1 ∙ running
  absent_consumer {e} absent (stops_waiting at all) h running = running

  module _ {first : Ending} (h : IsEnding number_of_topics first) where
    topic_stays :
        (i : ℕ) {k : ℕ} {e : Ending}
        → created.topics i ≡ false
        → producer_ended (first.threads.topics i).place ≡ 0
        → Runs number_of_topics created first k e
        → producer_ended (e.threads.topics i).place ≡ 0
    topic_stays i absent running at_first = running
    topic_stays i absent running (one_more before step) =
        absent_topic i absent step (Runs-IsEnding number_of_topics created h before).0
          (topic_stays i absent running before)

    consumer_stays :
        {k : ℕ} {e : Ending}
        → created.consumer ≡ false
        → consumer_ended first.threads.consumer ≡ 0
        → Runs number_of_topics created first k e
        → consumer_ended e.threads.consumer ≡ 0
    consumer_stays absent running at_first = running
    consumer_stays absent running (one_more before step) =
        absent_consumer absent step (Runs-IsEnding number_of_topics created h before).0
          (consumer_stays absent running before)

-- Where the thread of a topic or the consumer was not created, `shut_down_threads` never returns,
-- from whatever state the threads have reached before it.
pub shut_down_threads-stuck :
    {garbage : List OutgoingBufferElement} {s : State} {e : Ending} {k : ℕ} (number_of_topics : ℕ)
    (created : Created)
    → length garbage ≡ max_outgoing_buffer_size
    → Reachable garbage s
    → s.flag ≡ false
    → IsAbsent number_of_topics created
    → Runs number_of_topics created (begins s) k e
    → e.phase ≢ over
shut_down_threads-stuck {s = s} {e = e} n created whole reached clear absent runs late =
    let none_ended = Reachable-NoneEnded whole reached clear in
    let first = begins-IsEnding n none_ended (Reachable-Holds whole reached clear).ring in
    let (h, fewer) = Runs-IsEnding n created first runs in
    let (topics_ended, consumer_at_end) = all_ended n created e h late in
    elim absent [
      | inl (i, below, no_thread) ↦
          let running = topic_stays n created first i no_thread (none_ended.topics i) runs in
          absurd (omega (arith, running, ap producer_ended (topics_ended i below)))
      | inr no_thread ↦
          let running =
            consumer_stays n created first no_thread (early-running s.consumer none_ended.consumer)
              runs in
          absurd (omega (arith, running, ap consumer_ended consumer_at_end))
    ]
