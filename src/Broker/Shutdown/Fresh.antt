-- ===== src/Broker/Shutdown/Fresh.antt =====
-- Before `shut_down_threads` of PubSub/Broker/mad.cpp has set the flag, no thread has ended.
use ikp_projekat.Common.{
  ℕ, ℕ_discrete, ◌≡◌, refl, subst, ◌∙◌, Bool, true, false, ◌&&◌, not, Option, some, List, [], ◌∷◌,
  length, Bool-cases, inl, inr,
}
use ikp_projekat.Memory.{Block}
use ikp_projekat.Broker.OutgoingBuffer.{
  OutgoingBufferElement, Produced, waits, returns, stores, Consumed, sleeps, ends, goes_on, consume,
  max_outgoing_buffer_size,
}
use ikp_projekat.Broker.Threads.{
  ProducerPlace, dequeuing, asleep_at_queue, producing, asleep_at_buffer, ConsumerPlace, getting,
  asleep, sending, sending_last, State, TopicThread, update, wake_producer, wake_consumer,
  topic_produced, main_produced, consumed, dequeue_turn, take_message, is_empty,
}
use ikp_projekat.Broker.Threads.Steps.{
  Step, start, Reachable, starts, then_step, enqueues, responds, main_turn, main_wakes,
  topic_goes_on, topic_ends, dequeue_turns, topic_turn, topic_wakes_at_queue, topic_wakes_at_buffer,
  consumer_goes_on, consumer_ends, consume_turn, consumer_wakes, sends, sends_last, shuts_down,
}
use ikp_projekat.Broker.OutgoingBuffer.Window.{IsValid}
use ikp_projekat.Broker.OutgoingBuffer.Turn.{ConsumesRight, consume-ConsumesRight}
use ikp_projekat.Broker.Threads.Invariant.{unseen}
use ikp_projekat.Broker.Threads.Running.{clear_before, Reachable-Holds}
use ikp_projekat.Broker.Shutdown.Measure.{producer_ended, update-same, update-other}

-- The consumer is past its loop.
abbrev pub is_late : ConsumerPlace → Bool
is_late (sending_last e) = true
is_late ConsumerPlace.ended = true
is_late place = false

pub record NoneEnded (s : State) : Type 0 where
  pub topics : (j : ℕ) → producer_ended (s.topics j).place ≡ 0
  pub consumer : is_late s.consumer ≡ false
  pub num : s.num_of_shut_down_threads ≡ 0

update-NoneEnded :
    (topics : ℕ → TopicThread) (i : ℕ) (t : TopicThread)
    → ((j : ℕ) → producer_ended (topics j).place ≡ 0)
    → producer_ended t.place ≡ 0
    → (j : ℕ) → producer_ended (update topics i t j).place ≡ 0
update-NoneEnded topics i t none here j = elim (ℕ_discrete j i) [
  | yes same ↦ update-same (λ x. producer_ended x.place) topics i t j same ∙ here
  | no other ↦ update-other (λ x. producer_ended x.place) topics i t j other ∙ none j
]

topic_changes :
    (i : ℕ) (t : TopicThread) (s : State)
    → NoneEnded s
    → producer_ended t.place ≡ 0
    → NoneEnded (record s { topics = update s.topics i t })
topic_changes i t s h here = record {
  topics = update-NoneEnded s.topics i t h.topics here;
  consumer = h.consumer;
  num = h.num;
}

consumer_changes :
    (place : ConsumerPlace) (s : State)
    → NoneEnded s
    → is_late place ≡ false
    → NoneEnded (record s { consumer = place })
consumer_changes place s h early = record { topics = h.topics; consumer = early; num = h.num }

still_early :
    (place : ConsumerPlace) → is_late place ≡ false → is_late (wake_consumer place) ≡ false
still_early ConsumerPlace.testing h = refl
still_early getting h = refl
still_early asleep h = refl
still_early (sending e) h = refl
still_early (sending_last e) h = h
still_early ConsumerPlace.ended h = h

still_running :
    (place : ProducerPlace) → producer_ended place ≡ 0 → producer_ended (wake_producer place) ≡ 0
still_running ProducerPlace.testing h = refl
still_running dequeuing h = refl
still_running asleep_at_queue h = refl
still_running (producing message) h = refl
still_running (asleep_at_buffer message) h = refl
still_running ProducerPlace.ended h = h

dequeue_turn-running :
    (in_loop after_loop : Bool) (t : TopicThread)
    → producer_ended (dequeue_turn in_loop after_loop t).place ≡ 0
unfolding dequeue_turn
dequeue_turn-running in_loop after_loop t =
    elim (Bool-cases (is_empty t.message_queue && not in_loop)) [
      | inl empty ↦ rw empty refl
      | inr filled ↦ elim (Bool-cases after_loop) [
        | inl down ↦ rw (filled, down) refl
        | inr up ↦ rw (filled, up) (taken t.message_queue)
      ]
    ]
  where
    taken : (queue : List Block) → producer_ended (take_message queue t).place ≡ 0
    taken [] = refl
    taken (message ∷ rest) = refl

topic_produced-NoneEnded :
    (i : ℕ) (message : Option Block) (p : Produced) (s : State)
    → NoneEnded s
    → NoneEnded (topic_produced i message p s)
topic_produced-NoneEnded i message waits s h = topic_changes i _ s h refl
topic_produced-NoneEnded i message returns s h = topic_changes i _ s h refl
topic_produced-NoneEnded i message (stores b) s h = record {
  topics = update-NoneEnded s.topics i _ h.topics refl;
  consumer = still_early s.consumer h.consumer;
  num = h.num;
}

main_produced-NoneEnded :
    (socket : ℕ) (response : Block) (p : Produced) (s : State)
    → NoneEnded s
    → NoneEnded (main_produced socket response p s)
main_produced-NoneEnded socket response waits s h = record {
  topics = h.topics;
  consumer = h.consumer;
  num = h.num;
}
main_produced-NoneEnded socket response returns s h = record {
  topics = h.topics;
  consumer = h.consumer;
  num = h.num;
}
main_produced-NoneEnded socket response (stores b) s h = record {
  topics = h.topics;
  consumer = still_early s.consumer h.consumer;
  num = h.num;
}

consumed-NoneEnded :
    (c : Consumed) (s : State)
    → ConsumesRight false false s.outgoing_buffer c
    → NoneEnded s
    → NoneEnded (consumed c s)
consumed-NoneEnded sleeps s right h = consumer_changes asleep s h refl
consumed-NoneEnded (ends e b) s right h = absurd (cc right.0)
consumed-NoneEnded (goes_on e b) s right h = record {
  topics = h.topics;
  consumer = refl;
  num = h.num;
}

step-NoneEnded :
    {s s' : State}
    → Step s s'
    → s.flag ≡ false
    → IsValid s.outgoing_buffer
    → NoneEnded s
    → NoneEnded s'
step-NoneEnded {s} (enqueues i message idle) clear ring h =
    topic_changes i _ s h (still_running (s.topics i).place (h.topics i))
step-NoneEnded {s} (responds socket response idle) clear ring h = record {
  topics = h.topics;
  consumer = h.consumer;
  num = h.num;
}
step-NoneEnded {s} (main_turn in_loop after_loop socket response at seen) clear ring h =
    main_produced-NoneEnded socket response _ s h
step-NoneEnded {s} (main_wakes socket response at) clear ring h = record {
  topics = h.topics;
  consumer = h.consumer;
  num = h.num;
}
step-NoneEnded {s} (topic_goes_on i at flag) clear ring h = topic_changes i _ s h refl
step-NoneEnded {s} (topic_ends i at flag) clear ring h = absurd (cc (flag, clear))
step-NoneEnded {s} (dequeue_turns in_loop after_loop i at seen) clear ring h =
    topic_changes i _ s h (dequeue_turn-running in_loop after_loop (s.topics i))
step-NoneEnded {s} (topic_turn in_loop after_loop i message at seen) clear ring h =
    topic_produced-NoneEnded i message _ s h
step-NoneEnded {s} (topic_wakes_at_queue i at) clear ring h = topic_changes i _ s h refl
step-NoneEnded {s} (topic_wakes_at_buffer i message at) clear ring h = topic_changes i _ s h refl
step-NoneEnded {s} (consumer_goes_on at flag) clear ring h = consumer_changes _ s h refl
step-NoneEnded {s} (consumer_ends at flag) clear ring h = absurd (cc (flag, clear))
step-NoneEnded {s} (consume_turn in_loop after_loop c at seen run) clear ring h =
    let (no_loop, no_after) = unseen s.flag in_loop after_loop clear seen in
    let run_clear : consume false false s.outgoing_buffer ≡ some c =
      rw (no_loop, no_after) at run in
    let (c', run', right) = consume-ConsumesRight false ring in
    let same : c' ≡ c = cc (run_clear, run') in
    consumed-NoneEnded c s (subst (λ x. ConsumesRight false false s.outgoing_buffer x) same right) h
step-NoneEnded {s} (consumer_wakes at) clear ring h = consumer_changes _ s h refl
step-NoneEnded {s} (sends e at) clear ring h = record {
  topics = h.topics;
  consumer = refl;
  num = h.num;
}
step-NoneEnded {s} (sends_last e at) clear ring h = absurd (cc (rw at at h.consumer))
step-NoneEnded {s} (shuts_down idle) clear ring h = record {
  topics = h.topics;
  consumer = h.consumer;
  num = h.num;
}

pub Reachable-NoneEnded :
    {garbage : List OutgoingBufferElement} {s : State}
    → length garbage ≡ max_outgoing_buffer_size
    → Reachable garbage s
    → s.flag ≡ false
    → NoneEnded s
unfolding start
Reachable-NoneEnded whole starts clear = record { topics = λ j. refl; consumer = refl; num = refl }
Reachable-NoneEnded whole (then_step {s = s} reached step) clear =
    let clear' = clear_before step clear in
    step-NoneEnded step clear' (Reachable-Holds whole reached clear').ring
      (Reachable-NoneEnded whole reached clear')
