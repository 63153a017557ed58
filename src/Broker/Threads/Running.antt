-- ===== src/Broker/Threads/Running.antt =====
-- What holds of every state that the broker's threads reach before a shutdown.
use ikp_projekat.Common.{
  ℕ, ◌≡◌, ◌≢◌, refl, sym, ap, ◌∙◌, false, Option, some, List, [], ◌∷◌, ◌++◌, append_assoc,
  append-nil, subst, length,
}
use ikp_projekat.Memory.{Block}
use ikp_projekat.Broker.OutgoingBuffer.{
  OutgoingBufferElement, Produced, waits, returns, stores, Consumed, sleeps, ends, goes_on, consume,
  initialize_outgoing_buffer, max_outgoing_buffer_size,
}
use ikp_projekat.Broker.OutgoingBuffer.Window.{contents}
use ikp_projekat.Broker.OutgoingBuffer.Refine.{initialize-IsValid}
use ikp_projekat.Broker.OutgoingBuffer.Turn.{
  ConsumesRight, produce_new_message-ProducesRight, consume-ConsumesRight,
}
use ikp_projekat.Broker.Threads.{
  ProducerPlace, ConsumerPlace, asleep, State, topic_element, response_element, topic_produced,
  main_produced, consumed, place_topic, asleep_at_queue,
}
use ikp_projekat.Broker.Threads.Steps.{
  Step, start, Reachable, starts, then_step, enqueues, responds, main_turn, main_wakes,
  topic_goes_on, topic_ends, dequeue_turns, topic_turn, topic_wakes_at_queue, topic_wakes_at_buffer,
  consumer_goes_on, consumer_ends, consume_turn, consumer_wakes, sends, sends_last, shuts_down,
}
use ikp_projekat.Broker.Threads.Select.{held, in_hand}
use ikp_projekat.Broker.Threads.Flow.{
  pipeline, place-IsServed, enqueue-IsServed, dequeue_turn-IsServed,
}
use ikp_projekat.Broker.Threads.Invariant.{
  Holds, unseen, topic_changes, consumer_changes, topic_produces, main_produces, consumes,
}

-- The thread goes to a place where it holds what it held.
place_changes :
    (i : ℕ) (place : ProducerPlace) {s : State}
    → Holds s
    → held i place ≡ held i (s.topics i).place
    → place ≢ asleep_at_queue
    → Holds (place_topic i place s)
place_changes i place {s} h same awake =
    topic_changes i (record (s.topics i) { place = place }) h
      (place-IsServed i (pipeline s) (s.topics i) place (h.topics i) same awake)

start-Holds :
    (garbage : List OutgoingBufferElement)
    → length garbage ≡ max_outgoing_buffer_size
    → Holds (start garbage)
unfolding start initialize_outgoing_buffer
start-Holds garbage whole = record {
  ring = (initialize-IsValid garbage whole).0;
  topics = λ j. record { flow = refl; waits = λ e. refl };
  responses = refl;
  waits = λ e. refl;
}

-- The consumer has sent what it had in hand.
sent-Holds :
    (e : OutgoingBufferElement) (place : ConsumerPlace) (n : ℕ) {s : State}
    → Holds s
    → in_hand s.consumer ≡ e ∷ []
    → in_hand place ≡ []
    → place ≢ asleep
    → Holds (record s { consumer = place; sent = s.sent ++ (e ∷ []); num_of_shut_down_threads = n })
sent-Holds e place n {s} h before after awake = record {
  ring = h.ring;
  topics = λ j.
      rw (after, append_assoc s.sent (e ∷ []) (contents s.outgoing_buffer))
        (rw before at (h.topics j));
  responses =
      rw (after, append_assoc s.sent (e ∷ []) (contents s.outgoing_buffer))
        (rw before at h.responses);
  waits = λ x. absurd (awake x);
}

consumed_turn :
    (c : Consumed) {s : State}
    → Holds s
    → in_hand s.consumer ≡ []
    → consume false false s.outgoing_buffer ≡ some c
    → Holds (consumed c s)
consumed_turn c {s} h free run =
    let (c', run', right) = consume-ConsumesRight false h.ring in
    let same : c' ≡ c = cc (run, run') in
    consumes c h free (subst (λ x. ConsumesRight false false s.outgoing_buffer x) same right)

preserved : {s s' : State} → Step s s' → s.flag ≡ false → Holds s → Holds s'
preserved {s} (enqueues i message idle) clear h =
    topic_changes i _ h (enqueue-IsServed i (pipeline s) (s.topics i) message (h.topics i))
preserved {s} (responds socket response idle) clear h = record {
  ring = h.ring;
  topics = h.topics;
  responses =
      ap (λ l. l ++ (response_element socket response ∷ [])) (rw (idle, append-nil) at h.responses);
  waits = h.waits;
}
preserved {s} (main_turn in_loop after_loop socket response at seen) clear h =
    let (no_loop, no_after) = unseen s.flag in_loop after_loop clear seen in
    rw (no_loop, no_after)
      (main_produces socket response _ h at (
        produce_new_message-ProducesRight false false (response_element socket response) h.ring
          (λ e. e)))
preserved {s} (main_wakes socket response at) clear h = record {
  ring = h.ring;
  topics = h.topics;
  responses = rw at at h.responses;
  waits = h.waits;
}
preserved {s} (topic_goes_on i at flag) clear h = place_changes i _ h (rw at refl) (λ e. cc)
preserved {s} (topic_ends i at flag) clear h = absurd (cc (flag, clear))
preserved {s} (dequeue_turns in_loop after_loop i at seen) clear h =
    let (no_loop, no_after) = unseen s.flag in_loop after_loop clear seen in
    rw (no_loop, no_after)
      (topic_changes i _ h (dequeue_turn-IsServed i (pipeline s) (s.topics i) (h.topics i) at))
preserved {s} (topic_turn in_loop after_loop i message at seen) clear h =
    let (no_loop, no_after) = unseen s.flag in_loop after_loop clear seen in
    rw (no_loop, no_after)
      (topic_produces i message _ h at
        (produce_new_message-ProducesRight false false (topic_element i message) h.ring (λ e. e)))
preserved {s} (topic_wakes_at_queue i at) clear h = place_changes i _ h (rw at refl) (λ e. cc)
preserved {s} (topic_wakes_at_buffer i message at) clear h =
    place_changes i _ h (rw at refl) (λ e. cc)
preserved {s} (consumer_goes_on at flag) clear h = consumer_changes _ h (rw at refl) (λ e. cc)
preserved {s} (consumer_ends at flag) clear h = absurd (cc (flag, clear))
preserved {s} (consume_turn in_loop after_loop c at seen run) clear h =
    let (no_loop, no_after) = unseen s.flag in_loop after_loop clear seen in
    consumed_turn c h (rw at refl) (rw (no_loop, no_after) at run)
preserved {s} (consumer_wakes at) clear h = consumer_changes _ h (rw at refl) (λ e. cc)
preserved {s} (sends e at) clear h = sent-Holds e _ _ h (rw at refl) refl (λ x. cc)
preserved {s} (sends_last e at) clear h = sent-Holds e _ _ h (rw at refl) refl (λ x. cc)
preserved {s} (shuts_down idle) clear h = record {
  ring = h.ring;
  topics = h.topics;
  responses = h.responses;
  waits = h.waits;
}

-- A turn leaves the flag as it is.
topic_produced-flag :
    (i : ℕ) (message : Option Block) (p : Produced) (s : State)
    → (topic_produced i message p s).flag ≡ s.flag
topic_produced-flag i message waits s = refl
topic_produced-flag i message returns s = refl
topic_produced-flag i message (stores b) s = refl

main_produced-flag :
    (socket : ℕ) (response : Block) (p : Produced) (s : State)
    → (main_produced socket response p s).flag ≡ s.flag
main_produced-flag socket response waits s = refl
main_produced-flag socket response returns s = refl
main_produced-flag socket response (stores b) s = refl

consumed-flag : (c : Consumed) (s : State) → (consumed c s).flag ≡ s.flag
consumed-flag sleeps s = refl
consumed-flag (ends e b) s = refl
consumed-flag (goes_on e b) s = refl

-- The flag is never taken back.
pub clear_before : {s s' : State} → Step s s' → s'.flag ≡ false → s.flag ≡ false
clear_before (enqueues i message idle) clear = clear
clear_before (responds socket response idle) clear = clear
clear_before {s} (main_turn in_loop after_loop socket response at seen) clear =
    sym (main_produced-flag socket response _ s) ∙ clear
clear_before (main_wakes socket response at) clear = clear
clear_before (topic_goes_on i at flag) clear = clear
clear_before (topic_ends i at flag) clear = clear
clear_before (dequeue_turns in_loop after_loop i at seen) clear = clear
clear_before {s} (topic_turn in_loop after_loop i message at seen) clear =
    sym (topic_produced-flag i message _ s) ∙ clear
clear_before (topic_wakes_at_queue i at) clear = clear
clear_before (topic_wakes_at_buffer i message at) clear = clear
clear_before (consumer_goes_on at flag) clear = clear
clear_before (consumer_ends at flag) clear = clear
clear_before {s} (consume_turn in_loop after_loop c at seen run) clear =
    sym (consumed-flag c s) ∙ clear
clear_before (consumer_wakes at) clear = clear
clear_before (sends e at) clear = clear
clear_before (sends_last e at) clear = clear
clear_before (shuts_down idle) clear = absurd (cc clear)

module _ {garbage : List OutgoingBufferElement}
    (whole : length garbage ≡ max_outgoing_buffer_size) where
  -- Every state that is reached without a shutdown is as `Holds` says.
  pub Reachable-Holds : {s : State} → Reachable garbage s → s.flag ≡ false → Holds s
  Reachable-Holds starts clear = start-Holds garbage whole
  Reachable-Holds (then_step before step) clear =
      preserved step (clear_before step clear) (Reachable-Holds before (clear_before step clear))
