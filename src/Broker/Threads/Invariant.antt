-- ===== src/Broker/Threads/Invariant.antt =====
-- The invariant of the broker's threads until a shutdown, by induction on their steps.
use ikp_projekat.Common.{
  ℕ, ◌≡◌, ◌≢◌, refl, Bool, true, false, Option, List, [], ◌∷◌, ◌++◌, ◌==◌, ==→eq, Bool-cases, inl,
  inr, append_assoc, append-nil,
}
use ikp_projekat.Memory.{Block}
use ikp_projekat.Broker.OutgoingBuffer.{
  OutgoingBufferElement, OutgoingBuffer, Produced, waits, returns, stores, Consumed, sleeps, ends,
  goes_on,
}
use ikp_projekat.Broker.OutgoingBuffer.Window.{contents, IsValid}
use ikp_projekat.Broker.OutgoingBuffer.Turn.{ProducesRight, ConsumesRight}
use ikp_projekat.Broker.Threads.{
  ProducerPlace, TopicThread, ConsumerPlace, asleep, State, update, wake_consumer, topic_element,
  response_element, stored, topic_produced, main_produced, consumed, responding,
}
use ikp_projekat.Broker.Threads.Steps.{Seen}
use ikp_projekat.Broker.Threads.Select.{
  is_response, select, select-append, held_response, in_hand, in_hand-wake_consumer,
}
use ikp_projekat.Broker.Threads.Flow.{
  pipeline, IsServed, update-IsServed, place-IsServed, hand_over-IsServed, other-IsServed,
}

-- The ring is valid; each topic is served, and so are the responses, in order; the consumer sleeps
-- only at an empty ring.
pub record Holds (s : State) : Type 0 where
  pub ring : IsValid s.outgoing_buffer
  pub topics : (j : ℕ) → IsServed j (pipeline s) (s.topics j)
  pub responses : select is_response (pipeline s) ++ held_response s.main ≡ s.responses
  pub waits : s.consumer ≡ asleep → s.outgoing_buffer.count ≡ 0

-- Without a shutdown a turn sees none.
pub unseen :
    (flag in_loop after_loop : Bool)
    → flag ≡ false
    → Seen flag in_loop after_loop
    → (in_loop ≡ false) × (after_loop ≡ false)
unseen flag false false clear seen = (refl, refl)
unseen flag false true clear seen = absurd (cc (clear, seen.1 refl))
unseen flag true false clear seen = absurd (cc (seen.0 refl))
unseen flag true true clear seen = absurd (cc (clear, seen.1 refl))

-- What is put in the ring goes to the end of the pipeline.
pipeline-stored :
    (s : State) (b : OutgoingBuffer) (e : OutgoingBufferElement)
    → contents b ≡ contents s.outgoing_buffer ++ (e ∷ [])
    → pipeline (stored b s) ≡ pipeline s ++ (e ∷ [])
pipeline-stored s b e put_last =
    rw
      (
        in_hand-wake_consumer s.consumer,
        put_last,
        append_assoc s.sent (in_hand s.consumer ++ contents s.outgoing_buffer) (e ∷ []),
        append_assoc (in_hand s.consumer) (contents s.outgoing_buffer) (e ∷ []),
      )
      refl

pub not_asleep : (place : ConsumerPlace) → wake_consumer place ≢ asleep
not_asleep ConsumerPlace.testing e = cc
not_asleep ConsumerPlace.getting e = cc
not_asleep ConsumerPlace.asleep e = cc
not_asleep (ConsumerPlace.sending x) e = cc
not_asleep (ConsumerPlace.sending_last x) e = cc
not_asleep ConsumerPlace.ended e = cc

-- The topic's thread changes, and nothing else.
pub topic_changes :
    (i : ℕ) (t : TopicThread) {s : State}
    → Holds s
    → IsServed i (pipeline s) t
    → Holds (record s { topics = update s.topics i t })
topic_changes i t {s} h ok = record {
  ring = h.ring;
  topics = update-IsServed s.topics (pipeline s) i t h.topics ok;
  responses = h.responses;
  waits = h.waits;
}

-- The consumer goes to another place with the same element in hand, or none.
pub consumer_changes :
    (place : ConsumerPlace) {s : State}
    → Holds s
    → in_hand place ≡ in_hand s.consumer
    → place ≢ asleep
    → Holds (record s { consumer = place })
consumer_changes place {s} h same awake = record {
  ring = h.ring;
  topics = λ j. rw same (h.topics j);
  responses = rw same h.responses;
  waits = λ e. absurd (awake e);
}

all-IsServed :
    (topics : ℕ → TopicThread) (p : List OutgoingBufferElement) (i : ℕ) (message : Option Block)
    → ((j : ℕ) → IsServed j p (topics j))
    → (topics i).place ≡ ProducerPlace.producing message
    → (j : ℕ)
    → IsServed j
        (p ++ (topic_element i message ∷ []))
        (update topics i (record (topics i) { place = ProducerPlace.testing }) j)
all-IsServed topics p i message all at j = elim (Bool-cases (j == i)) [
  | inl same ↦ rw (same, ==→eq j i same) (hand_over-IsServed i p (topics i) message (all i) at)
  | inr other ↦ rw other (other-IsServed j p (topics j) (topic_element i message) other (all j))
]

-- A topic's turn of `produce_new_message`.
pub topic_produces :
    (i : ℕ) (message : Option Block) (p : Produced) {s : State}
    → Holds s
    → (s.topics i).place ≡ ProducerPlace.producing message
    → ProducesRight false false s.outgoing_buffer (topic_element i message) p
    → Holds (topic_produced i message p s)
topic_produces i message waits {s} h at right =
    topic_changes i (record (s.topics i) { place = ProducerPlace.asleep_at_buffer message }) h
      (place-IsServed i (pipeline s) (s.topics i) (ProducerPlace.asleep_at_buffer message)
        (h.topics i) (rw at refl) (λ e. cc))
topic_produces i message returns {s} h at right = absurd (cc right)
topic_produces i message (stores b) {s} h at right =
    let (clear, valid, counted, last) = right in
    let moved = pipeline-stored s b (topic_element i message) last in
    record {
      ring = valid;
      topics = λ j. rw moved (all-IsServed s.topics (pipeline s) i message h.topics at j);
      responses =
          rw
            (
              moved,
              select-append is_response (pipeline s) (topic_element i message ∷ []),
              append-nil,
            )
            h.responses;
      waits = λ e. absurd (not_asleep s.consumer e);
    }

-- The main thread's turn of `produce_new_message`.
pub main_produces :
    (socket : ℕ) (response : Block) (p : Produced) {s : State}
    → Holds s
    → s.main ≡ responding socket response
    → ProducesRight false false s.outgoing_buffer (response_element socket response) p
    → Holds (main_produced socket response p s)
main_produces socket response waits {s} h at right = record {
  ring = h.ring;
  topics = h.topics;
  responses = rw at at h.responses;
  waits = h.waits;
}
main_produces socket response returns {s} h at right = absurd (cc right)
main_produces socket response (stores b) {s} h at right =
    let (clear, valid, counted, last) = right in
    let e = response_element socket response in
    let moved = pipeline-stored s b e last in
    record {
      ring = valid;
      topics = λ j. rw moved (other-IsServed j (pipeline s) (s.topics j) e refl (h.topics j));
      responses =
          rw (moved, select-append is_response (pipeline s) (e ∷ []), append-nil)
            (rw at at h.responses);
      waits = λ e. absurd (not_asleep s.consumer e);
    }

-- The consumer's turn.
pub consumes :
    (c : Consumed) {s : State}
    → Holds s
    → in_hand s.consumer ≡ []
    → ConsumesRight false false s.outgoing_buffer c
    → Holds (consumed c s)
consumes sleeps {s} h free right = record {
  ring = h.ring;
  topics = λ j. rw free at (h.topics j);
  responses = rw free at h.responses;
  waits = λ e. right.0;
}
consumes (ends e b) {s} h free right = absurd (cc right.0)
consumes (goes_on e b) {s} h free right =
    let (clear, valid, first) = right in
    record {
      ring = valid;
      topics = λ j. rw (free, first) at (h.topics j);
      responses = rw (free, first) at h.responses;
      waits = λ e. absurd (cc e);
    }
