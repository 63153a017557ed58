-- ===== src/Broker/Shutdown/Invariant.antt =====
-- What holds of the threads of PubSub/Broker during `shut_down_threads`.
use ikp_projekat.Common.{ℕ, ◌+◌, ◌<◌, ◌≤◌, ◌≡◌, ◌≢◌, ℕ_discrete, refl, ◌∙◌, Bool, true, false}
use ikp_projekat.Broker.Threads.{
  ProducerPlace, asleep, State, TopicThread, update, dequeuing, asleep_at_queue, producing,
  asleep_at_buffer,
}
use ikp_projekat.Broker.Shutdown.{MainPhase, waking, waking_buffer, waiting, over, Ending}
use ikp_projekat.Broker.Shutdown.Measure.{ended_threads, update-same, update-other}
use ikp_projekat.Broker.Shutdown.Produce.{sleeps_at_queue, sleeps_anywhere, moved}
use ikp_projekat.Broker.Shutdown.Consume.{IsReadable}

-- None of the first topics' threads is at a place of some kind.
abbrev pub Never : (ProducerPlace → Bool) → ℕ → (ℕ → TopicThread) → Type 0
Never kind n topics = (j : ℕ) → j < n → kind (topics j).place ≡ false

-- What the main thread has woken stays awake.
abbrev pub IsAwake : ℕ → MainPhase → State → Type 0
IsAwake n (waking i) s = Never sleeps_at_queue i s.topics
IsAwake n waking_buffer s = Never sleeps_at_queue n s.topics
IsAwake n waiting s = Never sleeps_anywhere n s.topics × (s.consumer ≢ asleep)
IsAwake n over s = Never sleeps_anywhere n s.topics × (s.consumer ≢ asleep)

-- The flag is set, the ring can be read, the threads that have ended are counted, and all of them
-- have where the main thread waits no more.
pub record IsEnding (number_of_topics : ℕ) (e : Ending) : Type 0 where
  pub flag : e.threads.flag ≡ true
  pub ring : IsReadable e.threads.outgoing_buffer
  pub counted : e.threads.num_of_shut_down_threads ≡ ended_threads number_of_topics e.threads
  pub awake : IsAwake number_of_topics e.phase e.threads
  pub waited : e.phase ≡ over → number_of_topics + 1 ≤ e.threads.num_of_shut_down_threads

not_at_queue :
    (place : ProducerPlace) → sleeps_anywhere place ≡ false → sleeps_at_queue place ≡ false
not_at_queue ProducerPlace.testing h = refl
not_at_queue dequeuing h = refl
not_at_queue asleep_at_queue h = absurd (cc h)
not_at_queue (producing message) h = refl
not_at_queue (asleep_at_buffer message) h = refl
not_at_queue ProducerPlace.ended h = refl

pub Never-update :
    (kind : ProducerPlace → Bool) (n i : ℕ) (topics : ℕ → TopicThread) (t : TopicThread)
    → kind t.place ≡ false
    → Never kind n topics
    → Never kind n (update topics i t)
Never-update kind n i topics t h never j below = elim (ℕ_discrete j i) [
  | yes same ↦ update-same (λ x. kind x.place) topics i t j same ∙ h
  | no other ↦ update-other (λ x. kind x.place) topics i t j other ∙ never j below
]

-- A topic's thread that is awake now keeps all awake.
pub IsAwake-moved :
    (n i : ℕ) (place : ProducerPlace) (phase : MainPhase) (s : State)
    → sleeps_anywhere place ≡ false
    → IsAwake n phase s
    → IsAwake n phase (moved i place s)
IsAwake-moved n i place (waking k) s h awake =
    Never-update sleeps_at_queue k i s.topics _ (not_at_queue place h) awake
IsAwake-moved n i place waking_buffer s h awake =
    Never-update sleeps_at_queue n i s.topics _ (not_at_queue place h) awake
IsAwake-moved n i place waiting s h awake =
    (Never-update sleeps_anywhere n i s.topics _ h awake.0, awake.1)
IsAwake-moved n i place over s h awake =
    (Never-update sleeps_anywhere n i s.topics _ h awake.0, awake.1)

pub IsAwake-consumer :
    (n : ℕ) (phase : MainPhase) (s s' : State)
    → s'.topics ≡ s.topics
    → s'.consumer ≢ asleep
    → IsAwake n phase s
    → IsAwake n phase s'
IsAwake-consumer n (waking k) s s' same up awake = rw same awake
IsAwake-consumer n waking_buffer s s' same up awake = rw same awake
IsAwake-consumer n waiting s s' same up awake = (rw same awake.0, up)
IsAwake-consumer n over s s' same up awake = (rw same awake.0, up)
