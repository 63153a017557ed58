-- ===== src/Broker/Shutdown/Produce.antt =====
-- With the flag set each step of `produce` in PubSub/Broker/outgoing_buffer.cpp brings it nearer to its end.
use ikp_projekat.Common.{
  ℕ, suc, ◌+◌, ◌<◌, ◌≡◌, refl, sym, subst, ◌∙◌, Bool, ◌&&◌, true, false, Option, none, some, ◌>>=◌,
  arith, inl, inr, ◌⊎◌,
}
use mathlib.Core.Option.{some-injective}
use ikp_projekat.Broker.OutgoingBuffer.{produce_new_message}
use ikp_projekat.Broker.Threads.{
  ProducerPlace, dequeuing, asleep_at_queue, producing, asleep_at_buffer, State, dequeue_turn,
  place_topic,
}
use ikp_projekat.Broker.Shutdown.{produce_runs}
use ikp_projekat.Broker.Shutdown.Measure.{producer_rank, producer_ended}

abbrev pub sleeps_at_queue : ProducerPlace → Bool
sleeps_at_queue asleep_at_queue = true
sleeps_at_queue place = false

abbrev pub sleeps_anywhere : ProducerPlace → Bool
sleeps_anywhere asleep_at_queue = true
sleeps_anywhere (asleep_at_buffer message) = true
sleeps_anywhere place = false

-- From a place to one that is nearer to the end, where the thread is awake.
abbrev pub IsNearer : ProducerPlace → ProducerPlace → Type 0
IsNearer place place' =
    (producer_rank place' < producer_rank place)
    × (producer_ended place ≡ 0)
    × (sleeps_anywhere place' ≡ false)

-- `signal_shut_down`, at the end of a thread.
abbrev pub counted : ProducerPlace → ℕ → ℕ
counted ProducerPlace.ended num = suc num
counted place num = num

pub counted-ended :
    (place : ProducerPlace) (num : ℕ) → counted place num ≡ num + producer_ended place
counted-ended ProducerPlace.testing num = omega arith
counted-ended dequeuing num = omega arith
counted-ended asleep_at_queue num = omega arith
counted-ended (producing message) num = omega arith
counted-ended (asleep_at_buffer message) num = omega arith
counted-ended ProducerPlace.ended num = omega arith

-- A topic's thread goes to a place; it is counted where it ends.
abbrev pub moved : ℕ → ProducerPlace → State → State
moved i place s =
    place_topic i place
      (record s { num_of_shut_down_threads = counted place s.num_of_shut_down_threads })

-- Where a step of `produce` goes.
abbrev pub next_place : ProducerPlace → Option ProducerPlace
next_place ProducerPlace.testing = some ProducerPlace.ended
next_place dequeuing = some (producing none)
next_place (producing message) = some ProducerPlace.testing
next_place place = none

and_false : (b : Bool) → (b && false) ≡ false
and_false true = refl
and_false false = refl

pub produce_runs-flag :
    (i : ℕ) (s : State) (place : ProducerPlace)
    → (s.topics i).place ≡ place
    → s.flag ≡ true
    → produce_runs i s ≡ (do place' ← next_place place; some (moved i place' s))
unfolding produce_runs produce_new_message dequeue_turn
produce_runs-flag i s ProducerPlace.testing at set = rw (produce_runs, at, set) refl
produce_runs-flag i s dequeuing at set = rw (produce_runs, at, set, and_false) refl
produce_runs-flag i s asleep_at_queue at set = rw (produce_runs, at) refl
produce_runs-flag i s (producing message) at set = rw (produce_runs, at, set, and_false) refl
produce_runs-flag i s (asleep_at_buffer message) at set = rw (produce_runs, at) refl
produce_runs-flag i s ProducerPlace.ended at set = rw (produce_runs, at) refl

IsNearer-of_some :
    (place next place' : ProducerPlace)
    → some next ≡ some place'
    → IsNearer place next
    → IsNearer place place'
IsNearer-of_some place next place' e near =
    subst (IsNearer place) (some-injective next place' e) near

next_place-IsNearer :
    (place place' : ProducerPlace) → next_place place ≡ some place' → IsNearer place place'
next_place-IsNearer ProducerPlace.testing place' e =
    IsNearer-of_some ProducerPlace.testing ProducerPlace.ended place' e (omega arith, refl, refl)
next_place-IsNearer dequeuing place' e =
    IsNearer-of_some dequeuing (producing none) place' e (omega arith, refl, refl)
next_place-IsNearer asleep_at_queue place' e = absurd (cc e)
next_place-IsNearer (producing message) place' e =
    IsNearer-of_some (producing message) ProducerPlace.testing place' e (omega arith, refl, refl)
next_place-IsNearer (asleep_at_buffer message) place' e = absurd (cc e)
next_place-IsNearer ProducerPlace.ended place' e = absurd (cc e)

-- A thread that is awake and has not ended can go on.
pub next_place-awake :
    (place : ProducerPlace)
    → sleeps_anywhere place ≡ false
    → (producer_ended place ≡ 1) ⊎ ((place' : ProducerPlace) × (next_place place ≡ some place'))
next_place-awake ProducerPlace.testing awake = inr (ProducerPlace.ended, refl)
next_place-awake dequeuing awake = inr (producing none, refl)
next_place-awake asleep_at_queue awake = absurd (cc awake)
next_place-awake (producing message) awake = inr (ProducerPlace.testing, refl)
next_place-awake (asleep_at_buffer message) awake = absurd (cc awake)
next_place-awake ProducerPlace.ended awake = inl refl

-- A step of `produce` goes to the next place.
pub produce_runs-moved :
    (i : ℕ) (s s' : State)
    → s.flag ≡ true
    → produce_runs i s ≡ some s'
    → (place' : ProducerPlace) × (s' ≡ moved i place' s) × IsNearer (s.topics i).place place'
produce_runs-moved i s s' set runs =
    from_next (next_place (s.topics i).place) refl
      (sym (produce_runs-flag i s (s.topics i).place refl set) ∙ runs)
  where
    from_next :
        (o : Option ProducerPlace)
        → next_place (s.topics i).place ≡ o
        → (do place' ← o; some (moved i place' s)) ≡ some s'
        → (place' : ProducerPlace) × (s' ≡ moved i place' s) × IsNearer (s.topics i).place place'
    from_next none e to = absurd (cc to)
    from_next (some place') e to = (
      place',
      sym (some-injective (moved i place' s) s' to),
      next_place-IsNearer (s.topics i).place place' e,
    )
