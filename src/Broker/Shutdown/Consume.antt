-- ===== src/Broker/Shutdown/Consume.antt =====
-- With the flag set each step of `consume` in PubSub/Broker/outgoing_buffer.cpp brings it nearer to its end.
use ikp_projekat.Common.{
  ℕ, suc, ◌+◌, ◌<◌, ◌≡◌, ◌≢◌, refl, Bool, ◌&&◌, true, false, none, some, List, [], ◌∷◌, ◌++◌, arith,
  length, get_elem?-eq-get_or, get_or, ◌%◌, ◌^◌, ◌-◌,
}
use ikp_projekat.Broker.OutgoingBuffer.{
  OutgoingBuffer, max_outgoing_buffer_size, more, consume, get, ends, OutgoingBufferElement,
}
use ikp_projekat.Broker.Threads.{ConsumerPlace, getting, asleep, sending, sending_last, State}
use ikp_projekat.Broker.Shutdown.{consume_runs}
use ikp_projekat.Broker.Shutdown.Measure.{consumer_rank, consumer_ended}

-- The array is whole, and the index of the next element is in it.
abbrev pub IsReadable : OutgoingBuffer → Type 0
IsReadable b = (length b.array ≡ max_outgoing_buffer_size) × (b.use_idx < max_outgoing_buffer_size)

-- A step of the consumer: from a state to the next.
pub record ConsumerMoves (s s' : State) : Type 0 where
  pub topics : s'.topics ≡ s.topics
  pub flag : s'.flag ≡ s.flag
  pub ring : IsReadable s'.outgoing_buffer
  pub nearer : consumer_rank s'.consumer < consumer_rank s.consumer
  pub running : consumer_ended s.consumer ≡ 0
  pub awake : s'.consumer ≢ asleep
  pub counted :
      s'.num_of_shut_down_threads ≡ s.num_of_shut_down_threads + consumer_ended s'.consumer

abbrev no_element : OutgoingBufferElement
no_element = record { message = none; one_or_more_sockets = more 0 }

and_false : (b : Bool) → (b && false) ≡ false
and_false true = refl
and_false false = refl

pub consume_flag :
    (b : OutgoingBuffer)
    → IsReadable b
    → (e : OutgoingBufferElement) × (b' : OutgoingBuffer) × (consume true true b ≡ some (ends e b'))
      × IsReadable b'
unfolding consume get
consume_flag b (whole, use_in) = (
  get_or b.array b.use_idx no_element,
  record {
    array = b.array;
    fill_idx = b.fill_idx;
    use_idx = (b.use_idx + 1) % max_outgoing_buffer_size;
    count = (b.count + (2 ^ 32 - 1)) % 2 ^ 32;
  },
  rw
      (
        consume,
        and_false,
        get,
        get_elem?-eq-get_or b.array b.use_idx no_element (omega (arith, whole, use_in)),
      )
      refl,
  (whole, omega arith),
)

abbrev pub counted_consumer : ConsumerPlace → ℕ → ℕ
counted_consumer ConsumerPlace.ended num = suc num
counted_consumer place num = num

-- The consumer goes to a place.
abbrev pub consumer_moved :
    ConsumerPlace → OutgoingBuffer → List OutgoingBufferElement → State → State
consumer_moved place b sent s = record s {
  consumer = place;
  outgoing_buffer = b;
  sent = sent;
  num_of_shut_down_threads = counted_consumer place s.num_of_shut_down_threads;
}

pub consume_runs-moves :
    (s : State) (place : ConsumerPlace)
    → s.consumer ≡ place
    → place ≢ asleep
    → place ≢ ConsumerPlace.ended
    → s.flag ≡ true
    → IsReadable s.outgoing_buffer
    → (s' : State) × (consume_runs s ≡ some s') × ConsumerMoves s s'
unfolding consume_runs
consume_runs-moves s ConsumerPlace.testing at up going set ring = (
  consumer_moved ConsumerPlace.ended s.outgoing_buffer s.sent s,
  rw (consume_runs, at, set) refl,
  record {
    topics = refl;
    flag = refl;
    ring = ring;
    nearer = rw at (omega arith);
    running = rw at refl;
    awake = λ e. cc e;
    counted = omega arith;
  },
)
consume_runs-moves s getting at up going set ring =
    let (e, b', runs, ring') = consume_flag s.outgoing_buffer ring in
    (
      consumer_moved (sending_last e) b' s.sent s,
      rw (consume_runs, at, set, runs) refl,
      record {
        topics = refl;
        flag = refl;
        ring = ring';
        nearer = rw at (omega arith);
        running = rw at refl;
        awake = λ e. cc e;
        counted = omega arith;
      },
    )
consume_runs-moves s asleep at up going set ring = absurd (up refl)
consume_runs-moves s (sending e) at up going set ring = (
  consumer_moved ConsumerPlace.testing s.outgoing_buffer (s.sent ++ e ∷ []) s,
  rw (consume_runs, at) refl,
  record {
    topics = refl;
    flag = refl;
    ring = ring;
    nearer = rw at (omega arith);
    running = rw at refl;
    awake = λ e. cc e;
    counted = omega arith;
  },
)
consume_runs-moves s (sending_last e) at up going set ring = (
  consumer_moved ConsumerPlace.ended s.outgoing_buffer (s.sent ++ e ∷ []) s,
  rw (consume_runs, at) refl,
  record {
    topics = refl;
    flag = refl;
    ring = ring;
    nearer = rw at (omega arith);
    running = rw at refl;
    awake = λ e. cc e;
    counted = omega arith;
  },
)
consume_runs-moves s ConsumerPlace.ended at up going set ring = absurd (going refl)
