-- ===== src/Broker/OutgoingBuffer.antt =====
-- PubSub/Broker/outgoing_buffer.h and outgoing_buffer.cpp: the ring of outgoing messages, and what
-- one turn of a producer's or the consumer's critical section does. An `int` is its 32 bits.
pub mod Window
pub mod Refine
pub mod Turn
use ikp_projekat.Common.{
  ℕ, ◌+◌, ◌-◌, ◌%◌, ◌^◌, Bool, true, false, ◌&&◌, not, Option, none, some, List, ◌==◌,
  if◌then◌else◌, ◌>>=◌, get_elem?, set, replicate,
}
use ikp_projekat.Memory.{Block}

abbrev pub max_outgoing_buffer_size : ℕ
max_outgoing_buffer_size = 100

-- The union with its tag `more`: the subscribers of a topic, by the topic's index, or one socket.
pub data OneOrMoreSockets : Type 0 where
  more : ℕ → OneOrMoreSockets
  one : ℕ → OneOrMoreSockets

-- `message` is a pointer, null where `dequeue` returned because of a shutdown.
pub record OutgoingBufferElement : Type 0 where
  pub message : Option Block
  pub one_or_more_sockets : OneOrMoreSockets

pub record OutgoingBuffer : Type 0 where
  pub array : List OutgoingBufferElement
  pub fill_idx : ℕ
  pub use_idx : ℕ
  pub count : ℕ

abbrev int_mod : ℕ
int_mod = 2 ^ 32

-- `array` is not initialised: `garbage` is what it happens to hold.
unfoldable pub initialize_outgoing_buffer : List OutgoingBufferElement → OutgoingBuffer
initialize_outgoing_buffer garbage = record {
  array = garbage;
  fill_idx = 0;
  use_idx = 0;
  count = 0;
}

-- A write out of the array would change nothing here; `IsValid` rules it out.
unfoldable pub put : OutgoingBuffer → OutgoingBufferElement → OutgoingBuffer
put b new_element = record {
  array = set b.array b.fill_idx new_element;
  fill_idx = (b.fill_idx + 1) % max_outgoing_buffer_size;
  use_idx = b.use_idx;
  count = (b.count + 1) % int_mod;
}

-- `none` is a read out of the array.
unfoldable pub get : OutgoingBuffer → Option (OutgoingBufferElement × OutgoingBuffer)
get b = do
  element ← get_elem? b.array b.use_idx
  some (
    element,
    record {
      array = b.array;
      fill_idx = b.fill_idx;
      use_idx = (b.use_idx + 1) % max_outgoing_buffer_size;
      count = (b.count + (int_mod - 1)) % int_mod;
    },
  )

-- What a turn of `produce_new_message` does: go to sleep on `empty_cv_ptr`, return because of a
-- shutdown, or put the element, wake the consumer and return.
pub data Produced : Type 0 where
  waits : Produced
  returns : Produced
  stores : OutgoingBuffer → Produced

-- From the loop's test to the sleep or the return. The two flags are what the two calls of
-- `is_shutting_down` return.
unfoldable pub produce_new_message :
    (in_loop after_loop : Bool) → OutgoingBuffer → OutgoingBufferElement → Produced
produce_new_message in_loop after_loop b new_element =
    if (b.count == max_outgoing_buffer_size) && not in_loop
    then waits
    else if after_loop
    then returns
    else stores (put b new_element)

-- What a turn of `consume` does: go to sleep on `fill_cv_ptr`, or take an element, after which it
-- sends it and ends because of a shutdown, or wakes a producer, sends it and goes on.
pub data Consumed : Type 0 where
  sleeps : Consumed
  ends : OutgoingBufferElement → OutgoingBuffer → Consumed
  goes_on : OutgoingBufferElement → OutgoingBuffer → Consumed

unfoldable pub consume : (in_loop after_loop : Bool) → OutgoingBuffer → Option Consumed
consume in_loop after_loop b =
    if (b.count == 0) && not in_loop
    then some sleeps
    else do (element, b') ← get b; some (if after_loop then ends element b' else goes_on element b')
