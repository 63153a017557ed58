-- ===== src/Broker/OutgoingBuffer/Turn.antt =====
-- What one turn of a critical section does to a valid ring.
use ikp_projekat.Common.{
  ◌+◌, ◌-◌, ◌%◌, ◌^◌, ◌≡◌, refl, ◌≢◌, Bool, true, false, some, [], ◌∷◌, ◌++◌, arith, ==_of_ne,
  get_or, get_elem?-eq-get_or, ℕ_discrete,
}
use ikp_projekat.Broker.OutgoingBuffer.{
  max_outgoing_buffer_size, OutgoingBufferElement, OutgoingBuffer, get, Produced, waits, returns,
  stores, produce_new_message, Consumed, sleeps, ends, goes_on, consume,
}
use ikp_projekat.Broker.OutgoingBuffer.Window.{no_element, contents, IsValid}
use ikp_projekat.Broker.OutgoingBuffer.Refine.{put_refines, get_refines}

-- What is allowed of a producer's turn that saw the flags `in_loop` and `after_loop`: it sleeps only
-- at a full ring, it returns only because of a shutdown, and what it stores goes to the end.
abbrev pub ProducesRight :
    (in_loop after_loop : Bool) → OutgoingBuffer → OutgoingBufferElement → Produced → Type 0
ProducesRight in_loop after_loop b e waits =
    (b.count ≡ max_outgoing_buffer_size) × (in_loop ≡ false)
ProducesRight in_loop after_loop b e returns = after_loop ≡ true
ProducesRight in_loop after_loop b e (stores b') =
    (after_loop ≡ false)
    × IsValid b'
    × (b'.count ≡ b.count + 1)
    × (contents b' ≡ contents b ++ e ∷ [])

-- Every turn of `produce_new_message` at a valid ring does what `ProducesRight` allows, where a
-- shutdown that the loop's test saw is still seen after the loop.
pub produce_new_message-ProducesRight :
    (in_loop after_loop : Bool) {b : OutgoingBuffer} (e : OutgoingBufferElement)
    → IsValid b
    → (in_loop ≡ true → after_loop ≡ true)
    → ProducesRight in_loop after_loop b e (produce_new_message in_loop after_loop b e)
unfolding produce_new_message
produce_new_message-ProducesRight true true {b} e v kept = ground arith
produce_new_message-ProducesRight true false {b} e v kept = cc (kept refl)
produce_new_message-ProducesRight false true {b} e v kept = ground arith
produce_new_message-ProducesRight false false {b} e v kept = ground (arith, put_refines v e)

abbrev pub ConsumesRight : (in_loop after_loop : Bool) → OutgoingBuffer → Consumed → Type 0
ConsumesRight in_loop after_loop b sleeps = (b.count ≡ 0) × (in_loop ≡ false)
ConsumesRight in_loop after_loop b (ends e b') =
    (after_loop ≡ true) × IsValid b' × (contents b ≡ e ∷ contents b')
ConsumesRight in_loop after_loop b (goes_on e b') =
    (after_loop ≡ false) × IsValid b' × (contents b ≡ e ∷ contents b')

-- Every turn of `consume` at a valid ring that saw no shutdown in the loop's test returns; it
-- sleeps only at an empty ring, and else takes the first element and leaves the others.
pub consume-ConsumesRight :
    (after_loop : Bool) {b : OutgoingBuffer}
    → IsValid b
    → (c : Consumed) × (consume false after_loop b ≡ some c) × ConsumesRight false after_loop b c
unfolding consume
consume-ConsumesRight after_loop {b} v = elim (ℕ_discrete b.count 0) [
  | yes empty ↦ (sleeps, rw empty, (empty, refl))
  | no filled ↦
      let (e, b', got, first, v', _) = get_refines v filled in
      taken after_loop e b' got first v' filled
]
  where
    taken :
        (after_loop : Bool) (e : OutgoingBufferElement) (b' : OutgoingBuffer)
        → get b ≡ some (e, b')
        → contents b ≡ e ∷ contents b'
        → IsValid b'
        → b.count ≢ 0
        → (c : Consumed) × (consume false after_loop b ≡ some c)
          × ConsumesRight false after_loop b c
    taken true e b' got first v' filled =
        (ends e b', rw (==_of_ne b.count 0 filled, got), (refl, v', first))
    taken false e b' got first v' filled =
        (goes_on e b', rw (==_of_ne b.count 0 filled, got), (refl, v', first))

-- A turn of `consume` at an empty valid ring that did see a shutdown in the loop's test takes what
-- the array holds at `use_idx`, hands it on to be sent, and leaves the count at the bits of -1.
pub consume_empty :
    {b : OutgoingBuffer}
    → IsValid b
    → b.count ≡ 0
    → (b' : OutgoingBuffer) × (consume true true b
        ≡ some (ends (get_or b.array b.use_idx no_element) b'))
      × (b'.count ≡ 2 ^ 32 - 1)
unfolding consume get
consume_empty {b} v empty = (
  record {
    array = b.array;
    fill_idx = b.fill_idx;
    use_idx = (b.use_idx + 1) % max_outgoing_buffer_size;
    count = (b.count + (2 ^ 32 - 1)) % 2 ^ 32;
  },
  rw (empty, get_elem?-eq-get_or b.array b.use_idx no_element (omega arith)),
  omega arith,
)
