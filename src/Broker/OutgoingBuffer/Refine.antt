-- ===== src/Broker/OutgoingBuffer/Refine.antt =====
-- The ring is a queue of at most `MAX_OUTGOING_BUFFER_SIZE` elements.
use ikp_projekat.Common.{
  ℕ, ◌+◌, ◌-◌, ◌%◌, ◌≡◌, refl, ◌≢◌, some, List, [], ◌∷◌, ◌++◌, arith, ap, ◌∙◌, ◌^◌, suc, length,
  set, get_or, length-set, get_elem?-eq-get_or,
}
use ikp_projekat.Broker.OutgoingBuffer.{
  max_outgoing_buffer_size, OutgoingBufferElement, OutgoingBuffer, initialize_outgoing_buffer, put,
  get,
}
use ikp_projekat.Broker.OutgoingBuffer.Window.{
  no_element, window, contents, IsValid, window_uncons, window-set,
}

-- A fresh ring is valid and empty, whatever its array holds.
pub initialize-IsValid :
    (garbage : List OutgoingBufferElement)
    → length garbage ≡ max_outgoing_buffer_size
    → IsValid (initialize_outgoing_buffer garbage)
      × (contents (initialize_outgoing_buffer garbage) ≡ [])
unfolding initialize_outgoing_buffer
initialize-IsValid garbage h =
    (record { whole = h; use_in = omega arith; fits = omega arith; fill_at = refl }, refl)

module _ {b : OutgoingBuffer} (v : IsValid b) where
  open v use {whole, use_in, fits, fill_at}

  -- Where the ring is not full, `put` keeps it valid and adds the element at the end.
  pub put_refines :
      (e : OutgoingBufferElement)
      → b.count ≢ max_outgoing_buffer_size
      → IsValid (put b e)
        × ((put b e).count ≡ b.count + 1)
        × (contents (put b e) ≡ contents b ++ e ∷ [])
  unfolding put
  put_refines e room = (
    record {
      whole = rw (length-set b.array b.fill_idx e) whole;
      use_in = use_in;
      fits = omega arith;
      fill_at = omega arith;
    },
    omega arith,
    ap (λ n. window (set b.array b.fill_idx e) b.use_idx n) counted
        ∙ window-set b.array e b.use_idx b.count b.fill_idx whole use_in (omega arith) fill_at,
  )
    where
      counted : (b.count + 1) % 2 ^ 32 ≡ suc b.count
      counted = omega arith

  -- Where the ring is not empty, `get` returns its first element, keeps it valid and leaves the
  -- others.
  pub get_refines :
      b.count ≢ 0
      → (e : OutgoingBufferElement) × (b' : OutgoingBuffer) × (get b ≡ some (e, b'))
        × (contents b ≡ e ∷ contents b')
        × IsValid b'
        × (b'.count + 1 ≡ b.count)
  unfolding get
  get_refines some_left = (
    get_or b.array b.use_idx no_element,
    record b { use_idx = (b.use_idx + 1) % max_outgoing_buffer_size; count = b.count - 1 },
    rw (get_elem?-eq-get_or b.array b.use_idx no_element (omega arith)) (
        ap
          (λ (n : ℕ). some (
            get_or b.array b.use_idx no_element,
            record b { use_idx = (b.use_idx + 1) % max_outgoing_buffer_size; count = n },
          ))
          (omega arith)),
    window_uncons b.array b.use_idx b.count some_left,
    record { whole = whole; use_in = omega arith; fits = omega arith; fill_at = omega arith },
    omega arith,
  )
