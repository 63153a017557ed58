-- ===== src/Broker/OutgoingBuffer/Window.antt =====
-- The elements that a ring holds, oldest first, and its representation invariant.
use ikp_projekat.Common.{
  ℕ, zero, suc, ◌+◌, ◌-◌, ◌%◌, ◌<◌, ◌≤◌, ◌≡◌, refl, ◌≢◌, ap, ap₂, none, List, [], ◌∷◌, ◌++◌, arith,
  length, get_or, set, get_or-set_self, get_or-set_ne,
}
use ikp_projekat.Broker.OutgoingBuffer.{
  max_outgoing_buffer_size, OneOrMoreSockets, OutgoingBufferElement, OutgoingBuffer,
}

-- What a read out of the array would give; it is never reached in a valid ring.
abbrev pub no_element : OutgoingBufferElement
no_element = record { message = none; one_or_more_sockets = OneOrMoreSockets.one 0 }

-- `n` elements from index `i` on, round the end of the array.
abbrev pub window : List OutgoingBufferElement → ℕ → ℕ → List OutgoingBufferElement
window xs i zero = []
window xs i (suc n) = get_or xs i no_element ∷ window xs ((i + 1) % max_outgoing_buffer_size) n

abbrev pub contents : OutgoingBuffer → List OutgoingBufferElement
contents b = window b.array b.use_idx b.count

pub record IsValid (b : OutgoingBuffer) : Type 0 where
  pub whole : length b.array ≡ max_outgoing_buffer_size
  pub use_in : b.use_idx < max_outgoing_buffer_size
  pub fits : b.count ≤ max_outgoing_buffer_size
  pub fill_at : b.fill_idx ≡ (b.use_idx + b.count) % max_outgoing_buffer_size

pub length-window : (xs : List OutgoingBufferElement) (i n : ℕ) → length (window xs i n) ≡ n
length-window xs i zero = refl
length-window xs i (suc n) = ap suc (length-window xs ((i + 1) % max_outgoing_buffer_size) n)

-- The window's head and tail, where its size is known not to be 0.
pub window_uncons :
    (xs : List OutgoingBufferElement) (i n : ℕ)
    → n ≢ 0
    → window xs i n
      ≡ get_or xs i no_element ∷ window xs ((i + 1) % max_outgoing_buffer_size) (n - 1)
window_uncons xs i zero h = absurd (h refl)
window_uncons xs i (suc n) h = ap (λ k. window xs i (suc k)) (omega arith)

-- A write just behind a window that does not go all the way round adds to the window's end.
pub window-set :
    (xs : List OutgoingBufferElement) (e : OutgoingBufferElement) (i n j : ℕ)
    → length xs ≡ max_outgoing_buffer_size
    → i < max_outgoing_buffer_size
    → n < max_outgoing_buffer_size
    → j ≡ (i + n) % max_outgoing_buffer_size
    → window (set xs j e) i (suc n) ≡ window xs i n ++ e ∷ []
window-set xs e i zero j w hi hn at =
    let here : j ≡ i = omega arith in rw (here, get_or-set_self xs i e no_element (omega arith))
window-set xs e i (suc n) j w hi hn at =
    ap₂ ◌∷◌ (get_or-set_ne xs j i e no_element (λ same. omega arith)) (
      window-set xs e ((i + 1) % max_outgoing_buffer_size) n j w (omega arith) (omega arith)
        (omega arith))
