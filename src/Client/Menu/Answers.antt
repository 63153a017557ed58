-- ===== src/Client/Menu/Answers.antt =====
-- What the menu of PubSub/Client/Client.cpp shows of an answer of PubSub/Broker/command_execution.cpp.
use ikp_projekat.Common.{
  ℕ, ◌+◌, ◌^◌, ◌<◌, ◌≤◌, ◌≡◌, refl, ◌≢◌, true, Option, none, some, List, [], ◌∷◌, ◌++◌, ◌>>=◌,
  arith, length, length-append, drop, lt→ltb, le→leb, ◌-◌, ==_of_ne, append_assoc, get_elem?,
}
use ikp_projekat.Memory.{Block, hashtag}
use ikp_projekat.Memory.Heap.{Ptr}
use ikp_projekat.Memory.Text.{Avoids, terminated, c_str-terminated}
use ikp_projekat.Memory.Decimal.{decimal, itoa_s-fits}
use ikp_projekat.Memory.Scanning.{llong_max}
use ikp_projekat.Memory.Scanning.Tokens.{
  NonEmpty, decimal-NonEmpty, decimal-Avoids, strtoll-decimal, length-decimal-le,
}
use ikp_projekat.Network.{bytes}
use ikp_projekat.Broker.Topic.{Topic}
use ikp_projekat.Broker.Execution.{Broker}
use ikp_projekat.Broker.Execution.Request.{
  Request, exists, count, number, topic_of, named, perform, answer, WellFormed,
}
use ikp_projekat.Client.Menu.{
  Client, Outcome, Shown, topic_exists, topic_does_not_exist, subscribers, show_existence,
  show_number, execute_requested_action, atoi, int_bound,
}
use ikp_projekat.Client.Menu.Actions.{typed, IsReady, bytes_of}
use ikp_projekat.Client.Menu.Asking.{over, received-fits, asked, seen}

first_of :
    (d : ℕ) (t rest : List ℕ)
    → NonEmpty t
    → Avoids d t
    → (c : ℕ) × (get_elem? (terminated t rest) 0 ≡ some c) × (c ≢ d)
first_of d [] rest some_byte other = absurd (omega arith)
first_of d (c ∷ cs) rest some_byte other = (c, refl, other.0)

atoi-decimal : (n : ℕ) → n < 10 ^ 5 → atoi (decimal n) ≡ n
unfolding atoi
atoi-decimal n small =
    rw
      (
        strtoll-decimal n (omega (arith, small)),
        le→leb n llong_max (omega (arith, small)),
        lt→ltb n (2 ^ 63) (omega (arith, small)),
        le→leb n (int_bound - 1) (omega (arith, small)),
      )
      refl

number_shown :
    (t : List ℕ) (q rest : Block) (n : ℕ)
    → Avoids 0 t
    → n < 10 ^ 5
    → show_number (terminated t q) (terminated (decimal n) rest) ≡ some (subscribers n t)
unfolding show_number
number_shown t q rest n clean small =
    let (first, here, other) =
      first_of hashtag (decimal n) rest (decimal-NonEmpty n)
        (decimal-Avoids hashtag n (omega arith)) in
    rw
      (
        c_str-terminated t q clean,
        here,
        c_str-terminated (decimal n) rest (decimal-Avoids 0 n (omega arith)),
        ==_of_ne first hashtag other,
        atoi-decimal n small,
      )
      refl

-- A question; the number of subscribers is one that the broker can answer with.
abbrev pub Answerable : Request → Option Topic → Type 0
Answerable (exists t) x = Unit {0}
Answerable (count t) none = Unit {0}
Answerable (count t) (some x) = x.subscribers.size < 10 ^ 5
Answerable r x = ⊥

abbrev pub told : Request → Option Topic → Shown
told (count t) none = topic_does_not_exist t
told (count t) (some x) = subscribers x.subscribers.size t
told r none = topic_does_not_exist (topic_of r)
told r (some x) = topic_exists (topic_of r)

-- The client asks, and gets what the broker responds.
abbrev pub asking : (ℕ → ℕ) → Client → Request → Option (Broker × Option Block) → Option Outcome
asking garbage c r done = do
  (b', response) ← done
  data' ← response
  execute_requested_action garbage (number r) (typed r (bytes data')) c

module _ (garbage : ℕ → ℕ) (c : Client) (b : Broker) (p : Ptr) where
  answered :
      (r : Request) (x : Option Topic)
      → Answerable r x
      → WellFormed r
      → length (topic_of r) ≤ 20
      → IsReady c
      → seen (asking garbage c r (answer b p x r))
        ≡ some (c.sent ++ bytes_of r ∷ [], true, told r x ∷ [])
  unfolding execute_requested_action show_existence show_number
  answered (exists t) none able well fits ready =
      rw
        (
          asked garbage show_existence b'4' (exists t) c (bytes (b'0' ∷ 0 ∷ []))
              (over (b'0' ∷ 0 ∷ []) c.receive_buffer) (λ e. omega arith) (λ e. omega arith) well
              fits
              (received-fits (b'0' ∷ 0 ∷ []) c.receive_buffer ready.receive_buffer (omega arith))
              ready,
          c_str-terminated t (drop (length t + 1) c.topic) well,
        )
        refl
  answered (exists t) (some x) able well fits ready =
      rw
        (
          asked garbage show_existence b'4' (exists t) c (bytes (b'1' ∷ 0 ∷ []))
              (over (b'1' ∷ 0 ∷ []) c.receive_buffer) (λ e. omega arith) (λ e. omega arith) well
              fits
              (received-fits (b'1' ∷ 0 ∷ []) c.receive_buffer ready.receive_buffer (omega arith))
              ready,
          c_str-terminated t (drop (length t + 1) c.topic) well,
        )
        refl
  answered (count t) none able well fits ready =
      rw
        (
          asked garbage show_number b'5' (count t) c (bytes (hashtag ∷ 0 ∷ []))
              (over (hashtag ∷ 0 ∷ []) c.receive_buffer) (λ e. omega arith) (λ e. omega arith) well
              fits
              (received-fits (hashtag ∷ 0 ∷ []) c.receive_buffer ready.receive_buffer (omega arith))
              ready,
          c_str-terminated t (drop (length t + 1) c.topic) well,
        )
        refl
  answered (count t) (some x) able well fits ready =
      rw
        (
          itoa_s-fits 4 x.subscribers.size able,
          asked garbage show_number b'5' (count t) c (bytes (decimal x.subscribers.size ++ 0 ∷ []))
              (over (decimal x.subscribers.size ++ 0 ∷ []) c.receive_buffer) (λ e. omega arith)
              (λ e. omega arith) well fits
              (received-fits (decimal x.subscribers.size ++ 0 ∷ []) c.receive_buffer
                ready.receive_buffer (omega (arith, room)))
              ready,
          append_assoc (decimal x.subscribers.size) (0 ∷ [])
              (drop (length (decimal x.subscribers.size ++ 0 ∷ [])) c.receive_buffer),
          number_shown t (drop (length t + 1) c.topic)
              (drop (length (decimal x.subscribers.size ++ 0 ∷ [])) c.receive_buffer)
              x.subscribers.size well able,
        )
        refl
    where
      room : length (decimal x.subscribers.size ++ 0 ∷ []) ≤ 21
      room = omega (
        arith,
        length-append (decimal x.subscribers.size) (0 ∷ []),
        length-decimal-le x.subscribers.size (omega (arith, able)),
      )
  answered (Request.publish t m) x able well fits ready = absurd able
  answered (Request.subscribe t) x able well fits ready = absurd able
  answered (Request.unsubscribe t) x able well fits ready = absurd able

  -- A connected client whose user asks whether a topic exists, or how many subscribers it has, with
  -- a name of at most 20 bytes without null bytes, sends just the request's bytes; where `recv` then
  -- delivers what the broker responds to this request, and a topic counted has fewer than 100000
  -- subscribers, the client shows what holds of the topic in the broker: that it does not exist,
  -- that it exists, or the number of its subscribers.
  pub menu_question-answered :
      (r : Request)
      → Answerable r (named b.topics (topic_of r))
      → WellFormed r
      → length (topic_of r) ≤ 20
      → IsReady c
      → seen (asking garbage c r (perform b p r))
        ≡ some (c.sent ++ bytes_of r ∷ [], true, told r (named b.topics (topic_of r)) ∷ [])
  unfolding perform
  menu_question-answered r = answered r (named b.topics (topic_of r))
