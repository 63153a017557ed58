-- ===== src/Client/Receiving/Delivery.antt =====
-- The messages that `send_to_client` of PubSub/Broker/networking_broker.cpp sends are those that
-- `receive_subscription_messages` of PubSub/Client/Client.cpp shows.
use ikp_projekat.Common.{
  ℕ, zero, suc, ◌+◌, ◌<◌, ◌≡◌, ◌≢◌, refl, ◌∙◌, sym, subst, ap, true, false, Option, none, some,
  List, [], ◌∷◌, ◌++◌, ◌>>=◌, arith, ==_of_ne, append_assoc, append-nil, replicate, length,
  length-replicate, length-append, drop, drop_all,
}
use mathlib.Core.Option.{some-injective}
use ikp_projekat.Memory.{Block, hashtag, store}
use ikp_projekat.Memory.Text.{Avoids, terminated, strlen-terminated, load-terminated}
use ikp_projekat.Memory.Fill.{store-next}
use ikp_projekat.Network.{Received, bytes, closed, failed}
use ikp_projekat.Broker.Parsing.{sent_bytes}
use ikp_projekat.Client.Menu.{client_receive_buffer_size, received_into}
use ikp_projekat.Client.Menu.Asking.{received-fits}
use ikp_projekat.Client.Receiving.{show_from, receive_subscription_messages}

-- The bytes that `send_to_client` sends of some messages.
unfoldable pub deliveries : List (List ℕ) → Option Block
deliveries [] = some []
deliveries (m ∷ ms) = do
  bytes' ← sent_bytes (hashtag ∷ terminated m [])
  others ← deliveries ms
  some (bytes' ++ others)

-- Each message comes with a hashtag and a null byte.
unfoldable pub delivery_size : List (List ℕ) → ℕ
delivery_size [] = 0
delivery_size (m ∷ ms) = length m + 2 + delivery_size ms

abbrev pub AllClean : List (List ℕ) → Type 0
AllClean [] = Unit {0}
AllClean (m ∷ ms) = Avoids 0 m × AllClean ms

show_from-text :
    (t : List ℕ) (rest : Block) (messages : List (List ℕ))
    → Avoids 0 t
    → show_from false rest ≡ some ([], messages)
    → show_from true (t ++ (0 ∷ rest)) ≡ some (t, messages)
unfolding show_from
show_from-text [] rest messages clean after = rw after refl
show_from-text (c ∷ cs) rest messages clean after =
    rw (==_of_ne c 0 clean.0, show_from-text cs rest messages clean.1 after) refl

-- The bytes of one message.
sent_message :
    (m : List ℕ)
    → Avoids 0 m
    → sent_bytes (hashtag ∷ terminated m []) ≡ some (hashtag ∷ (m ++ (0 ∷ [])))
unfolding sent_bytes
sent_message m clean =
    rw
      (
        strlen-terminated (hashtag ∷ m) [] (λ e. omega arith, clean),
        load-terminated (hashtag ∷ m) [],
      )
      refl

shown :
    (ms : List (List ℕ))
    → AllClean ms
    → (data' : Block) × (deliveries ms ≡ some data')
      × (length data' ≡ delivery_size ms)
      × ((c : ℕ) (rest : Block)
          → c ≢ hashtag
          → show_from false (data' ++ (c ∷ rest)) ≡ some ([], ms))
unfolding deliveries show_from delivery_size
shown [] clean = ([], refl, refl, λ c rest other. rw (==_of_ne c hashtag other) refl)
shown (m ∷ ms) clean =
    let (others, sent, size, read) = shown ms clean.1 in
    (
      hashtag ∷ (m ++ (0 ∷ others)),
      rw (sent_message m clean.0, sent, append_assoc m (0 ∷ []) others) refl,
      omega (arith, size, length-append m (0 ∷ others)),
      λ c rest other.
          rw
            (
              append_assoc m (0 ∷ others) (c ∷ rest),
              show_from-text m (others ++ (c ∷ rest)) ms clean.0 (read c rest other),
            )
            refl,
    )

-- `receive_buffer` as `main` sets it up, and as every reception is to leave it.
abbrev pub null_buffer : Block
null_buffer = replicate client_receive_buffer_size 0

-- The buffer is longer than the bytes: a null byte stands behind them.
drop-null_buffer :
    (n k : ℕ)
    → n < k
    → (rest : Block) × (drop n (replicate k 0) ≡ 0 ∷ rest) × (length rest + n + 1 ≡ k)
drop-null_buffer zero (suc k) room =
    (replicate k 0, refl, omega (arith, length-replicate {A = ℕ} k 0))
drop-null_buffer (suc n) (suc k) room =
    let (rest, e, size) = drop-null_buffer n k (omega (arith, room)) in
    (rest, e, omega (arith, size))
drop-null_buffer n zero room = absurd (omega (arith, room))

cleared :
    (filled : Block)
    → length filled ≡ client_receive_buffer_size
    → store filled 0 null_buffer ≡ some null_buffer
cleared filled whole =
    store-next [] filled null_buffer 0 refl (omega (arith, whole, length_null))
    ∙ ap (λ l. some (null_buffer ++ l))
        (drop_all filled (length null_buffer) (omega (arith, whole, length_null)))
    ∙ ap some (append-nil null_buffer)
  where
    length_null : length null_buffer ≡ client_receive_buffer_size
    length_null = length-replicate {A = ℕ} client_receive_buffer_size 0

-- The buffer where some bytes, fewer than it has, have been written over null bytes.
filled :
    (data' : Block)
    → length data' < client_receive_buffer_size
    → (rest : Block) × (received_into (bytes data') null_buffer ≡ some (data' ++ (0 ∷ rest)))
      × (length (data' ++ (0 ∷ rest)) ≡ client_receive_buffer_size)
filled data' room =
    let (rest, behind, size) = drop-null_buffer (length data') client_receive_buffer_size room in
    (
      rest,
      received-fits data' null_buffer (length-replicate {A = ℕ} client_receive_buffer_size 0)
            (omega (arith, room))
          ∙ ap (λ l. some (data' ++ l)) behind,
      omega (arith, size, length-append data' (0 ∷ rest)),
    )

received_null :
    (received : Received) (messages : List (List ℕ)) (buffer : Block)
    → received_into received null_buffer ≡ some buffer
    → show_from false buffer ≡ some ([], messages)
    → length buffer ≡ client_receive_buffer_size
    → receive_subscription_messages (some received) null_buffer ≡ some (messages, null_buffer)
unfolding receive_subscription_messages
received_null received messages buffer written read whole =
    rw (written, read, cleared buffer whole) refl

-- What the broker sends of messages without null bytes, each with a hashtag and a null byte, is shown
-- by the client as it is, each message once and in their order, where one `recv` delivers all of it,
-- it is less than the receive buffer's 2001 bytes, and the buffer is null; and the buffer is null
-- again afterwards.
pub receive_subscription_messages-deliveries :
    (ms : List (List ℕ))
    → AllClean ms
    → delivery_size ms < client_receive_buffer_size
    → (data' : Block) × (deliveries ms ≡ some data')
      × (receive_subscription_messages (some (bytes data')) null_buffer ≡ some (ms, null_buffer))
receive_subscription_messages-deliveries ms clean room =
    let (data', sent, size, read) = shown ms clean in
    let (rest, written, whole) = filled data' (omega (arith, size, room)) in
    (
      data',
      sent,
      received_null (bytes data') ms (data' ++ (0 ∷ rest)) written (read 0 rest (λ e. omega arith))
          whole,
    )

-- A reception of which nothing arrives, or the bytes of some messages that the buffer has room for.
abbrev pub IsDelivery : Option Received → Type 0
IsDelivery none = Unit {0}
IsDelivery (some (bytes data')) =
    (ms : List (List ℕ)) × AllClean ms
    × (delivery_size ms < client_receive_buffer_size)
    × (deliveries ms ≡ some data')
IsDelivery (some closed) = Unit {0}
IsDelivery (some failed) = Unit {0}

nothing_new :
    (received : Received)
    → received_into received null_buffer ≡ some null_buffer
    → receive_subscription_messages (some received) null_buffer ≡ some ([], null_buffer)
unfolding show_from
nothing_new received same =
    received_null received [] null_buffer same refl
      (length-replicate {A = ℕ} client_receive_buffer_size 0)

-- A null buffer is null again after each of these receptions.
pub receive_subscription_messages-null :
    (arrived : Option Received)
    → IsDelivery arrived
    → (messages : List (List ℕ)) × (receive_subscription_messages arrived null_buffer
        ≡ some (messages, null_buffer))
unfolding receive_subscription_messages received_into
receive_subscription_messages-null none is = ([], refl)
receive_subscription_messages-null (some closed) is = ([], nothing_new closed refl)
receive_subscription_messages-null (some failed) is = ([], nothing_new failed refl)
receive_subscription_messages-null (some (bytes data')) (ms, clean, room, sent) =
    let (data2, sent2, shows) = receive_subscription_messages-deliveries ms clean room in
    let same : data2 ≡ data' = some-injective data2 data' (sym sent2 ∙ sent) in
    (
      ms,
      subst
          (λ d. receive_subscription_messages (some (bytes d)) null_buffer ≡ some (ms, null_buffer))
          same shows,
    )
