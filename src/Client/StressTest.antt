-- ===== src/Client/StressTest.antt =====
-- PubSub/Client/stress_test.cpp. What `rand`, `send` and `receive_from_broker` give comes in as
-- values; the prints and the waits are left out. `none` is undefined behaviour or an abort.
pub mod Expected
pub mod Sends
pub mod Requests
pub mod Performed
use ikp_projekat.Common.{
  ℕ, zero, suc, ◌+◌, ◌-◌, ◌*◌, ◌/◌, Bool, true, false, ◌&&◌, Option, none, some, List, [], ◌∷◌,
  ◌++◌, ◌==◌, ltb, leb, if◌then◌else◌, ◌>>=◌, length, get_elem?,
}
use ikp_projekat.Memory.{Block, malloc, put}
use ikp_projekat.Memory.Decimal.{itoa_s}
use ikp_projekat.Network.{Received}
use ikp_projekat.Broker.Parsing.{sent_bytes}
use ikp_projekat.Client.Command.{create_command}
use ikp_projekat.Client.Receiving.{receive_subscription_messages}

-- The results of `rand`, whether each `send` succeeds, and what each `recv` reports; `none` is where
-- the call would block.
pub record World : Type 0 where
  pub rand : ℕ → ℕ
  pub sends : ℕ → Bool
  pub arrived : ℕ → Option Received

-- The receive buffer, what has been sent, how often `rand` was called, and what each reception has
-- shown.
pub record Tester : Type 0 where
  pub receive_buffer : Block
  pub sent : List Block
  pub draws : ℕ
  pub shown : List (List (List ℕ))

-- The largest result of `rand`.
abbrev pub rand_max : ℕ
rand_max = 32767

abbrev pub news : List ℕ
news = b'n' ∷ b'e' ∷ b'w' ∷ b's' ∷ []

abbrev pub updates : List ℕ
updates = b'u' ∷ b'p' ∷ b'd' ∷ b'a' ∷ b't' ∷ b'e' ∷ b's' ∷ []

abbrev pub warnings : List ℕ
warnings = b'w' ∷ b'a' ∷ b'r' ∷ b'n' ∷ b'i' ∷ b'n' ∷ b'g' ∷ b's' ∷ []

-- A string literal.
abbrev pub literal : List ℕ → Block
literal text = text ++ 0 ∷ []

-- A step returns whether the program goes on; it ends by `exit(1)` where a `send` failed.
abbrev pub TestStep : Type 0
TestStep = Option (Bool × Tester)

abbrev pub and_then : TestStep → (Tester → TestStep) → TestStep
and_then step next = do (goes_on, t) ← step; if goes_on then next t else some (false, t)

unfoldable pub send_or_exit : World → Block → Tester → TestStep
send_or_exit w command t = do
  bytes ← sent_bytes command
  some (
      if w.sends (length t.sent)
      then (true, record t { sent = t.sent ++ (bytes ∷ []) })
      else (false, t))

unfoldable pub receive : World → Tester → Option Tester
receive w t = do
  (messages, receive_buffer) ←
      receive_subscription_messages (w.arrived (length t.shown)) t.receive_buffer
  some (record t { receive_buffer = receive_buffer; shown = t.shown ++ (messages ∷ []) })

-- The topic of the next message, and the calls of `rand` behind it.
unfoldable pub choose_topic : World → ℕ → List ℕ × ℕ
choose_topic w draws =
    if ltb (w.rand draws) (rand_max / 3)
    then (news, draws + 1)
    else if ltb (w.rand (draws + 1)) (2 * rand_max / 3)
    then (updates, draws + 2)
    else (warnings, draws + 2)

unfoldable pub toupper : ℕ → ℕ
toupper c = if leb b'a' c && leb c b'z' then c - 32 else c

-- The topics of each client, by the character that is its number.
unfoldable pub subscriptions : ℕ → List (List ℕ)
subscriptions client_number =
    if client_number == b'1'
    then news ∷ []
    else if client_number == b'2'
    then news ∷ updates ∷ []
    else if client_number == b'3'
    then news ∷ warnings ∷ []
    else if client_number == b'4'
    then news ∷ updates ∷ warnings ∷ []
    else if client_number == b'5'
    then updates ∷ []
    else if client_number == b'6'
    then updates ∷ warnings ∷ []
    else if client_number == b'7'
    then updates ∷ news ∷ []
    else if client_number == b'8'
    then news ∷ updates ∷ warnings ∷ []
    else if client_number == b'9'
    then warnings ∷ []
    else if client_number == b'a'
    then warnings ∷ updates ∷ []
    else if client_number == b'b'
    then warnings ∷ news ∷ []
    else if client_number == b'c'
    then news ∷ updates ∷ warnings ∷ []
    else []

module _ (garbage : ℕ → ℕ) where
  unfoldable pub subscribe_to_topic : World → Block → Tester → TestStep
  subscribe_to_topic w topic t = do
    command ← create_command garbage b'3' topic none
    send_or_exit w command t

  -- The calls of `subscribe_to_topic`, one after the other.
  unfoldable pub subscribe_to_all : World → List (List ℕ) → Tester → TestStep
  subscribe_to_all w [] t = some (true, t)
  subscribe_to_all w (topic ∷ topics) t =
      and_then (subscribe_to_topic w (literal topic) t) λ t'. subscribe_to_all w topics t'

  unfoldable pub build_message : (client_number message_num : ℕ) → Option Block
  build_message client_number message_num = do
    message_num_buffer ← itoa_s message_num 2
    digit ← get_elem? message_num_buffer 0
    message ← put (malloc garbage 5) 0 b'c'
    message ← put message 1 (toupper client_number)
    message ← put message 2 b'm'
    message ← put message 3 digit
    put message 4 0

  unfoldable pub publish_message : World → (client_number message_num : ℕ) → Tester → TestStep
  publish_message w client_number message_num t = do
    let (topic_name, draws) = choose_topic w t.draws
    message ← build_message client_number message_num
    command ← create_command garbage b'2' (literal topic_name) (some message)
    send_or_exit w command (record t { draws = draws })

  -- The loop, on fuel: 10 rounds are enough from 1 on.
  unfoldable pub publish_from : World → (client_number fuel message_num : ℕ) → Tester → TestStep
  publish_from w client_number zero message_num t = none
  publish_from w client_number (suc fuel) message_num t =
      if ltb message_num 10
      then and_then (publish_message w client_number message_num t)
          (λ t'. do t'' ← receive w t'; publish_from w client_number fuel (message_num + 1) t'')
      else some (true, t)

  abbrev pub publish_9_messages_and_receive : World → ℕ → Tester → TestStep
  publish_9_messages_and_receive w client_number t = publish_from w client_number 10 1 t

  unfoldable pub test : World → (client_number : ℕ) → Tester → TestStep
  test w client_number t = and_then (subscribe_to_all w (subscriptions client_number) t) λ t'.
      and_then (publish_9_messages_and_receive w client_number t')
        λ t''. (do t''' ← receive w t''; some (true, t'''))
