-- ===== src/Client/Menu.antt =====
-- `execute_requested_action` of PubSub/Client/Client.cpp: what an option of the menu does. What the
-- user types and what the system's calls report come in as values; a prompt is left out.
pub mod Actions
pub mod Requests
pub mod Asking
pub mod Answers
pub mod WrongAnswers
use ikp_projekat.Common.{
  ℕ, ◌+◌, ◌-◌, ◌*◌, ◌%◌, ◌^◌, Bool, true, false, ◌||◌, not, Option, none, some, List, [], ◌∷◌, ◌++◌,
  ◌==◌, ltb, if◌then◌else◌, ◌>>=◌, length, get_elem?,
}
use ikp_projekat.Memory.{Block, hashtag, store, c_str}
use ikp_projekat.Memory.Scanning.{at_most, strtoll}
use ikp_projekat.Network.{Received, bytes, closed, failed}
use ikp_projekat.Broker.Parsing.{sent_bytes}
use ikp_projekat.Client.Command.{create_command}

-- The macros of PubSub/Common/common.h.
abbrev pub max_topic_size : ℕ
max_topic_size = 20 + 1

abbrev pub max_message_size : ℕ
max_message_size = 20 + 1

-- `(100 * MAX_MESSAGE_SIZE)`, where the text of `MAX_MESSAGE_SIZE` has no parentheses.
abbrev pub client_receive_buffer_size : ℕ
client_receive_buffer_size = 100 * 20 + 1

-- `gets_s(buffer, size)` of a line: the run-time aborts where it does not fit.
unfoldable pub gets_s : Block → ℕ → List ℕ → Option Block
gets_s buffer size line = if ltb (length line) size then store buffer 0 (line ++ (0 ∷ [])) else none

-- The least `int` above all that `atoi` returns for positive numbers; a negative result is its bits.
abbrev pub int_bound : ℕ
int_bound = 2 ^ 31

unfoldable pub atoi : List ℕ → ℕ
atoi text =
    let n = strtoll text in
    if ltb n (2 ^ 63)
    then at_most (int_bound - 1) n
    else (2 ^ 32 - at_most int_bound (2 ^ 64 - n)) % 2 ^ 32

-- What is printed of an outcome, without the words around it.
pub data Shown : Type 0 where
  already_connected connected_to_broker not_connected invalid_input : Shown
  topic_exists topic_does_not_exist : List ℕ → Shown
  subscribers : ℕ → List ℕ → Shown

-- The buffers and the flag of `main`, and what has been sent to the broker, oldest first.
pub record Client : Type 0 where
  pub topic : Block
  pub message : Block
  pub connected : Bool
  pub receive_buffer : Block
  pub sent : List Block

-- The lines typed, whether `connect` and `send` succeed, and what `recv` reports.
pub record Inputs : Type 0 where
  pub topic_line : List ℕ
  pub message_line : List ℕ
  pub connects : Bool
  pub sends : Bool
  pub reply : Received

-- The client afterwards, the return value, and what is shown.
pub record Outcome : Type 0 where
  pub client : Client
  pub goes_on : Bool
  pub shown : List Shown

abbrev pub outcome : Client → Bool → List Shown → Outcome
outcome c goes_on shown = record { client = c; goes_on = goes_on; shown = shown }

-- `receive_from_broker` that waits: what `recv` writes goes to the start of the buffer.
unfoldable pub received_into : Received → Block → Option Block
received_into (bytes data') buffer = store buffer 0 data'
received_into closed buffer = some buffer
received_into failed buffer = some buffer

-- `send_command`: `strlen` and one more byte.
unfoldable pub send_command : Inputs → Block → Client → Option Client
send_command i command c = do
  sent ← sent_bytes command
  some (if i.sends then record c { sent = c.sent ++ (sent ∷ []) } else c)

-- What the answers of the broker to a question are shown as: for option '4', and for option '5'.
unfoldable pub show_existence : Block → Block → Option Shown
show_existence topic receive_buffer = do
  name ← c_str topic
  first ← get_elem? receive_buffer 0
  some (if first == b'1' then topic_exists name else topic_does_not_exist name)

unfoldable pub show_number : Block → Block → Option Shown
show_number topic receive_buffer = do
  name ← c_str topic
  first ← get_elem? receive_buffer 0
  if first == hashtag
      then some (topic_does_not_exist name)
      else (do digits ← c_str receive_buffer; some (subscribers (atoi digits) name))

module _ (garbage : ℕ → ℕ) where
  -- A command of a topic alone.
  unfoldable pub plain_action : ℕ → Inputs → Client → Option Client
  plain_action option i c = do
    command ← create_command garbage option c.topic none
    send_command i command c

  -- A command that the broker answers.
  unfoldable pub question : ℕ → (Block → Block → Option Shown) → Inputs → Client → Option Outcome
  question option show i c = do
    c' ← plain_action option i c
    buffer ← received_into i.reply c'.receive_buffer
    shown ← show c'.topic buffer
    some (outcome (record c' { receive_buffer = buffer }) i.sends (shown ∷ []))

  abbrev pub if_connected : Client → Option Outcome → Option Outcome
  if_connected c action = if c.connected then action else some (outcome c true (not_connected ∷ []))

  unfoldable pub publish_action : Inputs → Client → Option Outcome
  publish_action i c = do
    topic ← gets_s c.topic max_topic_size i.topic_line
    message ← gets_s c.message max_message_size i.message_line
    let c' = record c { topic = topic; message = message }
    if_connected c' (do
      command ← create_command garbage b'2' topic (some message)
      done ← send_command i command c'
      some (outcome done i.sends []))

  -- The options that ask for a topic alone.
  unfoldable pub topic_action : (Client → Option Outcome) → Inputs → Client → Option Outcome
  topic_action action i c = do
    topic ← gets_s c.topic max_topic_size i.topic_line
    let c' = record c { topic = topic }
    if_connected c' (action c')

  unfoldable pub execute_requested_action : ℕ → Inputs → Client → Option Outcome
  execute_requested_action option i c =
      if option == b'1'
      then (if c.connected
          then some (outcome c true (already_connected ∷ []))
          else if i.connects
          then some (outcome (record c { connected = true }) true (connected_to_broker ∷ []))
          else some (outcome c false []))
      else if option == b'2'
      then publish_action i c
      else if (option == b'3') || (option == b'6')
      then topic_action (λ c'. do done ← plain_action option i c'; some (outcome done i.sends [])) i
          c
      else if option == b'4'
      then topic_action (question option show_existence i) i c
      else if option == b'5'
      then topic_action (question option show_number i) i c
      else if option == b'7'
      then some (outcome c true [])
      else if option == b'8'
      then some (outcome c false [])
      else some (outcome c true (invalid_input ∷ []))
