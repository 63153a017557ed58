-- ===== src/Client/Menu/Actions.antt =====
-- What the menu of PubSub/Client/Client.cpp sends for a request.
use ikp_projekat.Common.{
  ℕ, ◌+◌, ◌≤◌, ◌≡◌, ◌≢◌, refl, true, Option, some, List, [], ◌∷◌, ◌++◌, ◌>>=◌, arith, length, drop,
  length-append, append_assoc, lt→ltb,
}
use ikp_projekat.Memory.{Block, hashtag}
use ikp_projekat.Memory.Text.{Avoids, terminated, strlen-terminated, load-terminated}
use ikp_projekat.Memory.Fill.{store-next}
use ikp_projekat.Network.{Received}
use ikp_projekat.Broker.Parsing.{sent_bytes}
use ikp_projekat.Broker.Execution.Request.{Request, publish, topic_of, WellFormed}
use ikp_projekat.Broker.Receiving.Frames.{frames}
use ikp_projekat.Client.Command.Bytes.{
  plain_text, publish_text, plain_text-Avoids, publish_text-Avoids, create_command-publish,
  create_command-plain,
}
use ikp_projekat.Client.Menu.{
  max_topic_size, max_message_size, client_receive_buffer_size, gets_s, Client, Inputs, Outcome,
  outcome, send_command, plain_action, publish_action, topic_action,
}

abbrev pub text_of : Request → List ℕ
text_of (publish t m) = m
text_of r = []

-- The user types in a request; `send` succeeds.
abbrev pub typed : Request → Received → Inputs
typed r reply = record {
  topic_line = topic_of r;
  message_line = text_of r;
  connects = true;
  sends = true;
  reply = reply;
}

-- The texts fit the buffers of the menu.
abbrev pub Fits : Request → Type 0
Fits r = (length (topic_of r) ≤ 20) × (length (text_of r) ≤ 20)

-- A connected client whose buffers are whole.
pub record IsReady (c : Client) : Type 0 where
  pub connected : c.connected ≡ true
  pub topic : length c.topic ≡ max_topic_size
  pub message : length c.message ≡ max_message_size
  pub receive_buffer : length c.receive_buffer ≡ client_receive_buffer_size

pub gets_s-fits :
    (buffer : Block) (size : ℕ) (line : List ℕ)
    → length buffer ≡ size
    → length line + 1 ≤ size
    → gets_s buffer size line ≡ some (terminated line (drop (length line + 1) buffer))
unfolding gets_s
gets_s-fits buffer size line whole fits =
    rw
      (
        lt→ltb (length line) size (omega arith),
        store-next [] buffer (line ++ (0 ∷ [])) 0 refl (omega (arith, one_more)),
        one_more,
        append_assoc line (0 ∷ []) (drop (length line + 1) buffer),
      )
      refl
  where
    one_more : length (line ++ (0 ∷ [])) ≡ length line + 1
    one_more = omega (arith, length-append line (0 ∷ []))

-- The client has sent some more bytes.
abbrev pub having_sent : Block → Client → Client
having_sent bytes c = record c { sent = c.sent ++ (bytes ∷ []) }

pub send_command-text :
    (i : Inputs) (text : List ℕ) (c : Client)
    → i.sends ≡ true
    → Avoids 0 text
    → send_command i (terminated text []) c ≡ some (having_sent (terminated text []) c)
unfolding send_command sent_bytes
send_command-text i text c well clean =
    rw (strlen-terminated text [] clean, load-terminated text [], well) refl

-- The client has read a line for its topic, and one for its message.
abbrev pub with_topic : List ℕ → Client → Client
with_topic t c = record c { topic = terminated t (drop (length t + 1) c.topic) }

abbrev pub with_message : List ℕ → Client → Client
with_message m c = record c { message = terminated m (drop (length m + 1) c.message) }

-- The bytes of one request.
abbrev pub bytes_of : Request → Block
bytes_of r = frames (r ∷ []) []

module _ (garbage : ℕ → ℕ) where
  pub plain_action-sends :
      (n : ℕ) (i : Inputs) (c : Client) (t : List ℕ)
      → i.sends ≡ true
      → Avoids 0 t
      → n ≢ 0
      → n ≢ b'2'
      → plain_action garbage n i (with_topic t c)
        ≡ some (having_sent (terminated (plain_text n t) []) (with_topic t c))
  unfolding plain_action
  plain_action-sends n i c t well clean not_null other =
      rw (create_command-plain garbage t (drop (length t + 1) c.topic) clean n other) (
        send_command-text i (plain_text n t) (with_topic t c) well
          (plain_text-Avoids n t not_null clean))

  -- The options that ask for a topic read it first.
  pub topic_action-ready :
      (action : Client → Option Outcome) (i : Inputs) (c : Client) (t : List ℕ)
      → IsReady c
      → i.topic_line ≡ t
      → length t ≤ 20
      → topic_action garbage action i c ≡ action (with_topic t c)
  unfolding topic_action
  topic_action-ready action i c t ready line fits =
      rw
        (
          line,
          gets_s-fits c.topic max_topic_size t ready.topic (omega (arith, fits)),
          ready.connected,
        )
        refl

  -- The options '3' and '6' for a topic that the user types.
  pub plain_sends :
      (n : ℕ) (r : Request) (c : Client) (reply : Received)
      → n ≢ 0
      → n ≢ b'2'
      → Avoids 0 (topic_of r)
      → length (topic_of r) ≤ 20
      → IsReady c
      → topic_action garbage
          (λ c'. do done ← plain_action garbage n (typed r reply) c'; some (outcome done true []))
          (typed r reply)
          c
        ≡ some (
            outcome
              (having_sent (terminated (plain_text n (topic_of r)) []) (with_topic (topic_of r) c))
              true
              [])
  plain_sends n r c reply not_null other clean fits ready =
      rw
        (
          topic_action-ready _ (typed r reply) c (topic_of r) ready refl fits,
          plain_action-sends n (typed r reply) c (topic_of r) refl clean not_null other,
        )
        refl

  pub publish_sends :
      (c : Client) (t m : List ℕ) (reply : Received)
      → WellFormed (publish t m)
      → Fits (publish t m)
      → IsReady c
      → publish_action garbage (typed (publish t m) reply) c
        ≡ some (
            outcome
              (having_sent (bytes_of (publish t m)) (with_message m (with_topic t c)))
              true
              [])
  unfolding publish_action
  publish_sends c t m reply (clean, plain, clean_message) (fits_t, fits_m) ready =
      rw
        (
          gets_s-fits c.topic max_topic_size t ready.topic (omega (arith, fits_t)),
          gets_s-fits c.message max_message_size m ready.message (omega (arith, fits_m)),
          ready.connected,
          create_command-publish garbage t (drop (length t + 1) c.topic) clean m
              (drop (length m + 1) c.message) clean_message,
          send_command-text (typed (publish t m) reply) (publish_text t m)
              (with_message m (with_topic t (record c { connected = true }))) refl
              (publish_text-Avoids t m clean clean_message),
          append_assoc t (hashtag ∷ m) (0 ∷ []),
        )
        refl
