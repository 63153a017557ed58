-- ===== src/Client/Menu/Asking.antt =====
-- How the menu of PubSub/Client/Client.cpp asks, and what it sees of the answer.
use ikp_projekat.Common.{
  ℕ, ◌≤◌, ◌≡◌, refl, ◌≢◌, true, Option, some, List, [], ◌∷◌, ◌++◌, ◌>>=◌, arith, length, drop, Bool,
}
use ikp_projekat.Memory.{Block}
use ikp_projekat.Memory.Text.{Avoids, terminated}
use ikp_projekat.Memory.Fill.{store-next}
use ikp_projekat.Network.{Received, bytes}
use ikp_projekat.Broker.Execution.Request.{Request, topic_of}
use ikp_projekat.Client.Menu.{
  Client, Outcome, outcome, topic_action, Shown, received_into, question,
  client_receive_buffer_size,
}
use ikp_projekat.Client.Command.Bytes.{plain_text}
use ikp_projekat.Client.Menu.Actions.{
  typed, IsReady, having_sent, with_topic, topic_action-ready, plain_action-sends,
}

-- The buffer with some bytes in front of what it held behind them.
abbrev pub over : Block → Block → Block
over data' buffer = data' ++ drop (length data') buffer

pub received-fits :
    (data' buffer : Block)
    → length buffer ≡ client_receive_buffer_size
    → length data' ≤ client_receive_buffer_size
    → received_into (bytes data') buffer ≡ some (over data' buffer)
unfolding received_into
received-fits data' buffer whole fits =
    store-next [] buffer data' 0 refl (omega (arith, whole, fits))

pub asked :
    (garbage : ℕ → ℕ) (show : Block → Block → Option Shown) (n : ℕ) (r : Request) (c : Client)
    (reply : Received) (buffer : Block)
    → n ≢ 0
    → n ≢ b'2'
    → Avoids 0 (topic_of r)
    → length (topic_of r) ≤ 20
    → received_into reply c.receive_buffer ≡ some buffer
    → IsReady c
    → topic_action garbage (question garbage n show (typed r reply)) (typed r reply) c ≡ (do
      shown ← show (with_topic (topic_of r) c).topic buffer
      some (
          outcome
            (record (having_sent
              (terminated (plain_text n (topic_of r)) [])
              (with_topic (topic_of r) c)) { receive_buffer = buffer })
            true
            (shown ∷ [])))
unfolding question
asked garbage show n r c reply buffer not_null other clean fits arrived ready =
    rw
      (
        topic_action-ready garbage (question garbage n show (typed r reply)) (typed r reply) c
            (topic_of r) ready refl fits,
        plain_action-sends garbage n (typed r reply) c (topic_of r) refl clean not_null other,
        arrived,
      )
      refl

-- What a client has sent, whether it goes on, and what it shows.
abbrev pub seen : Option Outcome → Option (List Block × Bool × List Shown)
seen o = do done ← o; some (done.client.sent, done.goes_on, done.shown)
