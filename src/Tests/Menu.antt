-- ===== src/Tests/Menu.antt =====
-- The menu of PubSub/Client/Client.cpp at a concrete client and broker.
use ikp_projekat.Common.{ℕ, ◌+◌, ◌≡◌, refl, true, some, List, [], ◌∷◌, arith, replicate}
use ikp_projekat.Memory.{hashtag, same_text}
use ikp_projekat.Memory.Scanning.{strtoll, digits_value}
use ikp_projekat.Network.{bytes, closed}
use ikp_projekat.Broker.Execution.Request.{Request, perform, named}
use ikp_projekat.Broker.Receiving.{
  Server, Reception, receive_commands, handle_reception, null_buffer,
}
use ikp_projekat.Broker.Receiving.Frames.{done_all}
use ikp_projekat.Client.Menu.{
  max_topic_size, max_message_size, client_receive_buffer_size, Client, outcome,
  execute_requested_action, topic_exists, topic_does_not_exist, subscribers, atoi,
}
use ikp_projekat.Client.Menu.Actions.{typed, IsReady, having_sent, bytes_of}
use ikp_projekat.Client.Menu.Requests.{having_read, menu_request-performed}
use ikp_projekat.Client.Menu.Asking.{seen}
use ikp_projekat.Client.Menu.Answers.{asking, menu_question-answered}
use ikp_projekat.Client.Menu.WrongAnswers.{menu_question-message, menu_question-closed}

abbrev news : List ℕ
news = b'n' ∷ b'e' ∷ b'w' ∷ b's' ∷ []

abbrev garbage : ℕ → ℕ
garbage i = 9

abbrev client : Client
client = record {
  topic = replicate max_topic_size 7;
  message = replicate max_message_size 7;
  connected = true;
  receive_buffer = replicate client_receive_buffer_size 0;
  sent = [];
}

client-IsReady : IsReady client
client-IsReady = record { connected = refl; topic = refl; message = refl; receive_buffer = refl }

abbrev server : Server
server = record {
  broker = record {
    topics =
        record {
          name = news;
          message_queue = [];
          subscribers = record { sockets = 5 ∷ 6 ∷ []; size = 2 };
        }
        ∷ [];
    notifications = [];
  };
  connection_sockets = record { sockets = 5 ∷ []; size = 1 };
  values = λ p. p + 100;
  outgoing = [];
}

abbrev hi : Request
hi = Request.publish news (b'h' ∷ b'i' ∷ [])

menu_request-performed_example :
    (execute_requested_action garbage b'2' (typed hi closed) client
      ≡ some (outcome (having_sent (bytes_of hi) (having_read hi client)) true []))
    × (handle_reception
          (λ k i. 9)
          5
          (receive_commands (Reception.bytes (bytes_of hi)) 5 null_buffer server)
        ≡ done_all 5 server (hi ∷ []))
menu_request-performed_example =
    menu_request-performed garbage (λ k i. 9) client 5 server hi closed (omega arith) (omega arith)
      (omega arith) client-IsReady

menu_question-answered_example :
    seen (asking garbage client (Request.count news) (perform server.broker 5 (Request.count news)))
    ≡ some (bytes_of (Request.count news) ∷ [], true, subscribers 2 news ∷ [])
unfolding named same_text
menu_question-answered_example =
    menu_question-answered garbage client server.broker 5 (Request.count news) (omega arith)
      (omega arith) (omega arith) client-IsReady

menu_question-message_example :
    seen (
      execute_requested_action garbage b'4'
        (typed (Request.exists news) (bytes (hashtag ∷ b'h' ∷ b'i' ∷ 0 ∷ [])))
        client)
    ≡ some (bytes_of (Request.exists news) ∷ [], true, topic_does_not_exist news ∷ [])
menu_question-message_example =
    menu_question-message garbage client (Request.exists news) (b'h' ∷ b'i' ∷ 0 ∷ []) tt
      (omega arith) (omega arith) client-IsReady (omega arith)

menu_question-closed_example :
    seen (
      execute_requested_action garbage b'4'
        (typed (Request.exists news) closed)
        (record client { receive_buffer = b'1' ∷ replicate 2000 0 }))
    ≡ some (bytes_of (Request.exists news) ∷ [], true, topic_exists news ∷ [])
menu_question-closed_example =
    menu_question-closed garbage (record client { receive_buffer = b'1' ∷ replicate 2000 0 }) news
      (replicate 2000 0) (omega arith) (omega arith)
      (record { connected = refl; topic = refl; message = refl; receive_buffer = refl }) refl

atoi_stops : atoi (b'4' ∷ b'2' ∷ b'x' ∷ []) ≡ 42
unfolding atoi strtoll digits_value
atoi_stops = refl
