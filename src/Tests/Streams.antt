-- ===== src/Tests/Streams.antt =====
-- The receptions of a publish command and a question, in one reception, in two, and cut in a message.
use ikp_projekat.Common.{ℕ, ◌+◌, ◌≡◌, List, [], ◌∷◌, map, arith}
use ikp_projekat.Broker.Execution.Request.{Request}
use ikp_projekat.Broker.Receiving.{Server, null_buffer}
use ikp_projekat.Broker.Receiving.Frames.{frames, done_all}
use ikp_projekat.Broker.Receiving.Streams.{
  all_requests, handle_receptions, handle_receptions-frames, handle_receptions-cut,
}
use ikp_projekat.Client.Command.Bytes.{publish_text}

abbrev news : List ℕ
news = b'n' ∷ b'e' ∷ b'w' ∷ b's' ∷ []

abbrev garbage : ℕ → ℕ → ℕ
garbage k i = 9

abbrev server : Server
server = record {
  broker = record {
    topics =
        record {
          name = news;
          message_queue = [];
          subscribers = record { sockets = 5 ∷ []; size = 1 };
        }
        ∷ [];
    notifications = [];
  };
  connection_sockets = record { sockets = 5 ∷ []; size = 1 };
  values = λ p. p + 100;
  outgoing = [];
}

abbrev hi : List ℕ
hi = b'h' ∷ b'i' ∷ []

abbrev receptions : List (List Request)
receptions =
    (Request.publish news hi ∷ []) ∷ (Request.count news ∷ Request.publish news hi ∷ []) ∷ []

handle_receptions-frames_example :
    handle_receptions garbage 5 (map (λ rs. frames rs []) receptions) null_buffer server
    ≡ done_all 5 server (all_requests receptions)
handle_receptions-frames_example =
    handle_receptions-frames garbage 5 receptions server (omega arith)

handle_receptions-cut_example :
    handle_receptions garbage 5
      (publish_text news hi ∷ (b'!' ∷ b'!' ∷ 0 ∷ []) ∷ [])
      null_buffer
      server
    ≡ done_all 5 server (Request.publish news hi ∷ [])
handle_receptions-cut_example =
    handle_receptions-cut garbage 5 news hi (b'!' ∷ 0 ∷ []) b'!' server (omega arith)
      (λ e. omega arith) (omega arith)
