-- ===== src/Tests/Main.antt =====
-- The broker's main thread at a concrete state.
use ikp_projekat.Common.{
  ℕ, ◌+◌, ◌-◌, ◌≡◌, refl, some, none, List, [], ◌∷◌, arith, length, length-replicate, replicate,
  get_elem?, ap, suc,
}
use ikp_projekat.Memory.{hashtag, same_text}
use ikp_projekat.Memory.Text.{Avoids}
use ikp_projekat.Broker.Topic.{Topic}
use ikp_projekat.Broker.Execution.{Broker, execute_command}
use ikp_projekat.Broker.Execution.Request.{Request, command, perform, named, replaced}
use ikp_projekat.Broker.Execution.Effects.{execute_command-perform, execute_command-other}
use ikp_projekat.Broker.Receiving.{
  Server, Reception, receive_commands, handle_reception, invalid_socket, null_buffer,
}
use ikp_projekat.Broker.Receiving.Frames.{
  frames, done_all, handle_reception-frames, handle_reception_overrun,
}
use ikp_projekat.Broker.Receiving.Closing.{occurrences, Released, receive_commands-closed}

abbrev news : List ℕ
news = b'n' ∷ b'e' ∷ b'w' ∷ b's' ∷ []

abbrev topic : Topic
topic = record {
  name = news;
  message_queue = [];
  subscribers = record { sockets = 5 ∷ 5 ∷ []; size = 2 };
}

abbrev broker : Broker
broker = record { topics = topic ∷ []; notifications = [] }

abbrev server : Server
server = record {
  broker = broker;
  connection_sockets = record { sockets = 5 ∷ []; size = 1 };
  values = λ p. p + 100;
  outgoing = [];
}

abbrev garbage : ℕ → ℕ → ℕ
garbage k i = 9

abbrev hi : Request
hi = Request.publish news (b'h' ∷ b'i' ∷ [])

perform_publishes :
    perform broker 5 hi
    ≡ some (
      record {
        topics = (record topic { message_queue = (hashtag ∷ b'h' ∷ b'i' ∷ 0 ∷ []) ∷ [] }) ∷ [];
        notifications = (hashtag ∷ b'2' ∷ hashtag ∷ b'n' ∷ b'e' ∷ b'w' ∷ b's' ∷ 0 ∷ []) ∷ [];
      },
      none,
    )
unfolding perform named replaced same_text
perform_publishes = refl

execute_command-perform_example :
    execute_command garbage broker hashtag (command hi (0 ∷ [])) 5 ≡ perform broker 5 hi
execute_command-perform_example = execute_command-perform garbage broker (0 ∷ []) 5 hi (omega arith)

execute_command-other_example :
    execute_command garbage broker hashtag (b'7' ∷ 0 ∷ []) 5 ≡ some (broker, none)
execute_command-other_example =
    execute_command-other garbage broker [] 5 b'7' (0 ∷ []) (λ e. omega arith) (λ e. omega arith)
      (λ e. omega arith) (λ e. omega arith) (λ e. omega arith)

abbrev requests : List Request
requests = hi ∷ Request.count news ∷ []

handle_reception-frames_example :
    handle_reception garbage 5
      (receive_commands (Reception.bytes (frames requests [])) 5 null_buffer server)
    ≡ done_all 5 server requests
handle_reception-frames_example =
    handle_reception-frames garbage 5 server requests (omega arith) (omega arith)

Avoids-replicate : (n : ℕ) → Avoids 0 (replicate {A = ℕ} n b'a')
Avoids-replicate ℕ.zero = tt
Avoids-replicate (suc n) = ((λ e. omega arith), Avoids-replicate n)

handle_reception_overrun_example :
    handle_reception garbage 5
      (receive_commands (Reception.bytes (hashtag ∷ replicate 4599 b'a')) 5 null_buffer server)
    ≡ none
handle_reception_overrun_example =
    handle_reception_overrun garbage 5 server (replicate 4599 b'a') null_buffer
      (Avoids-replicate 4599) (ap suc (length-replicate {A = ℕ} 4599 b'a'))
      (length-replicate {A = ℕ} 4600 0)

receive_commands-closed_example :
    let (value, buffer, s') = receive_commands Reception.closed 5 null_buffer server in
    ((i : ℕ) (t : Topic)
      → get_elem? (topic ∷ []) i ≡ some t
      → (t' : Topic) × (get_elem? s'.broker.topics i ≡ some t') × Released 5 t t')
    × (length s'.broker.topics ≡ 1)
    × (occurrences 5 s'.connection_sockets.sockets ≡ occurrences 5 (5 ∷ []) - 1)
    × (s'.values 5 ≡ invalid_socket)
receive_commands-closed_example = receive_commands-closed 5 null_buffer server
