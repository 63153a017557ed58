-- ===== src/Tests/MainTurn.antt =====
-- A turn of the loop of `main` in PubSub/Broker/broker.cpp: a connection arrives and subscribes, while
-- of two older ones one publishes and the other closes.
use ikp_projekat.Common.{
  some, ◌>>=◌, ℕ, ◌+◌, ◌≡◌, List, [], ◌∷◌, ◌==◌, if◌then◌else◌, arith, Bool-cases, inl, inr,
}
use ikp_projekat.Memory.Heap.{Ptr}
use ikp_projekat.Broker.Execution.Request.{Request}
use ikp_projekat.Broker.Receiving.{Server, Arrival, null_buffer, main_turn}
use ikp_projekat.Broker.Receiving.MainTurn.{
  Doing, Arrived, reception_of, perform_each, AreReceivable, main_turn-performs,
}

abbrev news : List ℕ
news = b'n' ∷ b'e' ∷ b'w' ∷ b's' ∷ []

abbrev garbage : ℕ → ℕ → ℕ
garbage k i = 9

abbrev server : Server
server = record {
  broker = record {
    topics =
        record { name = news; message_queue = []; subscribers = record { sockets = []; size = 0 } }
        ∷ [];
    notifications = [];
  };
  connection_sockets = record { sockets = 7 ∷ 5 ∷ []; size = 2 };
  values = λ p. p + 100;
  outgoing = [];
}

-- The socket that arrives is at 6; the one at 5 publishes, and the one at 7 has closed its connection.
abbrev doing : Ptr → Doing
doing p =
    if p == 6
    then Doing.asks (Request.subscribe news ∷ [])
    else if p == 7
    then Doing.leaves
    else Doing.asks (Request.publish news (b'h' ∷ b'i' ∷ []) ∷ [])

doing-AreReceivable : AreReceivable doing
doing-AreReceivable p = elim (Bool-cases (p == 6)) [
  | inl same ↦ rw same (omega arith)
  | inr other ↦ elim (Bool-cases (p == 7)) [
    | inl same ↦ rw (other, same) tt
    | inr neither ↦ rw (other, neither) (omega arith)
  ]
]

main_turn-performs_example :
    (s' : Server) × Arrived 6 (Arrival.accepted 77) server s'
    × (main_turn garbage 6 (Arrival.accepted 77) (λ p. reception_of (doing p)) null_buffer server
        ≡ (do s'' ← perform_each doing s'.connection_sockets.sockets s'; some (null_buffer, s'')))
main_turn-performs_example =
    main_turn-performs garbage doing doing-AreReceivable 6 (Arrival.accepted 77) server
