-- ===== src/Broker/Receiving/MainTurn.antt =====
-- A turn of the loop of `main` in PubSub/Broker/broker.cpp, over all connections.
use ikp_projekat.Common.{
  ℕ, ◌+◌, ◌-◌, ◌^◌, ◌<◌, ◌≤◌, ◌≡◌, ◌≢◌, ◌⊎◌, inl, inr, refl, suc, ◌∙◌, Option, some, List, [], ◌∷◌,
  ◌>>=◌, length, arith, ltb, Bool-cases, ==_refl, ==_of_ne,
}
use ikp_projekat.Memory.Heap.{Ptr}
use ikp_projekat.Broker.Execution.Request.{Request}
use ikp_projekat.Broker.Receiving.{
  Server, Arrival, Reception, receive_commands, handle_reception, broker_receive_buffer_size,
  accept_connection, walk, walker_behind, advance, main_turn, null_buffer, admit, set_value,
  invalid_socket,
}
use ikp_projekat.Broker.SocketList.{connection_socket_list_max_size}
use ikp_projekat.Broker.Subscribers.{add}
use ikp_projekat.Broker.Receiving.Frames.{
  frames, AllWellFormed, perform_all, handle_reception-frames,
}
use ikp_projekat.Broker.Receiving.Streams.{bind_cong, bind_assoc, bind_pair}

-- What a client has done since the last turn.
pub data Doing : Type 0 where
  asks : List Request → Doing
  leaves : Doing

-- What `recv` reports of it.
abbrev pub reception_of : Doing → Reception
reception_of (asks []) = Reception.will_block
reception_of (asks (r ∷ rs)) = Reception.bytes (frames (r ∷ rs) [])
reception_of leaves = Reception.closed

-- The server behind the closing of a connection.
abbrev pub left : Ptr → Server → Server
left p s = (receive_commands Reception.closed p [] s).2

-- What follows from what one client has done.
abbrev pub perform_doing : Ptr → Doing → Server → Option Server
perform_doing p (asks rs) s = perform_all p s rs
perform_doing p leaves s = some (left p s)

-- What the clients have done, one connection after the other.
unfoldable pub perform_each : (Ptr → Doing) → List Ptr → Server → Option Server
perform_each doing [] s = some s
perform_each doing (p ∷ ps) s = do s' ← perform_doing p (doing p) s; perform_each doing ps s'

abbrev pub IsReceivable : Doing → Type 0
IsReceivable (asks rs) = AllWellFormed rs × (length (frames rs []) < broker_receive_buffer_size)
IsReceivable leaves = Unit {0}

abbrev pub AreReceivable : (Ptr → Doing) → Type 0
AreReceivable doing = (p : Ptr) → IsReceivable (doing p)

-- The new socket's value, and the others as they were.
abbrev pub ValueSet : Ptr → ℕ → Server → Server → Type 0
ValueSet fresh v s s' = (s'.values fresh ≡ v) × ((q : Ptr) → q ≢ fresh → s'.values q ≡ s.values q)

-- What becomes of an arrival where the list of connections is not full.
abbrev pub Admitted : Ptr → Arrival → Server → Server → Type 0
Admitted fresh Arrival.select_error s s' = s' ≡ s
Admitted fresh Arrival.will_block s s' = s' ≡ s
Admitted fresh Arrival.accept_failed s s' =
    (s' ≡ record s { values = s'.values }) × ValueSet fresh (2 ^ 64 - 1) s s'
Admitted fresh (Arrival.mode_failed v) s s' =
    (s' ≡ record s { values = s'.values }) × ValueSet fresh v s s'
Admitted fresh (Arrival.accepted v) s s' =
    (s' ≡ record s {
      values = s'.values;
      connection_sockets = record {
        sockets = fresh ∷ s.connection_sockets.sockets;
        size = s.connection_sockets.size + 1;
      };
    })
    × ValueSet fresh v s s'

-- The server with the connection that has arrived: it is refused where there are 100000.
abbrev pub Arrived : Ptr → Arrival → Server → Server → Type 0
Arrived fresh arrival s s' =
    ((100000 ≤ s.connection_sockets.size) × (s' ≡ s))
    ⊎ ((s.connection_sockets.size < 100000) × Admitted fresh arrival s s')

set_value-ValueSet :
    (fresh : Ptr) (v : ℕ) (s : Server)
    → ValueSet fresh v s (record s { values = set_value s.values fresh v })
set_value-ValueSet fresh v s =
    (rw (==_refl fresh) refl, λ q other. rw (==_of_ne q fresh other) refl)

admit-Admitted :
    (fresh : Ptr) (arrival : Arrival) (s : Server)
    → Admitted fresh arrival s (admit fresh s arrival)
unfolding add
admit-Admitted fresh Arrival.select_error s = refl
admit-Admitted fresh Arrival.will_block s = refl
admit-Admitted fresh Arrival.accept_failed s = (refl, set_value-ValueSet fresh invalid_socket s)
admit-Admitted fresh (Arrival.mode_failed v) s = (refl, set_value-ValueSet fresh v s)
admit-Admitted fresh (Arrival.accepted v) s = (refl, set_value-ValueSet fresh v s)

accept_connection-Arrived :
    (fresh : Ptr) (arrival : Arrival) (s : Server)
    → Arrived fresh arrival s (accept_connection fresh arrival s)
unfolding accept_connection
accept_connection-Arrived fresh arrival s =
    elim (Bool-cases (ltb connection_socket_list_max_size s.connection_sockets.size)) [
      | inl full ↦ rw full (inl (ground arith, refl))
      | inr room ↦ rw room (inr (ground arith, admit-Admitted fresh arrival s))
    ]

module _ (garbage : ℕ → ℕ → ℕ) (doing : Ptr → Doing) (receivable : AreReceivable doing) where
  handled :
      (p : Ptr) (s : Server) (d : Doing)
      → IsReceivable d
      → handle_reception garbage p (receive_commands (reception_of d) p null_buffer s)
        ≡ (do s' ← perform_doing p d s; some (null_buffer, s'))
  unfolding handle_reception receive_commands perform_all
  handled p s (asks []) is = refl
  handled p s (asks (r ∷ rs)) (well, room) = handle_reception-frames garbage p s (r ∷ rs) well room
  handled p s leaves is = refl

  -- The walker is at the next connection afterwards, whatever the client has done.
  moves_on :
      (p : Ptr) (ps : List Ptr) (s : Server) (d : Doing)
      → advance
          (receive_commands (reception_of d) p null_buffer s).0
          (walker_behind (reception_of d) (p ∷ ps))
        ≡ ps
  unfolding receive_commands
  moves_on p ps s (asks []) = refl
  moves_on p ps s (asks (r ∷ rs)) = refl
  moves_on p ps s leaves = refl

  walk_performs :
      (ps : List Ptr) (s : Server)
      → walk garbage (λ p. reception_of (doing p)) (suc (length ps)) ps null_buffer s
        ≡ (do s' ← perform_each doing ps s; some (null_buffer, s'))
  unfolding walk perform_each
  walk_performs [] s = refl
  walk_performs (p ∷ ps) s =
      rw
        (
          moves_on p ps s (doing p),
          handled p s (doing p) (receivable p),
          bind_pair (perform_doing p (doing p) s) null_buffer
              (λ r. walk garbage (λ q. reception_of (doing q)) (suc (length ps)) ps r.0 r.1),
        )
        (bind_cong (perform_doing p (doing p) s) (walk_performs ps)
          ∙ bind_assoc (perform_doing p (doing p) s) (perform_each doing ps)
              (λ s'. some (null_buffer, s')))

  -- A turn of the main loop: where each client has sent nothing or whole well-formed requests, fewer
  -- bytes than the buffer has, or has closed its connection, the main thread takes in the connection
  -- that has arrived, if there are fewer than 100000: its socket comes first and is counted, and its
  -- pointer leads to it. Then it goes through all connections, the newest one first, and skips none,
  -- also not behind a closed one: it performs what the client asks for, all of it before it goes on,
  -- or removes the connection, reads no byte past the receive buffer, which is null at the beginning
  -- and at the end, and comes to the end of the list.
  pub main_turn-performs :
      (fresh : Ptr) (arrival : Arrival) (s : Server)
      → (s' : Server) × Arrived fresh arrival s s'
        × (main_turn garbage fresh arrival (λ p. reception_of (doing p)) null_buffer s ≡ (do
          s'' ← perform_each doing s'.connection_sockets.sockets s'
          some (null_buffer, s'')))
  unfolding main_turn
  main_turn-performs fresh arrival s = (
    accept_connection fresh arrival s,
    accept_connection-Arrived fresh arrival s,
    walk_performs (accept_connection fresh arrival s).connection_sockets.sockets
        (accept_connection fresh arrival s),
  )
