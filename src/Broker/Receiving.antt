-- ===== src/Broker/Receiving.antt =====
-- The main thread's turn: `accept_connection` and `receive_commands` of
-- PubSub/Broker/networking_broker.cpp, `execute_command_and_produce` and
-- `receive_and_execute_commands` of PubSub/Broker/broker.cpp. What the system's socket calls report
-- comes in as a value. The prints are left out.
pub mod Frames
pub mod Streams
pub mod MainTurn
pub mod Closing
use ikp_projekat.Common.{
  ℕ, zero, suc, ◌+◌, ◌-◌, ◌*◌, ◌^◌, Bool, true, false, Option, none, some, List, [], ◌∷◌, ◌++◌, map,
  ◌==◌, ltb, not, if◌then◌else◌, ◌>>=◌, length, replicate, drop,
}
use ikp_projekat.Memory.{Block, hashtag}
use ikp_projekat.Memory.Heap.{Ptr}
use ikp_projekat.Broker.OutgoingBuffer.{OneOrMoreSockets, OutgoingBufferElement}
use ikp_projekat.Broker.SocketList.{connection_socket_list_max_size}
use ikp_projekat.Broker.Subscribers.{Subscribers, add, remove}
use ikp_projekat.Broker.Topic.{Topic}
use ikp_projekat.Broker.Execution.{Broker, execute_command}

-- The macros of PubSub/Common/common.h, as the preprocessor expands them.
abbrev pub max_command_size : ℕ
max_command_size = 20 + 1 + 20 + 1 + 4

abbrev pub broker_receive_buffer_size : ℕ
broker_receive_buffer_size = 100 * max_command_size

-- `INVALID_SOCKET`
abbrev pub invalid_socket : ℕ
invalid_socket = 2 ^ 64 - 1

-- `values p` is the `SOCKET` that `p` points to; `outgoing` is what has been handed to
-- `produce_new_message`, oldest first.
pub record Server : Type 0 where
  pub broker : Broker
  pub connection_sockets : Subscribers
  pub values : Ptr → ℕ
  pub outgoing : List OutgoingBufferElement

abbrev pub set_value : (Ptr → ℕ) → Ptr → ℕ → Ptr → ℕ
set_value values p v q = if q == p then v else values q

-- What `read_check` and then `accept` and `ioctlsocket` report of the welcoming socket.
pub data Arrival : Type 0 where
  select_error will_block accept_failed : Arrival
  mode_failed : ℕ → Arrival
  accepted : ℕ → Arrival

-- `fresh` is the block that `malloc` returns for the new socket.
abbrev pub admit : Ptr → Server → Arrival → Server
admit fresh s Arrival.select_error = s
admit fresh s Arrival.will_block = s
admit fresh s Arrival.accept_failed = record s { values = set_value s.values fresh invalid_socket }
admit fresh s (Arrival.mode_failed v) = record s { values = set_value s.values fresh v }
admit fresh s (Arrival.accepted v) = record s {
  values = set_value s.values fresh v;
  connection_sockets = add s.connection_sockets fresh;
}

unfoldable pub accept_connection : Ptr → Arrival → Server → Server
accept_connection fresh arrival s =
    if ltb connection_socket_list_max_size s.connection_sockets.size
    then s
    else admit fresh s arrival

-- What `read_check` and then `recv` report of a connection.
pub data Reception : Type 0 where
  select_error will_block closed failed : Reception
  bytes : List ℕ → Reception

pub data ReturnValue : Type 0 where
  received not_received deleted : ReturnValue

-- `receive_buffer` as `main` sets it up, and as `memset` leaves it.
abbrev pub null_buffer : Block
null_buffer = replicate broker_receive_buffer_size 0

-- `recv` writes the bytes from the start of the buffer on, and leaves what is behind them.
abbrev pub over : List ℕ → Block → Block
over data' receive_buffer = data' ++ drop (length data') receive_buffer

-- One call of `free_node` on each topic's list.
unfoldable pub free_everywhere : Ptr → List Topic → List Topic
free_everywhere p [] = []
free_everywhere p (t ∷ ts) =
    record t { subscribers = (remove t.subscribers p).1 } ∷ free_everywhere p ts

-- The return value, the receive buffer and the state.
unfoldable pub receive_commands : Reception → Ptr → Block → Server → ReturnValue × Block × Server
receive_commands Reception.select_error p receive_buffer s = (not_received, receive_buffer, s)
receive_commands Reception.will_block p receive_buffer s = (not_received, receive_buffer, s)
receive_commands Reception.failed p receive_buffer s = (not_received, receive_buffer, s)
receive_commands (Reception.bytes data') p receive_buffer s =
    (received, over data' receive_buffer, s)
receive_commands Reception.closed p receive_buffer s = (
  deleted,
  receive_buffer,
  record s {
    broker = record (s.broker) { topics = free_everywhere p s.broker.topics };
    connection_sockets = (remove s.connection_sockets p).1;
    values = set_value s.values p invalid_socket;
  },
)

-- `walker = walker->next`, on the nodes from the walker on.
abbrev pub next : List Ptr → List Ptr
next [] = []
next (p ∷ ps) = ps

-- What `receive_commands` makes of the walker, through `ptr_to_walker`: where the connection is
-- closed, it moves it on before it frees the node.
abbrev pub walker_behind : Reception → List Ptr → List Ptr
walker_behind Reception.closed walker = next walker
walker_behind Reception.select_error walker = walker
walker_behind Reception.will_block walker = walker
walker_behind Reception.failed walker = walker
walker_behind (Reception.bytes data') walker = walker

-- What the loop makes of it: it moves it on unless the node has been deleted.
abbrev pub advance : ReturnValue → List Ptr → List Ptr
advance received walker = next walker
advance not_received walker = next walker
advance deleted walker = walker

-- What becomes of a response: nothing, or an element for the one socket.
abbrev pub respond : Ptr → Server → Broker × Option Block → Server
respond p s (b, none) = record s { broker = b }
respond p s (b, some response) = record s {
  broker = b;
  outgoing =
      s.outgoing
      ++ (record {
        message = some response;
        one_or_more_sockets = OneOrMoreSockets.one (s.values p);
      })
        ∷ [];
}

module _ (garbage : ℕ → ℕ → ℕ) where
  unfoldable pub execute_command_and_produce : ℕ → Block → Ptr → Server → Option Server
  execute_command_and_produce before command p s = do
    done ← execute_command garbage s.broker before command p
    some (respond p s done)

  -- The loop over the commands in the receive buffer, from a position on: `skipping` is the inner
  -- loop, which goes past the next null byte. A read past the buffer is `none`.
  unfoldable pub run_commands : (skipping : Bool) → Ptr → Server → Block → Option Server
  run_commands skipping p s [] = none
  run_commands true p s (c ∷ cs) = run_commands (not (c == 0)) p s cs
  run_commands false p s (c ∷ cs) =
      if c == hashtag
      then (do s' ← execute_command_and_produce c cs p s; run_commands true p s' cs)
      else some s

  -- What follows a call of `receive_commands`: the commands, and then `memset`.
  unfoldable pub handle_reception : Ptr → ReturnValue × Block × Server → Option (Block × Server)
  handle_reception p (received, buffer, s) = do
    s' ← run_commands false p s buffer
    some (null_buffer, s')
  handle_reception p (not_received, buffer, s) = some (buffer, s)
  handle_reception p (deleted, buffer, s) = some (buffer, s)

  -- The walk over the connections, from the walker's node on, with fuel: one round for each node, and
  -- one more. The nodes are given by their sockets; a deleted one is behind the walker by then.
  unfoldable pub walk :
      (Ptr → Reception)
      → (fuel : ℕ) → (walker : List Ptr) → Block
      → Server
      → Option (Block × Server)
  walk receptions zero walker receive_buffer s = none
  walk receptions (suc fuel) [] receive_buffer s = some (receive_buffer, s)
  walk receptions (suc fuel) (p ∷ ps) receive_buffer s = do
    let (return_value, filled, received_by) = receive_commands (receptions p) p receive_buffer s
    let walker' = walker_behind (receptions p) (p ∷ ps)
    (buffer, s') ← handle_reception p (return_value, filled, received_by)
    walk receptions fuel (advance return_value walker') buffer s'

  abbrev pub receive_and_execute_commands :
      (Ptr → Reception) → Block → Server → Option (Block × Server)
  receive_and_execute_commands receptions receive_buffer s =
      let sockets = s.connection_sockets.sockets in
      walk receptions (suc (length sockets)) sockets receive_buffer s

  -- A turn of the loop of `main`: the connection that has arrived, if any, and then all of them.
  unfoldable pub main_turn :
      (fresh : Ptr) → Arrival → (Ptr → Reception) → Block → Server → Option (Block × Server)
  main_turn fresh arrival receptions receive_buffer s =
      receive_and_execute_commands receptions receive_buffer (accept_connection fresh arrival s)
