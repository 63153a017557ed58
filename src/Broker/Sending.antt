-- ===== src/Broker/Sending.antt =====
-- `send_subscription_message_or_response` of PubSub/Broker/outgoing_buffer.cpp: the walk over a
-- topic's subscribers, which leaves the list's critical section around every call of
-- `send_to_client`. The prints are left out.
pub mod Walk
use ikp_projekat.Common.{
  ℕ, zero, suc, Option, none, some, List, [], ◌∷◌, ◌==◌, if◌then◌else◌, ◌>>=◌ as bind,
}
use ikp_projekat.Memory.{Block}
use ikp_projekat.Memory.Heap.{Ptr, null, Heap, Cmd, pure, ◌>>=◌, the, load}
use ikp_projekat.Broker.OutgoingBuffer.{OneOrMoreSockets, OutgoingBufferElement}
use ikp_projekat.Broker.Parsing.{sent_bytes}
use ikp_projekat.Broker.SocketList.{SocketList}
use ikp_projekat.Broker.SocketList.Close.{Sockets}

-- A call of `send`: the socket and the bytes.
pub record Send : Type 0 where
  pub socket : ℕ
  pub bytes : Block

-- `send_to_client`
unfoldable pub send_to_client : ℕ → Block → Option Send
send_to_client connection_socket message =
    bind (sent_bytes message) (λ bytes. some (record { socket = connection_socket; bytes = bytes }))

-- What the other threads do to the list's nodes while the walk has left the critical section for the
-- `k`-th time.
abbrev pub Others : Type 0
Others = ℕ → Heap Ptr → Heap Ptr

unfoldable pub leave : Others → ℕ → Cmd Ptr (Unit {0})
leave others k h = some (tt, others k h)

-- The loop over the nodes, on fuel: out of fuel it faults. `walker` is read again, for its `next`,
-- after the critical section has been left and entered.
unfoldable pub send_from :
    Others → Sockets → Block → (fuel k : ℕ) → (walker : Ptr) → Cmd Ptr (List Send)
send_from others sockets message zero k walker = the none
send_from others sockets message (suc fuel) k walker = if walker == null then pure [] else do
  node ← load walker
  connection_socket ← the (sockets node.item)
  sent ← the (send_to_client connection_socket message)
  _ ← leave others k
  node' ← load walker
  rest ← send_from others sockets message fuel (suc k) node'.next
  pure (sent ∷ rest)

-- `lists` are the topics' lists of subscribers, which an element of many sockets points to. A null
-- `message` is read by `strlen`, which is undefined.
unfoldable pub send_subscription_message_or_response :
    Others
    → Sockets
    → (fuel : ℕ) → (lists : ℕ → SocketList) → OutgoingBufferElement
    → Cmd Ptr (List Send)
send_subscription_message_or_response others sockets fuel lists element = do
  message ← the element.message
  elim element.one_or_more_sockets [
    | OneOrMoreSockets.more topic ↦ send_from others sockets message fuel 0 (lists topic).head
    | OneOrMoreSockets.one connection_socket ↦
        the (send_to_client connection_socket message) >>= λ sent. pure (sent ∷ [])
  ]
