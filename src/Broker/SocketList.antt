-- ===== src/Broker/SocketList.antt =====
-- PubSub/Broker/socket_list.h and socket_list.cpp: a list of pointers to sockets as a linked list on
-- the heap. The critical sections make every function one step. The prints are left out.
pub mod Refine
pub mod Close
use ikp_projekat.Common.{
  ℕ, zero, suc, ◌+◌, ◌-◌, Bool, true, false, Option, none, some, ◌==◌, if◌then◌else◌,
}
use ikp_projekat.Memory.Heap.{Ptr, null, Cmd, pure, ◌>>=◌, ◌>>◌, the, load, alloc, set_next, free}

abbrev pub subscriber_list_max_size : ℕ
subscriber_list_max_size = 99999

abbrev pub connection_socket_list_max_size : ℕ
connection_socket_list_max_size = 99999

-- A node holds a pointer to a socket. `size` is never decremented at 0 (`free_node_lem`).
pub record SocketList : Type 0 where
  pub head : Ptr
  pub size : ℕ

unfoldable pub initialize_socket_list : SocketList
initialize_socket_list = record { head = null; size = 0 }

-- `fresh` is what `malloc` returns.
unfoldable pub add_to_start : Ptr → SocketList → Ptr → Cmd Ptr SocketList
add_to_start fresh l socket_ptr =
    if l.head == null
    then (do alloc fresh socket_ptr null; pure (record { head = fresh; size = l.size + 1 }))
    else (do alloc fresh socket_ptr l.head; pure (record { head = fresh; size = l.size + 1 }))

-- The loop of `free_node`, on fuel: out of fuel it faults.
unfoldable pub unlink_from : ℕ → Ptr → (previous walker : Ptr) → Cmd Ptr Bool
unlink_from zero socket_ptr previous walker = the none
unlink_from (suc fuel) socket_ptr previous walker = if walker == null then pure false else do
  n ← load walker
  if n.item == socket_ptr
      then (do set_next previous n.next; free walker; pure true)
      else unlink_from fuel socket_ptr walker n.next

unfoldable pub free_node : ℕ → SocketList → Ptr → Cmd Ptr (Bool × SocketList)
free_node fuel l socket_ptr = if l.head == null then pure (false, l) else do
  n ← load l.head
  if n.item == socket_ptr
      then (do free l.head; pure (true, record { head = n.next; size = l.size - 1 }))
      else (do
        found ← unlink_from fuel socket_ptr l.head n.next
        pure (found, if found then record l { size = l.size - 1 } else l))
