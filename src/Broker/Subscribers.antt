-- ===== src/Broker/Subscribers.antt =====
-- A socket list as a client of PubSub/Broker/socket_list.cpp sees it: the socket pointers, newest
-- first, and the count. `SocketList` is the linked list behind it.
pub mod Refines
use ikp_projekat.Common.{ℕ, ◌+◌, ◌-◌, Bool, true, false, List, [], ◌∷◌, ◌==◌, if◌then◌else◌}
use ikp_projekat.Memory.Heap.{Ptr}

pub record Subscribers : Type 0 where
  pub sockets : List Ptr
  pub size : ℕ

unfoldable pub none_yet : Subscribers
none_yet = record { sockets = []; size = 0 }

unfoldable pub contains : List Ptr → Ptr → Bool
contains [] s = false
contains (x ∷ xs) s = if x == s then true else contains xs s

-- The list without the first occurrence of `s`.
unfoldable pub erase : List Ptr → Ptr → List Ptr
erase [] s = []
erase (x ∷ xs) s = if x == s then xs else x ∷ erase xs s

unfoldable pub add : Subscribers → Ptr → Subscribers
add l s = record { sockets = s ∷ l.sockets; size = l.size + 1 }

unfoldable pub remove : Subscribers → Ptr → Bool × Subscribers
remove l s =
    if contains l.sockets s
    then (true, record { sockets = erase l.sockets s; size = l.size - 1 })
    else (false, l)
