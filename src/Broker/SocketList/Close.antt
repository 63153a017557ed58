-- ===== src/Broker/SocketList/Close.antt =====
-- `close_sockets_and_free_socket_list` of PubSub/Broker/socket_list.cpp.
use ikp_projekat.Common.{
  ℕ, zero, suc, ◌-◌, ◌^◌, ◌≤◌, ◌≡◌, refl, ◌⊎◌, inl, inr, Bool, true, false, ◌||◌, not, Option, none,
  some, [], ◌∷◌, arith, ◌==◌, if◌then◌else◌, ==_of_ne, ==_refl, ==→eq, length, Bool-cases,
  ◌>>=◌ as bind,
}
use ikp_projekat.Memory.Heap.{Ptr, null, Heap, Cmd, pure, ◌>>=◌, ◌>>◌, the, write, load, free}
use ikp_projekat.Memory.Access.{load-ok, free-ok}
use ikp_projekat.Memory.Chain.{Cells, has, first, Linked, frame-write}
use ikp_projekat.Broker.SocketList.{SocketList}
use ikp_projekat.Broker.SocketList.Refine.{IsSocketList}

-- The `SOCKET` objects that socket pointers lead to: the value of each, or `none` once it is freed.
abbrev pub Sockets : Type 0
Sockets = Ptr → Option ℕ

-- `INVALID_SOCKET`
abbrev pub invalid_socket : ℕ
invalid_socket = 2 ^ 64 - 1

abbrev update : Sockets → Ptr → Option ℕ → Sockets
update sockets p v q = if q == p then v else sockets q

-- `*p = v`, which faults where `*p` has been freed.
unfoldable pub assign : Sockets → Ptr → ℕ → Option Sockets
assign sockets p v = bind (sockets p) (λ _. some (update sockets p (some v)))

-- What the loop does with the socket of a node: it leaves one that is closed already, and else
-- closes it, frees the object and then writes to it. `closesocket` concerns the system alone.
unfoldable pub close_socket : Ptr → Sockets → Option Sockets
close_socket p sockets = bind (sockets p) λ value.
    if value == invalid_socket
    then some sockets
    else assign (update sockets p none) p invalid_socket

-- The loop, on fuel: out of fuel it faults.
unfoldable pub close_from : ℕ → Ptr → Sockets → Cmd Ptr Sockets
close_from zero head sockets = the none
close_from (suc fuel) head sockets = if head == null then pure sockets else do
  previous ← load head
  sockets' ← the (close_socket previous.item sockets)
  free head
  close_from fuel previous.next sockets'

unfoldable pub close_sockets_and_free_socket_list :
    ℕ → SocketList → Sockets → Cmd Ptr (SocketList × Sockets)
close_sockets_and_free_socket_list fuel l sockets =
    if l.head == null
    then pure (l, sockets)
    else do sockets' ← close_from fuel l.head sockets; pure (record l { head = null }, sockets')

-- Some node of the list leads to an open socket.
abbrev pub some_open : Sockets → Cells Ptr → Bool
some_open sockets [] = false
some_open sockets ((p, x) ∷ cs) =
    (elim (sockets x) [ none ↦ false | some v ↦ not (v == invalid_socket) ]) || some_open sockets cs

-- Every node of the list leads to a socket that has been closed and not been freed.
abbrev pub AllClosed : Sockets → Cells Ptr → Type 0
AllClosed sockets [] = Unit {0}
AllClosed sockets ((p, x) ∷ cs) = (sockets x ≡ some invalid_socket) × AllClosed sockets cs

-- The loop's body goes on only past a socket that is closed already, and then changes no socket.
close_cases :
    (x : Ptr) (sockets : Sockets)
    → (close_socket x sockets ≡ none)
      ⊎ ((close_socket x sockets ≡ some sockets) × (sockets x ≡ some invalid_socket))
unfolding close_socket assign
close_cases x sockets = cases (sockets x) refl
  where
    cases :
        (o : Option ℕ)
        → sockets x ≡ o
        → (close_socket x sockets ≡ none)
          ⊎ ((close_socket x sockets ≡ some sockets) × (sockets x ≡ some invalid_socket))
    cases none e = inl (rw e)
    cases (some v) e = elim (Bool-cases (v == invalid_socket)) [
      | inl closed ↦ inr (rw (e, closed), rw (==→eq v invalid_socket closed) at e)
      | inr live ↦ inl (rw (e, live, ==_refl x))
    ]

close_from-none :
    (fuel : ℕ) (h : Heap Ptr) (cs : Cells Ptr) (sockets : Sockets)
    → Linked h null cs
    → some_open sockets cs ≡ true
    → close_from fuel (first null cs) sockets h ≡ none
unfolding close_from
close_from-none zero h cs sockets l live = refl
close_from-none (suc fuel) h [] sockets l live = cc
close_from-none (suc fuel) h ((p, x) ∷ cs) sockets (np, at, out, l) live =
    elim (close_cases x sockets) [
      | inl faults ↦ rw (==_of_ne p null np, load-ok h np at, faults)
      | inr (passes, closed) ↦
          rw (==_of_ne p null np, load-ok h np at, passes, free-ok h np at)
            (close_from-none fuel (write h p none) cs sockets (frame-write h null cs p none out l)
              (rw closed at live))
    ]

-- Where a node of the list leads to an open socket, `close_sockets_and_free_socket_list` runs into
-- undefined behaviour, whatever the fuel: it writes to a socket object that it has just freed.
pub close_sockets-faults :
    (fuel : ℕ) (h : Heap Ptr) (l : SocketList) (cs : Cells Ptr) (sockets : Sockets)
    → IsSocketList h l cs
    → some_open sockets cs ≡ true
    → close_sockets_and_free_socket_list fuel l sockets h ≡ none
unfolding close_sockets_and_free_socket_list
close_sockets-faults fuel h l [] sockets is live = cc
close_sockets-faults fuel h l ((p, x) ∷ cs) sockets is live = rw (head_not_null, from_head)
  where
    head_not_null : (l.head == null) ≡ false
    head_not_null = rw is.starts (==_of_ne p null is.linked.0)

    from_head : close_from fuel l.head sockets h ≡ none
    from_head = rw is.starts (close_from-none fuel h ((p, x) ∷ cs) sockets is.linked live)

close_from-closed :
    (fuel : ℕ) (h : Heap Ptr) (cs : Cells Ptr) (sockets : Sockets)
    → length cs ≤ fuel
    → Linked h null cs
    → AllClosed sockets cs
    → (g : Heap Ptr) × (close_from (suc fuel) (first null cs) sockets h ≡ some (sockets, g))
      × ((a : Ptr) → g a ≡ (if has a cs then none else h a))
unfolding close_from close_socket
close_from-closed fuel h [] sockets enough l closed = (h, refl, λ a. refl)
close_from-closed zero h ((p, x) ∷ cs) sockets enough l closed = absurd (omega arith)
close_from-closed (suc fuel) h ((p, x) ∷ cs) sockets enough (np, at, out, l) closed =
    let (g, run, freed) =
      close_from-closed fuel (write h p none) cs sockets (omega arith)
        (frame-write h null cs p none out l) closed.1 in
    (g, rw (==_of_ne p null np, load-ok h np at, passes, free-ok h np at) run, gone g freed)
  where
    passes : close_socket x sockets ≡ some sockets
    passes = rw closed.0

    gone :
        (g : Heap Ptr)
        → ((a : Ptr) → g a ≡ (if has a cs then none else write h p none a))
        → (a : Ptr) → g a ≡ (if has a ((p, x) ∷ cs) then none else h a)
    gone g freed a = ground (arith, freed a)
