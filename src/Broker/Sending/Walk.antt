-- ===== src/Broker/Sending/Walk.antt =====
-- Whom the walk of PubSub/Broker/outgoing_buffer.cpp sends a message to.
use ikp_projekat.Common.{
  ℕ, zero, suc, ◌<◌, ◌≡◌, refl, Bool, true, Option, none, some, List, [], ◌∷◌, ◌==◌, arith, length,
  Bool-cases, inl, inr, ap, sym, ==_of_ne, ==_refl,
}
use ikp_projekat.Memory.{Block}
use ikp_projekat.Memory.Text.{Avoids, terminated, strlen-terminated, load-terminated}
use ikp_projekat.Memory.Heap.{Ptr, null, Node, node, Heap, Cmd, load, the, ◌>>=◌}
use ikp_projekat.Memory.Access.{load-ok, free-ok, write_self}
use ikp_projekat.Memory.Chain.{Cells, first, Linked}
use ikp_projekat.Broker.OutgoingBuffer.{OneOrMoreSockets}
use ikp_projekat.Broker.Parsing.{sent_bytes}
use ikp_projekat.Broker.SocketList.{SocketList, free_node}
use ikp_projekat.Broker.SocketList.Refine.{IsSocketList}
use ikp_projekat.Broker.SocketList.Close.{Sockets}
use ikp_projekat.Broker.Sending.{
  Send, send_to_client, Others, leave, send_from, send_subscription_message_or_response,
}

-- The other threads only add nodes, at addresses that are not in use: as `add_to_start` does.
abbrev pub OnlyAdds : Others → Type 0
OnlyAdds others =
    (k : ℕ) (h : Heap Ptr) (p : Ptr) (n : Node Ptr) → h p ≡ some n → others k h p ≡ some n

-- The sockets that the socket pointers of some nodes lead to are `values`.
abbrev pub LeadTo : Sockets → Cells Ptr → List ℕ → Type 0
LeadTo sockets [] [] = Unit {0}
LeadTo sockets ((p, x) ∷ cs) (v ∷ vs) = (sockets x ≡ some v) × LeadTo sockets cs vs
LeadTo sockets _ _ = ⊥

-- The heap after the walk has left the critical section for each of some nodes.
abbrev pub after : Others → ℕ → Cells Ptr → Heap Ptr → Heap Ptr
after others k [] h = h
after others k (c ∷ cs) h = after others (suc k) cs (others k h)

-- One call of `send` for each socket, with the whole message.
abbrev pub sends : List ℕ → List ℕ → List Send
sends text [] = []
sends text (v ∷ vs) = record { socket = v; bytes = terminated text [] } ∷ sends text vs

send_to_client-text :
    (v : ℕ) (text rest : List ℕ)
    → Avoids 0 text
    → send_to_client v (terminated text rest)
      ≡ some (record { socket = v; bytes = terminated text [] })
unfolding send_to_client sent_bytes
send_to_client-text v text rest clean =
    rw (strlen-terminated text rest clean, load-terminated text rest) refl

-- Nodes that stay keep a chain.
kept :
    (others : Others) (k : ℕ) (h : Heap Ptr) (cs : Cells Ptr)
    → OnlyAdds others
    → Linked h null cs
    → Linked (others k h) null cs
kept others k h [] adds l = tt
kept others k h ((p, x) ∷ cs) adds (ne, at, out, l) =
    (ne, adds k h p (node x (first null cs)) at, out, kept others k h cs adds l)

send_from_lem :
    (others : Others) (sockets : Sockets) (text rest : List ℕ) (fuel k : ℕ) (h : Heap Ptr)
    (cs : Cells Ptr) (vs : List ℕ)
    → Avoids 0 text
    → OnlyAdds others
    → length cs < fuel
    → Linked h null cs
    → LeadTo sockets cs vs
    → send_from others sockets (terminated text rest) fuel k (first null cs) h
      ≡ some (sends text vs, after others k cs h)
unfolding send_from leave
send_from_lem others sockets text rest zero k h cs vs clean adds enough l to = absurd (omega arith)
send_from_lem others sockets text rest (suc fuel) k h [] [] clean adds enough l to = refl
send_from_lem others sockets text rest (suc fuel) k h [] (v ∷ vs) clean adds enough l to = absurd to
send_from_lem others sockets text rest (suc fuel) k h ((p, x) ∷ cs) [] clean adds enough l to =
    absurd to
send_from_lem others sockets text rest (suc fuel) k h ((p, x) ∷ cs) (v ∷ vs) clean adds enough
      (ne, at, out, l) (here, to) =
    rw
      (
        ==_of_ne p null ne,
        load-ok h ne at,
        here,
        send_to_client-text v text rest clean,
        load-ok (others k h) ne (adds k h p (node x (first null cs)) at),
        send_from_lem others sockets text rest fuel (suc k) (others k h) cs vs clean adds
            (omega arith) (kept others k h cs adds l) to,
      )
      refl

-- A message for a topic's subscribers is sent to each of them once, in the order of the list and
-- whole, where the main thread at most adds subscribers meanwhile; a response goes to its socket.
pub send-OnlyAdds :
    (others : Others) (sockets : Sockets) (text rest : List ℕ) (fuel : ℕ) (h : Heap Ptr)
    (lists : ℕ → SocketList) (cs : Cells Ptr) (vs : List ℕ) (topic v : ℕ)
    → Avoids 0 text
    → OnlyAdds others
    → length cs < fuel
    → IsSocketList h (lists topic) cs
    → LeadTo sockets cs vs
    → (send_subscription_message_or_response others sockets fuel lists
          (record {
            message = some (terminated text rest);
            one_or_more_sockets = OneOrMoreSockets.more topic;
          })
          h
        ≡ some (sends text vs, after others 0 cs h))
      × (send_subscription_message_or_response others sockets fuel lists
            (record {
              message = some (terminated text rest);
              one_or_more_sockets = OneOrMoreSockets.one v;
            })
            h
          ≡ some (sends text (v ∷ []), h))
unfolding send_subscription_message_or_response
send-OnlyAdds others sockets text rest fuel h lists cs vs topic v clean adds enough is to = (
  rw is.starts
      (send_from_lem others sockets text rest fuel 0 h cs vs clean adds enough is.linked to),
  rw (send_to_client-text v text rest clean) refl,
)

-- What goes on with a value that may be missing faults where it faults with every value.
the-faults :
    {B C : Type 0} (o : Option B) (f : B → Cmd Ptr C) (h : Heap Ptr)
    → ((b : B) → f b h ≡ none)
    → (the o >>= f) h ≡ none
the-faults none f h always = refl
the-faults (some b) f h always = always b

-- A subscriber at the head of the list is taken out with its node.
free_node-head :
    (n : ℕ) (l l' : SocketList) (p x : Ptr) (cs : Cells Ptr) (h g : Heap Ptr)
    → IsSocketList h l ((p, x) ∷ cs)
    → free_node n l x h ≡ some ((true, l'), g)
    → g p ≡ none
unfolding free_node
free_node-head n l l' p x cs h g is freed =
    let (ne, at, out, linked) = is.linked in
    let done =
      rw (is.starts, ==_of_ne p null ne, load-ok h ne at, ==_refl x, free-ok h ne at) at freed in
    rw (sym (ap (heap_or h) done)) (write_self h p none)
  where
    heap_or : Heap Ptr → Option ((Bool × SocketList) × Heap Ptr) → Heap Ptr
    heap_or h none = h
    heap_or h (some (r, g)) = g

load-freed : (p : Ptr) (g : Heap Ptr) → g p ≡ none → load p g ≡ none
unfolding load
load-freed p g gone = elim (Bool-cases (p == null)) [
  | inl is ↦ rw is refl
  | inr not_null ↦ rw (not_null, gone) refl
]

send_from-faults :
    (others : Others) (sockets : Sockets) (message : Block) (fuel k : ℕ) (h : Heap Ptr) (p x : Ptr)
    (cs : Cells Ptr)
    → Linked h null ((p, x) ∷ cs)
    → others k h p ≡ none
    → send_from others sockets message fuel k p h ≡ none
unfolding send_from leave
send_from-faults others sockets message zero k h p x cs l gone = refl
send_from-faults others sockets message (suc fuel) k h p x cs (ne, at, out, l) gone =
    rw (==_of_ne p null ne, load-ok h ne at)
      (the-faults (sockets x) _ h (λ v.
        the-faults (send_to_client v message) _ h
          (λ sent. rw (load-freed p (others k h) gone) refl)))

-- The main thread takes the first subscriber out of the list, by `free_node`, while the message is
-- being sent to it: then the walk reads the freed node.
pub send-faults :
    (others : Others) (sockets : Sockets) (message : Block) (fuel n : ℕ) (h g : Heap Ptr)
    (lists : ℕ → SocketList) (l' : SocketList) (p x : Ptr) (cs : Cells Ptr) (topic : ℕ)
    → IsSocketList h (lists topic) ((p, x) ∷ cs)
    → free_node n (lists topic) x h ≡ some ((true, l'), g)
    → others 0 h ≡ g
    → send_subscription_message_or_response others sockets fuel lists
        (record { message = some message; one_or_more_sockets = OneOrMoreSockets.more topic })
        h
      ≡ none
unfolding send_subscription_message_or_response
send-faults others sockets message fuel n h g lists l' p x cs topic is freed at = rw is.starts (
    send_from-faults others sockets message fuel 0 h p x cs is.linked
      (rw at (free_node-head n (lists topic) l' p x cs h g is freed)))
