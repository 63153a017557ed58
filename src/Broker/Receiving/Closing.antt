-- ===== src/Broker/Receiving/Closing.antt =====
-- What the main thread does when a client has closed its connection.
use ikp_projekat.Common.{
  ℕ, zero, suc, ◌+◌, ◌-◌, ◌≡◌, refl, subst, ap, length, ◌≢◌, some, List, [], ◌∷◌, arith, ◌==◌,
  ==_refl, if◌then◌else◌, Bool-cases, inl, inr, get_elem?,
}
use mathlib.Core.Option.{some-injective}
use ikp_projekat.Memory.{Block}
use ikp_projekat.Memory.Heap.{Ptr}
use ikp_projekat.Broker.Subscribers.{erase, remove}
use ikp_projekat.Broker.Subscribers.Refines.{remove-sockets}
use ikp_projekat.Broker.Topic.{Topic}
use ikp_projekat.Broker.Receiving.{
  Server, Reception, free_everywhere, receive_commands, invalid_socket,
}

-- How often a socket pointer stands in a list.
unfoldable pub occurrences : Ptr → List Ptr → ℕ
occurrences p [] = 0
occurrences p (q ∷ qs) = (if q == p then 1 else 0) + occurrences p qs

pub occurrences-erase_self :
    (p : Ptr) (qs : List Ptr) → occurrences p (erase qs p) ≡ occurrences p qs - 1
unfolding occurrences erase
occurrences-erase_self p [] = omega arith
occurrences-erase_self p (q ∷ qs) = elim (Bool-cases (q == p)) [
  | inl same ↦ rw same (omega arith)
  | inr other ↦ rw (other, occurrences, other) (omega (arith, occurrences-erase_self p qs))
]

pub occurrences-erase_ne :
    (p r : Ptr) (qs : List Ptr) → r ≢ p → occurrences r (erase qs p) ≡ occurrences r qs
unfolding occurrences erase
occurrences-erase_ne p r [] ne = refl
occurrences-erase_ne p r (q ∷ qs) ne = ground (arith, occurrences-erase_ne p r qs)

-- What a topic is after the connection of `p` is closed: it has lost the last subscription of `p`,
-- and nothing else.
pub record Released (p : Ptr) (t t' : Topic) : Type 0 where
  pub same_name : t'.name ≡ t.name
  pub same_queue : t'.message_queue ≡ t.message_queue
  pub one_less : occurrences p t'.subscribers.sockets ≡ occurrences p t.subscribers.sockets - 1
  pub others :
      (r : Ptr) → r ≢ p → occurrences r t'.subscribers.sockets ≡ occurrences r t.subscribers.sockets

released :
    (p : Ptr) (x : Topic) → Released p x (record x { subscribers = (remove x.subscribers p).1 })
released p x = record {
  same_name = refl;
  same_queue = refl;
  one_less = rw (remove-sockets x.subscribers p) (occurrences-erase_self p x.subscribers.sockets);
  others = λ r ne.
      rw (remove-sockets x.subscribers p) (occurrences-erase_ne p r x.subscribers.sockets ne);
}

length-free_everywhere : (p : Ptr) (ts : List Topic) → length (free_everywhere p ts) ≡ length ts
unfolding free_everywhere
length-free_everywhere p [] = refl
length-free_everywhere p (t ∷ ts) = ap suc (length-free_everywhere p ts)

free_everywhere-Released :
    (p : Ptr) (ts : List Topic) (i : ℕ) (t : Topic)
    → get_elem? ts i ≡ some t
    → (t' : Topic) × (get_elem? (free_everywhere p ts) i ≡ some t') × Released p t t'
unfolding free_everywhere
free_everywhere-Released p [] i t h = cc
free_everywhere-Released p (x ∷ ts) (suc i) t h = free_everywhere-Released p ts i t h
free_everywhere-Released p (x ∷ ts) zero t h = (
  record x { subscribers = (remove x.subscribers p).1 },
  refl,
  subst (λ y. Released p y (record x { subscribers = (remove x.subscribers p).1 }))
      (some-injective x t h) (released p x),
)

-- When a client has closed its connection `p`, every topic loses one subscription of `p` if it has
-- any, and nothing else, no topic is added or lost, the connections lose `p` once, and `p` leads to
-- `INVALID_SOCKET` from then on.
pub receive_commands-closed :
    (p : Ptr) (receive_buffer : Block) (s : Server)
    → let (value, buffer, s') = receive_commands Reception.closed p receive_buffer s in
      ((i : ℕ) (t : Topic)
        → get_elem? s.broker.topics i ≡ some t
        → (t' : Topic) × (get_elem? s'.broker.topics i ≡ some t') × Released p t t')
      × (length s'.broker.topics ≡ length s.broker.topics)
      × (occurrences p s'.connection_sockets.sockets
          ≡ occurrences p s.connection_sockets.sockets - 1)
      × (s'.values p ≡ invalid_socket)
unfolding receive_commands
receive_commands-closed p receive_buffer s = (
  free_everywhere-Released p s.broker.topics,
  length-free_everywhere p s.broker.topics,
  rw (remove-sockets s.connection_sockets p)
      (occurrences-erase_self p s.connection_sockets.sockets),
  rw (==_refl p),
)
