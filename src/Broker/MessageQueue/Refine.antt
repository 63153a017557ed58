-- ===== src/Broker/MessageQueue/Refine.antt =====
-- The linked list is a first-in first-out queue of messages.
use ikp_projekat.Common.{
  ℕ, ◌≡◌, refl, sym, ◌≢◌, Bool, true, false, Option, none, some, [], ◌∷◌, ◌++◌, arith, ◌==◌,
  ==_of_ne,
}
use ikp_projekat.Memory.{Block, strlen}
use ikp_projekat.Memory.Heap.{Ptr, null, node, Heap, write, alloc}
use ikp_projekat.Memory.Access.{load-ok, set_next-ok, free-ok, write_self, ne_of_unused}
use ikp_projekat.Memory.Chain.{
  Cells, has, not-has-append, ne_of_not-has-one, has-last_or, has-append, ne_of_has, last_or-append,
  first, last_or, Linked, frame-write,
}
use ikp_projekat.Broker.MessageQueue.{
  MessageQueue, enqueue_unsafe, dequeue_unsafe, Dequeued, waits, returns, dequeue,
}

-- The queue's nodes, first to last. The tail is only known where there is a node.
pub record IsQueue (h : Heap Block) (q : MessageQueue) (cs : Cells Block) : Type 0 where
  pub starts : q.head ≡ first null cs
  pub ends : cs ≢ [] → q.tail ≡ last_or null cs
  pub linked : Linked h null cs

-- `g` differs from `h` at most at the nodes of `cs`.
abbrev pub SameOutside : Cells Block → Heap Block → Heap Block → Type 0
SameOutside cs h g = (p : Ptr) → has p cs ≡ false → g p ≡ h p

module _ (h : Heap Block) (fresh : Ptr) (message : Block) (ne : fresh ≢ null)
    (unused : h fresh ≡ none) where
  -- The heap after the last node `p`, which holds `m`, has been linked to the new one.
  abbrev grown : Ptr → Block → Heap Block
  grown p m = write (write h p (some (node m fresh))) fresh (some (node message null))

  grow :
      (p : Ptr) (m : Block) (cs : Cells Block)
      → Linked h null ((p, m) ∷ cs)
      → (m' : Block) × (h (last_or p cs) ≡ some (node m' null))
        × (last_or p cs ≢ null)
        × Linked (grown (last_or p cs) m') null ((p, m) ∷ cs ++ (fresh, message) ∷ [])
  grow p m [] (np, at, out, l) =
      (m, at, np, (np, ground arith, ground arith, (ne, ground arith, refl, tt)))
  grow p m ((q, n) ∷ cs) (np, at, out, l) =
      let (m', holds, nl, l') = grow q n cs l in (m', holds, nl, (np, kept m', apart, l'))
    where
      new : p ≢ fresh
      new = ne_of_unused h p fresh at unused

      kept : (m' : Block) → grown (last_or q cs) m' p ≡ some (node m q)
      kept m' =
          rw
            (
              ==_of_ne p fresh new,
              ==_of_ne p (last_or q cs) (ne_of_has p _ ((q, n) ∷ cs) out (has-last_or q cs)),
            )
            at

      apart : has p ((q, n) ∷ cs ++ (fresh, message) ∷ []) ≡ false
      apart = rw (has-append p ((q, n) ∷ cs) ((fresh, message) ∷ []), out, ==_of_ne p fresh new)

  -- Given an unused address and a message that is a C string, `enqueue_unsafe` does not fault, adds
  -- the message behind all others, and writes to no node but the new one and the queue's own.
  pub enqueue_unsafe_lem :
      (n : ℕ) (q : MessageQueue) (cs : Cells Block)
      → strlen message ≡ some n
      → IsQueue h q cs
      → (q' : MessageQueue) × (g : Heap Block) × (enqueue_unsafe fresh q message h ≡ some (q', g))
        × IsQueue g q' (cs ++ (fresh, message) ∷ [])
        × SameOutside (cs ++ (fresh, message) ∷ []) h g
  unfolding enqueue_unsafe alloc
  enqueue_unsafe_lem n q [] text is = (
    record { head = fresh; tail = fresh },
    write h fresh (some (node message null)),
    rw (text, is.starts),
    record { starts = refl; ends = λ _. refl; linked = (ne, ground arith, refl, tt) },
    λ p out. ground arith,
  )
  enqueue_unsafe_lem n q ((p, m) ∷ cs) text is =
      let (m', holds, nl, l) = grow p m cs is.linked in
      (
        record q { tail = fresh },
        grown (last_or p cs) m',
        run m' holds nl,
        record {
          starts = is.starts;
          ends = λ _. sym (last_or-append p cs fresh message);
          linked = l;
        },
        same m',
      )
    where
      tail_is : q.tail ≡ last_or p cs
      tail_is = is.ends (λ e. cc)

      head_is : (q.head == null) ≡ false
      head_is = rw is.starts (==_of_ne p null is.linked.0)

      run :
          (m' : Block)
          → h (last_or p cs) ≡ some (node m' null)
          → last_or p cs ≢ null
          → enqueue_unsafe fresh q message h
            ≡ some (record q { tail = fresh }, grown (last_or p cs) m')
      run m' holds nl = rw (
        text,
        head_is,
        tail_is,
        set_next-ok h nl holds fresh,
        load-ok (write h (last_or p cs) (some (node m' fresh))) {n = node m' fresh} nl
            (write_self h (last_or p cs) (some (node m' fresh))),
      )

      same :
          (m' : Block) (a : Ptr)
          → has a ((p, m) ∷ cs ++ (fresh, message) ∷ []) ≡ false
          → grown (last_or p cs) m' a ≡ h a
      same m' a out =
          let (before, behind) = not-has-append a ((p, m) ∷ cs) ((fresh, message) ∷ []) out in
          rw (
            ==_of_ne a fresh (ne_of_not-has-one a fresh message behind),
            ==_of_ne a (last_or p cs) (ne_of_has a _ ((p, m) ∷ cs) before (has-last_or p cs)),
          )

module _ (h : Heap Block) (q : MessageQueue) where
  -- On an empty queue `dequeue_unsafe` returns null and changes nothing.
  dequeue_unsafe-nil : IsQueue h q [] → dequeue_unsafe q h ≡ some ((none, q), h)
  unfolding dequeue_unsafe
  dequeue_unsafe-nil is = rw is.starts

  -- From a queue with a first node `dequeue_unsafe` returns its message, frees it, writes nowhere
  -- else and leaves the queue of the others.
  pub dequeue_unsafe-cons :
      (p : Ptr) (m : Block) (cs : Cells Block)
      → IsQueue h q ((p, m) ∷ cs)
      → (q' : MessageQueue) × (dequeue_unsafe q h ≡ some ((some m, q'), write h p none))
        × IsQueue (write h p none) q' cs
  unfolding dequeue_unsafe
  dequeue_unsafe-cons p m cs is =
      let (np, at, out, l) = is.linked in
      (
        record q { head = first null cs },
        rw (is.starts, ==_of_ne p null np, load-ok h np at, free-ok h np at),
        record {
          starts = refl;
          ends = ends cs is.ends;
          linked = frame-write h null cs p none out l;
        },
      )
    where
      ends :
          (rest : Cells Block)
          → (((p, m) ∷ rest ≢ []) → q.tail ≡ last_or p rest)
          → rest ≢ []
          → q.tail ≡ last_or null rest
      ends [] known filled = absurd (filled refl)
      ends ((r, n) ∷ rest) known filled = known (λ e. cc)

  -- A turn of `dequeue` at an empty queue that saw no shutdown in the loop's test goes to sleep, and
  -- changes nothing.
  dequeue-waits :
      (after_loop : Bool) → IsQueue h q [] → dequeue false after_loop q h ≡ some (waits, h)
  unfolding dequeue
  dequeue-waits after_loop is = rw is.starts

pub head_not_null :
    (h : Heap Block) (q : MessageQueue) (p : Ptr) (m : Block) (cs : Cells Block)
    → IsQueue h q ((p, m) ∷ cs)
    → (q.head == null) ≡ false
head_not_null h q p m cs is = rw is.starts (==_of_ne p null is.linked.0)

-- The first message of a list of nodes, and the nodes behind it.
abbrev pub Returned : Heap Block → Cells Block → Option Block → Heap Block → MessageQueue → Type 0
Returned h [] message g q = ⊥
Returned h ((p, m) ∷ cs) message g q = (message ≡ some m) × (g ≡ write h p none) × IsQueue g q cs

-- What is allowed of a turn of `dequeue` with the two flags: it sleeps only at an empty queue where
-- no shutdown was seen; it returns null, with nothing changed, only where a shutdown was seen; and
-- otherwise it returns the first message and leaves the queue of the others.
abbrev pub DequeuesRight :
    (in_loop after_loop : Bool) → Heap Block → Cells Block → Dequeued → Heap Block → Type 0
DequeuesRight in_loop after_loop h cs waits g = (cs ≡ []) × (in_loop ≡ false) × (g ≡ h)
DequeuesRight in_loop true h cs (returns message q) g = (message ≡ none) × (g ≡ h) × IsQueue g q cs
DequeuesRight in_loop false h cs (returns message q) g = Returned h cs message g q

-- Every turn of `dequeue` at a queue returns without a fault and does what `DequeuesRight` allows,
-- where a shutdown that the loop's test saw is still seen after the loop.
pub dequeue-DequeuesRight :
    (in_loop after_loop : Bool) (h : Heap Block) (q : MessageQueue) (cs : Cells Block)
    → (in_loop ≡ true → after_loop ≡ true)
    → IsQueue h q cs
    → (d : Dequeued) × (g : Heap Block) × (dequeue in_loop after_loop q h ≡ some (d, g))
      × DequeuesRight in_loop after_loop h cs d g
unfolding dequeue
dequeue-DequeuesRight true false h q cs kept is = cc (kept refl)
dequeue-DequeuesRight true true h q cs kept is = (returns none q, h, ground arith, (refl, refl, is))
dequeue-DequeuesRight false true h q [] kept is = (waits, h, rw is.starts, (refl, refl, refl))
dequeue-DequeuesRight false false h q [] kept is = (waits, h, rw is.starts, (refl, refl, refl))
dequeue-DequeuesRight false true h q ((p, m) ∷ cs) kept is =
    (returns none q, h, rw (head_not_null h q p m cs is), (refl, refl, is))
dequeue-DequeuesRight false false h q ((p, m) ∷ cs) kept is =
    let (q', run, is') = dequeue_unsafe-cons h q p m cs is in
    (returns (some m) q', write h p none, rw (head_not_null h q p m cs is, run), (refl, refl, is'))
