-- ===== src/Broker/MessageQueue/Free.antt =====
-- `free_message_queue` frees every node of a queue and nothing else.
use ikp_projekat.Common.{
  ℕ, zero, suc, ◌≤◌, ◌≡◌, refl, true, none, some, [], ◌∷◌, arith, if◌then◌else◌, ==_of_ne, length,
}
use ikp_projekat.Memory.{Block}
use ikp_projekat.Memory.Heap.{Ptr, null, Heap, write}
use ikp_projekat.Memory.Access.{load-ok, free-ok}
use ikp_projekat.Memory.Chain.{Cells, has, first, Linked, frame-write}
use ikp_projekat.Broker.MessageQueue.{MessageQueue, free_nodes, free_message_queue}
use ikp_projekat.Broker.MessageQueue.Refine.{IsQueue, head_not_null}

-- The heap `h` without the nodes of `cs`.
abbrev pub Freed : Heap Block → Cells Block → Heap Block → Type 0
Freed h cs g = (a : Ptr) → g a ≡ (if has a cs then none else h a)

free_nodes-Freed :
    (fuel : ℕ) (h : Heap Block) (cs : Cells Block)
    → length cs ≤ fuel
    → Linked h null cs
    → (g : Heap Block) × (free_nodes (suc fuel) (first null cs) h ≡ some (true, g)) × Freed h cs g
unfolding free_nodes
free_nodes-Freed fuel h [] enough l = (h, refl, λ a. refl)
free_nodes-Freed zero h ((p, m) ∷ cs) enough l = absurd (omega arith)
free_nodes-Freed (suc fuel) h ((p, m) ∷ cs) enough (np, at, out, l) =
    let (g, run, freed) =
      free_nodes-Freed fuel (write h p none) cs (omega arith)
        (frame-write h null cs p none out l) in
    (g, rw (==_of_ne p null np, load-ok h np at, free-ok h np at) run, gone g freed)
  where
    gone : (g : Heap Block) → Freed (write h p none) cs g → Freed h ((p, m) ∷ cs) g
    gone g freed a = ground (arith, freed a)

-- With one round of fuel for each node and one more, `free_message_queue` does not fault, comes to
-- the end of the queue, and leaves the heap without the queue's nodes and otherwise as it was.
pub free_message_queue-Freed :
    (fuel : ℕ) (h : Heap Block) (q : MessageQueue) (cs : Cells Block)
    → length cs ≤ fuel
    → IsQueue h q cs
    → (g : Heap Block) × (free_message_queue (suc fuel) q h ≡ some (true, g)) × Freed h cs g
unfolding free_message_queue
free_message_queue-Freed fuel h q [] enough is = (h, rw is.starts, λ a. refl)
free_message_queue-Freed fuel h q ((p, m) ∷ cs) enough is =
    let (g, run, freed) = free_nodes-Freed fuel h ((p, m) ∷ cs) enough is.linked in
    (g, rw (head_not_null h q p m cs is) (rw is.starts run), freed)
