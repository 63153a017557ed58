-- ===== src/Tests/Lists.antt =====
-- The linked lists at concrete heaps.
use ikp_projekat.Common.{◌+◌, ◌≡◌, refl, true, false, some, none, [], ◌∷◌, ◌++◌, arith}
use ikp_projekat.Memory.{Block, strlen}
use ikp_projekat.Memory.Heap.{Ptr, null, node, Heap, write}
use ikp_projekat.Memory.Chain.{Cells}
use ikp_projekat.Broker.MessageQueue.{
  MessageQueue, enqueue_unsafe, Dequeued, dequeue, free_message_queue,
}
use ikp_projekat.Broker.MessageQueue.Refine.{
  IsQueue, SameOutside, DequeuesRight, enqueue_unsafe_lem, dequeue-DequeuesRight,
}
use ikp_projekat.Broker.MessageQueue.Free.{Freed, free_message_queue-Freed}
use ikp_projekat.Broker.SocketList.{SocketList, add_to_start, free_node}
use ikp_projekat.Broker.SocketList.Refine
use ikp_projekat.Broker.SocketList.Refine.{IsSocketList}
use ikp_projekat.Broker.SocketList.Close.{
  Sockets, close_sockets_and_free_socket_list, close_sockets-faults,
}
use ikp_projekat.Broker.Subscribers.{add, remove}
use ikp_projekat.Broker.Subscribers.Refines.{view, add_to_start_refines, free_node_refines}

abbrev message : Block
message = b'#' ∷ b'a' ∷ 0 ∷ []

-- One message at address 1; the next node will stand at 2.
abbrev heap : Heap Block
heap = write (λ _. none) 1 (some (node message null))

abbrev queue : MessageQueue
queue = record { head = 1; tail = 1 }

abbrev cells : Cells Block
cells = (1, message) ∷ []

queue-IsQueue : IsQueue heap queue cells
queue-IsQueue = record {
  starts = refl;
  ends = λ _. refl;
  linked = ((λ e. omega arith), refl, refl, tt);
}

enqueue_unsafe_lem_example :
    (q' : MessageQueue) × (g : Heap Block) × (enqueue_unsafe 2 queue message heap ≡ some (q', g))
    × IsQueue g q' (cells ++ (2, message) ∷ [])
    × SameOutside (cells ++ (2, message) ∷ []) heap g
unfolding strlen
enqueue_unsafe_lem_example =
    enqueue_unsafe_lem heap 2 message (λ e. omega arith) refl 2 queue cells refl queue-IsQueue

dequeue-DequeuesRight_example :
    (d : Dequeued) × (g : Heap Block) × (dequeue false false queue heap ≡ some (d, g))
    × DequeuesRight false false heap cells d g
dequeue-DequeuesRight_example =
    dequeue-DequeuesRight false false heap queue cells (λ e. cc) queue-IsQueue

free_message_queue-Freed_example :
    (g : Heap Block) × (free_message_queue 2 queue heap ≡ some (true, g)) × Freed heap cells g
free_message_queue-Freed_example =
    free_message_queue-Freed 1 heap queue cells (omega arith) queue-IsQueue

-- Two nodes, for the socket pointers 50 and 60.
abbrev nodes : Heap Ptr
nodes = write (write (λ _. none) 1 (some (node 50 2))) 2 (some (node 60 null))

abbrev sockets : SocketList
sockets = record { head = 1; size = 2 }

abbrev socket_cells : Cells Ptr
socket_cells = (1, 50) ∷ (2, 60) ∷ []

sockets-IsSocketList : IsSocketList nodes sockets socket_cells
sockets-IsSocketList = record {
  starts = refl;
  counted = refl;
  linked = ((λ e. omega arith), refl, refl, ((λ e. omega arith), refl, refl, tt));
}

add_to_start_refines_example :
    (l' : SocketList) × (g : Heap Ptr) × (cs' : Cells Ptr) × (add_to_start 3 sockets 70 nodes
      ≡ some (l', g))
    × IsSocketList g l' cs'
    × (view l' cs' ≡ add (view sockets socket_cells) 70)
add_to_start_refines_example =
    add_to_start_refines nodes 3 sockets 70 socket_cells (λ e. omega arith) refl
      sockets-IsSocketList

free_node_refines_example :
    (l' : SocketList) × (g : Heap Ptr) × (cs' : Cells Ptr) × (free_node 2 sockets 60 nodes
      ≡ some (((remove (view sockets socket_cells) 60).0, l'), g))
    × IsSocketList g l' cs'
    × (view l' cs' ≡ (remove (view sockets socket_cells) 60).1)
    × Refine.SameOutside socket_cells nodes g
free_node_refines_example =
    free_node_refines 2 nodes sockets 60 socket_cells (omega arith) sockets-IsSocketList

-- Both sockets are open.
abbrev open_sockets : Sockets
open_sockets p = some (p + 100)

close_sockets-faults_example :
    close_sockets_and_free_socket_list 5 sockets open_sockets nodes ≡ none
close_sockets-faults_example =
    close_sockets-faults 5 nodes sockets socket_cells open_sockets sockets-IsSocketList refl
