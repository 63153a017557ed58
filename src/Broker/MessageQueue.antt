-- ===== src/Broker/MessageQueue.antt =====
-- PubSub/Broker/message_queue.h and message_queue.cpp: the queue of a topic's messages as a linked
-- list on the heap. The critical sections make every function one step; what a thread does when it
-- has to wait is `Turn`. The prints are left out.
pub mod Refine
pub mod Free
use ikp_projekat.Common.{
  ℕ, zero, suc, Bool, true, false, ◌&&◌, ◌||◌, not, Option, none, some, ◌==◌, if◌then◌else◌,
}
use ikp_projekat.Memory.{Block, strlen}
use ikp_projekat.Memory.Heap.{
  Ptr, null, Node, Cmd, pure, ◌>>=◌, ◌>>◌, the, load, alloc, set_next, free,
}

-- The pointers to the first and the last node. The tail of an empty queue may point to a node that
-- has been freed.
pub record MessageQueue : Type 0 where
  pub head : Ptr
  pub tail : Ptr

unfoldable pub initialize_message_queue : MessageQueue
initialize_message_queue = record { head = null; tail = null }

-- `fresh` is what `malloc` returns.
unfoldable pub enqueue_unsafe : Ptr → MessageQueue → Block → Cmd Block MessageQueue
enqueue_unsafe fresh q message = do
  _ ← the (strlen message)
  if q.head == null
      then (do alloc fresh message null; pure (record { head = fresh; tail = fresh }))
      else (do
        set_next q.tail fresh
        last ← load q.tail
        alloc last.next message null
        pure (record q { tail = last.next }))

unfoldable pub dequeue_unsafe : MessageQueue → Cmd Block (Option Block × MessageQueue)
dequeue_unsafe q =
    if q.head == null
    then pure (none, q)
    else do head ← load q.head; free q.head; pure (some head.item, record q { head = head.next })

-- What a turn of `dequeue` does: go to sleep on `cond_var_ptr`, or return a message or null.
pub data Dequeued : Type 0 where
  waits : Dequeued
  returns : Option Block → MessageQueue → Dequeued

-- From the loop's test to the sleep or the return. The two flags are what the two calls of
-- `is_shutting_down` return.
unfoldable pub dequeue : (in_loop after_loop : Bool) → MessageQueue → Cmd Block Dequeued
dequeue in_loop after_loop q =
    if (q.head == null) && not in_loop
    then pure waits
    else if after_loop
    then pure (returns none q)
    else (do (message, q') ← dequeue_unsafe q; pure (returns message q'))

-- The loop of `free_message_queue` runs on fuel; the messages of the nodes are not freed. Out of
-- fuel it gives `false`.
unfoldable pub free_nodes : ℕ → Ptr → Cmd Block Bool
free_nodes zero walker = pure false
free_nodes (suc fuel) walker =
    if walker == null then pure true else do n ← load walker; free walker; free_nodes fuel n.next

-- Afterwards the queue's own pointers are as they were.
unfoldable pub free_message_queue : ℕ → MessageQueue → Cmd Block Bool
free_message_queue fuel q = if q.head == null then pure true else free_nodes fuel q.head
