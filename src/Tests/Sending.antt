-- ===== src/Tests/Sending.antt =====
-- PubSub/Broker/outgoing_buffer.cpp sends to two subscribers, undisturbed and disturbed.
use ikp_projekat.Common.{ℕ, ◌+◌, ◌≡◌, refl, true, some, none, List, [], ◌∷◌, arith}
use ikp_projekat.Memory.Text.{terminated}
use ikp_projekat.Memory.Heap.{Ptr, null, node, Heap, write, load, free}
use ikp_projekat.Memory.Chain.{Cells}
use ikp_projekat.Broker.OutgoingBuffer.{OneOrMoreSockets}
use ikp_projekat.Broker.SocketList.{SocketList, free_node}
use ikp_projekat.Broker.SocketList.Refine.{IsSocketList}
use ikp_projekat.Broker.SocketList.Close.{Sockets}
use ikp_projekat.Broker.Sending.{Others, send_subscription_message_or_response}
use ikp_projekat.Broker.Sending.Walk.{after, sends, send-OnlyAdds, send-faults}

abbrev text : List ℕ
text = b'#' ∷ b'h' ∷ b'i' ∷ []

abbrev nodes : Heap Ptr
nodes = write (write (λ _. none) 1 (some (node 50 2))) 2 (some (node 60 null))

abbrev subscribers : ℕ → SocketList
subscribers topic = record { head = 1; size = 2 }

abbrev cells : Cells Ptr
cells = (1, 50) ∷ (2, 60) ∷ []

abbrev sockets : Sockets
sockets p = some (p + 100)

subscribers-IsSocketList : IsSocketList nodes (subscribers 0) cells
subscribers-IsSocketList = record {
  starts = refl;
  counted = refl;
  linked = ((λ e. omega arith), refl, refl, ((λ e. omega arith), refl, refl, tt));
}

abbrev nothing_else : Others
nothing_else k h = h

send-OnlyAdds_example :
    (send_subscription_message_or_response nothing_else sockets 3 subscribers
        (record {
          message = some (terminated text []);
          one_or_more_sockets = OneOrMoreSockets.more 0;
        })
        nodes
      ≡ some (sends text (150 ∷ 160 ∷ []), after nothing_else 0 cells nodes))
    × (send_subscription_message_or_response nothing_else sockets 3 subscribers
          (record {
            message = some (terminated text []);
            one_or_more_sockets = OneOrMoreSockets.one 7;
          })
          nodes
        ≡ some (sends text (7 ∷ []), nodes))
send-OnlyAdds_example =
    send-OnlyAdds nothing_else sockets text [] 3 nodes subscribers cells (150 ∷ 160 ∷ []) 0 7
      (λ e. omega arith, (λ e. omega arith, (λ e. omega arith, tt))) (λ k h p n e. e) (omega arith)
      subscribers-IsSocketList (refl, (refl, tt))

-- The first subscriber is taken out.
abbrev removal : Others
removal k h = write nodes 1 none

removed :
    free_node 2 (subscribers 0) 50 nodes
    ≡ some ((true, record { head = 2; size = 1 }), write nodes 1 none)
unfolding free_node load free
removed = refl

send-faults_example :
    send_subscription_message_or_response removal sockets 3 subscribers
      (record {
        message = some (terminated text []);
        one_or_more_sockets = OneOrMoreSockets.more 0;
      })
      nodes
    ≡ none
send-faults_example =
    send-faults removal sockets (terminated text []) 3 2 nodes (write nodes 1 none) subscribers
      (record { head = 2; size = 1 }) 1 50 ((2, 60) ∷ []) 0 subscribers-IsSocketList removed refl
