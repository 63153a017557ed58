-- ===== src/Tests/Threads.antt =====
-- A run of the broker's threads of PubSub/Broker/outgoing_buffer.cpp: a published message is sent.
use ikp_projekat.Common.{
  ℕ, ◌+◌, ◌≤◌, ◌≢◌, ◌⊎◌, arith, ◌≡◌, refl, false, some, List, [], ◌∷◌, ◌++◌, replicate, length,
  length-replicate, set,
}
use ikp_projekat.Memory.{Block}
use ikp_projekat.Broker.OutgoingBuffer.{
  OutgoingBufferElement, OutgoingBuffer, produce_new_message, consume, get, put, goes_on,
  initialize_outgoing_buffer, max_outgoing_buffer_size,
}
use ikp_projekat.Broker.OutgoingBuffer.Window.{no_element, contents}
use ikp_projekat.Broker.Threads.{
  ProducerPlace, ConsumerPlace, MainPlace, State, update, topic_element, response_element,
  dequeue_turn, topic_produced, consumed, place_topic, enqueue_step, asleep, asleep_at_queue,
}
use ikp_projekat.Broker.Threads.Steps.{
  Seen, start, Reachable, starts, then_step, enqueues, responds, topic_goes_on, dequeue_turns,
  topic_turn, consumer_goes_on, consume_turn, sends,
}
use ikp_projekat.Broker.Threads.Select.{
  is_for, is_response, select, held, held_response, in_hand, elements,
}
use ikp_projekat.Broker.Threads.InOrder.{
  Reachable-topic_in_order, Reachable-responses_in_order, Reachable-no_lost_wake_up,
}
use ikp_projekat.Broker.Wakes.{
  all_sleeping, all_awake, wakes_none, plain, takes, WakingRun, from_start, then_waking,
}
use ikp_projekat.Broker.Wakes.Runs.{WakingRun-no_lost_wake_up}

abbrev message : Block
message = b'#' ∷ b'h' ∷ 0 ∷ []

abbrev element : OutgoingBufferElement
element = topic_element 1 (some message)

abbrev garbage : List OutgoingBufferElement
garbage = replicate max_outgoing_buffer_size no_element

abbrev published : State
published = enqueue_step 1 message (start garbage)

abbrev dequeuing : State
dequeuing = place_topic 1 ProducerPlace.dequeuing published

abbrev dequeued : State
dequeued = record dequeuing {
  topics = update dequeuing.topics 1 (dequeue_turn false false (dequeuing.topics 1));
}

abbrev produced : State
produced =
    topic_produced 1 (some message)
      (produce_new_message false false dequeued.outgoing_buffer element) dequeued

abbrev getting : State
getting = record produced { consumer = ConsumerPlace.getting }

abbrev emptied : OutgoingBuffer
emptied = record { array = set garbage 0 element; fill_idx = 1; use_idx = 1; count = 0 }

abbrev taken : State
taken = consumed (goes_on element emptied) getting

abbrev sent : State
sent = record taken { consumer = ConsumerPlace.testing; sent = taken.sent ++ (element ∷ []) }

abbrev answered : State
answered = record sent {
  main = MainPlace.responding 7 message;
  responses = sent.responses ++ (response_element 7 message ∷ []);
}

unseen : Seen false false false
unseen = (λ e. e, λ e. e)

reached : Reachable garbage answered
unfolding start initialize_outgoing_buffer dequeue_turn produce_new_message put consume get
reached =
    then_step
      (then_step
        (then_step
          (then_step
            (then_step
              (then_step
                (then_step (then_step starts (enqueues 1 message refl)) (topic_goes_on 1 refl refl))
                (dequeue_turns false false 1 refl unseen))
              (topic_turn false false 1 (some message) refl unseen))
            (consumer_goes_on refl refl))
          (consume_turn false false (goes_on element emptied) refl unseen refl))
        (sends element refl))
      (responds 7 message refl)

clear : answered.flag ≡ false
unfolding start initialize_outgoing_buffer dequeue_turn produce_new_message put consume get
clear = refl

whole : length garbage ≡ max_outgoing_buffer_size
whole = length-replicate max_outgoing_buffer_size no_element

Reachable-topic_in_order_example :
    select (is_for 1) answered.sent
      ++ (select (is_for 1) (in_hand answered.consumer ++ contents answered.outgoing_buffer)
          ++ (held 1 (answered.topics 1).place ++ elements 1 (answered.topics 1).message_queue))
    ≡ elements 1 (answered.topics 1).published
Reachable-topic_in_order_example = Reachable-topic_in_order 1 whole reached clear

Reachable-responses_in_order_example :
    select is_response answered.sent
      ++ (select is_response (in_hand answered.consumer ++ contents answered.outgoing_buffer)
          ++ held_response answered.main)
    ≡ answered.responses
Reachable-responses_in_order_example = Reachable-responses_in_order whole reached clear

Reachable-no_lost_wake_up_example :
    (answered.consumer ≡ asleep → contents answered.outgoing_buffer ≡ [])
    × ((j : ℕ)
        → (answered.topics j).place ≡ asleep_at_queue
        → (answered.topics j).message_queue ≡ [])
Reachable-no_lost_wake_up_example = Reachable-no_lost_wake_up whole reached clear

waking_run : WakingRun 3 garbage taken
unfolding start initialize_outgoing_buffer dequeue_turn produce_new_message put consume get
waking_run =
    then_waking
      (then_waking
        (then_waking
          (then_waking
            (then_waking (then_waking from_start (plain (enqueues 1 message refl) (omega arith)))
              (plain (topic_goes_on 1 refl refl) (omega arith)))
            (plain (dequeue_turns false false 1 refl unseen) (omega arith)))
          (plain (topic_turn false false 1 (some message) refl unseen) (omega arith)))
        (plain (consumer_goes_on refl refl) tt))
      (takes false false element emptied refl unseen refl (wakes_none refl))

taken_clear : taken.flag ≡ false
unfolding start initialize_outgoing_buffer dequeue_turn produce_new_message put consume get
taken_clear = refl

WakingRun-no_lost_wake_up_example :
    (all_sleeping 3 taken ≡ 0)
    ⊎ ((max_outgoing_buffer_size ≤ taken.outgoing_buffer.count + all_awake 3 taken)
        × ((all_awake 3 taken ≢ 0) ⊎ (taken.consumer ≢ asleep)))
WakingRun-no_lost_wake_up_example = WakingRun-no_lost_wake_up 3 whole waking_run taken_clear
