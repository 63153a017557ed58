-- ===== src/Tests/Shutdown.antt =====
-- The shutdown of PubSub/Broker/mad.cpp for three topics, from the threads' start.
use ikp_projekat.Common.{
  ℕ, ◌+◌, ◌*◌, ◌≤◌, ◌≡◌, ◌≢◌, refl, true, List, ◌==◌, not, ◌⊎◌, inl, replicate, arith,
  length-replicate, none,
}
use ikp_projekat.Broker.OutgoingBuffer.{OutgoingBufferElement, max_outgoing_buffer_size}
use ikp_projekat.Broker.OutgoingBuffer.Window.{no_element}
use ikp_projekat.Broker.Threads.{ProducerPlace, State, place_topic}
use ikp_projekat.Broker.Threads.Steps.{start, Reachable, starts, then_step, topic_goes_on}
use ikp_projekat.Broker.Shutdown.{
  over, Ending, begins, goes_to, Created, EndStep, Runs, at_first, one_more, wakes_topic,
  produce_step, waking, wakes_queue,
}
use ikp_projekat.Broker.Shutdown.Ends.{AllEnded}
use ikp_projekat.Broker.Shutdown.Produce.{produce_runs-flag, moved}
use ikp_projekat.Broker.Shutdown.Complete.{shut_down_threads-ends}
use ikp_projekat.Broker.Shutdown.Stuck.{shut_down_threads-stuck}

abbrev topics_num : ℕ
topics_num = 3

abbrev garbage : List OutgoingBufferElement
garbage = replicate max_outgoing_buffer_size no_element

abbrev all_created : Created
all_created = record { topics = λ i. true; consumer = true }

-- The thread of topic 1 was not created.
abbrev one_missing : Created
one_missing = record { topics = λ i. not (i == 1); consumer = true }

-- The thread of topic 0 is in `dequeue`.
abbrev running : State
running = place_topic 0 ProducerPlace.dequeuing (start garbage)

running-Reachable : Reachable garbage running
unfolding start
running-Reachable = then_step starts (topic_goes_on 0 refl refl)

-- The main thread has woken the thread of topic 0, which has then left `dequeue`.
abbrev woken : Ending
woken = goes_to (wakes_queue 0 (begins running).threads) (waking 1)

abbrev some_steps : Ending
some_steps = goes_to (moved 0 (ProducerPlace.producing none) woken.threads) (waking 1)

two_steps :
    (created : Created)
    → created.topics 0 ≡ true
    → Runs topics_num created (begins running) 2 some_steps
unfolding start
two_steps created here = one_more (one_more at_first (wakes_topic 0 refl (omega arith))) (
    produce_step 0 (omega arith) here
      (produce_runs-flag 0 woken.threads ProducerPlace.dequeuing refl refl))

shut_down_threads-ends_example :
    (2 ≤ 5 * topics_num + 6)
    × ((some_steps.phase ≡ over) ⊎ ((e' : Ending) × EndStep topics_num all_created some_steps e'))
    × (some_steps.phase ≡ over → AllEnded topics_num some_steps.threads)
unfolding start
shut_down_threads-ends_example =
    shut_down_threads-ends topics_num all_created
      (length-replicate max_outgoing_buffer_size no_element) running-Reachable refl
      (λ j below. refl, refl) (two_steps all_created refl)

shut_down_threads-stuck_example : some_steps.phase ≢ over
unfolding start
shut_down_threads-stuck_example =
    shut_down_threads-stuck topics_num one_missing
      (length-replicate max_outgoing_buffer_size no_element) running-Reachable refl
      (inl (1, omega arith, refl)) (two_steps one_missing refl)
