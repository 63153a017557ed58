-- ===== src/Broker/Wakes/Runs.antt =====
-- The threads of PubSub/Broker that sleep at the ring of PubSub/Broker/outgoing_buffer.cpp, in a run.
use ikp_projekat.Common.{
  ℕ, ℕ_discrete, ◌≢◌, ◌+◌, ◌≤◌, ◌≡◌, ap, subst, Bool, false, ◌⊎◌, inl, inr, some, List, ◌∷◌, arith,
  length,
}
use ikp_projekat.Broker.OutgoingBuffer.{
  max_outgoing_buffer_size, OutgoingBufferElement, OutgoingBuffer, Consumed, sleeps, ends, goes_on,
  consume,
}
use ikp_projekat.Broker.OutgoingBuffer.Window.{contents, length-window}
use ikp_projekat.Broker.OutgoingBuffer.Turn.{
  ConsumesRight, produce_new_message-ProducesRight, consume-ConsumesRight,
}
use ikp_projekat.Broker.Threads.{asleep, State, topic_element, response_element}
use ikp_projekat.Broker.Threads.Invariant.{unseen, Holds}
use ikp_projekat.Broker.Threads.Running.{clear_before, Reachable-Holds}
use ikp_projekat.Broker.Threads.Steps.{
  Seen, Step, start, Reachable, starts, then_step, enqueues, responds, main_turn, main_wakes,
  topic_goes_on, topic_ends, dequeue_turns, topic_turn, topic_wakes_at_queue, topic_wakes_at_buffer,
  consumer_goes_on, consumer_ends, consume_turn, consumer_wakes, sends, sends_last, shuts_down,
}
use ikp_projekat.Broker.Shutdown.Measure.{sum_below_none}
use ikp_projekat.Broker.Wakes.{
  awake, main_sleeping, main_awake, all_sleeping, all_awake, wakes_topic, wakes_main, wakes_none,
  IsPlain, WakingStep, plain, takes, WakingRun, from_start, then_waking,
}
use ikp_projekat.Broker.Wakes.Asleep.{
  IsEnough, awake_producer, dequeue_turn-sleeping, topic_goes, topic_turn-IsEnough,
  main_turn-IsEnough, takes-IsEnough,
}

taken_count :
    (e : OutgoingBufferElement) (b b' : OutgoingBuffer)
    → contents b ≡ e ∷ contents b'
    → b.count ≡ b'.count + 1
taken_count e b b' first = omega (
  arith,
  length-window b.array b.use_idx b.count,
  length-window b'.array b'.use_idx b'.count,
  ap length first,
)

-- Without a shutdown the consumer's turn does what it is to do.
turn_right :
    {s : State} (in_loop after_loop : Bool) (c : Consumed)
    → s.flag ≡ false
    → Holds s
    → Seen s.flag in_loop after_loop
    → consume in_loop after_loop s.outgoing_buffer ≡ some c
    → ConsumesRight false false s.outgoing_buffer c
turn_right {s} in_loop after_loop c clear h seen run =
    let (no_loop, no_after) = unseen s.flag in_loop after_loop clear seen in
    let run_clear : consume false false s.outgoing_buffer ≡ some c =
      rw (no_loop, no_after) at run in
    let (c', run', right) = consume-ConsumesRight false h.ring in
    let same : c' ≡ c = cc (run_clear, run') in
    subst (λ x. ConsumesRight false false s.outgoing_buffer x) same right

module _ (n : ℕ) where
  plain-IsEnough :
      {s s' : State} (step : Step s s')
      → IsPlain n step
      → s.flag ≡ false
      → Holds s
      → IsEnough n s
      → IsEnough n s'
  plain-IsEnough {s} (enqueues i message idle) below clear h enough =
      let (same_sleeping, same_awake) = awake_producer (s.topics i).place in
      topic_goes n i _ s below (omega (arith, same_sleeping)) (omega (arith, same_awake)) enough
  plain-IsEnough {s} (responds socket response idle) below clear h enough = elim enough [
    | inl nobody ↦ inl (omega (arith, nobody))
    | inr filled ↦ inr (omega (arith, filled, ap main_awake idle))
  ]
  plain-IsEnough {s} (main_turn in_loop after_loop socket response at seen) below clear h enough =
      let (no_loop, no_after) = unseen s.flag in_loop after_loop clear seen in
      rw (no_loop, no_after)
        (main_turn-IsEnough n socket response _ s at
          (produce_new_message-ProducesRight false false (response_element socket response) h.ring
            (λ e. e))
          enough)
  plain-IsEnough {s} (main_wakes socket response at) below clear h enough = elim enough [
    | inl nobody ↦ absurd (omega (arith, nobody, ap main_sleeping at))
    | inr filled ↦ inr (omega (arith, filled, ap main_awake at))
  ]
  plain-IsEnough {s} (topic_goes_on i at flag) below clear h enough =
      topic_goes n i _ s below (omega arith) (omega (arith, ap awake at)) enough
  plain-IsEnough {s} (topic_ends i at flag) below clear h enough = absurd (cc (flag, clear))
  plain-IsEnough {s} (dequeue_turns in_loop after_loop i at seen) below clear h enough =
      topic_goes n i _ s below
        (omega (arith, dequeue_turn-sleeping in_loop after_loop (s.topics i)))
        (omega (arith, ap awake at)) enough
  plain-IsEnough {s} (topic_turn in_loop after_loop i message at seen) below clear h enough =
      let (no_loop, no_after) = unseen s.flag in_loop after_loop clear seen in
      rw (no_loop, no_after)
        (topic_turn-IsEnough n i message _ s below at
          (produce_new_message-ProducesRight false false (topic_element i message) h.ring (λ e. e))
          enough)
  plain-IsEnough {s} (topic_wakes_at_queue i at) below clear h enough =
      topic_goes n i _ s below (omega arith) (omega (arith, ap awake at)) enough
  plain-IsEnough {s} (topic_wakes_at_buffer i message at) below clear h enough =
      topic_goes n i _ s below (omega arith) (omega (arith, ap awake at)) enough
  plain-IsEnough {s} (consumer_goes_on at flag) below clear h enough = enough
  plain-IsEnough {s} (consumer_ends at flag) below clear h enough = enough
  plain-IsEnough {s} (consume_turn in_loop after_loop sleeps at seen run) below clear h enough =
      enough
  plain-IsEnough {s} (consume_turn in_loop after_loop (ends e b) at seen run) below clear h enough =
      absurd (cc (turn_right in_loop after_loop (ends e b) clear h seen run).0)
  plain-IsEnough {s} (consume_turn in_loop after_loop (goes_on e b) at seen run) below clear h
        enough =
      absurd below
  plain-IsEnough {s} (consumer_wakes at) below clear h enough = enough
  plain-IsEnough {s} (sends e at) below clear h enough = enough
  plain-IsEnough {s} (sends_last e at) below clear h enough = enough
  plain-IsEnough {s} (shuts_down idle) below clear h enough = enough

  -- A run is one of the threads' runs.
  WakingRun-Reachable :
      {garbage : List OutgoingBufferElement} {s : State}
      → WakingRun n garbage s
      → Reachable garbage s
  WakingRun-Reachable from_start = starts
  WakingRun-Reachable (then_waking run (plain step is_plain)) =
      then_step (WakingRun-Reachable run) step
  WakingRun-Reachable
        (then_waking run
          (takes in_loop after_loop e b at seen turn (wakes_topic i message below at_ring))) =
      then_step
        (then_step (WakingRun-Reachable run)
          (consume_turn in_loop after_loop (goes_on e b) at seen turn))
        (topic_wakes_at_buffer i message at_ring)
  WakingRun-Reachable
        (then_waking run
          (takes in_loop after_loop e b at seen turn (wakes_main socket response at_ring))) =
      then_step
        (then_step (WakingRun-Reachable run)
          (consume_turn in_loop after_loop (goes_on e b) at seen turn))
        (main_wakes socket response at_ring)
  WakingRun-Reachable
        (then_waking run (takes in_loop after_loop e b at seen turn (wakes_none nobody))) =
      then_step (WakingRun-Reachable run)
        (consume_turn in_loop after_loop (goes_on e b) at seen turn)

  clear_before_waking : {s s' : State} → WakingStep n s s' → s'.flag ≡ false → s.flag ≡ false
  clear_before_waking (plain step is_plain) clear = clear_before step clear
  clear_before_waking
        (takes in_loop after_loop e b at seen turn (wakes_topic i message below at_ring)) clear =
      clear
  clear_before_waking
        (takes in_loop after_loop e b at seen turn (wakes_main socket response at_ring)) clear =
      clear
  clear_before_waking (takes in_loop after_loop e b at seen turn (wakes_none nobody)) clear = clear

  WakingRun-IsEnough :
      {garbage : List OutgoingBufferElement} {s : State}
      → length garbage ≡ max_outgoing_buffer_size
      → WakingRun n garbage s
      → s.flag ≡ false
      → IsEnough n s
  unfolding start
  WakingRun-IsEnough whole from_start clear = inl (omega (arith, sum_below_none n))
  WakingRun-IsEnough whole (then_waking {s = s} run step) clear =
      let clear' = clear_before_waking step clear in
      let h = Reachable-Holds whole (WakingRun-Reachable run) clear' in
      one_step step clear' h (WakingRun-IsEnough whole run clear')
    where
      one_step :
          {s s' : State}
          → WakingStep n s s'
          → s.flag ≡ false
          → Holds s
          → IsEnough n s
          → IsEnough n s'
      one_step (plain step is_plain) clear' h enough = plain-IsEnough step is_plain clear' h enough
      one_step {s} {s'} (takes in_loop after_loop e b at seen turn wakes) clear' h enough =
          let right = turn_right in_loop after_loop (goes_on e b) clear' h seen turn in
          takes-IsEnough n e b s s' (taken_count e s.outgoing_buffer b right.2) wakes enough

  -- The consumer wakes one sleeping thread for each element that it takes, whichever it is, and
  -- threads may wake for no reason. Then, in every state that the threads reach without a shutdown,
  -- no thread sleeps at the ring, or the elements in the ring and the threads awake in
  -- `produce_new_message` are together at least as many as the ring has places; in the second case
  -- one of those threads is awake, or the consumer does not sleep.
  pub WakingRun-no_lost_wake_up :
      {garbage : List OutgoingBufferElement} {s : State}
      → length garbage ≡ max_outgoing_buffer_size
      → WakingRun n garbage s
      → s.flag ≡ false
      → (all_sleeping n s ≡ 0)
        ⊎ ((max_outgoing_buffer_size ≤ s.outgoing_buffer.count + all_awake n s)
            × ((all_awake n s ≢ 0) ⊎ (s.consumer ≢ asleep)))
  WakingRun-no_lost_wake_up {s = s} whole run clear = elim (WakingRun-IsEnough whole run clear) [
    | inl nobody ↦ inl nobody
    | inr filled ↦ inr (
      filled,
      elim (ℕ_discrete (all_awake n s) 0) [
        | no awake_one ↦ inl awake_one
        | yes none_awake ↦ inr λ consumer_asleep. omega (
          arith,
          filled,
          none_awake,
          (Reachable-Holds whole (WakingRun-Reachable run) clear).waits consumer_asleep,
        )
      ],
    )
  ]
