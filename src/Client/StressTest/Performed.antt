-- ===== src/Client/StressTest/Performed.antt =====
-- From the stress test of PubSub/Client/stress_test.cpp to what PubSub/Broker/broker.cpp does about it.
use ikp_projekat.Common.{
  ℕ, zero, suc, ◌+◌, ◌<◌, ◌≡◌, refl, ap, ◌∙◌, sym, true, some, List, [], ◌∷◌, ◌++◌, map,
  append_assoc, append-nil, arith, length, length-append, lt→ltb, not_ltb,
}
use mathlib.Core.List.{map-append}
use ikp_projekat.Memory.{Block}
use ikp_projekat.Memory.Heap.{Ptr}
use ikp_projekat.Broker.Execution.Request.{Request}
use ikp_projekat.Broker.Receiving.{
  Server, Reception, receive_commands, handle_reception, null_buffer as broker_buffer,
}
use ikp_projekat.Broker.Receiving.Frames.{frames, frames-append, done_all, handle_reception-frames}
use ikp_projekat.Client.Command.Bytes.{plain_text, create_command-plain, plain_text-Avoids}
use ikp_projekat.Client.Menu.Actions.{bytes_of}
use ikp_projekat.Client.StressTest.{
  World, Tester, TestStep, receive, subscriptions, subscribe_to_topic, subscribe_to_all,
  publish_from, test,
}
use ikp_projekat.Client.Receiving.Delivery.{null_buffer, receive_subscription_messages-null}
use ikp_projekat.Client.StressTest.Expected.{
  Number, one, two, three, four, five, six, seven, eight, nine, letter_a, letter_b, letter_c,
  character, message_text, chosen, topics, published, requests,
}
use ikp_projekat.Client.StressTest.Sends.{GoesWell, send_or_exit-text, published_one}
use ikp_projekat.Client.StressTest.Requests.{
  AllAvoid, AllSmall-append, AllSmall-AllWellFormed, length-frames, published-AllSmall,
  topics-AreTopics, length-published,
}

-- A step goes on with a tester that has sent some more requests, has shown some more receptions, and
-- has a null receive buffer.
abbrev Sends : TestStep → Tester → List Request → ℕ → Type 0
Sends step t rs receptions =
    (t' : Tester) × (step ≡ some (true, t'))
    × (t'.sent ≡ t.sent ++ map bytes_of rs)
    × (length t'.shown ≡ length t.shown + receptions)
    × (t'.receive_buffer ≡ null_buffer)

-- A reception.
receives :
    (w : World) (t : Tester)
    → GoesWell w
    → t.receive_buffer ≡ null_buffer
    → (messages : List (List ℕ)) × (receive w t
        ≡ some (record t { shown = t.shown ++ (messages ∷ []) }))
unfolding receive
receives w t well null =
    let (messages, arrives) =
      receive_subscription_messages-null (w.arrived (length t.shown))
        (well.arrives (length t.shown)) in
    (messages, rw (null, arrives) refl)

publish_from-Sends :
    (garbage : ℕ → ℕ) (w : World) (client : Number) (left num : ℕ) (t : Tester)
    → GoesWell w
    → num + left ≡ 10
    → t.receive_buffer ≡ null_buffer
    → Sends
        (publish_from garbage w (character client) (suc left) num t)
        t
        (published w.rand client left num t.draws)
        left
unfolding publish_from published
publish_from-Sends garbage w client zero num t well bound null =
    (t, rw (not_ltb num 10 (omega (arith, bound))) refl, sym (append-nil t.sent), omega arith, null)
publish_from-Sends garbage w client (suc left) num t well bound null =
    let small : num < 10 = omega (arith, bound) in
    let r = Request.publish (chosen w.rand t.draws).0 (message_text client num) in
    let t1 : Tester = record t {
      sent = t.sent ++ (bytes_of r ∷ []);
      draws = (chosen w.rand t.draws).1;
    } in
    let (messages, arrives) = receives w t1 well null in
    let (t', runs, sent', shown', null') =
      publish_from-Sends garbage w client left (num + 1)
        (record t1 { shown = t.shown ++ (messages ∷ []) }) well (omega (arith, bound)) null in
    (
      t',
      rw (lt→ltb num 10 small, published_one garbage w client num t well small, arrives) runs,
      sent' ∙ append_assoc t.sent (bytes_of r ∷ []) _,
      omega (arith, shown', length-append t.shown (messages ∷ [])),
      null',
    )

subscribe_to_all-Sends :
    (garbage : ℕ → ℕ) (w : World) (topics : List (List ℕ)) (t : Tester)
    → GoesWell w
    → AllAvoid 0 topics
    → subscribe_to_all garbage w topics t
      ≡ some (true, record t { sent = t.sent ++ map bytes_of (map Request.subscribe topics) })
unfolding subscribe_to_all subscribe_to_topic
subscribe_to_all-Sends garbage w [] t well clean = rw (append-nil t.sent) refl
subscribe_to_all-Sends garbage w (topic ∷ topics) t well (clean, clean_rest) =
    rw
      (
        create_command-plain garbage topic [] clean b'3' (λ e. omega arith),
        send_or_exit-text w (plain_text b'3' topic) t well
            (plain_text-Avoids b'3' topic (λ e. omega arith) clean),
        subscribe_to_all-Sends garbage w topics
            (record t { sent = t.sent ++ (bytes_of (Request.subscribe topic) ∷ []) }) well
            clean_rest,
        append_assoc t.sent (bytes_of (Request.subscribe topic) ∷ []),
      )
      refl

-- The blocks one after the other.
abbrev pub joined : List Block → Block
joined [] = []
joined (b ∷ bs) = b ++ joined bs

joined-frames : (rs : List Request) → joined (map bytes_of rs) ≡ frames rs []
joined-frames [] = refl
joined-frames (r ∷ rs) =
    ap (λ l. bytes_of r ++ l) (joined-frames rs) ∙ frames-append (r ∷ []) [] (frames rs [])

abbrev pub new_tester : Tester
new_tester = record { receive_buffer = null_buffer; sent = []; draws = 0; shown = [] }

subscriptions-topics : (client : Number) → subscriptions (character client) ≡ topics client
unfolding subscriptions
subscriptions-topics one = refl
subscriptions-topics two = refl
subscriptions-topics three = refl
subscriptions-topics four = refl
subscriptions-topics five = refl
subscriptions-topics six = refl
subscriptions-topics seven = refl
subscriptions-topics eight = refl
subscriptions-topics nine = refl
subscriptions-topics letter_a = refl
subscriptions-topics letter_b = refl
subscriptions-topics letter_c = refl

-- Where every `send` succeeds, and each `recv` fails, is at the connection's end, would block, or
-- delivers messages of the broker's that the receive buffer has room for, each of the twelve clients
-- of the stress test runs to its end. It has then sent its subscriptions, by the table of topics, and
-- nine messages, "c1m1" to "c1m9" for client 1 and "cAm1" to "cAm9" for client a, each on news,
-- updates or warnings as the results of `rand` say, and has received ten times; and the main thread
-- of a broker that receives all these bytes at once, in a null buffer, performs just these requests, in this order.
pub test-performed :
    (garbage : ℕ → ℕ) (fresh : ℕ → ℕ → ℕ) (w : World) (client : Number) (p : Ptr) (s : Server)
    → GoesWell w
    → (t : Tester) × (test garbage w (character client) new_tester ≡ some (true, t))
      × (t.sent ≡ map bytes_of (requests w.rand client))
      × (length t.shown ≡ 10)
      × (handle_reception fresh p
            (receive_commands (Reception.bytes (joined t.sent)) p broker_buffer s)
          ≡ done_all p s (requests w.rand client))
unfolding test
test-performed garbage fresh w client p s well =
    let (clean, small, few) = topics-AreTopics client in
    let rs = requests w.rand client in
    let subscribing = map Request.subscribe (topics client) in
    let subscribed = record new_tester { sent = map bytes_of subscribing } in
    let (t, runs, sent, shown, null) =
      publish_from-Sends garbage w client 9 1 subscribed well refl refl in
    let (messages, arrives) = receives w t well null in
    let all_small =
      AllSmall-append subscribing (published w.rand client 9 1 0) small
        (published-AllSmall w.rand client 9 1 0) in
    let all_sent : t.sent ≡ map bytes_of rs =
      sent ∙ sym (map-append bytes_of subscribing (published w.rand client 9 1 0)) in
    (
      record t { shown = t.shown ++ (messages ∷ []) },
      rw
          (
            subscriptions-topics client,
            subscribe_to_all-Sends garbage w (topics client) new_tester well clean,
            runs,
            arrives,
          )
          refl,
      all_sent,
      omega (arith, shown, length-append t.shown (messages ∷ [])),
      rw (all_sent, joined-frames rs)
          (handle_reception-frames fresh p s rs (AllSmall-AllWellFormed rs all_small) (
            omega (
              arith,
              length-frames rs all_small,
              length-append subscribing (published w.rand client 9 1 0),
              few,
              length-published w.rand client 9 1 0,
            ))),
    )
