-- ===== src/Client/StressTest/Sends.antt =====
-- What the stress test of PubSub/Client/stress_test.cpp sends.
use ikp_projekat.Common.{
  ℕ, ◌+◌, ◌<◌, ◌≤◌, ◌≡◌, ◌≢◌, refl, true, some, List, [], ◌∷◌, ◌++◌, append_assoc, arith, length,
  ltb, lt→ltb, Bool-cases, inl, inr,
}
use ikp_projekat.Memory.{hashtag}
use ikp_projekat.Memory.Text.{Avoids, terminated, strlen-terminated, load-terminated}
use ikp_projekat.Memory.{malloc, store}
use ikp_projekat.Memory.Decimal.{itoa_s-fits, decimal, digits_onto}
use ikp_projekat.Broker.Parsing.{sent_bytes}
use ikp_projekat.Broker.Execution.Request.{Request}
use ikp_projekat.Client.Command.Bytes.{publish_text, create_command-publish, publish_text-Avoids}
use ikp_projekat.Client.Menu.Actions.{bytes_of}
use ikp_projekat.Client.Receiving.Delivery.{IsDelivery}
use ikp_projekat.Client.StressTest.{
  World, Tester, send_or_exit, choose_topic, toupper, build_message, publish_message,
}
use ikp_projekat.Client.StressTest.Expected.{
  Number, one, two, three, four, five, six, seven, eight, nine, letter_a, letter_b, letter_c,
  character, shown_as, message_text, chosen,
}

-- Every `send` succeeds, and what a reception delivers are messages of the broker's.
pub record GoesWell (w : World) : Type 0 where
  pub sends : (k : ℕ) → w.sends k ≡ true
  pub arrives : (k : ℕ) → IsDelivery (w.arrived k)

pub send_or_exit-text :
    (w : World) (text : List ℕ) (t : Tester)
    → GoesWell w
    → Avoids 0 text
    → send_or_exit w (terminated text []) t
      ≡ some (true, record t { sent = t.sent ++ (terminated text [] ∷ []) })
unfolding send_or_exit sent_bytes
send_or_exit-text w text t well clean =
    rw (strlen-terminated text [] clean, load-terminated text [], well.sends (length t.sent)) refl

decimal-digit : (num : ℕ) → num < 10 → decimal num ≡ (b'0' + num) ∷ []
unfolding decimal digits_onto
decimal-digit num small = rw (lt→ltb num 10 small) refl

toupper-shown_as : (client : Number) → toupper (character client) ≡ shown_as client
unfolding toupper
toupper-shown_as one = refl
toupper-shown_as two = refl
toupper-shown_as three = refl
toupper-shown_as four = refl
toupper-shown_as five = refl
toupper-shown_as six = refl
toupper-shown_as seven = refl
toupper-shown_as eight = refl
toupper-shown_as nine = refl
toupper-shown_as letter_a = refl
toupper-shown_as letter_b = refl
toupper-shown_as letter_c = refl

build_message-text :
    (garbage : ℕ → ℕ) (client : Number) (num : ℕ)
    → num < 10
    → build_message garbage (character client) num ≡ some (terminated (message_text client num) [])
unfolding build_message malloc store
build_message-text garbage client num small =
    rw (toupper-shown_as client, itoa_s-fits 0 num (omega (arith, small)), decimal-digit num small)
      refl

choose_topic-chosen : (w : World) (draws : ℕ) → choose_topic w draws ≡ chosen w.rand draws
unfolding choose_topic
choose_topic-chosen w draws = refl

-- The topic chosen can be sent, and is short.
pub chosen-clean :
    (rand : ℕ → ℕ) (draws : ℕ)
    → Avoids 0 (chosen rand draws).0
      × Avoids hashtag (chosen rand draws).0
      × (length (chosen rand draws).0 ≤ 8)
chosen-clean rand draws = elim (Bool-cases (ltb (rand draws) 10922)) [
  | inl first ↦ rw first (omega arith)
  | inr later ↦ elim (Bool-cases (ltb (rand (draws + 1)) 21844)) [
    | inl second ↦ rw (later, second) (omega arith)
    | inr third ↦ rw (later, third) (omega arith)
  ]
]

shown_as_not_null : (client : Number) → shown_as client ≢ 0
shown_as_not_null one = λ e. omega arith
shown_as_not_null two = λ e. omega arith
shown_as_not_null three = λ e. omega arith
shown_as_not_null four = λ e. omega arith
shown_as_not_null five = λ e. omega arith
shown_as_not_null six = λ e. omega arith
shown_as_not_null seven = λ e. omega arith
shown_as_not_null eight = λ e. omega arith
shown_as_not_null nine = λ e. omega arith
shown_as_not_null letter_a = λ e. omega arith
shown_as_not_null letter_b = λ e. omega arith
shown_as_not_null letter_c = λ e. omega arith

pub message_text-Avoids : (client : Number) (num : ℕ) → Avoids 0 (message_text client num)
message_text-Avoids client num =
    ((λ e. omega arith), (shown_as_not_null client, ((λ e. omega arith), ((λ e. omega arith), tt))))

pub published_one :
    (garbage : ℕ → ℕ) (w : World) (client : Number) (num : ℕ) (t : Tester)
    → GoesWell w
    → num < 10
    → publish_message garbage w (character client) num t
      ≡ some (
        true,
        record t {
          sent =
              t.sent
              ++ (bytes_of (Request.publish (chosen w.rand t.draws).0 (message_text client num))
                  ∷ []);
          draws = (chosen w.rand t.draws).1;
        },
      )
unfolding publish_message
published_one garbage w client num t well small =
    let (clean, plain, short) = chosen-clean w.rand t.draws in
    let clean_message = message_text-Avoids client num in
    let (topic, draws) = chosen w.rand t.draws in
    rw
      (
        choose_topic-chosen w t.draws,
        build_message-text garbage client num small,
        create_command-publish garbage topic [] clean (message_text client num) [] clean_message,
        send_or_exit-text w (publish_text topic (message_text client num)) _ well
            (publish_text-Avoids topic (message_text client num) clean clean_message),
        append_assoc topic (hashtag ∷ message_text client num) (0 ∷ []),
      )
      refl
