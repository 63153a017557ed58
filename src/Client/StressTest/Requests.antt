-- ===== src/Client/StressTest/Requests.antt =====
-- What the stress test of PubSub/Client/stress_test.cpp asks for: short requests that the broker can read.
use ikp_projekat.Common.{
  ℕ, zero, suc, ◌+◌, ◌*◌, ◌≤◌, ◌≡◌, refl, List, [], ◌∷◌, ◌++◌, map, arith, length, length-append,
}
use ikp_projekat.Memory.{Block, hashtag}
use ikp_projekat.Memory.Text.{Avoids}
use ikp_projekat.Broker.Execution.Request.{Request, WellFormed, topic_of, command}
use ikp_projekat.Broker.Receiving.Frames.{frames, AllWellFormed}
use ikp_projekat.Client.Menu.Actions.{text_of}
use ikp_projekat.Client.StressTest.Expected.{
  Number, one, two, three, four, five, six, seven, eight, nine, letter_a, letter_b, letter_c,
  topics, published, chosen,
}
use ikp_projekat.Client.StressTest.Sends.{message_text-Avoids, chosen-clean}

abbrev pub AllAvoid : ℕ → List (List ℕ) → Type 0
AllAvoid d [] = Unit {0}
AllAvoid d (t ∷ ts) = Avoids d t × AllAvoid d ts

-- Texts that a command can carry, and that are short.
abbrev pub AllSmall : List Request → Type 0
AllSmall [] = Unit {0}
AllSmall (r ∷ rs) =
    (WellFormed r × (length (topic_of r) ≤ 8) × (length (text_of r) ≤ 4)) × AllSmall rs

pub AllSmall-append : (rs qs : List Request) → AllSmall rs → AllSmall qs → AllSmall (rs ++ qs)
AllSmall-append [] qs small small' = small'
AllSmall-append (r ∷ rs) qs (first, small) small' = (first, AllSmall-append rs qs small small')

pub AllSmall-AllWellFormed : (rs : List Request) → AllSmall rs → AllWellFormed rs
AllSmall-AllWellFormed [] small = tt
AllSmall-AllWellFormed (r ∷ rs) (first, small) = (first.0, AllSmall-AllWellFormed rs small)

length-command :
    (r : Request) (rest : Block)
    → length (command r rest) ≤ 4 + length (topic_of r) + length (text_of r) + length rest
length-command (Request.publish t m) rest =
    omega (arith, length-append t (hashtag ∷ m ++ 0 ∷ rest), length-append m (0 ∷ rest))
length-command (Request.subscribe t) rest = omega (arith, length-append t (0 ∷ rest))
length-command (Request.exists t) rest = omega (arith, length-append t (0 ∷ rest))
length-command (Request.count t) rest = omega (arith, length-append t (0 ∷ rest))
length-command (Request.unsubscribe t) rest = omega (arith, length-append t (0 ∷ rest))

pub length-frames : (rs : List Request) → AllSmall rs → length (frames rs []) ≤ 20 * length rs
length-frames [] small = omega arith
length-frames (r ∷ rs) (first, small) =
    omega (arith, length-frames rs small, length-command r (frames rs []), first.1, first.2)

pub published-AllSmall :
    (rand : ℕ → ℕ) (client : Number) (left num draws : ℕ)
    → AllSmall (published rand client left num draws)
unfolding published
published-AllSmall rand client zero num draws = tt
published-AllSmall rand client (suc left) num draws =
    let (clean, plain, short) = chosen-clean rand draws in
    (
      ((clean, plain, message_text-Avoids client num), short, omega arith),
      published-AllSmall rand client left (num + 1) (chosen rand draws).1,
    )

-- At most three topics, each of which can be sent.
abbrev pub AreTopics : List (List ℕ) → Type 0
AreTopics topics =
    AllAvoid 0 topics
    × AllSmall (map Request.subscribe topics)
    × (length (map Request.subscribe topics) ≤ 3)

pub topics-AreTopics : (client : Number) → AreTopics (topics client)
topics-AreTopics one = omega arith
topics-AreTopics two = omega arith
topics-AreTopics three = omega arith
topics-AreTopics four = omega arith
topics-AreTopics five = omega arith
topics-AreTopics six = omega arith
topics-AreTopics seven = omega arith
topics-AreTopics eight = omega arith
topics-AreTopics nine = omega arith
topics-AreTopics letter_a = omega arith
topics-AreTopics letter_b = omega arith
topics-AreTopics letter_c = omega arith

pub length-published :
    (rand : ℕ → ℕ) (client : Number) (left num draws : ℕ)
    → length (published rand client left num draws) ≡ left
unfolding published
length-published rand client zero num draws = refl
length-published rand client (suc left) num draws =
    omega (arith, length-published rand client left (num + 1) (chosen rand draws).1)
