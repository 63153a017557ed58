-- ===== src/Client/StressTest/Expected.antt =====
-- What the clients of PubSub/Client/stress_test.cpp are to ask for, in literals.
use ikp_projekat.Common.{ℕ, zero, suc, ◌+◌, List, [], ◌∷◌, ◌++◌, map, ltb, if◌then◌else◌}
use ikp_projekat.Broker.Execution.Request.{Request}

-- The twelve clients.
pub data Number : Type 0 where
  one two three four five six seven eight nine letter_a letter_b letter_c : Number

-- The client's number on the command line.
abbrev pub character : Number → ℕ
character one = b'1'
character two = b'2'
character three = b'3'
character four = b'4'
character five = b'5'
character six = b'6'
character seven = b'7'
character eight = b'8'
character nine = b'9'
character letter_a = b'a'
character letter_b = b'b'
character letter_c = b'c'

-- How its messages show it.
abbrev pub shown_as : Number → ℕ
shown_as one = b'1'
shown_as two = b'2'
shown_as three = b'3'
shown_as four = b'4'
shown_as five = b'5'
shown_as six = b'6'
shown_as seven = b'7'
shown_as eight = b'8'
shown_as nine = b'9'
shown_as letter_a = b'A'
shown_as letter_b = b'B'
shown_as letter_c = b'C'

abbrev pub news_topic : List ℕ
news_topic = b'n' ∷ b'e' ∷ b'w' ∷ b's' ∷ []

abbrev pub updates_topic : List ℕ
updates_topic = b'u' ∷ b'p' ∷ b'd' ∷ b'a' ∷ b't' ∷ b'e' ∷ b's' ∷ []

abbrev pub warnings_topic : List ℕ
warnings_topic = b'w' ∷ b'a' ∷ b'r' ∷ b'n' ∷ b'i' ∷ b'n' ∷ b'g' ∷ b's' ∷ []

-- The topics that it subscribes to, in this order.
abbrev pub topics : Number → List (List ℕ)
topics one = news_topic ∷ []
topics two = news_topic ∷ updates_topic ∷ []
topics three = news_topic ∷ warnings_topic ∷ []
topics four = news_topic ∷ updates_topic ∷ warnings_topic ∷ []
topics five = updates_topic ∷ []
topics six = updates_topic ∷ warnings_topic ∷ []
topics seven = updates_topic ∷ news_topic ∷ []
topics eight = news_topic ∷ updates_topic ∷ warnings_topic ∷ []
topics nine = warnings_topic ∷ []
topics letter_a = warnings_topic ∷ updates_topic ∷ []
topics letter_b = warnings_topic ∷ news_topic ∷ []
topics letter_c = news_topic ∷ updates_topic ∷ warnings_topic ∷ []

-- The topic of a message where `draws` results of `rand` are used up, and how many are then: news
-- where the next one is below a third of 32767; else updates where the one behind it is below two
-- thirds; else warnings.
abbrev pub chosen : (rand : ℕ → ℕ) → (draws : ℕ) → List ℕ × ℕ
chosen rand draws =
    if ltb (rand draws) 10922
    then (news_topic, draws + 1)
    else if ltb (rand (draws + 1)) 21844
    then (updates_topic, draws + 2)
    else (warnings_topic, draws + 2)

-- "c1m1" is the first message of client 1, "cAm9" the last one of client a.
abbrev pub message_text : Number → (message_num : ℕ) → List ℕ
message_text client message_num = b'c' ∷ shown_as client ∷ b'm' ∷ (b'0' + message_num) ∷ []

-- The requests to publish that are left, with the message's number and the calls of `rand` so far.
unfoldable pub published : (rand : ℕ → ℕ) → Number → (left message_num draws : ℕ) → List Request
published rand client zero message_num draws = []
published rand client (suc left) message_num draws =
    Request.publish (chosen rand draws).0 (message_text client message_num)
    ∷ published rand client left (message_num + 1) (chosen rand draws).1

-- All that a client asks for.
abbrev pub requests : (rand : ℕ → ℕ) → Number → List Request
requests rand client = map Request.subscribe (topics client) ++ published rand client 9 1 0
