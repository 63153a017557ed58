-- ===== src/Client/Menu/WrongAnswers.antt =====
-- What the menu of PubSub/Client/Client.cpp shows where no answer of the broker arrives.
use ikp_projekat.Common.{
  ℕ, ◌+◌, ◌≤◌, ◌≡◌, refl, true, some, List, [], ◌∷◌, ◌++◌, arith, length, drop,
}
use ikp_projekat.Memory.{Block, hashtag}
use ikp_projekat.Memory.Text.{Avoids, c_str-terminated}
use ikp_projekat.Network.{bytes, closed}
use ikp_projekat.Broker.Execution.Request.{Request, exists, count, number, topic_of, WellFormed}
use ikp_projekat.Client.Menu.{
  Client, topic_exists, topic_does_not_exist, received_into, show_existence, show_number,
  execute_requested_action, client_receive_buffer_size,
}
use ikp_projekat.Client.Menu.Actions.{typed, IsReady, bytes_of}
use ikp_projekat.Client.Menu.Asking.{over, received-fits, asked, seen}

abbrev pub IsQuestion : Request → Type 0
IsQuestion (exists t) = Unit {0}
IsQuestion (count t) = Unit {0}
IsQuestion r = ⊥

module _ (garbage : ℕ → ℕ) (c : Client) where
  -- The answer to a question is taken from whatever `recv` delivers: where this begins with a
  -- hashtag, as the messages of a subscription do, a connected client shows that the topic does not
  -- exist, for either question, and goes on.
  pub menu_question-message :
      (r : Request) (data' : Block)
      → IsQuestion r
      → WellFormed r
      → length (topic_of r) ≤ 20
      → IsReady c
      → length (hashtag ∷ data') ≤ client_receive_buffer_size
      → seen (execute_requested_action garbage (number r) (typed r (bytes (hashtag ∷ data'))) c)
        ≡ some (c.sent ++ bytes_of r ∷ [], true, topic_does_not_exist (topic_of r) ∷ [])
  unfolding execute_requested_action show_existence show_number
  menu_question-message (exists t) data' asks well fits ready room =
      rw
        (
          asked garbage show_existence b'4' (exists t) c (bytes (hashtag ∷ data'))
              (over (hashtag ∷ data') c.receive_buffer) (λ e. omega arith) (λ e. omega arith) well
              fits (received-fits (hashtag ∷ data') c.receive_buffer ready.receive_buffer room)
              ready,
          c_str-terminated t (drop (length t + 1) c.topic) well,
        )
        refl
  menu_question-message (count t) data' asks well fits ready room =
      rw
        (
          asked garbage show_number b'5' (count t) c (bytes (hashtag ∷ data'))
              (over (hashtag ∷ data') c.receive_buffer) (λ e. omega arith) (λ e. omega arith) well
              fits (received-fits (hashtag ∷ data') c.receive_buffer ready.receive_buffer room)
              ready,
          c_str-terminated t (drop (length t + 1) c.topic) well,
        )
        refl
  menu_question-message (Request.publish t m) data' asks well fits ready room = absurd asks
  menu_question-message (Request.subscribe t) data' asks well fits ready room = absurd asks
  menu_question-message (Request.unsubscribe t) data' asks well fits ready room = absurd asks

  -- Where the connection is closed instead of an answer, option '4' still shows that the topic exists
  -- whenever the buffer holds an earlier answer that said so of any topic, and the client goes on.
  pub menu_question-closed :
      (t rest : List ℕ)
      → Avoids 0 t
      → length t ≤ 20
      → IsReady c
      → c.receive_buffer ≡ b'1' ∷ rest
      → seen (execute_requested_action garbage b'4' (typed (exists t) closed) c)
        ≡ some (c.sent ++ bytes_of (exists t) ∷ [], true, topic_exists t ∷ [])
  unfolding execute_requested_action show_existence received_into
  menu_question-closed t rest well fits ready earlier =
      rw
        (
          asked garbage show_existence b'4' (exists t) c closed c.receive_buffer (λ e. omega arith)
              (λ e. omega arith) well fits refl ready,
          c_str-terminated t (drop (length t + 1) c.topic) well,
          earlier,
        )
        refl
