-- ===== src/Broker/Execution/Effects.antt =====
-- `execute_command` on the bytes of a well-formed request does what the request asks.
use ikp_projekat.Common.{
  ℕ, ◌≡◌, ◌≢◌, none, some, List, [], ◌∷◌, inl, inr, arith, ==_of_ne, ◌+◌, leb, Bool-cases,
}
use ikp_projekat.Memory.{Block, hashtag}
use ikp_projekat.Memory.Heap.{Ptr}
use ikp_projekat.Memory.Text.{Avoids, c_str-terminated}
use ikp_projekat.Memory.Decimal.{itoa_s-head}
use ikp_projekat.Broker.Parsing.Extract.{extract_for_publish_lem, extract_topic_name_lem}
use ikp_projekat.Broker.Parsing.Notify.{notify-publish, notify-plain}
use ikp_projekat.Broker.SocketList.{subscriber_list_max_size}
use ikp_projekat.Broker.Subscribers.{remove}
use ikp_projekat.Broker.Execution.{
  Broker, publish, subscribe, unsubscribe, topic_exists, subscriber_number, notify_if,
  execute_command,
}
use ikp_projekat.Broker.Execution.Request.{Request, command, WellFormed, perform}
use ikp_projekat.Broker.Execution.Lookup.{located}

module _ (garbage : ℕ → ℕ → ℕ) (b : Broker) (rest : Block) (socket : Ptr) (t : List ℕ)
    (clean : Avoids 0 t) where
  publish_performs :
      (m : List ℕ)
      → Avoids hashtag t
      → Avoids 0 m
      → execute_command garbage b hashtag (command (Request.publish t m) rest) socket
        ≡ perform b socket (Request.publish t m)
  unfolding execute_command publish notify_if perform
  publish_performs m plain clean_message = elim (located b.topics t) [
    | inl (absent, unnamed) ↦ rw (
      extract_for_publish_lem garbage t rest clean m plain clean_message,
      c_str-terminated t [] clean,
      absent,
      unnamed,
    )
    | inr (i, x, l) ↦ rw (
      extract_for_publish_lem garbage t rest clean m plain clean_message,
      c_str-terminated t [] clean,
      l.found,
      l.here,
      l.is_named,
      l.in_place,
      notify-publish garbage t rest clean m plain,
    )
  ]

  exists_performs :
      execute_command garbage b hashtag (command (Request.exists t) rest) socket
      ≡ perform b socket (Request.exists t)
  unfolding execute_command topic_exists notify_if perform
  exists_performs = elim (located b.topics t) [
    | inl (absent, unnamed) ↦ rw (
      extract_topic_name_lem garbage t rest clean b'4' (λ e. omega arith),
      c_str-terminated t [] clean,
      absent,
      unnamed,
    )
    | inr (i, x, l) ↦ rw (
      extract_topic_name_lem garbage t rest clean b'4' (λ e. omega arith),
      c_str-terminated t [] clean,
      l.found,
      l.is_named,
      notify-plain garbage t rest clean b'4' (λ e. omega arith) (λ e. omega arith),
    )
  ]

  subscribe_performs :
      execute_command garbage b hashtag (command (Request.subscribe t) rest) socket
      ≡ perform b socket (Request.subscribe t)
  unfolding execute_command subscribe notify_if perform
  subscribe_performs = elim (located b.topics t) [
    | inl (absent, unnamed) ↦ rw (
      extract_topic_name_lem garbage t rest clean b'3' (λ e. omega arith),
      c_str-terminated t [] clean,
      absent,
      unnamed,
    )
    | inr (i, x, l) ↦ elim (Bool-cases (leb x.subscribers.size subscriber_list_max_size)) [
      | inl room ↦ rw (
        extract_topic_name_lem garbage t rest clean b'3' (λ e. omega arith),
        c_str-terminated t [] clean,
        l.found,
        l.here,
        l.is_named,
        room,
        l.in_place,
        notify-plain garbage t rest clean b'3' (λ e. omega arith) (λ e. omega arith),
      )
      | inr full ↦ rw (
        extract_topic_name_lem garbage t rest clean b'3' (λ e. omega arith),
        c_str-terminated t [] clean,
        l.found,
        l.here,
        l.is_named,
        full,
      )
    ]
  ]

  unsubscribe_performs :
      execute_command garbage b hashtag (command (Request.unsubscribe t) rest) socket
      ≡ perform b socket (Request.unsubscribe t)
  unfolding execute_command unsubscribe notify_if perform
  unsubscribe_performs = elim (located b.topics t) [
    | inl (absent, unnamed) ↦ rw (
      extract_topic_name_lem garbage t rest clean b'6' (λ e. omega arith),
      c_str-terminated t [] clean,
      absent,
      unnamed,
    )
    | inr (i, x, l) ↦ elim (Bool-cases (remove x.subscribers socket).0) [
      | inl removed ↦ rw (
        extract_topic_name_lem garbage t rest clean b'6' (λ e. omega arith),
        c_str-terminated t [] clean,
        l.found,
        l.here,
        l.is_named,
        removed,
        l.in_place,
        notify-plain garbage t rest clean b'6' (λ e. omega arith) (λ e. omega arith),
      )
      | inr missing ↦ rw (
        extract_topic_name_lem garbage t rest clean b'6' (λ e. omega arith),
        c_str-terminated t [] clean,
        l.found,
        l.here,
        l.is_named,
        missing,
        l.in_place,
      )
    ]
  ]

  count_performs :
      execute_command garbage b hashtag (command (Request.count t) rest) socket
      ≡ perform b socket (Request.count t)
  unfolding execute_command subscriber_number notify_if perform
  count_performs = elim (located b.topics t) [
    | inl (absent, unnamed) ↦ rw (
      extract_topic_name_lem garbage t rest clean b'5' (λ e. omega arith),
      c_str-terminated t [] clean,
      absent,
      unnamed,
    )
    | inr (i, x, l) ↦
        rw
          (
            extract_topic_name_lem garbage t rest clean b'5' (λ e. omega arith),
            c_str-terminated t [] clean,
            l.found,
            l.here,
            l.is_named,
          )
          (elim (itoa_s-head x.subscribers.size 6) [
            | inl aborts ↦ rw aborts
            | inr (d, ds, e) ↦ rw (
              e,
              ==_of_ne (b'0' + d) hashtag (λ same. omega arith),
              notify-plain garbage t rest clean b'5' (λ e. omega arith) (λ e. omega arith),
            )
          ])
  ]

module _ (garbage : ℕ → ℕ → ℕ) (b : Broker) (rest : Block) (socket : Ptr) where
  -- On the bytes of a well-formed request, wherever in the receive buffer they stand,
  -- `execute_command` has the outcome that `perform` describes: the same topics, the same
  -- notifications, the same response, or an abort of the run-time in the same cases. The bytes that
  -- follow the command do not matter.
  pub execute_command-perform :
      (r : Request)
      → WellFormed r
      → execute_command garbage b hashtag (command r rest) socket ≡ perform b socket r
  execute_command-perform (Request.publish t m) (clean, plain, clean_message) =
      publish_performs garbage b rest socket t clean m plain clean_message
  execute_command-perform (Request.subscribe t) clean =
      subscribe_performs garbage b rest socket t clean
  execute_command-perform (Request.exists t) clean = exists_performs garbage b rest socket t clean
  execute_command-perform (Request.count t) clean = count_performs garbage b rest socket t clean
  execute_command-perform (Request.unsubscribe t) clean =
      unsubscribe_performs garbage b rest socket t clean

  -- A command whose number is none of '2' to '6' changes nothing and has no response.
  pub execute_command-other :
      (c : ℕ) (cs : Block)
      → c ≢ b'2'
      → c ≢ b'3'
      → c ≢ b'4'
      → c ≢ b'5'
      → c ≢ b'6'
      → execute_command garbage b hashtag (c ∷ cs) socket ≡ some (b, none)
  unfolding execute_command
  execute_command-other c cs h2 h3 h4 h5 h6 = rw (
    ==_of_ne c b'2' h2,
    ==_of_ne c b'3' h3,
    ==_of_ne c b'4' h4,
    ==_of_ne c b'5' h5,
    ==_of_ne c b'6' h6,
  )
