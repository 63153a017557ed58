-- ===== src/StatsManager/Notifications/Gains.antt =====
-- What each counter of PubSub/StatsManager/notification_handling.cpp gains by a buffer of
-- notifications, told by the topic's name and the notification's number.
use ikp_projekat.Common.{
  ℕ, suc, ◌+◌, ◌%◌, ◌^◌, ◌≡◌, refl, ◌≢◌, ◌∙◌, sym, ap, true, some, none, List, [], ◌∷◌, arith,
  length, Bool-cases, inl, inr,
}
use mathlib.Core.Option.{some-injective}
use ikp_projekat.Memory.{Block, hashtag, same_text}
use ikp_projekat.Memory.Text.{same_text→eq}
use ikp_projekat.StatsManager.Notifications.{
  TopicStats, TopicStatsArray, Topic, get_topic_stats, count_notification, stats_of,
  handle_notifications,
}
use ikp_projekat.StatsManager.Notifications.Counting.{
  Notice, IsProper, AllProper, notices, counted_times, counted_times-other,
  handle_notifications-counted_times,
}

-- A 64-bit counter gains `k` where `P` holds, and keeps its value where it does not.
abbrev pub Gains : Type 0 → ℕ → ℕ → ℕ → Type 0
Gains P k before after = (P → after ≡ (before + k) % 2 ^ 64) × (¬ P → after ≡ before)

-- The number of a command and the counter that is its own.
pub record Counts (k type : ℕ) (x x' : TopicStats) : Type 0 where
  pub publish : Gains (type ≡ b'2') k x.publish_commands_num x'.publish_commands_num
  pub subscribe : Gains (type ≡ b'3') k x.subscribe_commands_num x'.subscribe_commands_num
  pub topic_exists : Gains (type ≡ b'4') k x.topic_exists_commands_num x'.topic_exists_commands_num
  pub subscriber_number :
      Gains (type ≡ b'5') k x.subscriber_number_commands_num x'.subscriber_number_commands_num
  pub unsubscribe : Gains (type ≡ b'6') k x.unsubscribe_commands_num x'.unsubscribe_commands_num

step : (type : ℕ) (x : TopicStats) → Counts 1 type x (count_notification type x)
unfolding count_notification
step type x = record {
  publish = ground arith;
  subscribe = ground arith;
  topic_exists = ground arith;
  subscriber_number = ground arith;
  unsubscribe = ground arith;
}

Gains-next : {P : Type 0} (k x y z : ℕ) → Gains P 1 x y → Gains P k y z → Gains P (suc k) x z
Gains-next k x y z first others = (
  (λ p. omega (arith, first.0 p, others.0 p)),
  (λ none_left. others.1 none_left ∙ first.1 none_left),
)

Counts-next :
    (k type : ℕ) (x y z : TopicStats)
    → Counts 1 type x y
    → Counts k type y z
    → Counts (suc k) type x z
Counts-next k type x y z first others = record {
  publish = Gains-next k _ _ _ first.publish others.publish;
  subscribe = Gains-next k _ _ _ first.subscribe others.subscribe;
  topic_exists = Gains-next k _ _ _ first.topic_exists others.topic_exists;
  subscriber_number = Gains-next k _ _ _ first.subscriber_number others.subscriber_number;
  unsubscribe = Gains-next k _ _ _ first.unsubscribe others.unsubscribe;
}

-- The topic that a name stands for.
counted-Counts :
    (t : Topic) (n : Notice) (a : TopicStatsArray)
    → get_topic_stats n.topic ≡ some t
    → Counts 1 n.type (stats_of t a) (stats_of t (counted_times 1 n a))
counted-Counts Topic.news n a named = rw named (step n.type a.news)
counted-Counts Topic.updates n a named = rw named (step n.type a.updates)
counted-Counts Topic.warnings n a named = rw named (step n.type a.warnings)

counted_times-Counts :
    (k : ℕ) (t : Topic) (n : Notice) (a : TopicStatsArray)
    → get_topic_stats n.topic ≡ some t
    → Counts (suc k) n.type (stats_of t a) (stats_of t (counted_times (suc k) n a))
counted_times-Counts ℕ.zero t n a named = counted-Counts t n a named
counted_times-Counts (suc k) t n a named =
    Counts-next (suc k) n.type (stats_of t a) _ _ (counted-Counts t n a named)
      (counted_times-Counts k t n (counted_times 1 n a) named)

-- What the counters of the topic `name` do where the notice is `k` times in the buffer.
abbrev pub TopicCounts : List ℕ → ℕ → Notice → TopicStats → TopicStats → Type 0
TopicCounts name k n x x' = (n.topic ≡ name → Counts k n.type x x') × (n.topic ≢ name → x' ≡ x)

pub record ArrayCounts (k : ℕ) (n : Notice) (a a' : TopicStatsArray) : Type 0 where
  pub news : TopicCounts (b'n' ∷ b'e' ∷ b'w' ∷ b's' ∷ []) k n a.news a'.news
  pub updates :
      TopicCounts (b'u' ∷ b'p' ∷ b'd' ∷ b'a' ∷ b't' ∷ b'e' ∷ b's' ∷ []) k n a.updates a'.updates
  pub warnings :
      TopicCounts
        (b'w' ∷ b'a' ∷ b'r' ∷ b'n' ∷ b'i' ∷ b'n' ∷ b'g' ∷ b's' ∷ [])
        k
        n
        a.warnings
        a'.warnings

abbrev name_of : Topic → List ℕ
name_of Topic.news = b'n' ∷ b'e' ∷ b'w' ∷ b's' ∷ []
name_of Topic.updates = b'u' ∷ b'p' ∷ b'd' ∷ b'a' ∷ b't' ∷ b'e' ∷ b's' ∷ []
name_of Topic.warnings = b'w' ∷ b'a' ∷ b'r' ∷ b'n' ∷ b'i' ∷ b'n' ∷ b'g' ∷ b's' ∷ []

get_topic_stats-name_of : (t : Topic) → get_topic_stats (name_of t) ≡ some t
unfolding get_topic_stats same_text
get_topic_stats-name_of Topic.news = refl
get_topic_stats-name_of Topic.updates = refl
get_topic_stats-name_of Topic.warnings = refl

named-get_topic_stats : (t : Topic) (s : List ℕ) → get_topic_stats s ≡ some t → s ≡ name_of t
unfolding get_topic_stats
named-get_topic_stats t s found = elim (Bool-cases (same_text s (name_of Topic.news))) [
  | inl is ↦ same Topic.news (rw is refl) (same_text→eq s (name_of Topic.news) is)
  | inr no_news ↦ elim (Bool-cases (same_text s (name_of Topic.updates))) [
    | inl is ↦
        same Topic.updates (rw (no_news, is) refl) (same_text→eq s (name_of Topic.updates) is)
    | inr no_updates ↦ elim (Bool-cases (same_text s (name_of Topic.warnings))) [
      | inl is ↦
          same Topic.warnings (rw (no_news, no_updates, is) refl)
            (same_text→eq s (name_of Topic.warnings) is)
      | inr no_warnings ↦
          let unnamed : get_topic_stats s ≡ none = rw (no_news, no_updates, no_warnings) refl in
          absurd (cc (unnamed, found))
    ]
  ]
]
  where
    same : (u : Topic) → get_topic_stats s ≡ some u → s ≡ name_of u → s ≡ name_of t
    same u here e = e ∙ ap name_of (some-injective u t (sym here ∙ found))

topic_counts :
    (t : Topic) (k : ℕ) (n : Notice) (a : TopicStatsArray)
    → TopicCounts (name_of t) (suc k) n (stats_of t a) (stats_of t (counted_times (suc k) n a))
topic_counts t k n a = (
  (λ named. counted_times-Counts k t n a (ap get_topic_stats named ∙ get_topic_stats-name_of t)),
  (λ other. counted_times-other (suc k) n t a (λ e. other (named-get_topic_stats t n.topic e))),
)

-- Where the receive buffer holds some notifications in a row, none with a null byte in it, and then
-- a byte that is no hashtag, `handle_notifications` reads no byte past the buffer, says that there
-- was a notification, and adds the number of notifications, modulo 2^64, to one counter: that of the
-- first notification's command ('2' publish, '3' subscribe, '4' topic_exists, '5' subscriber_number,
-- '6' unsubscribe) in the topic of that name. Every other counter stays as it is, and all do where
-- the name or the command is none of these.
pub handle_notifications-adds :
    (garbage : ℕ → ℕ) (n : Notice) (ns : List Notice) (z : ℕ) (rest : Block) (a : TopicStatsArray)
    → IsProper n
    → AllProper ns
    → z ≢ hashtag
    → (a' : TopicStatsArray) × (handle_notifications garbage (notices (n ∷ ns) (z ∷ rest)) a
        ≡ some (a', true))
      × ArrayCounts (suc (length ns)) n a a'
handle_notifications-adds garbage n ns z rest a proper all stop = (
  counted_times (suc (length ns)) n a,
  handle_notifications-counted_times garbage n ns z rest a proper all stop,
  record {
    news = topic_counts Topic.news (length ns) n a;
    updates = topic_counts Topic.updates (length ns) n a;
    warnings = topic_counts Topic.warnings (length ns) n a;
  },
)
