-- ===== src/StatsManager/Notifications/Counting.antt =====
-- Which counters a buffer of notifications adds to.
use ikp_projekat.Common.{
  ℕ, zero, suc, ◌+◌, ◌-◌, ◌≡◌, refl, ◌≢◌, ◌∙◌, true, false, Option, none, some, List, [], ◌∷◌,
  arith, ==_of_ne, length, drop_all, append-nil,
}
use ikp_projekat.Memory.{Block, hashtag, malloc, strcpy_s}
use ikp_projekat.Memory.Text.{Avoids, terminated, strlen-terminated, c_str-terminated}
use ikp_projekat.Memory.Fill.{length-malloc, strcpy_s-next}
use ikp_projekat.StatsManager.Notifications.{
  TopicStatsArray, Topic, get_topic_stats, stats_of, count_at, handle_notification, handle_from,
  handle_notifications,
}

-- A notification: its type and its topic's name.
pub record Notice : Type 0 where
  pub type : ℕ
  pub topic : List ℕ

abbrev pub IsProper : Notice → Type 0
IsProper n = (n.type ≢ 0) × Avoids 0 n.topic

abbrev pub AllProper : List Notice → Type 0
AllProper [] = Unit {0}
AllProper (n ∷ ns) = IsProper n × AllProper ns

-- The bytes of a notification behind its first hashtag, and of some in a row.
abbrev pub body : Notice → Block → Block
body n rest = terminated (n.type ∷ hashtag ∷ n.topic) rest

abbrev pub notices : List Notice → Block → Block
notices [] rest = rest
notices (n ∷ ns) rest = hashtag ∷ body n (notices ns rest)

-- What one notification is to count.
abbrev pub counted : Notice → TopicStatsArray → TopicStatsArray
counted n a = count_at (get_topic_stats n.topic) n.type a

abbrev pub counted_times : ℕ → Notice → TopicStatsArray → TopicStatsArray
counted_times zero n a = a
counted_times (suc k) n a = counted_times k n (counted n a)

module _ (garbage : ℕ → ℕ) where
  -- A notification with its null byte counts for its own type and topic.
  pub handle_notification_lem :
      (n : Notice) (rest : Block) (a : TopicStatsArray)
      → IsProper n
      → handle_notification garbage (body n rest) a ≡ some (counted n a)
  unfolding handle_notification
  handle_notification_lem n rest a proper = rw (
    strlen-terminated (n.type ∷ hashtag ∷ n.topic) rest (proper.0, ((λ e. omega arith), proper.1)),
    size,
    copied,
    c_str-terminated n.topic [] proper.1,
  )
    where
      size : suc (suc (length n.topic)) + 1 - 2 ≡ suc (length n.topic)
      size = omega arith

      fresh : Block
      fresh = malloc garbage (suc (length n.topic))

      room : length fresh ≡ suc (length n.topic)
      room = length-malloc garbage (suc (length n.topic))

      copied :
          strcpy_s fresh 0 (suc (length n.topic)) (terminated n.topic rest)
          ≡ some (terminated n.topic [])
      copied =
          rw
            (strcpy_s-next [] fresh n.topic rest 0 (suc (length n.topic)) proper.1 refl refl
              (omega (arith, room)))
            (rw (drop_all fresh (suc (length n.topic)) (omega (arith, room))) (rw append-nil))

  skip_text :
      (buffer : Block) (t : List ℕ) (rest : Block) (a : TopicStatsArray)
      → Avoids 0 t
      → handle_from garbage true buffer (terminated t rest) a
        ≡ handle_from garbage false buffer rest a
  unfolding handle_from
  skip_text buffer [] rest a clean = refl
  skip_text buffer (c ∷ cs) rest a clean =
      rw (==_of_ne c 0 clean.0, handle_from) (skip_text buffer cs rest a clean.1)

  -- The loop, where the buffer begins with the notification `n`.
  handle_from-counted_times :
      (n : Notice) (tail : Block) (ns : List Notice) (z : ℕ) (rest : Block) (a : TopicStatsArray)
      → IsProper n
      → AllProper ns
      → z ≢ hashtag
      → handle_from garbage false (hashtag ∷ body n tail) (notices ns (z ∷ rest)) a
        ≡ some (counted_times (length ns) n a)
  unfolding handle_from
  handle_from-counted_times n tail [] z rest a proper all stop = rw (==_of_ne z hashtag stop)
  handle_from-counted_times n tail (m ∷ ns) z rest a proper all stop =
      rw (handle_notification_lem n tail a proper) (
        skip_text (hashtag ∷ body n tail) (m.type ∷ hashtag ∷ m.topic) (notices ns (z ∷ rest))
          (counted n a) (all.0.0, ((λ e. omega arith), all.0.1))
        ∙ handle_from-counted_times n tail ns z rest (counted n a) proper all.1 stop)

  module _ (n : Notice) (ns : List Notice) (z : ℕ) (rest : Block) (a : TopicStatsArray)
      (proper : IsProper n) (all : AllProper ns) (stop : z ≢ hashtag) where
    -- Where the receive buffer holds some notifications in a row and then a byte that is no hashtag,
    -- `handle_notifications` reads no byte past the buffer and says that there was a notification;
    -- it counts the first notification as often as there are notifications, and no other.
    pub handle_notifications-counted_times :
        handle_notifications garbage (notices (n ∷ ns) (z ∷ rest)) a
        ≡ some (counted_times (suc (length ns)) n a, true)
    unfolding handle_notifications
    handle_notifications-counted_times = rw (
        handle_from-counted_times n (notices ns (z ∷ rest)) (n ∷ ns) z rest a proper (proper, all)
          stop)

  -- With no notification in the buffer nothing is counted, and `handle_notifications` says so.
  handle_notifications-nil :
      (z : ℕ) (rest : Block) (a : TopicStatsArray)
      → z ≢ hashtag
      → handle_notifications garbage (z ∷ rest) a ≡ some (a, false)
  unfolding handle_notifications handle_from
  handle_notifications-nil z rest a stop = rw (==_of_ne z hashtag stop)

other_topic :
    (o : Option Topic) (x : Topic) (c : ℕ) (a : TopicStatsArray)
    → o ≢ some x
    → stats_of x (count_at o c a) ≡ stats_of x a
other_topic none x c a ne = refl
other_topic (some Topic.news) Topic.news c a ne = absurd (ne refl)
other_topic (some Topic.updates) Topic.updates c a ne = absurd (ne refl)
other_topic (some Topic.warnings) Topic.warnings c a ne = absurd (ne refl)
other_topic (some Topic.news) Topic.updates c a ne = refl
other_topic (some Topic.news) Topic.warnings c a ne = refl
other_topic (some Topic.updates) Topic.news c a ne = refl
other_topic (some Topic.updates) Topic.warnings c a ne = refl
other_topic (some Topic.warnings) Topic.news c a ne = refl
other_topic (some Topic.warnings) Topic.updates c a ne = refl

pub counted_times-other :
    (k : ℕ) (n : Notice) (x : Topic) (a : TopicStatsArray)
    → get_topic_stats n.topic ≢ some x
    → stats_of x (counted_times k n a) ≡ stats_of x a
counted_times-other zero n x a ne = refl
counted_times-other (suc k) n x a ne =
    counted_times-other k n x (counted n a) ne ∙ other_topic (get_topic_stats n.topic) x n.type a ne
