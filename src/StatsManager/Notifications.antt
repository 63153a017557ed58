-- ===== src/StatsManager/Notifications.antt =====
-- PubSub/StatsManager/notification_handling.h and notification_handling.cpp: the counters of the
-- three topics, and what a notification does to them.
pub mod Counting
pub mod Gains
use ikp_projekat.Common.{
  ℕ, ◌+◌, ◌-◌, ◌%◌, ◌^◌, Bool, true, false, Option, none, some, List, [], ◌∷◌, ◌==◌, not,
  if◌then◌else◌, ◌>>=◌, drop, get_elem?,
}
use ikp_projekat.Memory.{Block, hashtag, malloc, strlen, strcpy_s, c_str, same_text}

-- `uint64_t` counters.
pub record TopicStats : Type 0 where
  pub publish_commands_num : ℕ
  pub subscribe_commands_num : ℕ
  pub unsubscribe_commands_num : ℕ
  pub topic_exists_commands_num : ℕ
  pub subscriber_number_commands_num : ℕ

-- `TopicStats topic_stats_array[3]`
pub record TopicStatsArray : Type 0 where
  pub news : TopicStats
  pub updates : TopicStats
  pub warnings : TopicStats

pub data Topic : Type 0 where
  news updates warnings : Topic

abbrev pub news_name : List ℕ
news_name = b'n' ∷ b'e' ∷ b'w' ∷ b's' ∷ []

abbrev pub updates_name : List ℕ
updates_name = b'u' ∷ b'p' ∷ b'd' ∷ b'a' ∷ b't' ∷ b'e' ∷ b's' ∷ []

abbrev pub warnings_name : List ℕ
warnings_name = b'w' ∷ b'a' ∷ b'r' ∷ b'n' ∷ b'i' ∷ b'n' ∷ b'g' ∷ b's' ∷ []

-- A pointer into the array is the topic that it stands for.
unfoldable pub get_topic_stats : List ℕ → Option Topic
get_topic_stats topic_name =
    if same_text topic_name news_name
    then some Topic.news
    else if same_text topic_name updates_name
    then some Topic.updates
    else if same_text topic_name warnings_name
    then some Topic.warnings
    else none

abbrev pub stats_of : Topic → TopicStatsArray → TopicStats
stats_of Topic.news a = a.news
stats_of Topic.updates a = a.updates
stats_of Topic.warnings a = a.warnings

abbrev pub set_stats : Topic → TopicStats → TopicStatsArray → TopicStatsArray
set_stats Topic.news x a = record a { news = x }
set_stats Topic.updates x a = record a { updates = x }
set_stats Topic.warnings x a = record a { warnings = x }

-- `++` on a `uint64_t`
abbrev pub increment : ℕ → ℕ
increment n = (n + 1) % 2 ^ 64

-- The counter that a notification of the type adds to.
unfoldable pub count_notification : ℕ → TopicStats → TopicStats
count_notification notification_type x =
    if notification_type == b'2'
    then record x { publish_commands_num = increment x.publish_commands_num }
    else if notification_type == b'3'
    then record x { subscribe_commands_num = increment x.subscribe_commands_num }
    else if notification_type == b'4'
    then record x { topic_exists_commands_num = increment x.topic_exists_commands_num }
    else if notification_type == b'5'
    then record x { subscriber_number_commands_num = increment x.subscriber_number_commands_num }
    else if notification_type == b'6'
    then record x { unsubscribe_commands_num = increment x.unsubscribe_commands_num }
    else x

-- `if (!topic_stats_ptr) return;`, and what follows.
abbrev pub count_at : Option Topic → ℕ → TopicStatsArray → TopicStatsArray
count_at none notification_type a = a
count_at (some t) notification_type a =
    set_stats t (count_notification notification_type (stats_of t a)) a

-- `garbage` is what the allocation of the topic's name happens to hold.
module _ (garbage : ℕ → ℕ) where
  unfoldable pub handle_notification : Block → TopicStatsArray → Option TopicStatsArray
  handle_notification notification a = do
    notification_type ← get_elem? notification 0
    n ← strlen notification
    let topic_name_size = n + 1 - 2
    topic_name ← strcpy_s (malloc garbage topic_name_size) 0 topic_name_size (drop 2 notification)
    name ← c_str topic_name
    some (count_at (get_topic_stats name) notification_type a)

  -- The loop over the receive buffer from a position on; `skipping` is the inner loop, which goes
  -- past the next null byte. What is handled at each hashtag is `receive_buffer + 1`.
  unfoldable pub handle_from :
      (skipping : Bool)
      → (receive_buffer : Block) → Block
      → TopicStatsArray
      → Option TopicStatsArray
  handle_from skipping receive_buffer [] a = none
  handle_from true receive_buffer (c ∷ cs) a = handle_from (not (c == 0)) receive_buffer cs a
  handle_from false receive_buffer (c ∷ cs) a =
      if c == hashtag
      then (do
        a' ← handle_notification (drop 1 receive_buffer) a
        handle_from true receive_buffer cs a')
      else some a

  -- What follows a successful `receive_notifications`: the array, and whether there was a
  -- notification (`i != 0`).
  unfoldable pub handle_notifications : Block → TopicStatsArray → Option (TopicStatsArray × Bool)
  handle_notifications receive_buffer a = do
    first ← get_elem? receive_buffer 0
    a' ← handle_from false receive_buffer receive_buffer a
    some (a', first == hashtag)
