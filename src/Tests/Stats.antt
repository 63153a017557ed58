-- ===== src/Tests/Stats.antt =====
-- The stats manager at concrete notifications.
use ikp_projekat.Common.{ℕ, ◌≡◌, true, some, [], ◌∷◌, arith}
use ikp_projekat.StatsManager.Notifications.{
  TopicStats, TopicStatsArray, news_name, updates_name, handle_notifications,
}
use ikp_projekat.StatsManager.Notifications.Counting.{Notice, notices}
use ikp_projekat.StatsManager.Notifications.Gains.{ArrayCounts, handle_notifications-adds}

abbrev zero_stats : TopicStats
zero_stats = record {
  publish_commands_num = 0;
  subscribe_commands_num = 0;
  unsubscribe_commands_num = 0;
  topic_exists_commands_num = 0;
  subscriber_number_commands_num = 0;
}

abbrev start : TopicStatsArray
start = record { news = zero_stats; updates = zero_stats; warnings = zero_stats }

abbrev published : Notice
published = record { type = b'2'; topic = news_name }

abbrev subscribed : Notice
subscribed = record { type = b'3'; topic = updates_name }

abbrev garbage : ℕ → ℕ
garbage i = 9

handle_notifications-adds_example :
    (a' : TopicStatsArray) × (handle_notifications garbage
        (notices (published ∷ subscribed ∷ []) (0 ∷ []))
        start
      ≡ some (a', true))
    × ArrayCounts 2 published start a'
handle_notifications-adds_example =
    handle_notifications-adds garbage published (subscribed ∷ []) 0 [] start (omega arith)
      (omega arith) (λ e. omega arith)
