-- ===== src/StatsManager/MainLoop.antt =====
-- The loop of `main` in PubSub/StatsManager/stats_manager.cpp. What it receives, the time, and how
-- the opening and the writing of the file go come in as values.
pub mod Handled
pub mod Saved
use ikp_projekat.Common.{
  ℕ, ◌+◌, Bool, true, false, ◌&&◌, ◌||◌, Option, none, some, List, leb, if◌then◌else◌, ◌>>=◌,
}
use ikp_projekat.Memory.{Block}
use ikp_projekat.StatsManager.Notifications.{TopicStatsArray, handle_notifications}
use ikp_projekat.StatsManager.FileUpdating.{Writing, Updated, update_and_show_stats}

-- The variables of `main` that the loop changes, and the file. Times are seconds.
pub record Manager : Type 0 where
  pub topic_stats_array : TopicStatsArray
  pub notifications_received : Bool
  pub last_update_time : ℕ
  pub file : List ℕ

-- What happens in a turn: what the receive buffer holds where `receive_notifications` succeeds, the
-- first and the second `time(NULL)` of the update, and the file's fate.
pub record Events : Type 0 where
  pub received : Option Block
  pub now : ℕ
  pub updated_at : ℕ
  pub opened : Bool
  pub writing : Writing

-- `handle_notifications` with its first test.
abbrev pub handle : (ℕ → ℕ) → Option Block → TopicStatsArray → Option (TopicStatsArray × Bool)
handle garbage none a = some (a, false)
handle garbage (some receive_buffer) a = handle_notifications garbage receive_buffer a

-- The test for an update: something has been received since the last one, and the period is over.
abbrev pub is_due : (update_period : ℕ) → Bool → ℕ → ℕ → Bool
is_due update_period notifications_received last_update_time now =
    notifications_received && leb (last_update_time + update_period) now

module _ (garbage : ℕ → ℕ) (update_period : ℕ) where
  -- Behind the handling, with the counters and `notifications_received` as they are then.
  unfoldable pub update_if_due : Events → TopicStatsArray → Bool → Manager → Option Manager
  update_if_due v a pending m =
      if is_due update_period pending m.last_update_time v.now
      then (do
        u ← update_and_show_stats garbage v.opened v.writing m.file a
        some (record {
          topic_stats_array = u.topic_stats_array;
          notifications_received = false;
          last_update_time = v.updated_at;
          file = u.file;
        }))
      else some (record m { topic_stats_array = a; notifications_received = pending })

  -- One turn of the loop.
  unfoldable pub turn : Events → Manager → Option Manager
  turn v m = do
    (a, just_received) ← handle garbage v.received m.topic_stats_array
    update_if_due v a (just_received || m.notifications_received) m
