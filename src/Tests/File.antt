-- ===== src/Tests/File.antt =====
-- The statistics file of PubSub/StatsManager/file_updating.cpp at concrete counters.
use ikp_projekat.Common.{
  ◌>>=◌, ℕ, ◌^◌, ◌-◌, ◌≡◌, true, false, none, some, [], List, refl, ◌∷◌, arith,
}
use ikp_projekat.Memory.{Block, malloc, c_str}
use ikp_projekat.Memory.Fill.{length-malloc}
use ikp_projekat.StatsManager.Notifications.{TopicStats, TopicStatsArray}
use ikp_projekat.StatsManager.FileUpdating.{
  read_and_show_stats, no_stats, reset_stats, stats_buffer_size, stringify_stats,
  parse_file_content, Writing, overwrite_file, add_arrays, update_and_show_stats,
}
use ikp_projekat.StatsManager.MainLoop.{Events, Manager, turn, update_if_due}
use ikp_projekat.StatsManager.MainLoop.Saved.{IsRight, turn-IsRight}
use ikp_projekat.StatsManager.FileUpdating.Parse.{IsWord, AreWords, saturated_array, stats_text}
use ikp_projekat.StatsManager.FileUpdating.Update.{
  parse_file_content-stringify_stats, update_and_show_stats-adds,
}
use ikp_projekat.StatsManager.FileUpdating.Total.{
  IsReadable, AreReadable, total, updates, updates-counts, updates-shown_again,
}

abbrev garbage : ℕ → ℕ
garbage i = 9

-- The first line of the file in the repository.
abbrev stored_news : TopicStats
stored_news = record {
  publish_commands_num = 6;
  subscribe_commands_num = 9;
  unsubscribe_commands_num = 4;
  topic_exists_commands_num = 27;
  subscriber_number_commands_num = 0;
}

abbrev stored : TopicStatsArray
stored = record { news = stored_news; updates = no_stats; warnings = no_stats }

-- A counter above the largest `long long`.
abbrev large : TopicStats
large = record stored_news { publish_commands_num = 2 ^ 64 - 1 }

abbrev large_array : TopicStatsArray
large_array = record { news = large; updates = no_stats; warnings = stored_news }

IsWord-no_stats : IsWord no_stats
IsWord-no_stats = record {
  publish = omega arith;
  subscribe = omega arith;
  unsubscribe = omega arith;
  topic_exists = omega arith;
  subscriber_number = omega arith;
}

IsWord-stored_news : IsWord stored_news
IsWord-stored_news = record {
  publish = omega arith;
  subscribe = omega arith;
  unsubscribe = omega arith;
  topic_exists = omega arith;
  subscriber_number = omega arith;
}

IsWord-large : IsWord large
IsWord-large = record {
  publish = omega arith;
  subscribe = omega arith;
  unsubscribe = omega arith;
  topic_exists = omega arith;
  subscriber_number = omega arith;
}

AreWords-large_array : AreWords large_array
AreWords-large_array = record {
  news = IsWord-large;
  updates = IsWord-no_stats;
  warnings = IsWord-stored_news;
}

AreWords-stored : AreWords stored
AreWords-stored = record {
  news = IsWord-stored_news;
  updates = IsWord-no_stats;
  warnings = IsWord-no_stats;
}

parse_file_content-stringify_stats_example :
    (b : Block) × (stringify_stats large_array (malloc garbage stats_buffer_size) stats_buffer_size
      ≡ some (true, b))
    × ((do text ← c_str b; parse_file_content text) ≡ some (saturated_array large_array))
parse_file_content-stringify_stats_example =
    parse_file_content-stringify_stats large_array (malloc garbage stats_buffer_size)
      AreWords-large_array (length-malloc garbage stats_buffer_size)

-- The writing fails behind three bytes.
update_and_show_stats-adds_example :
    update_and_show_stats garbage true (Writing.fails_behind 3) (stats_text stored) large_array
    ≡ some (record {
      file =
          overwrite_file
            (Writing.fails_behind 3)
            (stats_text (add_arrays (saturated_array stored) large_array))
            (stats_text stored);
      topic_stats_array = reset_stats;
      shown = some (add_arrays (saturated_array stored) large_array);
    })
update_and_show_stats-adds_example =
    update_and_show_stats-adds garbage (Writing.fails_behind 3) stored large_array AreWords-stored

abbrev twice : TopicStatsArray
twice = total stored (stored ∷ [])

AreReadable-twice : AreReadable twice
AreReadable-twice = record {
  news = record {
    publish = omega arith;
    subscribe = omega arith;
    unsubscribe = omega arith;
    topic_exists = omega arith;
    subscriber_number = omega arith;
  };
  updates = nothing;
  warnings = nothing;
}
  where
    nothing : IsReadable no_stats
    nothing = record {
      publish = omega arith;
      subscribe = omega arith;
      unsubscribe = omega arith;
      topic_exists = omega arith;
      subscriber_number = omega arith;
    }

updates-counts_example : updates garbage [] (stored ∷ stored ∷ []) ≡ some (stats_text twice)
updates-counts_example = updates-counts garbage stored (stored ∷ []) AreReadable-twice

updates-shown_again_example :
    (file : List ℕ) × (updates garbage [] (stored ∷ stored ∷ []) ≡ some file)
    × (read_and_show_stats garbage true file ≡ some (some twice))
updates-shown_again_example = updates-shown_again garbage stored (stored ∷ []) AreReadable-twice

-- A turn of the main loop 100 seconds after the last update, with nothing new received.
abbrev late : Events
late = record {
  received = none;
  now = 100;
  updated_at = 101;
  opened = true;
  writing = Writing.fails_behind 3;
}

abbrev waiting : Manager
waiting = record {
  topic_stats_array = stored;
  notifications_received = true;
  last_update_time = 0;
  file = stats_text stored;
}

abbrev updated : Manager
updated = record {
  topic_stats_array = reset_stats;
  notifications_received = false;
  last_update_time = 101;
  file =
      overwrite_file (Writing.fails_behind 3)
        (stats_text (add_arrays (saturated_array stored) stored)) (stats_text stored);
}

turn-updated : turn garbage 60 late waiting ≡ some updated
unfolding turn update_if_due
turn-updated =
    rw (update_and_show_stats-adds garbage (Writing.fails_behind 3) stored stored AreWords-stored)
      refl

turn-IsRight_example : IsRight garbage 60 late waiting updated
turn-IsRight_example =
    turn-IsRight garbage 60 late waiting updated refl (λ e. absurd (cc e)) turn-updated
