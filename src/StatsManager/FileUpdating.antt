-- ===== src/StatsManager/FileUpdating.antt =====
-- PubSub/StatsManager/file_updating.cpp: the file that the counters are kept in, as the text that a
-- stream in text mode reads and writes, and what is shown.
pub mod Parse
pub mod Stringify
pub mod Update
pub mod Total
use ikp_projekat.Common.{
  ℕ, zero, suc, ◌+◌, ◌-◌, ◌%◌, ◌^◌, Bool, true, false, Option, none, some, List, [], ◌∷◌, ◌++◌,
  ◌==◌, leb, ltb, if◌then◌else◌, ◌>>=◌, length, take,
}
use ikp_projekat.Memory.{Block, malloc, store, put, c_str, same_text}
use ikp_projekat.Memory.Decimal.{decimal}
use ikp_projekat.Memory.Scanning.{strtok, strtoll, snprintf}
use ikp_projekat.StatsManager.Notifications.{TopicStats, TopicStatsArray}

abbrev pub newline : ℕ
newline = 10

abbrev pub comma : ℕ
comma = 44

-- `ftell` at the end: in the file a line ends with two bytes.
unfoldable pub file_size : List ℕ → ℕ
file_size [] = 0
file_size (c ∷ cs) = (if c == newline then 2 else 1) + file_size cs

-- The block that the whole file is read into, where it is opened; `garbage` is what the allocation
-- happens to hold.
unfoldable pub read_file : (ℕ → ℕ) → Bool → List ℕ → Option (Option Block)
read_file garbage false file = some none
read_file garbage true file = do
  let content = take (file_size file) file
  b ← store (malloc garbage (file_size file + 1)) 0 content
  b' ← put b (length content) 0
  some (some b')

-- How the writing of the file goes: it is not opened, `fputs` fails behind some bytes, or it succeeds.
pub data Writing : Type 0 where
  not_opened : Writing
  fails_behind : ℕ → Writing
  succeeds : Writing

-- An opened file is emptied first.
unfoldable pub overwrite_file : Writing → List ℕ → List ℕ → List ℕ
overwrite_file not_opened stats file = file
overwrite_file (fails_behind n) stats file = take n stats
overwrite_file succeeds stats file = stats

-- One line's numbers; `rest` is what `strtok` goes on in. A null pointer faults in `strtoll`.
unfoldable pub parse_line : Option (List ℕ) → List ℕ → Option (TopicStats × List ℕ)
parse_line line rest = do
  let t0 = strtok line comma rest
  let t1 = strtok none comma t0.1
  let t2 = strtok none comma t1.1
  let t3 = strtok none comma t2.1
  let t4 = strtok none comma t3.1
  n0 ← t0.0
  n1 ← t1.0
  n2 ← t2.0
  n3 ← t3.0
  n4 ← t4.0
  some (
    record {
      publish_commands_num = strtoll n0;
      subscribe_commands_num = strtoll n1;
      unsubscribe_commands_num = strtoll n2;
      topic_exists_commands_num = strtoll n3;
      subscriber_number_commands_num = strtoll n4;
    },
    t4.1,
  )

unfoldable pub parse_file_content : List ℕ → Option TopicStatsArray
parse_file_content file_content = do
  let line0 = strtok (some file_content) newline []
  let line1 = strtok none newline line0.1
  let line2 = strtok none newline line1.1
  (stats0, rest0) ← parse_line line0.0 line2.1
  (stats1, rest1) ← parse_line line1.0 rest0
  (stats2, rest2) ← parse_line line2.0 rest1
  some (record { news = stats0; updates = stats1; warnings = stats2 })

-- A number and the comma behind it.
abbrev pub column : ℕ → List ℕ → List ℕ
column n rest = decimal n ++ (comma ∷ rest)

-- The four numbers that a comma follows.
abbrev pub columns : TopicStats → List ℕ → List ℕ
columns x rest = column x.publish_commands_num (
    column x.subscribe_commands_num
      (column x.unsubscribe_commands_num (column x.topic_exists_commands_num rest)))

-- What `"%llu,%llu,%llu,%llu,%llu\n"` writes.
unfoldable pub stats_line : TopicStats → List ℕ
stats_line x = columns x (decimal x.subscriber_number_commands_num ++ (newline ∷ []))

-- The loop over the topics from an offset on, and the null byte behind them.
unfoldable pub stringify_from : List TopicStats → Block → ℕ → ℕ → Option (Bool × Block)
stringify_from [] stats stats_size offset =
    if ltb offset stats_size
    then (do b ← put stats offset 0; some (true, b))
    else some (false, stats)
stringify_from (x ∷ xs) stats stats_size offset = do
  (b, written) ← snprintf stats offset (stats_size - offset) (stats_line x)
  let rest = stringify_from xs b stats_size (offset + written)
  (if leb (stats_size - offset) written then some (false, b) else rest)

abbrev pub topics_of : TopicStatsArray → List TopicStats
topics_of a = a.news ∷ a.updates ∷ a.warnings ∷ []

unfoldable pub stringify_stats : TopicStatsArray → Block → ℕ → Option (Bool × Block)
stringify_stats a stats stats_size = stringify_from (topics_of a) stats stats_size 0

-- A topic's counters after `reset_stats`.
abbrev pub no_stats : TopicStats
no_stats = record {
  publish_commands_num = 0;
  subscribe_commands_num = 0;
  unsubscribe_commands_num = 0;
  topic_exists_commands_num = 0;
  subscriber_number_commands_num = 0;
}

abbrev pub reset_stats : TopicStatsArray
reset_stats = record { news = no_stats; updates = no_stats; warnings = no_stats }

-- `+=` on each `uint64_t` of a topic.
unfoldable pub add_stats : TopicStats → TopicStats → TopicStats
add_stats x y = record {
  publish_commands_num = (x.publish_commands_num + y.publish_commands_num) % 2 ^ 64;
  subscribe_commands_num = (x.subscribe_commands_num + y.subscribe_commands_num) % 2 ^ 64;
  unsubscribe_commands_num = (x.unsubscribe_commands_num + y.unsubscribe_commands_num) % 2 ^ 64;
  topic_exists_commands_num = (x.topic_exists_commands_num + y.topic_exists_commands_num) % 2 ^ 64;
  subscriber_number_commands_num =
      (x.subscriber_number_commands_num + y.subscriber_number_commands_num) % 2 ^ 64;
}

abbrev pub add_arrays : TopicStatsArray → TopicStatsArray → TopicStatsArray
add_arrays a b = record {
  news = add_stats a.news b.news;
  updates = add_stats a.updates b.updates;
  warnings = add_stats a.warnings b.warnings;
}

-- The branches on the content: no file, an empty text, and a text to parse.
unfoldable pub parsed : Option Block → Option (Option TopicStatsArray)
parsed none = some none
parsed (some b) = do
  text ← c_str b
  a ← if same_text text [] then some reset_stats else parse_file_content text
  some (some a)

-- The counters that `show_stats` prints, where it is called.
unfoldable pub read_and_show_stats : (ℕ → ℕ) → Bool → List ℕ → Option (Option TopicStatsArray)
read_and_show_stats garbage opened file = do content ← read_file garbage opened file; parsed content

-- `char stats[400]`, which is not initialised.
abbrev pub stats_buffer_size : ℕ
stats_buffer_size = 400

unfoldable pub write_stats : (ℕ → ℕ) → Writing → TopicStatsArray → List ℕ → Option (List ℕ)
write_stats garbage writing a file = do
  (success, stats) ← stringify_stats a (malloc garbage stats_buffer_size) stats_buffer_size
  if success then (do text ← c_str stats; some (overwrite_file writing text file)) else some file

-- The file, the counters in memory, and the counters shown, after an update.
pub record Updated : Type 0 where
  pub file : List ℕ
  pub topic_stats_array : TopicStatsArray
  pub shown : Option TopicStatsArray

-- The counters that are shown and written: those in memory, added to those of a text that is not
-- empty.
unfoldable pub total_of : List ℕ → TopicStatsArray → Option TopicStatsArray
total_of text a =
    if same_text text [] then some a else (do f ← parse_file_content text; some (add_arrays f a))

-- The writing of the new counters, and the reset of those in memory.
unfoldable pub save : (ℕ → ℕ) → Writing → List ℕ → TopicStatsArray → Option Updated
save garbage writing file total = do
  file' ← write_stats garbage writing total file
  some (record { file = file'; topic_stats_array = reset_stats; shown = some total })

unfoldable pub update_with :
    (ℕ → ℕ) → Writing → List ℕ → TopicStatsArray → Option Block → Option Updated
update_with garbage writing file a none =
    some (record { file = file; topic_stats_array = a; shown = none })
update_with garbage writing file a (some b) = do
  text ← c_str b
  total ← total_of text a
  save garbage writing file total

unfoldable pub update_and_show_stats :
    (ℕ → ℕ) → Bool → Writing → List ℕ → TopicStatsArray → Option Updated
update_and_show_stats garbage opened writing file a = do
  content ← read_file garbage opened file
  update_with garbage writing file a content
