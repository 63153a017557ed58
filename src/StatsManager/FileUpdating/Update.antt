-- ===== src/StatsManager/FileUpdating/Update.antt =====
-- `update_and_show_stats` of PubSub/StatsManager/file_updating.cpp on files that it has written.
use ikp_projekat.Common.{
  ℕ, ◌+◌, ◌<◌, ◌≤◌, ◌≡◌, refl, true, false, some, List, [], ◌∷◌, ◌++◌, arith, ◌>>=◌, length,
  length-append, append_assoc, drop, length-drop, take_all, Bool-cases, inl, inr, ◌==◌,
}
use ikp_projekat.Memory.{Block, malloc, c_str, same_text}
use ikp_projekat.Memory.Text.{Avoids, Avoids-append, terminated, c_str-terminated}
use ikp_projekat.Memory.Fill.{store-next, length-malloc}
use ikp_projekat.StatsManager.Notifications.{TopicStats, TopicStatsArray}
use ikp_projekat.StatsManager.FileUpdating.{
  newline, stats_line, file_size, read_file, Writing, overwrite_file, stringify_stats,
  stats_buffer_size, parse_file_content, reset_stats, add_stats, add_arrays, write_stats,
  update_with, total_of, save, update_and_show_stats,
}
use ikp_projekat.StatsManager.FileUpdating.Parse.{
  IsWord, AreWords, saturated_array, stats_text, stats_row, stats_row-Avoids, stats_line-row,
  parse_file_content-stats_text,
}
use ikp_projekat.StatsManager.FileUpdating.Stringify.{stringify_stats-fits}

file_size-ge : (file : List ℕ) → length file ≤ file_size file
unfolding file_size
file_size-ge [] = omega arith
file_size-ge (c ∷ cs) = elim (Bool-cases (c == newline)) [
  | inl e ↦ rw e (omega (arith, file_size-ge cs))
  | inr e ↦ rw e (omega (arith, file_size-ge cs))
]

-- An opened file is read whole, with a null byte behind it.
pub read_file-opened :
    (garbage : ℕ → ℕ) (file : List ℕ)
    → (rest : Block) × (read_file garbage true file ≡ some (some (terminated file rest)))
unfolding read_file
read_file-opened garbage file = (
  drop 1 after,
  rw
      (
        take_all file (file_size file) (file_size-ge file),
        store-next [] block file 0 refl
            (omega (arith, file_size-ge file, length-malloc garbage (file_size file + 1))),
        store-next file after (0 ∷ []) (length file) refl (
            omega (
              arith,
              length-drop (length file) block,
              length-malloc garbage (file_size file + 1),
              file_size-ge file,
            )),
        append_assoc file (0 ∷ []) (drop 1 after),
      )
      refl,
)
  where
    block : Block
    block = malloc garbage (file_size file + 1)

    after : Block
    after = drop (length file) block

line-Avoids : (x : TopicStats) (t : List ℕ) → Avoids 0 t → Avoids 0 (stats_line x ++ t)
line-Avoids x t h = rw (stats_line-row x t) (
    Avoids-append 0 (stats_row x) (newline ∷ t) (stats_row-Avoids 0 x (omega arith))
      (λ e. omega arith, h))

pub stats_text-Avoids : (a : TopicStatsArray) → Avoids 0 (stats_text a)
stats_text-Avoids a = line-Avoids a.news _ (line-Avoids a.updates _ (line-Avoids a.warnings [] tt))

-- The round trip: of 64-bit counters `stringify_stats` succeeds in any buffer of 400 bytes, and
-- `parse_file_content` reads the string in it as these counters, but for those above the largest
-- `long long`, which it reads as that.
pub parse_file_content-stringify_stats :
    (a : TopicStatsArray) (stats : Block)
    → AreWords a
    → length stats ≡ stats_buffer_size
    → (b : Block) × (stringify_stats a stats stats_buffer_size ≡ some (true, b))
      × ((do text ← c_str b; parse_file_content text) ≡ some (saturated_array a))
parse_file_content-stringify_stats a stats h l =
    let (rest, e) = stringify_stats-fits a stats h l in
    (
      terminated (stats_text a) rest,
      e,
      rw
          (
            c_str-terminated (stats_text a) rest (stats_text-Avoids a),
            parse_file_content-stats_text a h,
          )
          refl,
    )

same_text-not_empty : (t : List ℕ) → 0 < length t → same_text t [] ≡ false
unfolding same_text
same_text-not_empty [] h = absurd (omega arith)
same_text-not_empty (c ∷ cs) h = refl

pub stats_text-not_empty : (a : TopicStatsArray) → same_text (stats_text a) [] ≡ false
stats_text-not_empty a = rw (stats_line-row a.news others) (
    same_text-not_empty (stats_row a.news ++ (newline ∷ others))
      (omega (arith, length-append (stats_row a.news) (newline ∷ others))))
  where
    others : List ℕ
    others = stats_line a.updates ++ (stats_line a.warnings ++ [])

pub write_stats_lem :
    (garbage : ℕ → ℕ) (writing : Writing) (a : TopicStatsArray) (file : List ℕ)
    → AreWords a
    → write_stats garbage writing a file ≡ some (overwrite_file writing (stats_text a) file)
unfolding write_stats
write_stats_lem garbage writing a file h =
    let (rest, e) =
      stringify_stats-fits a (malloc garbage stats_buffer_size) h
        (length-malloc garbage stats_buffer_size) in
    rw (e, c_str-terminated (stats_text a) rest (stats_text-Avoids a)) refl

add_stats-IsWord : (x y : TopicStats) → IsWord (add_stats x y)
unfolding add_stats
add_stats-IsWord x y = record {
  publish = omega arith;
  subscribe = omega arith;
  unsubscribe = omega arith;
  topic_exists = omega arith;
  subscriber_number = omega arith;
}

add_arrays-AreWords : (a b : TopicStatsArray) → AreWords (add_arrays a b)
add_arrays-AreWords a b = record {
  news = add_stats-IsWord a.news b.news;
  updates = add_stats-IsWord a.updates b.updates;
  warnings = add_stats-IsWord a.warnings b.warnings;
}

-- An update of a file that is opened and holds the text of 64-bit counters: it shows the sums of the
-- counters read, none above the largest `long long`, and those in memory, modulo 2 ^ 64; it resets
-- the counters in memory and hands the text of the sums to the writing, whatever the writing does.
pub update_and_show_stats-adds :
    (garbage : ℕ → ℕ) (writing : Writing) (f a : TopicStatsArray)
    → AreWords f
    → update_and_show_stats garbage true writing (stats_text f) a
      ≡ some (record {
        file =
            overwrite_file writing (stats_text (add_arrays (saturated_array f) a)) (stats_text f);
        topic_stats_array = reset_stats;
        shown = some (add_arrays (saturated_array f) a);
      })
unfolding update_and_show_stats update_with total_of save
update_and_show_stats-adds garbage writing f a h =
    let (rest, e) = read_file-opened garbage (stats_text f) in
    rw
      (
        e,
        c_str-terminated (stats_text f) rest (stats_text-Avoids f),
        stats_text-not_empty f,
        parse_file_content-stats_text f h,
        write_stats_lem garbage writing (add_arrays (saturated_array f) a) (stats_text f)
            (add_arrays-AreWords (saturated_array f) a),
      )
      refl
