-- ===== src/StatsManager/FileUpdating/Stringify.antt =====
-- What `stringify_stats` of PubSub/StatsManager/file_updating.cpp writes, and that its buffer is always large enough.
use ikp_projekat.Common.{
  ℕ, ◌+◌, ◌-◌, ◌^◌, ◌<◌, ◌≤◌, ◌≡◌, refl, sym, true, some, List, [], ◌∷◌, ◌++◌, arith, length,
  length-append, length-drop, append_assoc, append-nil, drop, take_all, ==_of_ne, lt→ltb, not_leb,
}
use ikp_projekat.Memory.{Block}
use ikp_projekat.Memory.Text.{terminated}
use ikp_projekat.Memory.Fill.{store-next}
use ikp_projekat.Memory.Decimal.{decimal}
use ikp_projekat.Memory.Scanning.{snprintf}
use ikp_projekat.Memory.Scanning.Tokens.{length-decimal-le}
use ikp_projekat.StatsManager.Notifications.{TopicStats, TopicStatsArray}
use ikp_projekat.StatsManager.FileUpdating.{
  newline, comma, column, stats_line, stringify_from, stringify_stats, topics_of, stats_buffer_size,
}
use ikp_projekat.StatsManager.FileUpdating.Parse.{IsWord, AreWords, stats_text}

-- A text that fits is written whole, behind what is already written, with its null byte.
snprintf-next :
    (written rest text : Block) (n size : ℕ)
    → n ≡ length written
    → length text < size
    → size ≤ length rest
    → snprintf (written ++ rest) n size text
      ≡ some ((written ++ text) ++ (0 ∷ drop (length text + 1) rest), length text)
unfolding snprintf
snprintf-next written rest text n size e fits room =
    rw
      (
        ==_of_ne size 0 (λ z. omega arith),
        take_all text (size - 1) (omega arith),
        store-next written rest (text ++ (0 ∷ [])) n e (omega (arith, one_more)),
        one_more,
        sym (append_assoc written text (0 ∷ [])),
        append_assoc (written ++ text) (0 ∷ []) (drop (length text + 1) rest),
      )
      refl
  where
    one_more : length (text ++ (0 ∷ [])) ≡ length text + 1
    one_more = omega (arith, length-append text (0 ∷ []))

abbrev lines : List TopicStats → List ℕ
lines [] = []
lines (x ∷ xs) = stats_line x ++ lines xs

stringify_from_lem :
    (xs : List TopicStats) (written rest : Block) (size n : ℕ)
    → n ≡ length written
    → size ≡ length (written ++ rest)
    → n + length (lines xs) < size
    → (rest' : Block) × (stringify_from xs (written ++ rest) size n
        ≡ some (true, (written ++ lines xs) ++ (0 ∷ rest')))
unfolding stringify_from
stringify_from_lem [] written rest size n e s fits = (
  drop 1 rest,
  rw
      (
        lt→ltb n size (omega arith),
        store-next written rest (0 ∷ []) n e (omega (arith, length-append written rest)),
        append-nil,
        append_assoc written (0 ∷ []) (drop 1 rest),
      )
      refl,
)
stringify_from_lem (x ∷ xs) written rest size n e s fits =
    let (rest', done) =
      stringify_from_lem xs (written ++ stats_line x) (0 ∷ drop (length (stats_line x) + 1) rest)
        size (n + length (stats_line x)) (omega (arith, length-append written (stats_line x)))
        same_size (omega (arith, longer)) in
    (
      rest',
      rw
          (
            snprintf-next written rest (stats_line x) n (size - n) e (omega (arith, longer))
                (omega (arith, length-append written rest)),
            not_leb (size - n) (length (stats_line x)) (omega (arith, longer)),
            done,
            append_assoc written (stats_line x) (lines xs),
          )
          refl,
    )
  where
    longer : length (stats_line x ++ lines xs) ≡ length (stats_line x) + length (lines xs)
    longer = length-append (stats_line x) (lines xs)

    same_size :
        size ≡ length ((written ++ stats_line x) ++ (0 ∷ drop (length (stats_line x) + 1) rest))
    same_size = omega (
      arith,
      longer,
      length-append (written ++ stats_line x) (0 ∷ drop (length (stats_line x) + 1) rest),
      length-append written (stats_line x),
      length-append written rest,
      length-drop (length (stats_line x) + 1) rest,
    )

length-column : (n : ℕ) (t : List ℕ) → n < 2 ^ 64 → length (column n t) ≤ 21 + length t
length-column n t h = omega (arith, length-append (decimal n) (comma ∷ t), length-decimal-le n h)

length-stats_line : (x : TopicStats) → IsWord x → length (stats_line x) ≤ 105
unfolding stats_line
length-stats_line x h = omega (
  arith,
  length-column x.publish_commands_num _ h.publish,
  length-column x.subscribe_commands_num _ h.subscribe,
  length-column x.unsubscribe_commands_num _ h.unsubscribe,
  length-column x.topic_exists_commands_num
      (decimal x.subscriber_number_commands_num ++ (newline ∷ [])) h.topic_exists,
  length-append (decimal x.subscriber_number_commands_num) (newline ∷ []),
  length-decimal-le x.subscriber_number_commands_num h.subscriber_number,
)

-- Of 64-bit counters `stringify_stats` succeeds in a buffer of 400 bytes, whatever it holds, and
-- leaves in it the text of the three lines with a null byte.
pub stringify_stats-fits :
    (a : TopicStatsArray) (stats : Block)
    → AreWords a
    → length stats ≡ stats_buffer_size
    → (rest : Block) × (stringify_stats a stats stats_buffer_size
        ≡ some (true, terminated (stats_text a) rest))
unfolding stringify_stats
stringify_stats-fits a stats h l =
    stringify_from_lem (topics_of a) [] stats stats_buffer_size 0 refl (sym l) (
      omega (
        arith,
        length-append (stats_line a.news) (stats_line a.updates ++ (stats_line a.warnings ++ [])),
        length-append (stats_line a.updates) (stats_line a.warnings ++ []),
        length-append (stats_line a.warnings) [],
        length-stats_line a.news h.news,
        length-stats_line a.updates h.updates,
        length-stats_line a.warnings h.warnings,
      ))
