-- ===== src/StatsManager/FileUpdating/Parse.antt =====
-- What `parse_file_content` reads of a file that `stringify_stats` has written.
use ikp_projekat.Common.{
  ℕ, ◌^◌, ◌<◌, ◌≡◌, refl, ◌∙◌, sym, ap, some, List, [], ◌∷◌, ◌++◌, arith, length-append,
  append_assoc,
}
use ikp_projekat.Memory.Text.{Avoids, Avoids-append}
use ikp_projekat.Memory.Decimal.{decimal}
use ikp_projekat.Memory.Scanning.{next_token, strtok, strtoll, at_most, llong_max}
use ikp_projekat.Memory.Scanning.Tokens.{
  NonEmpty, next_token-delimiter, next_token-last, decimal-Avoids, decimal-NonEmpty,
  strtoll-decimal,
}
use ikp_projekat.StatsManager.Notifications.{TopicStats, TopicStatsArray}
use ikp_projekat.StatsManager.FileUpdating.{
  newline, comma, column, columns, stats_line, parse_line, parse_file_content,
}

-- Each counter is a 64-bit number.
pub record IsWord (x : TopicStats) : Type 0 where
  pub publish : x.publish_commands_num < 2 ^ 64
  pub subscribe : x.subscribe_commands_num < 2 ^ 64
  pub unsubscribe : x.unsubscribe_commands_num < 2 ^ 64
  pub topic_exists : x.topic_exists_commands_num < 2 ^ 64
  pub subscriber_number : x.subscriber_number_commands_num < 2 ^ 64

pub record AreWords (a : TopicStatsArray) : Type 0 where
  pub news : IsWord a.news
  pub updates : IsWord a.updates
  pub warnings : IsWord a.warnings

-- The counters, none above the largest `long long`.
unfoldable pub saturated : TopicStats → TopicStats
saturated x = record {
  publish_commands_num = at_most llong_max x.publish_commands_num;
  subscribe_commands_num = at_most llong_max x.subscribe_commands_num;
  unsubscribe_commands_num = at_most llong_max x.unsubscribe_commands_num;
  topic_exists_commands_num = at_most llong_max x.topic_exists_commands_num;
  subscriber_number_commands_num = at_most llong_max x.subscriber_number_commands_num;
}

abbrev pub saturated_array : TopicStatsArray → TopicStatsArray
saturated_array a = record {
  news = saturated a.news;
  updates = saturated a.updates;
  warnings = saturated a.warnings;
}

-- A line without its newline.
abbrev pub stats_row : TopicStats → List ℕ
stats_row x = columns x (decimal x.subscriber_number_commands_num)

token_of : (n : ℕ) (rest : List ℕ) → next_token comma (column n rest) ≡ (some (decimal n), rest)
token_of n rest =
    next_token-delimiter comma (decimal n) rest (decimal-Avoids comma n (omega arith))
      (decimal-NonEmpty n)

last_token_of : (n : ℕ) → next_token comma (decimal n) ≡ (some (decimal n), [])
last_token_of n =
    next_token-last comma (decimal n) (decimal-Avoids comma n (omega arith)) (decimal-NonEmpty n)

-- A line of five tokens.
parse_line-tokens :
    (line rest n0 n1 n2 n3 n4 r0 r1 r2 r3 r4 : List ℕ)
    → next_token comma line ≡ (some n0, r0)
    → next_token comma r0 ≡ (some n1, r1)
    → next_token comma r1 ≡ (some n2, r2)
    → next_token comma r2 ≡ (some n3, r3)
    → next_token comma r3 ≡ (some n4, r4)
    → parse_line (some line) rest
      ≡ some (
        record {
          publish_commands_num = strtoll n0;
          subscribe_commands_num = strtoll n1;
          unsubscribe_commands_num = strtoll n2;
          topic_exists_commands_num = strtoll n3;
          subscriber_number_commands_num = strtoll n4;
        },
        r4,
      )
unfolding parse_line strtok
parse_line-tokens line rest n0 n1 n2 n3 n4 r0 r1 r2 r3 r4 h0 h1 h2 h3 h4 =
    rw (h0, h1, h2, h3, h4) refl

parse_line-stats_row :
    (x : TopicStats) (rest : List ℕ)
    → IsWord x
    → parse_line (some (stats_row x)) rest ≡ some (saturated x, [])
unfolding saturated
parse_line-stats_row x rest h =
    parse_line-tokens (stats_row x) rest _ _ _ _ _ _ _ _ _ _ (token_of x.publish_commands_num _)
      (token_of x.subscribe_commands_num _) (token_of x.unsubscribe_commands_num _)
      (token_of x.topic_exists_commands_num _) (last_token_of x.subscriber_number_commands_num)
    ∙ rw
        (
          strtoll-decimal x.publish_commands_num h.publish,
          strtoll-decimal x.subscribe_commands_num h.subscribe,
          strtoll-decimal x.unsubscribe_commands_num h.unsubscribe,
          strtoll-decimal x.topic_exists_commands_num h.topic_exists,
          strtoll-decimal x.subscriber_number_commands_num h.subscriber_number,
        )
        refl

-- What no number and no comma is, is not in a row.
column-Avoids : (c n : ℕ) (t : List ℕ) → c < comma → Avoids c t → Avoids c (column n t)
column-Avoids c n t small h =
    Avoids-append c (decimal n) (comma ∷ t) (decimal-Avoids c n (omega (arith, small)))
      (λ e. omega (arith, small, e), h)

pub stats_row-Avoids : (c : ℕ) (x : TopicStats) → c < comma → Avoids c (stats_row x)
stats_row-Avoids c x small = column-Avoids c x.publish_commands_num _ small (
    column-Avoids c x.subscribe_commands_num _ small (
      column-Avoids c x.unsubscribe_commands_num _ small (
        column-Avoids c x.topic_exists_commands_num _ small
          (decimal-Avoids c x.subscriber_number_commands_num (omega (arith, small))))))

stats_row-NonEmpty : (x : TopicStats) → NonEmpty (stats_row x)
stats_row-NonEmpty x = omega (
  arith,
  length-append (decimal x.publish_commands_num) (comma ∷ _),
  decimal-NonEmpty x.publish_commands_num,
)

column-append : (n : ℕ) (s t : List ℕ) → column n s ++ t ≡ column n (s ++ t)
column-append n s t = append_assoc (decimal n) (comma ∷ s) t

columns-append : (x : TopicStats) (s t : List ℕ) → columns x s ++ t ≡ columns x (s ++ t)
columns-append x s t = rw (column-append, column-append, column-append, column-append) refl

pub stats_line-row :
    (x : TopicStats) (rest : List ℕ) → stats_line x ++ rest ≡ stats_row x ++ (newline ∷ rest)
unfolding stats_line
stats_line-row x rest =
    columns-append x (last ++ (newline ∷ [])) rest
    ∙ (ap (columns x) (append_assoc last (newline ∷ []) rest)
        ∙ sym (columns-append x last (newline ∷ rest)))
  where
    last : List ℕ
    last = decimal x.subscriber_number_commands_num

line_of :
    (x : TopicStats) (rest : List ℕ)
    → next_token newline (stats_line x ++ rest) ≡ (some (stats_row x), rest)
line_of x rest = rw (stats_line-row x rest) (
    next_token-delimiter newline (stats_row x) rest (stats_row-Avoids newline x (omega arith))
      (stats_row-NonEmpty x))

-- The text of the file.
abbrev pub stats_text : TopicStatsArray → List ℕ
stats_text a = stats_line a.news ++ (stats_line a.updates ++ (stats_line a.warnings ++ []))

-- A text of three lines.
parse_file_content-lines :
    (text l0 l1 l2 r0 r1 r2 : List ℕ) (x0 x1 x2 : TopicStats)
    → next_token newline text ≡ (some l0, r0)
    → next_token newline r0 ≡ (some l1, r1)
    → next_token newline r1 ≡ (some l2, r2)
    → ((rest : List ℕ) → parse_line (some l0) rest ≡ some (x0, []))
    → ((rest : List ℕ) → parse_line (some l1) rest ≡ some (x1, []))
    → ((rest : List ℕ) → parse_line (some l2) rest ≡ some (x2, []))
    → parse_file_content text ≡ some (record { news = x0; updates = x1; warnings = x2 })
unfolding parse_file_content strtok
parse_file_content-lines text l0 l1 l2 r0 r1 r2 x0 x1 x2 h0 h1 h2 p0 p1 p2 =
    rw (h0, h1, h2, p0 r2, p1 [], p2 []) refl

-- A text that was written of 64-bit counters is read as these counters, but for those above the
-- largest `long long`, which are read as that.
pub parse_file_content-stats_text :
    (a : TopicStatsArray)
    → AreWords a
    → parse_file_content (stats_text a) ≡ some (saturated_array a)
parse_file_content-stats_text a h =
    parse_file_content-lines (stats_text a) _ _ _ _ _ _ _ _ _ (line_of a.news _)
      (line_of a.updates _) (line_of a.warnings _) (λ rest. parse_line-stats_row a.news rest h.news)
      (λ rest. parse_line-stats_row a.updates rest h.updates)
      (λ rest. parse_line-stats_row a.warnings rest h.warnings)
