-- ===== src/StatsManager/FileUpdating/Total.antt =====
-- A history of updates of the file of PubSub/StatsManager/file_updating.cpp: no count is lost.
use ikp_projekat.Common.{
  ℕ, ◌+◌, ◌^◌, ◌%◌, ◌≤◌, ◌≡◌, refl, ◌∙◌, ap, true, Option, some, List, [], ◌∷◌, arith, ◌>>=◌,
  le→leb,
}
use ikp_projekat.Memory.{same_text}
use ikp_projekat.Memory.Text.{c_str-terminated}
use ikp_projekat.Memory.Scanning.{at_most, llong_max}
use ikp_projekat.StatsManager.Notifications.{TopicStats, TopicStatsArray}
use ikp_projekat.StatsManager.FileUpdating.{
  Writing, overwrite_file, reset_stats, add_stats, add_arrays, update_with, total_of, save,
  update_and_show_stats, parsed, read_and_show_stats,
}
use ikp_projekat.StatsManager.FileUpdating.Parse.{
  parse_file_content-stats_text, IsWord, AreWords, saturated, saturated_array, stats_text,
}
use ikp_projekat.StatsManager.FileUpdating.Update.{
  stats_text-Avoids, stats_text-not_empty, read_file-opened, write_stats_lem,
  update_and_show_stats-adds,
}

-- The sums of the counters, of any size.
abbrev pub plus : TopicStats → TopicStats → TopicStats
plus x y = record {
  publish_commands_num = x.publish_commands_num + y.publish_commands_num;
  subscribe_commands_num = x.subscribe_commands_num + y.subscribe_commands_num;
  unsubscribe_commands_num = x.unsubscribe_commands_num + y.unsubscribe_commands_num;
  topic_exists_commands_num = x.topic_exists_commands_num + y.topic_exists_commands_num;
  subscriber_number_commands_num =
      x.subscriber_number_commands_num + y.subscriber_number_commands_num;
}

abbrev pub plus_arrays : TopicStatsArray → TopicStatsArray → TopicStatsArray
plus_arrays a b = record {
  news = plus a.news b.news;
  updates = plus a.updates b.updates;
  warnings = plus a.warnings b.warnings;
}

abbrev pub total : TopicStatsArray → List TopicStatsArray → TopicStatsArray
total f [] = f
total f (a ∷ more) = total (plus_arrays f a) more

-- No counter is above what `strtoll` reads.
pub record IsReadable (x : TopicStats) : Type 0 where
  pub publish : x.publish_commands_num ≤ llong_max
  pub subscribe : x.subscribe_commands_num ≤ llong_max
  pub unsubscribe : x.unsubscribe_commands_num ≤ llong_max
  pub topic_exists : x.topic_exists_commands_num ≤ llong_max
  pub subscriber_number : x.subscriber_number_commands_num ≤ llong_max

pub record AreReadable (a : TopicStatsArray) : Type 0 where
  pub news : IsReadable a.news
  pub updates : IsReadable a.updates
  pub warnings : IsReadable a.warnings

plus-IsReadable : (x y : TopicStats) → IsReadable (plus x y) → IsReadable x
plus-IsReadable x y h = record {
  publish = omega (arith, h.publish);
  subscribe = omega (arith, h.subscribe);
  unsubscribe = omega (arith, h.unsubscribe);
  topic_exists = omega (arith, h.topic_exists);
  subscriber_number = omega (arith, h.subscriber_number);
}

total-AreReadable :
    (f : TopicStatsArray) (more : List TopicStatsArray) → AreReadable (total f more) → AreReadable f
total-AreReadable f [] h = h
total-AreReadable f (a ∷ more) h =
    let after = total-AreReadable (plus_arrays f a) more h in
    record {
      news = plus-IsReadable f.news a.news after.news;
      updates = plus-IsReadable f.updates a.updates after.updates;
      warnings = plus-IsReadable f.warnings a.warnings after.warnings;
    }

readable-IsWord : (x : TopicStats) → IsReadable x → IsWord x
readable-IsWord x h = record {
  publish = omega (arith, h.publish);
  subscribe = omega (arith, h.subscribe);
  unsubscribe = omega (arith, h.unsubscribe);
  topic_exists = omega (arith, h.topic_exists);
  subscriber_number = omega (arith, h.subscriber_number);
}

readable-AreWords : (a : TopicStatsArray) → AreReadable a → AreWords a
readable-AreWords a h = record {
  news = readable-IsWord a.news h.news;
  updates = readable-IsWord a.updates h.updates;
  warnings = readable-IsWord a.warnings h.warnings;
}

-- Addition to what was read is exact where the sum is readable.
exact : (n k : ℕ) → n + k ≤ llong_max → (at_most llong_max n + k) % 2 ^ 64 ≡ n + k
exact n k h = rw (le→leb n llong_max (omega arith)) (omega arith)

add_stats-exact : (x y : TopicStats) → IsReadable (plus x y) → add_stats (saturated x) y ≡ plus x y
unfolding add_stats saturated
add_stats-exact x y h =
    rw
      (
        exact x.publish_commands_num y.publish_commands_num h.publish,
        exact x.subscribe_commands_num y.subscribe_commands_num h.subscribe,
        exact x.unsubscribe_commands_num y.unsubscribe_commands_num h.unsubscribe,
        exact x.topic_exists_commands_num y.topic_exists_commands_num h.topic_exists,
        exact x.subscriber_number_commands_num y.subscriber_number_commands_num h.subscriber_number,
      )
      refl

add_arrays-exact :
    (f a : TopicStatsArray)
    → AreReadable (plus_arrays f a)
    → add_arrays (saturated_array f) a ≡ plus_arrays f a
add_arrays-exact f a h =
    rw
      (
        add_stats-exact f.news a.news h.news,
        add_stats-exact f.updates a.updates h.updates,
        add_stats-exact f.warnings a.warnings h.warnings,
      )
      refl

-- The updates that succeed, one behind the other, with the counters of each.
unfoldable pub updates : (ℕ → ℕ) → List ℕ → List TopicStatsArray → Option (List ℕ)
updates garbage file [] = some file
updates garbage file (a ∷ more) = do
  u ← update_and_show_stats garbage true Writing.succeeds file a
  updates garbage u.file more

-- Updates of a file that holds the text of counters add to them all the counters that they were
-- called with, where no sum is above the largest `long long`.
updates-total :
    (garbage : ℕ → ℕ) (f : TopicStatsArray) (more : List TopicStatsArray)
    → AreReadable (total f more)
    → updates garbage (stats_text f) more ≡ some (stats_text (total f more))
unfolding updates overwrite_file
updates-total garbage f [] h = refl
updates-total garbage f (a ∷ more) h =
    rw
      (update_and_show_stats-adds garbage Writing.succeeds f a
        (readable-AreWords f (total-AreReadable f (a ∷ more) h)))
      (ap (λ t. updates garbage (stats_text t) more)
          (add_arrays-exact f a (total-AreReadable (plus_arrays f a) more h))
        ∙ updates-total garbage (plus_arrays f a) more h)

-- The first update, of an empty file.
update-empty :
    (garbage : ℕ → ℕ) (writing : Writing) (a : TopicStatsArray)
    → AreWords a
    → update_and_show_stats garbage true writing [] a
      ≡ some (record {
        file = overwrite_file writing (stats_text a) [];
        topic_stats_array = reset_stats;
        shown = some a;
      })
unfolding update_and_show_stats update_with total_of save same_text
update-empty garbage writing a h =
    let (rest, e) = read_file-opened garbage [] in
    rw (e, c_str-terminated [] rest tt, write_stats_lem garbage writing a [] h) refl

-- From an empty file on, updates whose file is opened, read and written leave in it the text of the
-- sums of all the counters that they were called with, where no sum is above the largest `long long`.
pub updates-counts :
    (garbage : ℕ → ℕ) (a : TopicStatsArray) (more : List TopicStatsArray)
    → AreReadable (total a more)
    → updates garbage [] (a ∷ more) ≡ some (stats_text (total a more))
unfolding updates overwrite_file
updates-counts garbage a more h =
    rw
      (
        update-empty garbage Writing.succeeds a (readable-AreWords a (total-AreReadable a more h)),
        updates-total garbage a more h,
      )
      refl

saturated-readable : (x : TopicStats) → IsReadable x → saturated x ≡ x
unfolding saturated
saturated-readable x h =
    rw
      (
        le→leb x.publish_commands_num llong_max h.publish,
        le→leb x.subscribe_commands_num llong_max h.subscribe,
        le→leb x.unsubscribe_commands_num llong_max h.unsubscribe,
        le→leb x.topic_exists_commands_num llong_max h.topic_exists,
        le→leb x.subscriber_number_commands_num llong_max h.subscriber_number,
      )
      refl

shown_again :
    (garbage : ℕ → ℕ) (a : TopicStatsArray)
    → AreReadable a
    → read_and_show_stats garbage true (stats_text a) ≡ some (some a)
unfolding read_and_show_stats parsed
shown_again garbage a h =
    let (rest, e) = read_file-opened garbage (stats_text a) in
    rw
      (
        e,
        c_str-terminated (stats_text a) rest (stats_text-Avoids a),
        stats_text-not_empty a,
        parse_file_content-stats_text a (readable-AreWords a h),
        saturated-readable a.news h.news,
        saturated-readable a.updates h.updates,
        saturated-readable a.warnings h.warnings,
      )
      refl

-- After updates of an empty file whose file is opened, read and written, `read_and_show_stats` of the
-- next start shows the sums of all the counters that they were called with, where no sum is above
-- the largest `long long`.
pub updates-shown_again :
    (garbage : ℕ → ℕ) (a : TopicStatsArray) (more : List TopicStatsArray)
    → AreReadable (total a more)
    → (file : List ℕ) × (updates garbage [] (a ∷ more) ≡ some file)
      × (read_and_show_stats garbage true file ≡ some (some (total a more)))
updates-shown_again garbage a more h = (
  stats_text (total a more),
  updates-counts garbage a more h,
  shown_again garbage (total a more) h,
)
