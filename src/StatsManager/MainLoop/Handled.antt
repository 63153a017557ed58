-- ===== src/StatsManager/MainLoop/Handled.antt =====
-- What the handling of notifications (PubSub/StatsManager/notification_handling.cpp) reports to the loop
-- of PubSub/StatsManager/stats_manager.cpp, and what an update leaves.
use ikp_projekat.Common.{
  ℕ, ◌≡◌, refl, Bool, true, false, Option, none, some, List, [], ◌∷◌, ◌>>=◌, Bool-cases, inl, inr,
  ◌==◌,
}
use ikp_projekat.Memory.{Block, hashtag, c_str}
use ikp_projekat.Memory.Text.{terminated}
use ikp_projekat.StatsManager.Notifications.{TopicStatsArray, handle_notifications, handle_from}
use ikp_projekat.StatsManager.FileUpdating.{
  Writing, Updated, reset_stats, write_stats, total_of, save, update_with, update_and_show_stats,
}
use ikp_projekat.StatsManager.FileUpdating.Update.{read_file-opened}
use ikp_projekat.StatsManager.MainLoop.{handle}

-- A predicate on the result, where there is one.
abbrev pub OnSome : {A : Type 0} → (A → Type 0) → Option A → Type 0
OnSome P none = Unit {0}
OnSome P (some x) = P x

pub OnSome-bind :
    {A B : Type 0} (Q : A → Type 0) (P : B → Type 0) (o : Option A) (f : A → Option B)
    → OnSome Q o
    → ((x : A) → Q x → OnSome P (f x))
    → OnSome P (o >>= f)
OnSome-bind Q P none f q next = tt
OnSome-bind Q P (some x) f q next = next x q

OnSome-any : {A : Type 0} (o : Option A) → OnSome (λ x. Unit {0}) o
OnSome-any none = tt
OnSome-any (some x) = tt

pub OnSome-self :
    {A : Type 0} (Q : A → Type 0) (o : Option A) → OnSome Q o → OnSome (λ x. (o ≡ some x) × Q x) o
OnSome-self Q none q = tt
OnSome-self Q (some x) q = (refl, q)

-- Whether what `recv` has delivered begins with a notification.
abbrev pub begins_with_notification : Option Block → Bool
begins_with_notification none = false
begins_with_notification (some []) = false
begins_with_notification (some (c ∷ cs)) = c == b'#'

abbrev pub Reports : Bool → TopicStatsArray × Bool → Type 0
Reports found (a, just_received) = just_received ≡ found

reported :
    (o : Option TopicStatsArray) (found : Bool)
    → OnSome (Reports found) (o >>= λ a'. some (a', found))
reported none found = tt
reported (some a') found = refl

pub handle-Reports :
    (garbage : ℕ → ℕ) (received : Option Block) (a : TopicStatsArray)
    → OnSome (Reports (begins_with_notification received)) (handle garbage received a)
unfolding handle_notifications
handle-Reports garbage none a = refl
handle-Reports garbage (some []) a = tt
handle-Reports garbage (some (c ∷ cs)) a =
    reported (handle_from garbage false (c ∷ cs) (c ∷ cs) a) (c == b'#')

-- What a handling that reports nothing has counted: nothing.
abbrev pub CountsNothing : TopicStatsArray → TopicStatsArray × Bool → Type 0
CountsNothing a (a', just_received) = just_received ≡ false → a' ≡ a

counted :
    (a : TopicStatsArray) (o : Option TopicStatsArray) (found : Bool)
    → found ≡ true
    → OnSome (CountsNothing a) (o >>= λ a'. some (a', found))
counted a none found is = tt
counted a (some a') found is = λ e. absurd (cc (is, e))

handle_from-other :
    (garbage : ℕ → ℕ) (c : ℕ) (buffer cs : Block) (a : TopicStatsArray)
    → (c == hashtag) ≡ false
    → handle_from garbage false buffer (c ∷ cs) a ≡ some a
unfolding handle_from
handle_from-other garbage c buffer cs a other = rw other refl

handle_notifications-CountsNothing :
    (garbage : ℕ → ℕ) (b : Block) (a : TopicStatsArray)
    → OnSome (CountsNothing a) (handle_notifications garbage b a)
unfolding handle_notifications
handle_notifications-CountsNothing garbage [] a = tt
handle_notifications-CountsNothing garbage (c ∷ cs) a = elim (Bool-cases (c == hashtag)) [
  | inl first ↦ counted a (handle_from garbage false (c ∷ cs) (c ∷ cs) a) (c == hashtag) first
  | inr other ↦ rw (handle_from-other garbage c (c ∷ cs) cs a other) (λ e. refl)
]

pub handle-CountsNothing :
    (garbage : ℕ → ℕ) (received : Option Block) (a : TopicStatsArray)
    → OnSome (CountsNothing a) (handle garbage received a)
handle-CountsNothing garbage none a = λ e. refl
handle-CountsNothing garbage (some b) a = handle_notifications-CountsNothing garbage b a

-- An update of a file that is opened resets the counters.
abbrev pub Resets : Updated → Type 0
Resets u = u.topic_stats_array ≡ reset_stats

save-Resets :
    (garbage : ℕ → ℕ) (writing : Writing) (file : List ℕ) (total : TopicStatsArray)
    → OnSome Resets (save garbage writing file total)
unfolding save
save-Resets garbage writing file total = saved (write_stats garbage writing total file)
  where
    saved :
        (o : Option (List ℕ))
        → OnSome Resets (
            o >>= λ file'.
            some (record { file = file'; topic_stats_array = reset_stats; shown = some total }))
    saved none = tt
    saved (some file') = refl

update_with-Resets :
    (garbage : ℕ → ℕ) (writing : Writing) (file : List ℕ) (a : TopicStatsArray) (b : Block)
    → OnSome Resets (update_with garbage writing file a (some b))
unfolding update_with
update_with-Resets garbage writing file a b =
    OnSome-bind (λ text. Unit {0}) Resets (c_str b)
      (λ text. total_of text a >>= save garbage writing file) (OnSome-any (c_str b))
      (λ text q.
        OnSome-bind (λ total. Unit {0}) Resets (total_of text a) (save garbage writing file)
          (OnSome-any (total_of text a)) (λ total q'. save-Resets garbage writing file total))

pub update-Resets :
    (garbage : ℕ → ℕ) (opened : Bool) (writing : Writing) (file : List ℕ) (a : TopicStatsArray)
    → opened ≡ true
    → OnSome Resets (update_and_show_stats garbage opened writing file a)
unfolding update_and_show_stats
update-Resets garbage opened writing file a is =
    let (rest, read) = read_file-opened garbage file in
    rw (is, read) (update_with-Resets garbage writing file a (terminated file rest))

pub OnSome-both :
    {A : Type 0} (P Q : A → Type 0) (o : Option A)
    → OnSome P o
    → OnSome Q o
    → OnSome (λ x. P x × Q x) o
OnSome-both P Q none p q = tt
OnSome-both P Q (some x) p q = (p, q)
