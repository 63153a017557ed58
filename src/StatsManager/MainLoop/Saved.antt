-- ===== src/StatsManager/MainLoop/Saved.antt =====
-- What a turn of the stats manager's loop (PubSub/StatsManager/stats_manager.cpp) does and keeps.
use ikp_projekat.Common.{
  ℕ, ◌+◌, ◌≤◌, ◌<◌, leb, ◌≡◌, ◌⊎◌, refl, ap, sym, arith, subst, ◌∙◌, Bool, true, false, ◌||◌, some,
  Bool-cases, inl, inr, leb→le,
}
use ikp_projekat.StatsManager.Notifications.{TopicStatsArray}
use ikp_projekat.StatsManager.FileUpdating.{Updated, reset_stats, update_and_show_stats}
use ikp_projekat.StatsManager.MainLoop.{Manager, Events, handle, update_if_due, turn}
use ikp_projekat.StatsManager.MainLoop.Handled.{
  OnSome, OnSome-bind, OnSome-self, OnSome-both, begins_with_notification, Reports, handle-Reports,
  CountsNothing, handle-CountsNothing, Resets, update-Resets,
}

-- Something has been received since the last update, in this turn or in an earlier one.
abbrev pub pending : Events → Manager → Bool
pending v m = begins_with_notification v.received || m.notifications_received

-- The turn that updates the file, with the counters `a`.
abbrev pub Updates : (garbage : ℕ → ℕ) → Events → TopicStatsArray → Manager → Manager → Type 0
Updates garbage v a m m' =
    (u : Updated) × (update_and_show_stats garbage v.opened v.writing m.file a ≡ some u)
    × (m' ≡ record {
      topic_stats_array = reset_stats;
      notifications_received = false;
      last_update_time = v.updated_at;
      file = u.file;
    })

-- The state after a turn: `counted` are the counters behind the handling of what was received. The
-- file is updated where something is pending and the period is over; else the counters are kept,
-- with the note that something is pending, and the file and the time of the update stay.
pub record IsRight (garbage : ℕ → ℕ) (update_period : ℕ) (v : Events) (m m' : Manager)
    : Type 0 where
  pub counted : TopicStatsArray
  pub handled :
      handle garbage v.received m.topic_stats_array
      ≡ some (counted, begins_with_notification v.received)
  pub outcome :
      ((pending v m ≡ true)
        × (m.last_update_time + update_period ≤ v.now)
        × Updates garbage v counted m m')
      ⊎ (((pending v m ≡ false) ⊎ (v.now < m.last_update_time + update_period))
          × (m' ≡ record m { topic_stats_array = counted; notifications_received = pending v m }))
  pub known : m'.notifications_received ≡ false → m'.topic_stats_array ≡ reset_stats

module _ (garbage : ℕ → ℕ) (update_period : ℕ) where
  update_if_due-IsRight :
      (v : Events) (a : TopicStatsArray) (m : Manager)
      → v.opened ≡ true
      → handle garbage v.received m.topic_stats_array
        ≡ some (a, begins_with_notification v.received)
      → (pending v m ≡ false → a ≡ reset_stats)
      → OnSome
          (IsRight garbage update_period v m)
          (update_if_due garbage update_period v a (pending v m) m)
  unfolding update_if_due
  update_if_due-IsRight v a m opened handled known = elim (Bool-cases (pending v m)) [
    | inl some_pending ↦ elim (Bool-cases (leb (m.last_update_time + update_period) v.now)) [
      | inl over ↦
          rw (some_pending, over)
            (OnSome-bind
              (λ u. (update_and_show_stats garbage v.opened v.writing m.file a ≡ some u) × Resets u)
              (IsRight garbage update_period v m) _ _
              (OnSome-self Resets _ (update-Resets garbage v.opened v.writing m.file a opened))
              (λ u (shown, reset). record {
                counted = a;
                handled = handled;
                outcome = inl (
                  some_pending,
                  leb→le (m.last_update_time + update_period) v.now over,
                  (
                    u,
                    shown,
                    ap
                        (λ x. record {
                          topic_stats_array = x;
                          notifications_received = false;
                          last_update_time = v.updated_at;
                          file = u.file;
                        })
                        reset,
                  ),
                );
                known = λ e. reset;
              }))
      | inr early ↦
          rw (some_pending, early)
            (record {
              counted = a;
              handled = handled;
              outcome = inr (
                inr (ground arith),
                ap (λ x. record m { topic_stats_array = a; notifications_received = x })
                    (sym some_pending),
              );
              known = λ e. absurd (cc e);
            })
    ]
    | inr nothing ↦ rw nothing (record {
      counted = a;
      handled = handled;
      outcome = inr (
        inl nothing,
        ap (λ x. record m { topic_stats_array = a; notifications_received = x }) (sym nothing),
      );
      known = λ e. known nothing;
    })
  ]

  -- A turn of the main loop that gets to its end, and whose update, if there is one, can open the file,
  -- from a state with no counts in memory unless `notifications_received` says so. The file is updated
  -- with the counts of all that has been handled just where something has been received since the last
  -- update, in this turn or before, and the period is over: the counters are reset then, the flag is
  -- cleared and the time is set. Else file and time stay, the counts are kept, and the flag says
  -- whether something has been received since the last update. Where it says no, no counts are left in
  -- memory.
  pub turn-IsRight :
      (v : Events) (m m' : Manager)
      → v.opened ≡ true
      → (m.notifications_received ≡ false → m.topic_stats_array ≡ reset_stats)
      → turn garbage update_period v m ≡ some m'
      → IsRight garbage update_period v m m'
  unfolding turn
  turn-IsRight v m m' opened known run =
      subst (OnSome (IsRight garbage update_period v m)) run every
    where
      none_pending :
          (just_received before : Bool) (a : TopicStatsArray)
          → CountsNothing m.topic_stats_array (a, just_received)
          → (before ≡ false → m.topic_stats_array ≡ reset_stats)
          → (just_received || before) ≡ false
          → a ≡ reset_stats
      none_pending true before a nothing none_before e = absurd (cc e)
      none_pending false before a nothing none_before e = nothing refl ∙ none_before e

      start : TopicStatsArray
      start = m.topic_stats_array

      after_handling :
          (a : TopicStatsArray) (just_received : Bool)
          → handle garbage v.received start ≡ some (a, just_received)
          → just_received ≡ begins_with_notification v.received
          → CountsNothing start (a, just_received)
          → OnSome (IsRight garbage update_period v m) (
              update_if_due garbage update_period v a (just_received || m.notifications_received) m)
      after_handling a just_received handled is nothing =
          let nothing' : CountsNothing start (a, begins_with_notification v.received) =
            subst (λ b. CountsNothing start (a, b)) is nothing in
          rw is (
            update_if_due-IsRight v a m opened (handled ∙ ap (λ b. some (a, b)) is) (
              none_pending (begins_with_notification v.received) m.notifications_received a nothing'
                known))

      every : OnSome (IsRight garbage update_period v m) (turn garbage update_period v m)
      every =
          OnSome-bind {A = TopicStatsArray × Bool} _ (IsRight garbage update_period v m) _ _
            (OnSome-self
              (λ r. Reports (begins_with_notification v.received) r × CountsNothing start r) _
              (OnSome-both _ _ _ (handle-Reports garbage v.received start)
                (handle-CountsNothing garbage v.received start)))
            (λ r q. after_handling r.0 r.1 q.0 q.1.0 q.1.1)
