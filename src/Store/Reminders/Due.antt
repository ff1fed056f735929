-- ===== src/Store/Reminders/Due.antt =====
-- What Memory.ListDue lists, and the reminder table's invariant (store/schedule.go).
use gor.Prelude.{
  Option, none, some, Bool, true, false, ◌≡◌, refl, ap, map, List, ◌∙◌, get, put, delete, ite,
  ℕ_discrete, ℤ-discrete, select, Text, pos, [], ◌∷◌,
}
use gor.Store.{
  GrainId, Error, Result, ok, Reminder, ReminderKey, ReminderKey-discrete, Memory, Time, next_etag,
  new_memory,
}
use gor.Store.Keyed.{
  IsKeyed, find_row, find_row-sort, find_row-rows, find_row-select, rows-DistinctRows, get-own,
  select-DistinctRows, sort-DistinctRows, DistinctRows, put-IsKeyed, delete-IsKeyed, keep,
}
use gor.Store.Reminders.{
  key_for_reminder, reminder_less, sort_reminders, is_due, list_due, claim, claim_row, put_reminder,
  delete_reminder,
}
use gor.Store.Reminders.Claims.{reminder_at}

-- The rows of the reminder map stand under their own keys, and no key stands twice.
abbrev pub IsReminderTable : Memory → Type 0
IsReminderTable m = IsKeyed ReminderKey-discrete key_for_reminder m.reminders

due_rows : Time → Memory → List Reminder
due_rows now m = select (is_due now) (map (λ e. e.1) m.reminders)

due_rows-DistinctRows :
    (now : Time) (m : Memory)
    → IsReminderTable m
    → DistinctRows ReminderKey-discrete key_for_reminder (due_rows now m)
unfolding due_rows
due_rows-DistinctRows now m h =
    select-DistinctRows ReminderKey-discrete key_for_reminder (is_due now) _
      (rows-DistinctRows ReminderKey-discrete key_for_reminder m.reminders h)

-- On a well-formed table, ListDue returns for each reminder key the stored reminder if it is due at
-- now, its DueAt included, and nothing for the others; no key stands twice in the list.
pub list_due_lem :
    (now : Time) (m : Memory)
    → IsReminderTable m
    → (due : List Reminder) × (list_due none now m ≡ ok due)
      × ((key : ReminderKey)
          → find_row ReminderKey-discrete key_for_reminder key due
            ≡ keep ReminderKey-discrete key_for_reminder (is_due now) (reminder_at key m))
      × DistinctRows ReminderKey-discrete key_for_reminder due
unfolding list_due reminder_at due_rows
list_due_lem now m h = (
  sort_reminders (due_rows now m),
  refl,
  (λ key.
      (unfold sort_reminders in
        find_row-sort ReminderKey-discrete key_for_reminder reminder_less key _
          (due_rows-DistinctRows now m h))
      ∙ find_row-select ReminderKey-discrete key_for_reminder (is_due now) key _
          (rows-DistinctRows ReminderKey-discrete key_for_reminder m.reminders h)
      ∙ ap (keep ReminderKey-discrete key_for_reminder (is_due now))
          (find_row-rows ReminderKey-discrete key_for_reminder key m.reminders h.own)),
  unfold sort_reminders in
      sort-DistinctRows ReminderKey-discrete key_for_reminder reminder_less _
        (due_rows-DistinctRows now m h),
)

pub data ReminderCall : Type 0 where
  claim_call : Option Error → Reminder → Time → ReminderCall
  put_call : Option Error → Reminder → ReminderCall
  delete_call : Option Error → GrainId → Text → ReminderCall

abbrev pub after_call : ReminderCall → Memory → Memory
after_call (claim_call ctx r next) m = (claim ctx r next m).1
after_call (put_call ctx r) m = (put_reminder ctx r m).1
after_call (delete_call ctx id name) m = (delete_reminder ctx id name m).1

unfoldable pub after_calls : List ReminderCall → Memory → Memory
after_calls [] m = m
after_calls (c ∷ cs) m = after_calls cs (after_call c m)

claim_row-IsReminderTable :
    (r : Reminder) (next : Time) (row : Option Reminder) (m : Memory)
    → IsReminderTable m
    → get ReminderKey-discrete (key_for_reminder r) m.reminders ≡ row
    → IsReminderTable (claim_row (key_for_reminder r) r next row m).1
unfolding claim_row
claim_row-IsReminderTable r next none m h e = h
claim_row-IsReminderTable r next (some current) m h e =
    by_etag (ℕ_discrete current.etag r.etag) (ℤ-discrete next (pos 0))
  where
    moved : Reminder
    moved = record current { due_at = next; etag = next_etag current.etag }

    by_etag :
        (fits : Dec (current.etag ≡ r.etag)) (last : Dec (next ≡ pos 0))
        → IsReminderTable
            (ite {C = Result Bool × Memory} fits
              (
                ok true,
                record m {
                  reminders =
                      ite last
                        (delete ReminderKey-discrete (key_for_reminder r) m.reminders)
                        (put ReminderKey-discrete (key_for_reminder r) moved m.reminders);
                },
              )
              (ok false, m)).1
    by_etag (no p) last = h
    by_etag (yes p) (yes q) =
        delete-IsKeyed ReminderKey-discrete key_for_reminder (key_for_reminder r) m.reminders h
    by_etag (yes p) (no q) =
        put-IsKeyed ReminderKey-discrete key_for_reminder (key_for_reminder r) moved m.reminders
          (unfold key_for_reminder in
            get-own ReminderKey-discrete key_for_reminder (key_for_reminder r) current m.reminders
              h.own e)
          h

pub after_call-IsReminderTable :
    (c : ReminderCall) (m : Memory) → IsReminderTable m → IsReminderTable (after_call c m)
after_call-IsReminderTable (claim_call (some e) r next) m h = unfold claim in h
after_call-IsReminderTable (claim_call none r next) m h =
    unfold claim in claim_row-IsReminderTable r next _ m h refl
after_call-IsReminderTable (put_call (some e) r) m h = unfold put_reminder in h
after_call-IsReminderTable (put_call none r) m h =
    unfold put_reminder key_for_reminder in
    put-IsKeyed ReminderKey-discrete key_for_reminder (key_for_reminder r) _ m.reminders refl h
after_call-IsReminderTable (delete_call (some e) id name) m h = unfold delete_reminder in h
after_call-IsReminderTable (delete_call none id name) m h =
    unfold delete_reminder in delete-IsKeyed ReminderKey-discrete key_for_reminder _ m.reminders h

-- Every history of Claim, Put and Delete calls on a well-formed reminder table leaves each row under
-- its own key and no key twice.
pub after_calls-IsReminderTable :
    (cs : List ReminderCall) (m : Memory) → IsReminderTable m → IsReminderTable (after_calls cs m)
unfolding after_calls
after_calls-IsReminderTable [] m h = h
after_calls-IsReminderTable (c ∷ cs) m h =
    after_calls-IsReminderTable cs (after_call c m) (after_call-IsReminderTable c m h)

pub new_memory-IsReminderTable : (now : Time) → IsReminderTable (new_memory now)
unfolding new_memory
new_memory-IsReminderTable now = record { own = tt; distinct = tt }
