-- ===== src/Store/Reminders.antt =====
-- The ReminderStore half of Memory: store/schedule.go.
pub mod Claims
pub mod Due
use gor.Prelude.{
  ℕ, Option, none, some, Bool, not, List, Map, get, put, delete, ite, ℕ_discrete, ℤ-discrete, pos,
  ltb_ℤ, sort, by_field, Text, Text-discrete, text_less, map, select, true, false,
}
use gor.Store.{
  GrainId, ETag, next_etag, Error, Result, ok, err, Time, Reminder, ReminderKey,
  ReminderKey-discrete, Memory,
}

unfoldable pub key_for_reminder : Reminder → ReminderKey
key_for_reminder r = record { identity = r.identity; name = r.name }

-- The order of sortReminders: by DueAt, identity and name.
unfoldable pub reminder_less : Reminder → Reminder → Bool
unfolding by_field
reminder_less =
    by_field ℤ-discrete ltb_ℤ (λ r. r.due_at)
      (by_field Text-discrete text_less (λ r. r.identity.grain_type)
        (by_field Text-discrete text_less (λ r. r.identity.grain_key)
          (λ a b. text_less a.name b.name)))

unfoldable pub sort_reminders : List Reminder → List Reminder
unfolding sort
sort_reminders = sort reminder_less

-- !reminder.DueAt.After(now)
abbrev pub is_due : Time → Reminder → Bool
is_due now r = not (ltb_ℤ now r.due_at)

unfoldable pub list_due : Option Error → Time → Memory → Result (List Reminder)
unfolding sort_reminders
list_due (some e) now m = err e
list_due none now m = ok (sort_reminders (select (is_due now) (map (λ e. e.1) m.reminders)))

-- The critical section of Claim, over the row found.
unfoldable pub claim_row :
    ReminderKey → Reminder → Time → Option Reminder → Memory → Result Bool × Memory
claim_row key reminder next_due_at none m = (ok false, m)
claim_row key reminder next_due_at (some current) m =
    ite (ℕ_discrete current.etag reminder.etag)
      (
        ok true,
        record m {
          reminders =
              ite (ℤ-discrete next_due_at (pos 0)) (delete ReminderKey-discrete key m.reminders) (
                put ReminderKey-discrete key
                  (record current { due_at = next_due_at; etag = next_etag current.etag })
                  m.reminders);
        },
      )
      (ok false, m)

-- A zero `next_due_at` (the zero Time) deletes the row.
unfoldable pub claim : Option Error → Reminder → Time → Memory → Result Bool × Memory
unfolding claim_row key_for_reminder
claim (some e) reminder next_due_at m = (err e, m)
claim none reminder next_due_at m =
    let key = key_for_reminder reminder in
    claim_row key reminder next_due_at (get ReminderKey-discrete key m.reminders) m

abbrev pub put_etag : Option Reminder → ETag
put_etag none = 1
put_etag (some current) = next_etag current.etag

unfoldable pub put_reminder : Option Error → Reminder → Memory → Result (Unit {0}) × Memory
unfolding key_for_reminder
put_reminder (some e) reminder m = (err e, m)
put_reminder none reminder m =
    let key = key_for_reminder reminder in
    (
      ok tt,
      record m {
        reminders =
            put ReminderKey-discrete key
              (record reminder { etag = put_etag (get ReminderKey-discrete key m.reminders) })
              m.reminders;
      },
    )

unfoldable pub delete_reminder : Option Error → GrainId → Text → Memory → Result (Unit {0}) × Memory
delete_reminder (some e) id name m = (err e, m)
delete_reminder none id name m = (
  ok tt,
  record m {
    reminders = delete ReminderKey-discrete (record { identity = id; name = name }) m.reminders;
  },
)
