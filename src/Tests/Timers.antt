-- ===== src/Tests/Timers.antt =====
-- A one-shot and a repeating reminder.
use gor.Prelude.{
  ℕ, ◌≤◌, Option, ap, get, ◌∷◌, none, some, true, List, [], ◌≡◌, ◌⊎◌, arith, length, pos, pos_part,
  ◌<ℤ◌, ◌≤ℤ◌,
}
use gor.Store.{Reminder, ok}
use gor.Store.Reminders.{list_due}
use gor.Store.{Memory, ReminderKey-discrete}
use gor.Store.Records.{write}
use gor.Store.Keyed.{keep}
use gor.Store.Reminders.{is_due, key_for_reminder}
use gor.Store.Reminders.Claims.{reminder_at}
use gor.Timer.{Delivered, next_due_at, poll}
use gor.Timer.Due.{Next, next_due_at_lem}
use gor.Timer.Delivery.{memory_table, Remaining, deliveries, IsCalm, poll_lem}
use gor.Tests.Store.{cart, alarm, one_alarm, one_alarm-IsReminderTable}

abbrev hourly : Reminder
hourly = record alarm { interval = pos 3600 }

next_due_at_lem_example :
    (hourly.interval ≤ℤ pos 0) × (next_due_at hourly (pos 9000) ≡ pos 0)
    ⊎ (pos 0 <ℤ hourly.interval)
      × (pos 9000 <ℤ hourly.due_at)
      × (next_due_at hourly (pos 9000) ≡ hourly.due_at)
    ⊎ (pos 0 <ℤ hourly.interval)
      × (hourly.due_at ≤ℤ pos 9000)
      × Next hourly.due_at (pos 9000) (pos_part hourly.interval) (next_due_at hourly (pos 9000))
next_due_at_lem_example = next_due_at_lem hourly (pos 9000)

-- A grain whose method writes a state.
abbrev saves : Option (Delivered → Memory → Memory)
saves = some (λ d m. (write none cart (9 ∷ []) 0 m).1)

write-reminders : (m : Memory) → (write none cart (9 ∷ []) 0 m).1.reminders ≡ m.reminders
unfolding write
write-reminders m = ground arith

saves-IsCalm : IsCalm (λ _. true) saves (pos 20)
unfolding reminder_at
saves-IsCalm r m key =
    ap
      (λ rows.
        keep ReminderKey-discrete key_for_reminder (λ _. true)
          (keep ReminderKey-discrete key_for_reminder (is_due (pos 20))
            (get ReminderKey-discrete key rows)))
      (write-reminders m)

poll_lem_example :
    (due : List Reminder) × (list_due none (pos 20) one_alarm ≡ ok due)
    × ((budget : ℕ)
        → length due ≤ budget
        → ((poll memory_table (λ _. true) saves (pos 20) budget one_alarm).0
            ≡ deliveries (λ _. true) saves (pos 20) due)
          × Remaining
              (λ _. true)
              saves
              (pos 20)
              []
              (poll memory_table (λ _. true) saves (pos 20) budget one_alarm).1)
poll_lem_example =
    poll_lem (λ _. true) saves (pos 20) one_alarm one_alarm-IsReminderTable saves-IsCalm
