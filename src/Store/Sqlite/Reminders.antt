-- ===== src/Store/Sqlite/Reminders.antt =====
-- The reminder half of the SQLite store (store/schedule_sqlite.go).
-- timeValue is the int64 of nanoseconds since 1970, which wraps around.
use gor.Prelude.{
  ℕ, ◌+◌, Option, none, some, Bool, true, List, Map, ite, ℤ-discrete, pos, ◌+ℤ◌, ◌-ℤ◌, leb_ℤ, ℤ,
  ◌==◌, Text, select, map, sort, by_field, Text-discrete, text_less, ltb_ℤ, negsuc, ltb,
  if◌then◌else◌, ◌^◌, ◌-◌, ◌%◌,
}
use gor.Store.{GrainId, ETag, Error, Result, ok, err, Time, Reminder, ReminderKey}
use gor.Store.Reminders.{key_for_reminder}
use gor.Store.Sqlite.{Table}

-- A row of the table schedule, behind its key.
pub record ScheduleRow : Type 0 where
  pub method : Text
  pub first_tick_time : ℤ
  pub due_at : ℤ
  pub interval : ℤ
  pub etag : ETag

-- The Time of 1970-01-01, from the zero Time.
abbrev pub unix_epoch : Time
unix_epoch = pos 62135596800000000000

-- An int64, of its bit pattern, and of an integer that wraps around.
abbrev pub of_pattern : ℕ → ℤ
of_pattern u = if ltb u (2 ^ 63) then pos u else negsuc (2 ^ 64 - 1 - u)

unfoldable pub to_int64 : ℤ → ℤ
to_int64 (pos n) = of_pattern (n % 2 ^ 64)
to_int64 (negsuc n) = of_pattern (2 ^ 64 - 1 - n % 2 ^ 64)

-- timeValue, timeFromValue
unfoldable pub time_value : Time → ℤ
unfolding to_int64
time_value t = to_int64 (t -ℤ unix_epoch)

unfoldable pub time_from_value : ℤ → Time
time_from_value v = v +ℤ unix_epoch

unfoldable pub row_of : ETag → Reminder → ScheduleRow
unfolding time_value
row_of etag r = record {
  method = r.method;
  first_tick_time = time_value r.first_tick_time;
  due_at = time_value r.due_at;
  interval = r.interval;
  etag = etag;
}

-- The row that ListDue scans.
unfoldable pub reminder_of : ReminderKey × ScheduleRow → Reminder
unfolding time_from_value
reminder_of (key, row) = record {
  identity = key.identity;
  name = key.name;
  method = row.method;
  first_tick_time = time_from_value row.first_tick_time;
  due_at = time_from_value row.due_at;
  interval = row.interval;
  etag = row.etag;
}

-- ORDER BY due_at, entity_type, entity_key, name.
unfoldable pub row_less : ReminderKey × ScheduleRow → ReminderKey × ScheduleRow → Bool
unfolding by_field
row_less =
    by_field ℤ-discrete ltb_ℤ (λ e. e.1.due_at)
      (by_field Text-discrete text_less (λ e. e.0.identity.grain_type)
        (by_field Text-discrete text_less (λ e. e.0.identity.grain_key)
          (λ a b. text_less a.0.name b.0.name)))

-- ListDue, over the rows of the table in any order.
unfoldable pub sqlite_list_due :
    Option Error → Time → Map ReminderKey ScheduleRow → Result (List Reminder)
unfolding row_less sort reminder_of time_value
sqlite_list_due (some e) now rows = err e
sqlite_list_due none now rows =
    ok (map reminder_of (sort row_less (select (λ e. leb_ℤ e.1.due_at (time_value now)) rows)))

module _ (t : Table ReminderKey ScheduleRow) where
  -- `return rows == 1, nil`, behind RowsAffected with its error.
  abbrev pub counted : Option Error → ℕ × t.Contents → Result Bool × t.Contents
  counted (some e) (n, c) = (err e, c)
  counted none (n, c) = (ok (n == 1), c)

  -- The two statements of Claim.
  unfoldable pub claim_statement : Reminder → Time → t.Contents → ℕ × t.Contents
  unfolding key_for_reminder time_value
  claim_statement reminder next_due_at c =
      ite (ℤ-discrete next_due_at (pos 0))
        (t.remove (key_for_reminder reminder) (λ row. row.etag == reminder.etag) c)
        (t.update (key_for_reminder reminder) (λ row. row.etag == reminder.etag)
          (λ row. record row { due_at = time_value next_due_at; etag = row.etag + 1 }) c)

  unfoldable pub sqlite_claim :
      Option Error → Option Error → Reminder → Time → t.Contents → Result Bool × t.Contents
  unfolding claim_statement
  sqlite_claim (some e) count_err reminder next_due_at c = (err e, c)
  sqlite_claim none count_err reminder next_due_at c =
      counted count_err (claim_statement reminder next_due_at c)

  -- Put
  unfoldable pub sqlite_put : Option Error → Reminder → t.Contents → Result (Unit {0}) × t.Contents
  unfolding key_for_reminder row_of
  sqlite_put (some e) reminder c = (err e, c)
  sqlite_put none reminder c = (
    ok tt,
    t.upsert (key_for_reminder reminder) (row_of 1 reminder) (λ old. row_of (old.etag + 1) reminder)
        c,
  )

  -- Delete
  unfoldable pub sqlite_delete :
      Option Error → GrainId → Text → t.Contents → Result (Unit {0}) × t.Contents
  sqlite_delete (some e) id name c = (err e, c)
  sqlite_delete none id name c =
      (ok tt, (t.remove (record { identity = id; name = name }) (λ row. true) c).1)
