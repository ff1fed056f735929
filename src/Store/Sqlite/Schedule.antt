-- ===== src/Store/Sqlite/Schedule.antt =====
-- Claim, Put and Delete of the SQLite store (store/schedule_sqlite.go) do what they do on Memory.
use gor.Prelude.{
  ℕ, ◌+◌, ◌-◌, ◌^◌, ◌<◌, Option, none, some, true, get, get-put, get-delete, ◌≡◌, refl, sym, ap,
  ◌∙◌, ite, ℕ_discrete, ℤ-discrete, pos, arith, ◌==◌, Text,
}
use mathlib.Core.Logic.{if_pos, if_neg}
use gor.Store.{
  GrainId, ETag, next_etag, Error, ok, Time, Reminder, ReminderKey, ReminderKey-discrete, Memory,
}
use gor.Store.Reminders.{
  key_for_reminder, claim, claim_row, put_etag, put_reminder, delete_reminder,
}
use gor.Store.Sqlite.{Table, IsTable, matched_rows, updated, kept, upserted}
use gor.Store.Sqlite.Reminders.{
  ScheduleRow, time_value, row_of, claim_statement, sqlite_claim, sqlite_put, sqlite_delete,
}

unfoldable pub row_in : Option Reminder → Option ScheduleRow
unfolding row_of
row_in none = none
row_in (some r) = some (row_of r.etag r)

-- The stored ETag of the key, if it has a row, can be incremented.
abbrev pub InRange : ReminderKey → Memory → Type 0
InRange key m =
    (current : Reminder)
    → get ReminderKey-discrete key m.reminders ≡ some current
    → current.etag < 2 ^ 63 - 1

next_small : (e : ETag) → e < 2 ^ 63 - 1 → next_etag e ≡ e + 1
unfolding next_etag
next_small e h = omega arith

-- What Memory's claim makes of the row of its key.
module _ (r : Reminder) (next : Time) where
  abbrev pub claimed : Option Reminder → Option Reminder
  claimed none = none
  claimed (some current) =
      ite (ℕ_discrete current.etag r.etag)
        (ite (ℤ-discrete next (pos 0)) none
          (some (record current { due_at = next; etag = next_etag current.etag })))
        (some current)

  pub claim_get :
      (j : ReminderKey) (m : Memory) (o : Option Reminder)
      → get ReminderKey-discrete (key_for_reminder r) m.reminders ≡ o
      → get ReminderKey-discrete j (claim_row (key_for_reminder r) r next o m).1.reminders
        ≡ ite
            (ReminderKey-discrete (key_for_reminder r) j)
            (claimed o)
            (get ReminderKey-discrete j m.reminders)
  unfolding claim_row
  claim_get j m none e = ground arith
  claim_get j m (some current) e = ground (
    arith,
    get-delete ReminderKey-discrete j (key_for_reminder r) m.reminders,
    get-put ReminderKey-discrete j (key_for_reminder r)
        (record current { due_at = next; etag = next_etag current.etag }) m.reminders,
  )

module _ (t : Table ReminderKey ScheduleRow) where
  -- The table has the rows of the memory store's reminders.
  pub record Holds (c : t.Contents) (m : Memory) : Type 0 where
    pub same : (key : ReminderKey) → t.row key c ≡ row_in (get ReminderKey-discrete key m.reminders)

  module _ (laws : IsTable ReminderKey-discrete t) where
    -- A key's row in one store and in the other, behind writes of `a` and `b` at another key.
    same_at :
        (key j : ReminderKey) (a : Option ScheduleRow) (b : Option Reminder) (c : t.Contents)
        (m : Memory)
        → Holds c m
        → a ≡ row_in b
        → ite (ReminderKey-discrete key j) a (t.row j c)
          ≡ row_in (ite (ReminderKey-discrete key j) b (get ReminderKey-discrete j m.reminders))
    same_at key j a b c m h e =
        elim (ReminderKey-discrete key j)
          as (λ d.
            ite d a (t.row j c) ≡ row_in (ite d b (get ReminderKey-discrete j m.reminders))) [
              | yes p ↦ e
              | no p ↦ h.same j
            ]

    module _ (r : Reminder) (next : Time) (c : t.Contents) where
      -- What a claim makes of the row of its key.
      abbrev claimed_row : Option ScheduleRow → Option ScheduleRow
      claimed_row o = ite (ℤ-discrete next (pos 0)) (kept (λ row. row.etag == r.etag) o) (
          updated (λ row. row.etag == r.etag)
            (λ row. record row { due_at = time_value next; etag = row.etag + 1 }) o)

      statement_count :
          (claim_statement t r next c).0
          ≡ matched_rows (λ row. row.etag == r.etag) (t.row (key_for_reminder r) c)
      unfolding claim_statement
      statement_count = elim (ℤ-discrete next (pos 0)) [
        | yes z ↦
            ap (λ (s : ℕ × t.Contents). s.0) (if_pos (ℤ-discrete next (pos 0)) z _ _)
            ∙ laws.remove_count _ _ c
        | no z ↦
            ap (λ (s : ℕ × t.Contents). s.0) (if_neg (ℤ-discrete next (pos 0)) z _ _)
            ∙ laws.update_count _ _ _ c
      ]

      statement_row :
          (j : ReminderKey)
          → t.row j (claim_statement t r next c).1
            ≡ ite
                (ReminderKey-discrete (key_for_reminder r) j)
                (claimed_row (t.row (key_for_reminder r) c))
                (t.row j c)
      unfolding claim_statement
      statement_row j = elim (ℤ-discrete next (pos 0)) [
        | yes z ↦
            ap (λ (s : ℕ × t.Contents). t.row j s.1) (if_pos (ℤ-discrete next (pos 0)) z _ _)
            ∙ laws.remove_row j _ _ c
            ∙ ap (λ o. ite (ReminderKey-discrete (key_for_reminder r) j) o (t.row j c))
                (sym (if_pos (ℤ-discrete next (pos 0)) z _ _))
        | no z ↦
            ap (λ (s : ℕ × t.Contents). t.row j s.1) (if_neg (ℤ-discrete next (pos 0)) z _ _)
            ∙ laws.update_row j _ _ _ c
            ∙ ap (λ o. ite (ReminderKey-discrete (key_for_reminder r) j) o (t.row j c))
                (sym (if_neg (ℤ-discrete next (pos 0)) z _ _))
      ]

      claim_answer :
          (m : Memory) (o : Option Reminder)
          → ok (matched_rows (λ row. row.etag == r.etag) (row_in o) == 1)
            ≡ (claim_row (key_for_reminder r) r next o m).0
      unfolding claim_row row_in
      claim_answer m none = ground arith
      claim_answer m (some current) = ground arith

      claimed_rows :
          (o : Option Reminder)
          → ((current : Reminder) → o ≡ some current → current.etag < 2 ^ 63 - 1)
          → claimed_row (row_in o) ≡ row_in (claimed r next o)
      unfolding row_in row_of
      claimed_rows none s = ground arith
      claimed_rows (some current) s = ground (arith, next_small current.etag (s current refl))

    module _ (m : Memory) (c : t.Contents) (h : Holds c m) where
      -- With the stored ETag in range, Claim wins on the table exactly when it does on Memory, and leaves the same
      -- rows.
      pub sqlite_claim-claim :
          (ctx : Option Error) (r : Reminder) (next : Time)
          → InRange (key_for_reminder r) m
          → ((sqlite_claim t ctx none r next c).0 ≡ (claim ctx r next m).0)
            × Holds (sqlite_claim t ctx none r next c).1 (claim ctx r next m).1
      unfolding sqlite_claim claim
      sqlite_claim-claim (some e) r next s = (refl, h)
      sqlite_claim-claim none r next s =
          let key = key_for_reminder r in
          let o = get ReminderKey-discrete key m.reminders in
          (
            ap (λ n. ok (n == 1))
                  (statement_count r next c
                    ∙ ap (matched_rows (λ row. row.etag == r.etag)) (h.same key))
                ∙ claim_answer r next c m o,
            record {
              same = λ j.
                  statement_row r next c j
                  ∙ same_at key j _ (claimed r next o) c m h
                      (ap (claimed_row r next c) (h.same key) ∙ claimed_rows r next c o s)
                  ∙ ap row_in (sym (claim_get r next j m o refl));
            },
          )

      abbrev put_row : Reminder → Option Reminder → Reminder
      put_row r o = record r { etag = put_etag o }

      put_rows :
          (r : Reminder) (o : Option Reminder)
          → ((current : Reminder) → o ≡ some current → current.etag < 2 ^ 63 - 1)
          → upserted (row_of 1 r) (λ old. row_of (old.etag + 1) r) (row_in o)
            ≡ row_in (some (put_row r o))
      unfolding row_in
      put_rows r none s = refl
      put_rows r (some current) s =
          ap (λ e. some (row_of e r)) (sym (next_small current.etag (s current refl)))

      -- With stored ETags in range, Put leaves the same row as on Memory.
      pub sqlite_put-put_reminder :
          (ctx : Option Error) (r : Reminder)
          → InRange (key_for_reminder r) m
          → ((sqlite_put t ctx r c).0 ≡ (put_reminder ctx r m).0)
            × Holds (sqlite_put t ctx r c).1 (put_reminder ctx r m).1
      unfolding sqlite_put put_reminder
      sqlite_put-put_reminder (some e) r s = (refl, h)
      sqlite_put-put_reminder none r s =
          let key = key_for_reminder r in
          let o = get ReminderKey-discrete key m.reminders in
          (
            refl,
            record {
              same = λ j.
                  laws.upsert_row j key _ _ c
                  ∙ same_at key j _ (some (put_row r o)) c m h
                      (ap (upserted _ _) (h.same key) ∙ put_rows r o s)
                  ∙ ap row_in (sym (get-put ReminderKey-discrete j key (put_row r o) m.reminders));
            },
          )

      pub sqlite_delete-delete_reminder :
          (ctx : Option Error) (id : GrainId) (name : Text)
          → ((sqlite_delete t ctx id name c).0 ≡ (delete_reminder ctx id name m).0)
            × Holds (sqlite_delete t ctx id name c).1 (delete_reminder ctx id name m).1
      unfolding sqlite_delete delete_reminder row_in
      sqlite_delete-delete_reminder (some e) id name = (refl, h)
      sqlite_delete-delete_reminder none id name =
          let key : ReminderKey = record { identity = id; name = name } in
          (
            refl,
            record {
              same = λ j.
                  laws.remove_row j key _ c
                  ∙ same_at key j _ none c m h (removed _)
                  ∙ ap row_in (sym (get-delete ReminderKey-discrete j key m.reminders));
            },
          )
        where
          removed : (o : Option ScheduleRow) → kept (λ row. true) o ≡ none
          removed none = refl
          removed (some row) = refl
