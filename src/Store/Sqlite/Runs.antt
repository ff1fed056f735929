-- ===== src/Store/Sqlite/Runs.antt =====
-- Runs of Claim, Put and Delete calls on the SQLite store and on Memory (store/schedule_sqlite.go,
-- store/schedule.go).
use gor.Prelude.{
  ℕ, suc, ◌+◌, ◌-◌, ◌^◌, ◌<◌, ◌≤◌, Option, none, some, Bool, List, [], ◌∷◌, get, get-put,
  get-delete, ◌≡◌, ◌⊎◌, inl, inr, refl, ap, ap₂, arith, Text, length,
}
use gor.Store.{
  GrainId, next_etag, Result, Time, Reminder, ReminderKey, ReminderKey-discrete, Memory,
}
use gor.Store.Reminders.{
  key_for_reminder, claim, claim_row, put_etag, put_reminder, delete_reminder,
}
use gor.Store.Reminders.Due.{ReminderCall, claim_call, put_call, delete_call}
use gor.Store.Sqlite.{Table, IsTable}
use gor.Store.Sqlite.Reminders.{ScheduleRow, sqlite_claim, sqlite_put, sqlite_delete}
use gor.Store.Sqlite.Schedule.{
  Holds, claimed, claim_get, sqlite_claim-claim, sqlite_put-put_reminder,
  sqlite_delete-delete_reminder,
}

-- What a call returns: Claim a flag, the others nothing.
abbrev pub Answer : Type 0
Answer = Result Bool ⊎ Result (Unit {0})

abbrev pub memory_call : ReminderCall → Memory → Answer × Memory
memory_call (claim_call ctx r next) m = let (a, m') = claim ctx r next m in (inl a, m')
memory_call (put_call ctx r) m = let (a, m') = put_reminder ctx r m in (inr a, m')
memory_call (delete_call ctx id name) m = let (a, m') = delete_reminder ctx id name m in (inr a, m')

unfoldable pub memory_run : List ReminderCall → Memory → List Answer × Memory
memory_run [] m = ([], m)
memory_run (x ∷ xs) m =
    let (a, m') = memory_call x m in let (as', m'') = memory_run xs m' in (a ∷ as', m'')

module _ (t : Table ReminderKey ScheduleRow) where
  abbrev pub sqlite_call : ReminderCall → t.Contents → Answer × t.Contents
  sqlite_call (claim_call ctx r next) c =
      let (a, c') = sqlite_claim t ctx none r next c in (inl a, c')
  sqlite_call (put_call ctx r) c = let (a, c') = sqlite_put t ctx r c in (inr a, c')
  sqlite_call (delete_call ctx id name) c =
      let (a, c') = sqlite_delete t ctx id name c in (inr a, c')

  unfoldable pub sqlite_run : List ReminderCall → t.Contents → List Answer × t.Contents
  sqlite_run [] c = ([], c)
  sqlite_run (x ∷ xs) c =
      let (a, c') = sqlite_call x c in let (as', c'') = sqlite_run xs c' in (a ∷ as', c'')

-- No stored ETag is above the bound.
abbrev pub Bounded : ℕ → Memory → Type 0
Bounded b m =
    (key : ReminderKey) (r : Reminder)
    → get ReminderKey-discrete key m.reminders ≡ some r
    → r.etag ≤ b

put_etag-le :
    (b : ℕ) (o : Option Reminder) → ((r : Reminder) → o ≡ some r → r.etag ≤ b) → put_etag o ≤ suc b
unfolding next_etag
put_etag-le b none h = omega arith
put_etag-le b (some r) h = ground (arith, h r refl)

claimed-le :
    (b : ℕ) (r : Reminder) (next : Time) (o : Option Reminder) (s : Reminder)
    → ((r : Reminder) → o ≡ some r → r.etag ≤ b)
    → claimed r next o ≡ some s
    → s.etag ≤ suc b
unfolding next_etag
claimed-le b r next none s h e = ground arith
claimed-le b r next (some current) s h e = ground (arith, h current refl)

claim-Bounded :
    (b : ℕ) (r : Reminder) (next : Time) (m : Memory)
    → Bounded b m
    → Bounded
        (suc b)
        (claim_row
          (key_for_reminder r)
          r
          next
          (get ReminderKey-discrete (key_for_reminder r) m.reminders)
          m).1
claim-Bounded b r next m h key s q =
    let o = get ReminderKey-discrete (key_for_reminder r) m.reminders in
    ground (
      arith,
      claim_get r next key m o refl,
      claimed-le b r next o s (h (key_for_reminder r)),
      h key s,
    )

put-Bounded :
    (b : ℕ) (r : Reminder) (m : Memory) → Bounded b m → Bounded (suc b) (put_reminder none r m).1
unfolding put_reminder
put-Bounded b r m h key s q =
    let o = get ReminderKey-discrete (key_for_reminder r) m.reminders in
    ground (
      arith,
      get-put ReminderKey-discrete key (key_for_reminder r) (record r { etag = put_etag o })
          m.reminders,
      put_etag-le b o (h (key_for_reminder r)),
      h key s,
    )

delete-Bounded :
    (b : ℕ) (id : GrainId) (name : Text) (m : Memory)
    → Bounded b m
    → Bounded (suc b) (delete_reminder none id name m).1
unfolding delete_reminder
delete-Bounded b id name m h key s q = ground (
  arith,
  get-delete ReminderKey-discrete key (record { identity = id; name = name }) m.reminders,
  h key s,
)

call-Bounded :
    (b : ℕ) (x : ReminderCall) (m : Memory) → Bounded b m → Bounded (suc b) (memory_call x m).1
unfolding claim put_reminder delete_reminder
call-Bounded b (claim_call (some e) r next) m h = λ key q g. ground (arith, h key q g)
call-Bounded b (claim_call none r next) m h = claim-Bounded b r next m h
call-Bounded b (put_call (some e) r) m h = λ key q g. ground (arith, h key q g)
call-Bounded b (put_call none r) m h = put-Bounded b r m h
call-Bounded b (delete_call (some e) id name) m h = λ key q g. ground (arith, h key q g)
call-Bounded b (delete_call none id name) m h = delete-Bounded b id name m h

module _ (t : Table ReminderKey ScheduleRow) (laws : IsTable ReminderKey-discrete t) where
  call-Holds :
      (b : ℕ) (x : ReminderCall) (c : t.Contents) (m : Memory)
      → Holds t c m
      → Bounded b m
      → b < 2 ^ 63 - 1
      → ((sqlite_call t x c).0 ≡ (memory_call x m).0)
        × Holds t (sqlite_call t x c).1 (memory_call x m).1
  call-Holds b (claim_call ctx r next) c m h d s =
      let both = sqlite_claim-claim t laws m c h ctx r next (λ q g. ground (arith, d _ q g)) in
      (ap inl both.0, both.1)
  call-Holds b (put_call ctx r) c m h d s =
      let both = sqlite_put-put_reminder t laws m c h ctx r (λ q g. ground (arith, d _ q g)) in
      (ap inr both.0, both.1)
  call-Holds b (delete_call ctx id name) c m h d s =
      let both = sqlite_delete-delete_reminder t laws m c h ctx id name in (ap inr both.0, both.1)

  -- On a table that SQLite keeps as documented, with the rows of a memory store, any run of Claim,
  -- Put and Delete calls, failed ones included, returns what it does on Memory and leaves the same
  -- rows, as long as the calls cannot carry an ETag to 2 ^ 63 - 1.
  pub sqlite_run-memory_run :
      (xs : List ReminderCall) (b : ℕ) (c : t.Contents) (m : Memory)
      → Holds t c m
      → Bounded b m
      → b + length xs < 2 ^ 63
      → ((sqlite_run t xs c).0 ≡ (memory_run xs m).0)
        × Holds t (sqlite_run t xs c).1 (memory_run xs m).1
  unfolding sqlite_run memory_run
  sqlite_run-memory_run [] b c m h d s = (refl, h)
  sqlite_run-memory_run (x ∷ xs) b c m h d s =
      let one = call-Holds b x c m h d (ground arith) in
      let more = sqlite_run-memory_run xs (suc b) _ _ one.1 (call-Bounded b x m d) (ground arith) in
      (ap₂ ◌∷◌ one.0 more.0, more.1)
