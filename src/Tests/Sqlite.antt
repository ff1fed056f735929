-- ===== src/Tests/Sqlite.antt =====
-- A table of records and one of reminders, beside a memory store.
use gor.Prelude.{none, List, [], ◌∷◌, ◌≡◌, refl, arith, pos, bytes, get, Option}
use gor.Store.{GrainId, GrainId-discrete, ReminderKey-discrete, Memory, new_memory, Reminder, Error}
use gor.Store.Records.{read, current_record}
use gor.Store.Records.History.{WriteCall, run_writes}
use gor.Store.Reminders.Due.{ReminderCall, claim_call, put_call, delete_call}
use gor.Store.Sqlite.Rows.{table, table-IsTable}
use gor.Store.Sqlite.Records
use gor.Store.Sqlite.Records.{sqlite_read, run_sqlite, run_sqlite-run_writes}
use gor.Store.Sqlite.Schedule
use gor.Store.Sqlite.Runs.{Bounded, memory_run, sqlite_run, sqlite_run-memory_run}

abbrev id : GrainId
id = record { grain_type = bytes "account"; grain_key = bytes "1" }

abbrev memory : Memory
memory = new_memory (pos 0)

abbrev writes : List WriteCall
writes =
    record { ctx_err = none; id = id; content = 1 ∷ []; expect = 0 }
    ∷ record { ctx_err = none; id = id; content = 2 ∷ []; expect = 0 }
    ∷ record { ctx_err = none; id = id; content = 3 ∷ []; expect = 1 }
    ∷ []

no_records : Records.Holds (table GrainId-discrete) [] memory
unfolding new_memory current_record get
no_records = record { same = λ j. refl; positive = λ j. tt }

run_sqlite-run_writes_example :
    ((run_sqlite (table GrainId-discrete) writes []).0 ≡ (run_writes writes memory).0)
    × ((ctx : Option Error) (id : GrainId)
        → sqlite_read
            (table GrainId-discrete)
            ctx
            id
            (run_sqlite (table GrainId-discrete) writes []).1
          ≡ read ctx id (run_writes writes memory).1)
run_sqlite-run_writes_example =
    run_sqlite-run_writes (table GrainId-discrete) (table-IsTable GrainId-discrete) writes [] memory
      no_records (omega arith, (omega arith, (omega arith, tt)))

abbrev daily : Reminder
daily = record {
  identity = id;
  name = bytes "daily";
  method = bytes "Tick";
  first_tick_time = pos 10;
  due_at = pos 10;
  interval = pos 5;
  etag = 1;
}

abbrev calls : List ReminderCall
calls =
    put_call none daily
    ∷ claim_call none daily (pos 15)
    ∷ claim_call none daily (pos 20)
    ∷ delete_call none id (bytes "daily")
    ∷ []

no_reminders : Schedule.Holds (table ReminderKey-discrete) [] memory
unfolding new_memory get Schedule.row_in
no_reminders = record { same = λ j. refl }

none_stored : Bounded 0 memory
unfolding new_memory get
none_stored key r h = ground arith

sqlite_run-memory_run_example :
    ((sqlite_run (table ReminderKey-discrete) calls []).0 ≡ (memory_run calls memory).0)
    × Schedule.Holds
        (table ReminderKey-discrete)
        (sqlite_run (table ReminderKey-discrete) calls []).1
        (memory_run calls memory).1
sqlite_run-memory_run_example =
    sqlite_run-memory_run (table ReminderKey-discrete) (table-IsTable ReminderKey-discrete) calls 0
      [] memory no_reminders none_stored (omega arith)
