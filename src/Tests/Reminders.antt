-- ===== src/Tests/Reminders.antt =====
-- A Reminder that is set and canceled.
use gor.Prelude.{◌≡◌, refl, bytes, pos}
use gor.Store.{GrainId, Memory, new_memory}
use gor.Store.Reminders.Due.{new_memory-IsReminderTable}
use gor.Root.Reminders.{every, handle, MethodHandle, last_name}
use gor.Root.Reminders.Due.{SetAndCancel, set_lem}

abbrev account : GrainId
account = record { grain_type = bytes "account"; grain_key = bytes "1" }

abbrev empty : Memory
empty = new_memory (pos 0)

abbrev tick : MethodHandle
tick = handle (bytes "example.com/bank.Account.Tick")

tick_name : tick.method ≡ bytes "Tick"
unfolding handle last_name
tick_name = refl

set_lem_example : SetAndCancel account (pos 3) (bytes "daily") (every (pos 5)) tick empty
set_lem_example =
    set_lem account (pos 3) (bytes "daily") (every (pos 5)) tick empty
      (new_memory-IsReminderTable (pos 0))
