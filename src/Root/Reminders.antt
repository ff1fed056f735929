-- ===== src/Root/Reminders.antt =====
-- The Reminders of a Grain (schedule.go). A ReminderStore is a put and a delete on a state S. The full name
-- that package runtime gives of a method expression is an argument.
pub mod Due
use gor.Prelude.{
  ℕ, Option, none, some, Bool, true, false, ◌||◌, List, [], ◌∷◌, Text, bytes, pos, ◌+ℤ◌,
  if◌then◌else◌, ◌==◌,
}
use gor.Store.{GrainId, Error, Result, ok, err, Time, Duration, Reminder}

pub record ReminderTime : Type 0 where
  pub delay : Duration
  pub interval : Duration

unfoldable pub after : Duration → ReminderTime
after delay = record { delay = delay; interval = pos 0 }

unfoldable pub every : Duration → ReminderTime
every interval = record { delay = interval; interval = interval }

pub record MethodHandle : Type 0 where
  pub method : Text

-- The byte '.'
abbrev pub is_dot : ℕ → Bool
is_dot c = c == 46

abbrev pub has_dot : Text → Bool
has_dot [] = false
has_dot (c ∷ cs) = is_dot c || has_dot cs

-- full[strings.LastIndexByte(full, '.')+1:]
unfoldable pub last_name : Text → Text
last_name [] = []
last_name (c ∷ cs) =
    let rest = last_name cs in if has_dot cs then rest else (if is_dot c then cs else c ∷ cs)

unfoldable pub handle : Text → MethodHandle
unfolding last_name
handle full = record { method = last_name full }

pub record ReminderStore (S : Type 0) : Type 0 where
  pub put : Option Error → Reminder → S → Result (Unit {0}) × S
  pub delete : Option Error → GrainId → Text → S → Result (Unit {0}) × S

pub data ReminderError : Type 0 where
  reminder_store_unavailable : ReminderError
  store_error : Error → ReminderError

pub record ReminderManager (S : Type 0) : Type 0 where
  pub identity : GrainId
  pub store : Option (ReminderStore S)

-- NewReminder, of the identity and the runtime's store.
unfoldable pub new_reminder : {S : Type 0} → GrainId → Option (ReminderStore S) → ReminderManager S
new_reminder id store = record { identity = id; store = store }

abbrev pub store_result {ℓ} : {S : Type ℓ} → Result (Unit {0}) × S → Option ReminderError × S
store_result (ok u, s) = (none, s)
store_result (err e, s) = (some (store_error e), s)

-- The row that Set puts.
unfoldable pub reminder_for : GrainId → Time → Text → ReminderTime → MethodHandle → Reminder
reminder_for id now name when m =
    let first_tick_time = now +ℤ when.delay in
    record {
      identity = id;
      name = name;
      method = m.method;
      first_tick_time = first_tick_time;
      due_at = first_tick_time;
      interval = when.interval;
      etag = 0;
    }

module _ {S : Type 0} where
  abbrev pub put_into :
      Option (ReminderStore S) → Option Error → Reminder → S → Option ReminderError × S
  put_into none ctx r s = (some reminder_store_unavailable, s)
  put_into (some store) ctx r s = store_result (store.put ctx r s)

  abbrev pub delete_from :
      Option (ReminderStore S) → Option Error → GrainId → Text → S → Option ReminderError × S
  delete_from none ctx id name s = (some reminder_store_unavailable, s)
  delete_from (some store) ctx id name s = store_result (store.delete ctx id name s)

  -- Set, at the clock's time `now`; `ctx` is the error of the context at the store.
  unfoldable pub set :
      ReminderManager S
      → Option Error
      → Time
      → Text
      → ReminderTime
      → MethodHandle
      → S
      → Option ReminderError × S
  unfolding reminder_for
  set manager ctx now name when m s =
      put_into manager.store ctx (reminder_for manager.identity now name when m) s

  unfoldable pub cancel : ReminderManager S → Option Error → Text → S → Option ReminderError × S
  cancel manager ctx name s = delete_from manager.store ctx manager.identity name s
