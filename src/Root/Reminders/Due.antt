-- ===== src/Root/Reminders/Due.antt =====
-- What Set and Cancel do to the reminders that a Memory store lists as due (schedule.go).
use gor.Prelude.{
  Option, none, some, true, false, ◌++◌, List, [], ◌∷◌, Text, ◌≡◌, ◌≢◌, refl, ap, ◌∙◌, arith,
  get-put, get-delete, ite, ◌+ℤ◌, ltb_ℤ, not, if◌then◌else◌,
}
use mathlib.Core.Logic.{if_pos, if_neg}
use gor.Store.{Error, Memory, Reminder, ReminderKey, ReminderKey-discrete, GrainId, Time, ok}
use gor.Store.Keyed.{find_row, keep}
use gor.Store.Reminders.{
  key_for_reminder, list_due, put_reminder, delete_reminder, put_etag, is_due,
}
use gor.Store.Reminders.Claims.{reminder_at}
use gor.Store.Reminders.Due.{
  IsReminderTable, list_due_lem, after_call-IsReminderTable, put_call, delete_call,
}
use gor.Root.Reminders.{
  store_error, ReminderTime, MethodHandle, ReminderStore, ReminderManager, reminder_for, set,
  cancel, has_dot, last_name,
}

abbrev pub memory_store : ReminderStore Memory
memory_store = record { put = put_reminder; delete = delete_reminder }

abbrev pub memory_reminders : GrainId → ReminderManager Memory
memory_reminders id = record { identity = id; store = some memory_store }

-- The reminder of a key that ListDue lists at a time.
abbrev pub Lists : Memory → Time → ReminderKey → Option Reminder → Type 0
Lists m t key r =
    (due : List Reminder) × (list_due none t m ≡ ok due)
    × (find_row ReminderKey-discrete key_for_reminder key due ≡ r)

abbrev pub due_at : Time → Option Reminder → Option Reminder
due_at t = keep ReminderKey-discrete key_for_reminder (is_due t)

list_due-Lists :
    (m : Memory) (t : Time) (key : ReminderKey) (r : Option Reminder)
    → IsReminderTable m
    → reminder_at key m ≡ r
    → Lists m t key (due_at t r)
list_due-Lists m t key r h e =
    let (due, listed, found, once) = list_due_lem t m h in
    (due, listed, found key ∙ ap (due_at t) e)

module _ (id : GrainId) (now : Time) (name : Text) (when : ReminderTime) (handle : MethodHandle)
    (m : Memory) where
  abbrev pub key : ReminderKey
  key = record { identity = id; name = name }

  abbrev pub made : Reminder
  made = record {
    identity = id;
    name = name;
    method = handle.method;
    first_tick_time = now +ℤ when.delay;
    due_at = now +ℤ when.delay;
    interval = when.interval;
    etag = put_etag (reminder_at key m);
  }

  abbrev pub after_set : Memory
  after_set = (set (memory_reminders id) none now name when handle m).1

  abbrev pub after_cancel : Memory
  after_cancel = (cancel (memory_reminders id) none name m).1

  reminder_at-set :
      (j : ReminderKey)
      → reminder_at j after_set ≡ ite (ReminderKey-discrete key j) (some made) (reminder_at j m)
  unfolding set put_reminder reminder_at key_for_reminder reminder_for
  reminder_at-set j = get-put ReminderKey-discrete j key made m.reminders

  reminder_at-cancel :
      (j : ReminderKey)
      → reminder_at j after_cancel ≡ ite (ReminderKey-discrete key j) none (reminder_at j m)
  unfolding cancel delete_reminder reminder_at
  reminder_at-cancel j = get-delete ReminderKey-discrete j key m.reminders

  set-IsReminderTable : IsReminderTable m → IsReminderTable after_set
  unfolding set put_reminder
  set-IsReminderTable h =
      after_call-IsReminderTable (put_call none (reminder_for id now name when handle)) m h

  cancel-IsReminderTable : IsReminderTable m → IsReminderTable after_cancel
  unfolding cancel delete_reminder
  cancel-IsReminderTable h = after_call-IsReminderTable (delete_call none id name) m h

  pub record SetAndCancel : Type 0 where
    pub set_ok : (set (memory_reminders id) none now name when handle m).0 ≡ none
    pub listed :
        (t : Time)
        → Lists after_set t key (if not (ltb_ℤ t (now +ℤ when.delay)) then some made else none)
    pub cancel_ok : (cancel (memory_reminders id) none name m).0 ≡ none
    pub removed : (t : Time) → Lists after_cancel t key none
    pub canceled :
        (e : Error)
        → (set (memory_reminders id) (some e) now name when handle m ≡ (some (store_error e), m))
          × (cancel (memory_reminders id) (some e) name m ≡ (some (store_error e), m))
    pub others :
        (t : Time) (j : ReminderKey)
        → key ≢ j
        → Lists after_set t j (due_at t (reminder_at j m))
          × Lists after_cancel t j (due_at t (reminder_at j m))

  -- On a well-formed Memory table and with a context that is not canceled, Set succeeds, and ListDue
  -- then lists the named reminder exactly at the times from now plus its delay on, with that first
  -- due time, its interval and its method; Cancel succeeds and removes it; both leave every other
  -- reminder as it was. With a context that is canceled both fail with its error and change nothing.
  pub set_lem : IsReminderTable m → SetAndCancel
  unfolding set cancel put_reminder delete_reminder
  set_lem h = record {
    set_ok = refl;
    listed = λ t.
        list_due-Lists after_set t key (some made) (set-IsReminderTable h)
          (reminder_at-set key ∙ if_pos (ReminderKey-discrete key key) refl _ _);
    cancel_ok = refl;
    removed = λ t.
        list_due-Lists after_cancel t key none (cancel-IsReminderTable h)
          (reminder_at-cancel key ∙ if_pos (ReminderKey-discrete key key) refl _ _);
    canceled = λ e. (refl, refl);
    others = λ t j n. (
      list_due-Lists after_set t j (reminder_at j m) (set-IsReminderTable h)
          (reminder_at-set j ∙ if_neg (ReminderKey-discrete key j) n _ _),
      list_due-Lists after_cancel t j (reminder_at j m) (cancel-IsReminderTable h)
          (reminder_at-cancel j ∙ if_neg (ReminderKey-discrete key j) n _ _),
    );
  }

has_dot-append : (pkg name : Text) → has_dot (pkg ++ 46 ∷ name) ≡ true
has_dot-append [] name = refl
has_dot-append (c ∷ pkg) name = ground (arith, has_dot-append pkg name)

-- The name of a method behind the last dot of its full name.
pub last_name-append :
    (pkg name : Text) → has_dot name ≡ false → last_name (pkg ++ 46 ∷ name) ≡ name
unfolding last_name
last_name-append [] name h = rw h refl
last_name-append (c ∷ pkg) name h = rw (has_dot-append pkg name) (last_name-append pkg name h)
