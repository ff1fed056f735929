-- ===== src/Tests/Store.antt =====
-- A store with one record and one reminder, and a table with one member.
use gor.Prelude.{
  ◌≤◌, none, some, true, List, [], ◌∷◌, ◌≡◌, refl, arith, ℕ_discrete, pos, get, put, bytes, delete,
}
use gor.Store.{
  MemberSnapshot, GrainId, next_etag, ok, Member, MemberId, MemberId-discrete, MemberStatus,
  Reminder, ReminderKey-discrete, Memory, new_memory,
}
use gor.Store.Records.{current_record, read, write}
use gor.Store.Records.History.{WriteCall, run_writes, run_spec, snapshot, run_writes-Refines}
use gor.Store.Members.{key_for_member, write_member, list_members}
use gor.Store.Members.History as Rows
use gor.Store.Keyed.{find_row}
use gor.Store.Members.Listing.{IsTable, write_member-IsTable, new_memory-IsTable}
use gor.Store.Reminders.{key_for_reminder, claim, put_reminder}
use gor.Store.Reminders.Claims.{reminder_at, claims, wins, claims_one_winner, claim_reset_twice}
use gor.Store.Reminders.Due.{
  IsReminderTable, put_call, after_calls, after_calls-IsReminderTable, new_memory-IsReminderTable,
}

abbrev pub cart : GrainId
cart = record { grain_type = bytes "cart"; grain_key = bytes "7" }

abbrev pub empty_store : Memory
empty_store = new_memory (pos 5)

abbrev calls : List WriteCall
calls =
    record { ctx_err = none; id = cart; content = 1 ∷ []; expect = 0 }
    ∷ record { ctx_err = none; id = cart; content = 2 ∷ []; expect = 0 }
    ∷ record { ctx_err = none; id = cart; content = 3 ∷ []; expect = 1 }
    ∷ []

run_writes-Refines_example :
    ((run_writes calls (new_memory (pos 5))).0 ≡ (run_spec calls (λ _. [])).0)
    × ((id : GrainId)
        → read none id (run_writes calls (new_memory (pos 5))).1
          ≡ ok (snapshot ((run_spec calls (λ _. [])).1 id)))
run_writes-Refines_example = run_writes-Refines calls (pos 5)

first_write : (write none cart (1 ∷ []) 0 empty_store).0 ≡ ok 1
unfolding write current_record new_memory get next_etag ℕ_discrete
first_write = refl

abbrev row : Member
row = record {
  node_addr = bytes "a:1";
  generation = bytes "g";
  status = MemberStatus.active;
  iam_alive_at = pos 4;
  suspect_votes = [];
  etag = 0;
}

abbrev stale_row : Member
stale_row = record row { iam_alive_at = pos 6 }

abbrev row_calls : List Rows.WriteCall
row_calls =
    record { ctx_err = none; member = row }
    ∷ record { ctx_err = none; member = stale_row }
    ∷ record { ctx_err = none; member = record stale_row { etag = 1 } }
    ∷ []

run_members-Refines_example :
    ((Rows.run_writes row_calls (new_memory (pos 5))).0 ≡ (Rows.run_promised row_calls (λ _. [])).0)
    × ((s : MemberSnapshot) × (list_members none (Rows.run_writes row_calls (new_memory (pos 5))).1
          ≡ ok s)
        × ((id : MemberId)
            → find_row MemberId-discrete key_for_member id s.members
              ≡ Rows.latest ((Rows.run_promised row_calls (λ _. [])).1 id)))
run_members-Refines_example = Rows.run_members-Refines row_calls (pos 5)

abbrev one_member : Memory
one_member = (write_member none row empty_store).1

one_member-IsTable : IsTable one_member
one_member-IsTable = write_member-IsTable none row empty_store (new_memory-IsTable (pos 5))

abbrev pub alarm : Reminder
alarm = record {
  identity = cart;
  name = bytes "alarm";
  method = bytes "Ring";
  first_tick_time = pos 10;
  due_at = pos 10;
  interval = pos 0;
  etag = 1;
}

abbrev pub one_alarm : Memory
one_alarm = after_calls (put_call none alarm ∷ []) empty_store

pub one_alarm-IsReminderTable : IsReminderTable one_alarm
one_alarm-IsReminderTable =
    after_calls-IsReminderTable (put_call none alarm ∷ []) empty_store
      (new_memory-IsReminderTable (pos 5))

stored_alarm : reminder_at (key_for_reminder alarm) one_alarm ≡ some alarm
unfolding reminder_at after_calls put_reminder key_for_reminder new_memory get put delete
    ReminderKey-discrete
stored_alarm = refl

claims_one_winner_example : wins (claims alarm (pos 0 ∷ pos 30 ∷ pos 0 ∷ []) one_alarm).0 ≤ 1
claims_one_winner_example =
    claims_one_winner alarm (pos 0 ∷ pos 30 ∷ pos 0 ∷ []) one_alarm (omega arith)

abbrev later_alarm : Reminder
later_alarm = record alarm { due_at = pos 50; etag = 0 }

claim_reset_twice_example :
    let m' = (claim none alarm (pos 0) one_alarm).1 in
    let m'' = (put_reminder none later_alarm m').1 in
    ((claim none alarm (pos 0) one_alarm).0 ≡ ok true)
    × ((claim none alarm (pos 0) m'').0 ≡ ok true)
    × (reminder_at (key_for_reminder later_alarm) (claim none alarm (pos 0) m'').1 ≡ none)
claim_reset_twice_example =
    claim_reset_twice alarm later_alarm one_alarm (unfold key_for_reminder in refl) stored_alarm
      refl
