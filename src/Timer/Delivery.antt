-- ===== src/Timer/Delivery.antt =====
-- A poller on a Memory store (poll of timer/timer.go on store/schedule.go).
use gor.Prelude.{
  ℕ, zero, suc, ◌≤◌, Option, none, some, Bool, true, false, List, [], ◌∷◌, ◌++◌, if◌then◌else◌,
  ◌≤ℤ◌, pos_part, ◌≡◌, refl, sym, ap, ◌∙◌, arith, Bool-cases, inl, inr, length,
}
use mathlib.Core.Logic.{if_pos, if_neg}
use gor.Store.{ok, Time, GrainId, Reminder, ReminderKey, ReminderKey-discrete, Memory}
use gor.Store.Keyed.{find_row, keep, DistinctRows}
use gor.Store.Reminders.{key_for_reminder, is_due, list_due, claim}
use gor.Store.Reminders.Claims.{reminder_at, claim_ok, reminder_at-claim, claimed_row}
use gor.Store.Reminders.Due.{IsReminderTable, list_due_lem}
use gor.Timer.{
  Table, Delivered, delivery, invoked, next_due_at, deliver, poll_loop, poll_listed, poll,
}
use gor.Timer.Due.{next_due_at_lem, Next-after}

abbrev pub memory_table : Table Memory
memory_table = record { list_due = list_due none; claim = claim none }

-- The reminders of the rows that this node owns.
abbrev owned : (GrainId → Bool) → Reminder → Bool
owned owns r = owns r.identity

-- A claimed row is gone or due later.
claimed_row-later :
    (r : Reminder) (now : Time)
    → r.due_at ≤ℤ now
    → keep ReminderKey-discrete key_for_reminder (is_due now) (claimed_row r (next_due_at r now))
      ≡ none
claimed_row-later r now due = elim (next_due_at_lem r now) [
  | inl (z, e) ↦ ground (arith, e)
  | inr (inl (p, f, e)) ↦ absurd (omega arith)
  | inr (inr (p, d, n)) ↦
      ground (arith, Next-after r.due_at now (pos_part r.interval) _ (ground arith) n)
]

module _ (owns : GrainId → Bool) (invocation : Option (Delivered → Memory → Memory))
    (now : Time) where
  -- The owned due row of a key.
  abbrev pub owned_due : ReminderKey → Memory → Option Reminder
  owned_due key m =
      keep ReminderKey-discrete key_for_reminder (owned owns)
        (keep ReminderKey-discrete key_for_reminder (is_due now) (reminder_at key m))

  -- What an invocation leaves of the store.
  abbrev pub effect : Reminder → Memory → Memory
  effect r m = (invoked invocation r m).1

  -- An invocation neither adds nor changes nor removes an owned reminder that is due at the poll's time;
  -- it may do so with the others, and with the rest of the store.
  abbrev pub IsCalm : Type 0
  IsCalm =
      (r : Reminder) (m : Memory) (key : ReminderKey) → owned_due key (effect r m) ≡ owned_due key m

  -- The rows still to be polled are the due rows of the store, as far as they are owned.
  abbrev pub Remaining : List Reminder → Memory → Type 0
  Remaining rs m =
      (key : ReminderKey)
      → keep ReminderKey-discrete key_for_reminder (owned owns)
          (keep ReminderKey-discrete key_for_reminder (is_due now) (reminder_at key m))
        ≡ keep ReminderKey-discrete key_for_reminder (owned owns)
            (find_row ReminderKey-discrete key_for_reminder key rs)

  keep-keep :
      (o : Option Reminder) {r : Reminder}
      → keep ReminderKey-discrete key_for_reminder
          (owned owns)
          (keep ReminderKey-discrete key_for_reminder (is_due now) o)
        ≡ some r
      → (o ≡ some r) × (is_due now r ≡ true)
  keep-keep none h = cc
  keep-keep (some q) h = (ground arith, ground arith)

  head_row :
      (r : Reminder) (rs : List Reminder)
      → owns r.identity ≡ true
      → keep ReminderKey-discrete key_for_reminder
          (owned owns)
          (find_row ReminderKey-discrete key_for_reminder (key_for_reminder r) (r ∷ rs))
        ≡ some r
  unfolding find_row
  head_row r rs o = ground arith

  -- The head of the list is a due row of the store.
  head_stored :
      (r : Reminder) (rs : List Reminder) (m : Memory)
      → owns r.identity ≡ true
      → Remaining (r ∷ rs) m
      → (reminder_at (key_for_reminder r) m ≡ some r) × (is_due now r ≡ true)
  head_stored r rs m o rem =
      keep-keep (reminder_at (key_for_reminder r) m) (rem (key_for_reminder r) ∙ head_row r rs o)

  -- A row that is not owned is passed over.
  skip-Remaining :
      (r : Reminder) (rs : List Reminder) (m : Memory)
      → owns r.identity ≡ false
      → DistinctRows ReminderKey-discrete key_for_reminder (r ∷ rs)
      → Remaining (r ∷ rs) m
      → Remaining rs m
  skip-Remaining r rs m o d rem key = rem key ∙ unfold find_row in ground (arith, d.0)

  claim-Remaining :
      (r : Reminder) (rs : List Reminder) (m : Memory)
      → owns r.identity ≡ true
      → DistinctRows ReminderKey-discrete key_for_reminder (r ∷ rs)
      → Remaining (r ∷ rs) m
      → Remaining rs (claim none r (next_due_at r now) m).1
  claim-Remaining r rs m o d rem key =
      let (stored, due) = head_stored r rs m o rem in
      let claimed = reminder_at-claim r (next_due_at r now) m r stored key refl in
      let later = claimed_row-later r now (ground arith) in
      elim (ReminderKey-discrete (key_for_reminder r) key) [
        | yes same ↦
            let absent : find_row ReminderKey-discrete key_for_reminder key rs ≡ none =
              rw (← same) d.0 in
            rw (claimed, if_pos _ same, later, absent) refl
        | no other ↦
            rw (claimed, if_neg _ other) (rem key ∙ unfold find_row in rw (if_neg _ other) refl)
      ]

  abbrev one : Reminder → List Delivered
  one r = elim invocation [ none ↦ [] | some invoke ↦ delivery r ∷ [] ]

  -- The deliveries of a list of reminders: the owned ones, in order.
  unfoldable pub deliveries : List Reminder → List Delivered
  deliveries [] = []
  deliveries (r ∷ rs) = if owns r.identity then one r ++ deliveries rs else deliveries rs

  invoked_lem : (r : Reminder) (m : Memory) → invoked invocation r m ≡ (one r, effect r m)
  invoked_lem r m =
      elim invocation
        as (λ i. invoked i r m ≡ (
          elim i as (λ _. List Delivered) [ none ↦ [] | some f ↦ delivery r ∷ [] ],
          (invoked i r m).1,
        )) [ none ↦ refl | some f ↦ refl ]

  deliver_won :
      (r : Reminder) (m : Memory)
      → reminder_at (key_for_reminder r) m ≡ some r
      → deliver memory_table owns invocation now r m
        ≡ (one r, effect r (claim none r (next_due_at r now) m).1)
  unfolding deliver
  deliver_won r m stored =
      rw (claim_ok r (next_due_at r now) m r stored refl)
        (invoked_lem r (claim none r (next_due_at r now) m).1)

  poll_loop_lem :
      (budget : ℕ) (rs : List Reminder) (m : Memory)
      → IsCalm
      → length rs ≤ budget
      → DistinctRows ReminderKey-discrete key_for_reminder rs
      → Remaining rs m
      → ((poll_loop memory_table owns invocation now budget rs m).0 ≡ deliveries rs)
        × Remaining [] (poll_loop memory_table owns invocation now budget rs m).1
  unfolding poll_loop deliveries
  poll_loop_lem budget [] m calm le d rem = (refl, rem)
  poll_loop_lem zero (r ∷ rs) m calm le d rem = absurd (omega arith)
  poll_loop_lem (suc budget) (r ∷ rs) m calm le d rem = elim (Bool-cases (owns r.identity)) [
    | inl o ↦
        let stored = (head_stored r rs m o rem).0 in
        let ih =
          poll_loop_lem budget rs (effect r (claim none r (next_due_at r now) m).1) calm
            (omega arith) d.1 (λ key. calm r _ key ∙ claim-Remaining r rs m o d rem key) in
        rw (o, deliver_won r m stored) (ap (◌++◌ (one r)) ih.0, ih.1)
    | inr o ↦
        rw o (poll_loop_lem budget rs m calm (omega arith) d.1 (skip-Remaining r rs m o d rem))
  ]

  deliveries-nil :
      (rs : List Reminder)
      → DistinctRows ReminderKey-discrete key_for_reminder rs
      → ((key : ReminderKey)
          → keep ReminderKey-discrete key_for_reminder
              (owned owns)
              (find_row ReminderKey-discrete key_for_reminder key rs)
            ≡ none)
      → deliveries rs ≡ []
  unfolding deliveries find_row
  deliveries-nil [] d h = refl
  deliveries-nil (r ∷ rs) d h = elim (Bool-cases (owns r.identity)) [
    | inl o ↦ cc (sym (head_row r rs o) ∙ h (key_for_reminder r))
    | inr o ↦ rw o (deliveries-nil rs d.1 (λ key. ground (arith, d.0, h key)))
  ]

  -- On a well-formed Memory table, with a context that is not canceled, and where no invocation
  -- adds, changes or removes an owned reminder that is due at the poll's time, a poll delivers each
  -- owned due reminder once, in ListDue's order, if newCall is not nil, and none if it is;
  -- afterwards no owned reminder of the table is due at the poll's time.
  pub poll_lem :
      (m : Memory)
      → IsReminderTable m
      → IsCalm
      → (due : List Reminder) × (list_due none now m ≡ ok due)
        × ((budget : ℕ)
            → length due ≤ budget
            → ((poll memory_table owns invocation now budget m).0 ≡ deliveries due)
              × Remaining [] (poll memory_table owns invocation now budget m).1)
  unfolding poll
  poll_lem m h calm =
      let (due, listed, found, distinct) = list_due_lem now m h in
      (
        due,
        listed,
        λ budget le. rw listed (
            unfold poll_listed in
            poll_loop_lem budget due m calm le distinct (λ key.
              ap (keep ReminderKey-discrete key_for_reminder (owned owns)) (sym (found key)))),
      )
