-- ===== src/Store/Reminders/Claims.antt =====
-- At most one winner of a claim (store/schedule.go).
use gor.Prelude.{
  ℕ, ◌^◌, ◌<◌, Option, none, some, Bool, true, false, List, [], ◌∷◌, ◌≡◌, ◌≢◌, ◌⊎◌, arith, get,
  get-put, get-delete, ite, ℕ_discrete, ℤ-discrete, pos, inl, inr, refl, sym, ap, ◌∙◌, ◌≤◌, suc,
}
use gor.Store.{
  next_etag, Result, ok, err, Time, Reminder, ReminderKey, ReminderKey-discrete, Memory,
}
use gor.Store.Records.Cas.{next_etag_ne}
use gor.Store.Reminders.{key_for_reminder, claim, put_reminder, put_etag}

-- m.reminders[key]
unfoldable pub reminder_at : ReminderKey → Memory → Option Reminder
reminder_at key m = get ReminderKey-discrete key m.reminders

-- What a claimed row becomes.
abbrev pub claimed_row : Reminder → Time → Option Reminder
claimed_row current next_due_at =
    ite (ℤ-discrete next_due_at (pos 0)) none
      (some (record current { due_at = next_due_at; etag = next_etag current.etag }))

module _ (reminder : Reminder) (next_due_at : Time) (m : Memory) where
  pub claim_absent :
      reminder_at (key_for_reminder reminder) m ≡ none
      → claim none reminder next_due_at m ≡ (ok false, m)
  unfolding claim reminder_at
  claim_absent h = ground arith

  module _ (current : Reminder)
      (found : reminder_at (key_for_reminder reminder) m ≡ some current) where
    pub claim_stale :
        current.etag ≢ reminder.etag → claim none reminder next_due_at m ≡ (ok false, m)
    unfolding claim reminder_at
    claim_stale h = ground arith

    pub claim_ok : current.etag ≡ reminder.etag → (claim none reminder next_due_at m).0 ≡ ok true
    unfolding claim reminder_at
    claim_ok h = ground arith

    pub reminder_at-claim :
        (j : ReminderKey)
        → current.etag ≡ reminder.etag
        → reminder_at j (claim none reminder next_due_at m).1
          ≡ ite
              (ReminderKey-discrete (key_for_reminder reminder) j)
              (claimed_row current next_due_at)
              (reminder_at j m)
    unfolding claim reminder_at
    reminder_at-claim j h = ground (
      arith,
      get-delete ReminderKey-discrete j (key_for_reminder reminder) m.reminders,
      get-put ReminderKey-discrete j (key_for_reminder reminder)
          (record current { due_at = next_due_at; etag = next_etag current.etag }) m.reminders,
    )

-- After a claim won, a claim of the same snapshot is refused and changes nothing.
claim_again :
    (reminder : Reminder) (next next' : Time) (m : Memory)
    → reminder.etag < 2 ^ 64
    → (claim none reminder next m).0 ≡ ok true
    → claim none reminder next' (claim none reminder next m).1
      ≡ (ok false, (claim none reminder next m).1)
claim_again reminder next next' m h w = by_row (reminder_at (key_for_reminder reminder) m) refl
  where
    after : Memory
    after = (claim none reminder next m).1

    by_claimed :
        (current : Reminder)
        → current.etag ≡ reminder.etag
        → (zero_next : Dec (next ≡ pos 0))
        → reminder_at (key_for_reminder reminder) after
          ≡ ite zero_next none
              (some (record current { due_at = next; etag = next_etag current.etag }))
        → claim none reminder next' after ≡ (ok false, after)
    by_claimed current p (yes z) e = claim_absent reminder next' after e
    by_claimed current p (no z) e =
        claim_stale reminder next' after _ e
          (λ q. next_etag_ne reminder.etag h (ap next_etag (sym p) ∙ q))

    by_row :
        (row : Option Reminder)
        → reminder_at (key_for_reminder reminder) m ≡ row
        → claim none reminder next' after ≡ (ok false, after)
    by_row none e = cc (claim_absent reminder next m e)
    by_row (some current) e = elim (ℕ_discrete current.etag reminder.etag) [
      | yes p ↦ by_claimed current p (ℤ-discrete next (pos 0)) (
          ground (arith, reminder_at-claim reminder next m current e (key_for_reminder reminder) p))
      | no p ↦ cc (claim_stale reminder next m current e p)
    ]

-- Claimers of one snapshot, in the order in which their calls take the lock.
unfoldable pub claims : Reminder → List Time → Memory → List (Result Bool) × Memory
claims reminder [] m = ([], m)
claims reminder (next ∷ nexts) m =
    let (r, m') = claim none reminder next m in
    let (rs, m'') = claims reminder nexts m' in (r ∷ rs, m'')

abbrev pub wins : List (Result Bool) → ℕ
wins [] = 0
wins (ok true ∷ rs) = suc (wins rs)
wins (ok false ∷ rs) = wins rs
wins (err e ∷ rs) = wins rs

claim_cases :
    (reminder : Reminder) (next : Time) (m : Memory)
    → ((claim none reminder next m).0 ≡ ok true) ⊎ (claim none reminder next m ≡ (ok false, m))
claim_cases reminder next m = by_row (reminder_at (key_for_reminder reminder) m) refl
  where
    by_row :
        (row : Option Reminder)
        → reminder_at (key_for_reminder reminder) m ≡ row
        → ((claim none reminder next m).0 ≡ ok true) ⊎ (claim none reminder next m ≡ (ok false, m))
    by_row none e = inr (claim_absent reminder next m e)
    by_row (some current) e = elim (ℕ_discrete current.etag reminder.etag) [
      | yes p ↦ inl (claim_ok reminder next m current e p)
      | no p ↦ inr (claim_stale reminder next m current e p)
    ]

-- A snapshot that every claim finds stale has no winner.
lost_claims :
    (reminder : Reminder) (nexts : List Time) (m : Memory)
    → ((next : Time) → claim none reminder next m ≡ (ok false, m))
    → wins (claims reminder nexts m).0 ≡ 0
unfolding claims
lost_claims reminder [] m h = refl
lost_claims reminder (next ∷ nexts) m h = rw (h next) (lost_claims reminder nexts m h)

-- Claimers that hold one snapshot of a reminder, in any number and order and with any next due
-- times, have at most one winner among them, for an ETag in the range of its 64 bits and any store.
pub claims_one_winner :
    (reminder : Reminder) (nexts : List Time) (m : Memory)
    → reminder.etag < 2 ^ 64
    → wins (claims reminder nexts m).0 ≤ 1
unfolding claims
claims_one_winner reminder [] m h = omega arith
claims_one_winner reminder (next ∷ nexts) m h = elim (claim_cases reminder next m) [
  | inl w ↦ rw w (
      omega (
        arith,
        lost_claims reminder nexts (claim none reminder next m).1
            (λ next'. claim_again reminder next next' m h w),
      ))
  | inr e ↦ rw e (claims_one_winner reminder nexts m h)
]

reminder_at-put :
    (j : ReminderKey) (reminder : Reminder) (m : Memory)
    → reminder_at j (put_reminder none reminder m).1
      ≡ ite
          (ReminderKey-discrete (key_for_reminder reminder) j)
          (some (record reminder { etag = put_etag (reminder_at (key_for_reminder reminder) m) }))
          (reminder_at j m)
unfolding put_reminder reminder_at
reminder_at-put j reminder m =
    get-put ReminderKey-discrete j (key_for_reminder reminder)
      (record reminder {
        etag = put_etag (get ReminderKey-discrete (key_for_reminder reminder) m.reminders);
      })
      m.reminders

-- A Put over a stored reminder makes a claim of the old row lose, and change nothing.
pub claim-put_stale :
    (new current : Reminder) (next : Time) (m : Memory)
    → reminder_at (key_for_reminder new) m ≡ some current
    → current.etag < 2 ^ 64
    → claim none (record new { etag = current.etag }) next (put_reminder none new m).1
      ≡ (ok false, (put_reminder none new m).1)
unfolding key_for_reminder
claim-put_stale new current next m found h =
    claim_stale (record new { etag = current.etag }) next (put_reminder none new m).1
      (record new { etag = next_etag current.etag })
      (ground (arith, reminder_at-put (key_for_reminder new) new m, found))
      (next_etag_ne current.etag h)

-- The versions of a deleted reminder start again at 1: a claimer that still holds the snapshot of a
-- one-shot reminder at version 1 wins a second time, if the reminder was claimed and set again in
-- between, and deletes the new row.
pub claim_reset_twice :
    (reminder new : Reminder) (m : Memory)
    → key_for_reminder new ≡ key_for_reminder reminder
    → reminder_at (key_for_reminder reminder) m ≡ some reminder
    → reminder.etag ≡ 1
    → let m' = (claim none reminder (pos 0) m).1 in
      let m'' = (put_reminder none new m').1 in
      ((claim none reminder (pos 0) m).0 ≡ ok true)
      × ((claim none reminder (pos 0) m'').0 ≡ ok true)
      × (reminder_at (key_for_reminder new) (claim none reminder (pos 0) m'').1 ≡ none)
claim_reset_twice reminder new m same found one = (
  claim_ok reminder (pos 0) m reminder found refl,
  claim_ok reminder (pos 0) m'' fresh stored (sym one),
  (rw same (
      ground (
        arith,
        reminder_at-claim reminder (pos 0) m'' fresh stored (key_for_reminder reminder) (sym one),
      ))),
)
  where
    m' : Memory
    m' = (claim none reminder (pos 0) m).1

    m'' : Memory
    m'' = (put_reminder none new m').1

    fresh : Reminder
    fresh = record new { etag = 1 }

    gone : reminder_at (key_for_reminder new) m' ≡ none
    gone = rw same (
        ground (
          arith,
          reminder_at-claim reminder (pos 0) m reminder found (key_for_reminder reminder) refl,
        ))

    stored : reminder_at (key_for_reminder reminder) m'' ≡ some fresh
    stored = rw (← same) (ground (arith, reminder_at-put (key_for_reminder new) new m', gone))
