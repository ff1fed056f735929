-- ===== src/Timer.antt =====
-- Package timer: the next due time of a reminder and a poller's round (timer/timer.go). A Duration is
-- an int64 of nanoseconds; a Time is unbounded here, so that Time.Add does not overflow.
pub mod Due
pub mod Delivery
use gor.Prelude.{
  ℕ, zero, suc, ◌+◌, ◌*◌, ◌-◌, ◌/◌, ◌^◌, ◌≤◌, Option, none, some, Bool, true, false, not, List, [],
  ◌∷◌, ◌++◌, if◌then◌else◌, ltb, leb, ◌==◌, ltb_ℤ, leb_ℤ, ◌+ℤ◌, ◌-ℤ◌, pos, pos_part, Text,
}
use gor.Store.{Error, Result, ok, err, Time, Duration, GrainId, Reminder}

-- maxDuration
abbrev pub max_duration : ℕ
max_duration = 2 ^ 63 - 1

-- now.Sub(due) for a time `due` that is not after `now`: it stops at the largest Duration.
unfoldable pub elapsed_since : Time → Time → ℕ
elapsed_since now due =
    let elapsed = pos_part (now -ℤ due) in
    if ltb max_duration elapsed then max_duration else elapsed

-- futureDueAt
unfoldable pub future_due_at : Time → Duration → Time
future_due_at now period =
    let fallback = now +ℤ period in if ltb_ℤ now fallback then fallback else now +ℤ pos 1

-- nextDueAt behind its early returns; the period is positive and the reminder is due.
unfoldable pub next_after : Time → Time → ℕ → Time
next_after due now period =
    let missed = elapsed_since now due / period in
    if missed == max_duration
    then future_due_at now (pos period)
    else (if ltb (max_duration / period) (missed + 1)
        then future_due_at now (pos period)
        else (let candidate = due +ℤ pos (period * (missed + 1)) in
            if ltb_ℤ now candidate then candidate else future_due_at now (pos period)))

-- nextDueAt; `pos 0` is the zero Time.
unfoldable pub next_due_at : Reminder → Time → Time
next_due_at reminder now =
    if leb_ℤ reminder.interval (pos 0)
    then pos 0
    else (if ltb_ℤ now reminder.due_at
        then reminder.due_at
        else next_after reminder.due_at now (pos_part reminder.interval))

-- The two methods of Table over a state.
pub record Table (S : Type 0) : Type 0 where
  pub list_due : Time → S → Result (List Reminder)
  pub claim : Reminder → Time → S → Result Bool × S

-- What is handed to newCall and Invoke.
pub record Delivered : Type 0 where
  pub identity : GrainId
  pub method : Text
  pub first_tick_time : Time
  pub interval : Duration
  pub due_at : Time

unfoldable pub delivery : Reminder → Delivered
delivery r = record {
  identity = r.identity;
  method = r.method;
  first_tick_time = r.first_tick_time;
  interval = r.interval;
  due_at = r.due_at;
}

-- err != nil || !claimed
abbrev pub won : Result Bool → Bool
won (err e) = false
won (ok claimed) = claimed

-- newCall and Invoke of a claimed reminder: the method of the grain may change the store, with a Set or a
-- Cancel of its own. Where newCall is nil, nothing is invoked.
abbrev pub invoked {ℓ} :
    {S : Type ℓ} → Option (Delivered → S → S) → Reminder → S → List Delivered × S
invoked none r s = ([], s)
invoked (some invoke) r s = (delivery r ∷ [], invoke (delivery r) s)

module _ {S : Type 0} (table : Table S) (owns : GrainId → Bool)
    (invocation : Option (Delivered → S → S)) where
  -- The claim of one owned reminder, and its delivery.
  unfoldable pub deliver : Time → Reminder → S → List Delivered × S
  unfolding delivery
  deliver now r s =
      let (claimed, s') = table.claim r (next_due_at r now) s in
      if won claimed then invoked invocation r s' else ([], s')

  abbrev pub and_then : List Delivered × S → (S → List Delivered × S) → List Delivered × S
  and_then (ds, s) rest = let (es, s') = rest s in (ds ++ es, s')

  -- The loop of poll. The context is canceled before the reminder at which `budget` is used up.
  unfoldable pub poll_loop : Time → ℕ → List Reminder → S → List Delivered × S
  poll_loop now budget [] s = ([], s)
  poll_loop now zero (r ∷ rs) s = ([], s)
  poll_loop now (suc budget) (r ∷ rs) s =
      if owns r.identity
      then and_then (deliver now r s) (poll_loop now budget rs)
      else poll_loop now budget rs s

  unfoldable pub poll_listed : Time → ℕ → Result (List Reminder) → S → List Delivered × S
  poll_listed now budget (err e) s = ([], s)
  poll_listed now budget (ok rs) s = poll_loop now budget rs s

  -- poll, at the clock's time `now`: the deliveries in order.
  unfoldable pub poll : Time → ℕ → S → List Delivered × S
  poll now budget s = poll_listed now budget (table.list_due now s) s
