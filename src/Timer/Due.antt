-- ===== src/Timer/Due.antt =====
-- The next due time of a claimed reminder (nextDueAt of timer/timer.go).
use gor.Prelude.{
  ℕ, ◌+◌, ◌*◌, ◌/◌, ◌≤◌, ◌<◌, true, false, if◌then◌else◌, ltb, leb, ◌==◌, ltb_ℤ, leb_ℤ, ◌+ℤ◌, ◌-ℤ◌,
  ◌≤ℤ◌, ◌<ℤ◌, pos, pos_part, neg_part, ◌≡◌, refl, arith, ◌⊎◌, inl, inr, Bool-cases, +ℤ_parts,
  -ℤ_parts,
}
use native.Mathlib.Nat.{div-add-mod, mod-lt, div-le_self}
use gor.Store.{Time, Reminder}
use gor.Timer.{max_duration, elapsed_since, future_due_at, next_after, next_due_at}

future_due_at_lem :
    (now : Time) (period : ℕ) → 0 < period → future_due_at now (pos period) ≡ now +ℤ pos period
unfolding future_due_at
future_due_at_lem now period h = ground (arith, +ℤ_parts now (pos period))

-- The whole number of periods that leads from `due` to the first time of the grid after `now`.
abbrev pub on_grid : Time → ℕ → ℕ → Time
on_grid due period k = due +ℤ pos (period * k)

div_bounds : (e p : ℕ) → 0 < p → (p * (e / p) ≤ e) × (e < p * (e / p + 1))
div_bounds e p h = omega (arith, div-add-mod e p, mod-lt e h)

le_div : (m p n : ℕ) → 0 < p → p * m ≤ n → m ≤ n / p
le_div m p n h le = grind (arith, div_bounds n p h)

least : (e p j : ℕ) → 0 < p → e < p * j → e / p + 1 ≤ j
least e p j h lt = grind (arith, div_bounds e p h)

-- The time from `due` to a later `now`.
abbrev elapsed_of : Time → Time → ℕ
elapsed_of now due = pos_part (now -ℤ due)

elapsed_of_lem :
    (now due : Time)
    → due ≤ℤ now
    → pos_part now + neg_part due ≡ pos_part due + neg_part now + elapsed_of now due
elapsed_of_lem now due h = ground (arith, -ℤ_parts now due)

elapsed_since-elapsed_of :
    (now due : Time)
    → elapsed_since now due
      ≡ (if ltb max_duration (elapsed_of now due) then max_duration else elapsed_of now due)
unfolding elapsed_since
elapsed_since-elapsed_of now due = refl

-- `k` is the number of periods from `due` to the first time of the grid after `now`.
pub record First (due now : Time) (period k : ℕ) : Type 0 where
  pub after : now <ℤ on_grid due period k
  pub least : (j : ℕ) → now <ℤ on_grid due period j → k ≤ j

first :
    (due now : Time) (period : ℕ)
    → 0 < period
    → due ≤ℤ now
    → First due now period (elapsed_of now due / period + 1)
first due now period h le = record {
  after = omega (
    arith,
    elapsed_of_lem now due le,
    div_bounds (elapsed_of now due) period h,
    +ℤ_parts due (pos (period * (elapsed_of now due / period + 1))),
  );
  least = λ j a.
      least (elapsed_of now due) period j h
        (omega (arith, elapsed_of_lem now due le, +ℤ_parts due (pos (period * j))));
}

over_div : (m p n : ℕ) → 0 < p → n < p * m → n / p < m
over_div m p n h o = grind (arith, div_bounds n p h)

-- What nextDueAt gives for a due repeating reminder: the first time of its grid after now, if the way
-- there from the old due time fits a Duration, and else now plus one period.
pub record Next (due now : Time) (period : ℕ) (next : Time) : Type 0 where
  pub periods : ℕ
  pub first : First due now period periods
  pub on_phase : period * periods ≤ max_duration → next ≡ on_grid due period periods
  pub too_far : max_duration < period * periods → next ≡ now +ℤ pos period

module _ (due now : Time) (period : ℕ) (h : 0 < period) (le : due ≤ℤ now) where
  abbrev elapsed : ℕ
  elapsed = elapsed_of now due

  next_after-fits :
      period * (elapsed / period + 1) ≤ max_duration
      → next_after due now period ≡ on_grid due period (elapsed / period + 1)
  unfolding next_after
  next_after-fits room =
      let small : elapsed_since now due ≡ elapsed =
        ground (arith, elapsed_since-elapsed_of now due, div_bounds elapsed period h, room) in
      let enough = le_div (elapsed / period + 1) period max_duration h room in
      let not_full : (elapsed / period == max_duration) ≡ false =
        ground (arith, enough, div-le_self max_duration period) in
      let not_over : ltb (max_duration / period) (elapsed / period + 1) ≡ false =
        ground (arith, enough) in
      let after : ltb_ℤ now (on_grid due period (elapsed / period + 1)) ≡ true =
        ground (arith, (first due now period h le).after) in
      rw (next_after, small, not_full, not_over, after) refl

  not_small :
      max_duration < period * (elapsed / period + 1)
      → max_duration < period * (elapsed_since now due / period + 1)
  not_small over = elim (Bool-cases (ltb max_duration elapsed)) [
    | inl t ↦ rw (elapsed_since-elapsed_of now due, t) (div_bounds max_duration period h).1
    | inr f ↦ rw (elapsed_since-elapsed_of now due, f) over
  ]

  next_after-over :
      max_duration < period * (elapsed / period + 1) → next_after due now period ≡ now +ℤ pos period
  unfolding next_after
  next_after-over over =
      let over' : ltb (max_duration / period) (elapsed_since now due / period + 1) ≡ true = ground (
        arith,
        over_div (elapsed_since now due / period + 1) period max_duration h (not_small over),
      ) in
      elim (Bool-cases (elapsed_since now due / period == max_duration)) [
        | inl t ↦ rw (next_after, t) (future_due_at_lem now period h)
        | inr f ↦ rw (next_after, f, over') (future_due_at_lem now period h)
      ]

  next_after-Next : Next due now period (next_after due now period)
  next_after-Next = record {
    periods = elapsed / period + 1;
    first = first due now period h le;
    on_phase = next_after-fits;
    too_far = next_after-over;
  }

-- nextDueAt on each branch: no positive interval gives the zero time, a reminder that is not due
-- keeps its due time, and any other gets the first time of its grid (the old due time plus whole
-- periods) that is after now, if the way there fits a Duration, and else now plus one period.
pub next_due_at_lem :
    (r : Reminder) (now : Time)
    → (r.interval ≤ℤ pos 0) × (next_due_at r now ≡ pos 0)
      ⊎ (pos 0 <ℤ r.interval) × (now <ℤ r.due_at) × (next_due_at r now ≡ r.due_at)
      ⊎ (pos 0 <ℤ r.interval)
        × (r.due_at ≤ℤ now)
        × Next r.due_at now (pos_part r.interval) (next_due_at r now)
unfolding next_due_at
next_due_at_lem r now = elim (Bool-cases (leb_ℤ r.interval (pos 0))) [
  | inl z ↦ inl (ground arith, rw (z, next_due_at) refl)
  | inr p ↦ elim (Bool-cases (ltb_ℤ now r.due_at)) [
    | inl f ↦ inr (inl (ground arith, ground arith, rw (p, f, next_due_at) refl))
    | inr d ↦ inr (
        inr (
          ground arith,
          ground arith,
          rw (p, d, next_due_at)
              (next_after-Next r.due_at now (pos_part r.interval) (ground arith) (ground arith)),
        ))
  ]
]

-- The next due time of a repeating reminder is after now.
pub Next-after :
    (due now : Time) (period : ℕ) (next : Time)
    → 0 < period
    → Next due now period next
    → now <ℤ next
Next-after due now period next h n = elim (Bool-cases (leb (period * n.periods) max_duration)) [
  | inl t ↦ rw (n.on_phase (ground arith)) n.first.after
  | inr f ↦ rw (n.too_far (ground arith)) (omega (arith, +ℤ_parts now (pos period)))
]
