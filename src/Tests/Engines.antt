-- ===== src/Tests/Engines.antt =====
-- An engine that creates one activation, and is closed.
use gor.Prelude.{
  ℕ, ◌≤◌, none, some, true, false, [], ◌∷◌, ◌≡◌, ◌≢◌, ◌↔◌, ◌⊎◌, refl, pos, length, get, put, delete,
  ◌≤ℤ◌, ◌+ℤ◌, ℤ-discrete, ℕ_discrete, if◌then◌else◌,
}
use gor.Store.{GrainId, GrainId-discrete, Time}
use gor.Runtime.Occupied.{
  check_cycle, cycle_message, Absent, Cycle, accepted, check_cycle_lem, with_occupied, cycle_from,
}
use gor.Runtime.Engine.{
  Engine, Activation, stopped, Registration, new_engine, look_up, create_activation, new_activation,
  begin_close, is_running, admit, act_at, channel_open, is_victim, look_pending,
  begin_stop_deactivations, stop_loop, stop_row, start_waiter, begin_deactivation, arm_done,
  close_done,
}
use gor.Runtime.Engine.Steps.{
  Steps, done, step, looks_up, creates, closes, Steps-calm, Steps-drained,
}
use gor.Runtime.Engine.Departures.{rank, Steps-onward}
use gor.Runtime.Engine.Calls.{ran, invoke_admitted, nested_refusal_lem}
use gor.Tests.Store.{cart}

abbrev device : GrainId
device = record { grain_type = cart.grain_key; grain_key = cart.grain_type }

check_cycle_lem_example :
    (check_cycle (device ∷ cart ∷ []) cart ≡ none) × Absent cart (device ∷ cart ∷ [])
    ⊎ ((c : Cycle cart (device ∷ cart ∷ [])) × (check_cycle (device ∷ cart ∷ []) cart
          ≡ some (cycle_message (cart ∷ c.after) cart)))
check_cycle_lem_example = check_cycle_lem (device ∷ cart ∷ []) cart

two_calls : accepted [] (device ∷ cart ∷ []) ≡ some (device ∷ cart ∷ [])
unfolding accepted check_cycle with_occupied cycle_from GrainId-discrete
two_calls = refl

abbrev plain : Registration
plain = record { has_on_deactivate = true }

abbrev looked : Engine
looked = (look_up cart (new_engine (pos 60))).1

abbrev created : Engine
created =
    (create_activation cart (if true then some (new_activation cart plain (pos 5)) else none)
      looked).1

pending_cart : get GrainId-discrete cart looked.pending ≡ some tt
unfolding look_up look_pending new_engine get put delete GrainId-discrete
pending_cart = refl

up_to_created : Steps (new_engine (pos 60)) created
up_to_created =
    step (looks_up cart _) (step (creates cart plain (pos 5) true looked pending_cart) done)

up_to_closed : Steps (new_engine (pos 60)) (begin_close created)
up_to_closed =
    step (looks_up cart _)
      (step (creates cart plain (pos 5) true looked pending_cart) (step (closes created) done))

Steps-calm_example :
    ((begin_close created).panicked ≡ false)
    × (is_running (begin_close created).state ≡ false
        → (a : ℕ) (now : Time) → admit a now (begin_close created) ≡ (false, begin_close created))
Steps-calm_example = Steps-calm (pos 60) up_to_closed

closed_not_running : is_running (begin_close created).state ≡ false
unfolding begin_close create_activation look_up look_pending new_engine get put delete
    GrainId-discrete begin_stop_deactivations stop_loop stop_row start_waiter begin_deactivation
    arm_done close_done ℕ_discrete new_activation ◌+ℤ◌ ℤ-discrete
closed_not_running = refl

Steps-drained_example :
    (((begin_close created).deactivations_done ≡ some channel_open)
      ↔ (1 ≤ length (begin_close created).waiters))
    × ((begin_close created).deactivations_done ≢ some channel_open
        → (a : ℕ) (act : Activation) → act_at a (begin_close created) ≡ some act
        → act.state ≡ stopped)
Steps-drained_example = Steps-drained (pos 60) up_to_closed closed_not_running

abbrev fresh : Activation
fresh = new_activation cart plain (pos 5)

created_at : act_at 0 created ≡ some fresh
unfolding create_activation look_up look_pending new_engine get put delete GrainId-discrete
    ℕ_discrete
created_at = refl

Steps-onward_example :
    (act' : Activation) × (act_at 0 (begin_close created) ≡ some act')
    × (rank fresh.state ≤ rank act'.state)
    × (2 ≤ rank fresh.state → act'.reason ≡ fresh.reason)
Steps-onward_example =
    Steps-onward (pos 60) up_to_created (step (closes created) done) 0 fresh created_at

nested_refusal_lem_example :
    let e' = invoke_admitted 0 (ran (some true)) (admit 0 (pos 7) created).1 in
    (idle_act busy_act : Activation) × (act_at 0 e' ≡ some idle_act)
    × (act_at 0 (admit 0 (pos 8) e').1 ≡ some busy_act)
    × ((now : Time) → is_victim now (pos 60) idle_act ≡ false)
    × ((now : Time) → pos 8 +ℤ pos 60 ≤ℤ now → is_victim now (pos 60) busy_act ≡ true)
nested_refusal_lem_example =
    nested_refusal_lem 0 (pos 7) (pos 8) (pos 60) fresh created created_at
      (unfold new_activation in refl) (unfold new_activation in refl)
