-- ===== src/Runtime/Engine/Departures.antt =====
-- The lifecycle of one activation object: it leaves the active state once, with one reason.
use gor.Prelude.{
  ℕ, ◌≤◌, Option, none, some, Bool, true, false, List, [], ◌∷◌, get, delete, ℕ_discrete, ◌≡◌, inl,
  inr, refl, ap, ◌∙◌, arith, if◌then◌else◌, Bool-cases, Text, get-put_self, get-put_ne,
}
use gor.Store.{GrainId, GrainId-discrete, Time, Duration}
use gor.Runtime.Engine.{
  Engine, EngineState, engine_running, engine_closing, engine_killing, Activation, ActivationState,
  activating, active, deactivating, stopped, is_running, is_active, act_at, set_act,
  DeactivationReason, ownership_lost, idle, faulted, new_engine, register, look_up, look_row,
  look_pending, Lookup, create_activation, new_activation, admit, admit_row, call_finished,
  finished_row, deactivate, stop_activation, evict, evict_loop, evict_row, is_victim, begin_close,
  begin_kill, finish_deactivation, finish_row, finish_act, forget, deactivation_finished,
  deactivate_locked, deactivate_row, begin_deactivation, addresses, close_done, channel_closed,
  start_waiter, begin_stop_deactivations, arm_done, stop_loop, stop_row, mark_skip_loop, skip_row,
  Registration, close_killing, close_stop,
}
use gor.Runtime.Engine.Invariant.{IsEngine}
use gor.Runtime.Engine.Steps.{
  Step, Steps, registers, looks_up, creates, admits, finishes_call, deactivates, stops, evicts,
  closes, kills, finishes, waiter_ends, done, step, Step-IsEngine, new_engine-IsEngine,
  Steps-IsEngine,
}

-- How far an activation has come.
abbrev pub rank : ActivationState → ℕ
rank activating = 0
rank active = 1
rank deactivating = 2
rank stopped = 3

-- An object only moves forward, and once it has left the active state its reason stays.
pub record Onward (act act' : Activation) : Type 0 where
  pub forward : rank act.state ≤ rank act'.state
  pub fixed : 2 ≤ rank act.state → act'.reason ≡ act.reason

-- Every object is still there and has moved onward.
pub record Onwards (e e' : Engine) : Type 0 where
  pub moved :
      (a : ℕ) (act : Activation)
      → act_at a e ≡ some act
      → (act' : Activation) × (act_at a e' ≡ some act') × Onward act act'

Onward-refl : (act : Activation) → Onward act act
Onward-refl act = record { forward = omega arith; fixed = λ h. refl }

-- Equal heaps.
same_heap : {e e' : Engine} → e'.heap ≡ e.heap → Onwards e e'
same_heap h = record { moved = λ a act at. (act, rw h at, Onward-refl act) }

Onwards-trans : {e e' e'' : Engine} → Onwards e e' → Onwards e' e'' → Onwards e e''
Onwards-trans p q = record {
  moved = λ a act at.
      let (act', at', o) = p.moved a act at in
      let (act'', at'', o') = q.moved a act' at' in
      (
        act'',
        at'',
        record {
          forward = omega (arith, o.forward, o'.forward);
          fixed = λ h. o'.fixed (omega (arith, o.forward, h)) ∙ o.fixed h;
        },
      );
}

write-Onwards :
    (a : ℕ) (act act' : Activation) (e : Engine)
    → act_at a e ≡ some act
    → Onward act act'
    → Onwards e (set_act a act' e)
write-Onwards a act act' e at o = record {
  moved = λ b x h. elim (ℕ_discrete a b) [
    | yes p ↦ (act', rw (← p) (get-put_self ℕ_discrete a act' e.heap), by_same x p h)
    | no n ↦ (x, get-put_ne ℕ_discrete b a act' e.heap n ∙ h, Onward-refl x)
  ];
}
  where
    by_same : {b : ℕ} (x : Activation) → a ≡ b → act_at b e ≡ some x → Onward x act'
    by_same x p h = let q : x ≡ act = ground (arith, at, p, h) in rw q o

admit-Onwards : (a : ℕ) (now : Time) (e : Engine) → Onwards e (admit a now e).1
unfolding admit admit_row
admit-Onwards a now e = by_row (act_at a e) refl
  where
    by_row : (row : Option Activation) → act_at a e ≡ row → Onwards e (admit_row a now e row).1
    by_row none at = same_heap refl
    by_row (some act) at = elim (Bool-cases (is_active act.state)) [
      | inl t ↦
          rw t (write-Onwards a act _ e at (record { forward = omega arith; fixed = λ h. refl }))
      | inr t ↦ rw t (same_heap refl)
    ]

call_finished-Onwards : (a : ℕ) (e : Engine) → Onwards e (call_finished a e)
unfolding call_finished finished_row
call_finished-Onwards a e = by_row (act_at a e) refl
  where
    by_row : (row : Option Activation) → act_at a e ≡ row → Onwards e (finished_row a e row)
    by_row none at = same_heap refl
    by_row (some act) at =
        write-Onwards a act _ e at (record { forward = omega arith; fixed = λ h. refl })

active_rank : (s : ActivationState) → is_active s ≡ true → rank s ≡ 1
active_rank s h = ground (arith, h)

-- An active object departs.
departs :
    (act act' : Activation)
    → is_active act.state ≡ true
    → act'.state ≡ deactivating
    → Onward act act'
departs act act' t s = record {
  forward = omega (arith, active_rank act.state t, ap rank s);
  fixed = λ h. absurd (omega (arith, active_rank act.state t, h));
}

depart-Onwards :
    (a : ℕ) (act act' : Activation) (e : Engine)
    → act_at a e ≡ some act
    → is_active act.state ≡ true
    → act'.state ≡ deactivating
    → Onwards e (start_waiter a (set_act a act' e))
unfolding start_waiter
depart-Onwards a act act' e at t s =
    Onwards-trans (write-Onwards a act act' e at (departs act act' t s)) (same_heap refl)

deactivate_locked-Onwards :
    (a : ℕ) (reason : DeactivationReason) (e : Engine) → Onwards e (deactivate_locked a reason e)
unfolding deactivate_locked deactivate_row begin_deactivation
deactivate_locked-Onwards a reason e = by_row (act_at a e) refl
  where
    by_row :
        (row : Option Activation) → act_at a e ≡ row → Onwards e (deactivate_row a reason e row)
    by_row none at = same_heap refl
    by_row (some act) at = elim (Bool-cases (is_active act.state)) [
      | inl t ↦ rw t (depart-Onwards a act _ e at t refl)
      | inr t ↦ rw t (same_heap refl)
    ]

deactivate-Onwards : (id : GrainId) (e : Engine) → Onwards e (deactivate id e)
unfolding deactivate
deactivate-Onwards id e =
    elim (get GrainId-discrete id e.activations)
      as (λ n.
        Onwards e
          (elim n as (λ _. Engine) [ none ↦ e | some a ↦ deactivate_locked a ownership_lost e ])) [
            | none ↦ same_heap refl
            | some a ↦ deactivate_locked-Onwards a ownership_lost e
          ]

evict_loop-Onwards : (l : List ℕ) (now : Time) (e : Engine) → Onwards e (evict_loop l now e)
unfolding evict_loop evict_row
evict_loop-Onwards [] now e = same_heap refl
evict_loop-Onwards (a ∷ l) now e = Onwards-trans (by_row (act_at a e)) (evict_loop-Onwards l now _)
  where
    by_row : (row : Option Activation) → Onwards e (evict_row a now e row)
    by_row none = same_heap refl
    by_row (some act) = elim (Bool-cases (is_victim now e.idle_timeout act)) [
      | inl t ↦ rw t (deactivate_locked-Onwards a idle e)
      | inr t ↦ rw t (same_heap refl)
    ]

evict-Onwards : (now : Time) (e : Engine) → Onwards e (evict now e)
unfolding evict
evict-Onwards now e = elim (Bool-cases (is_running e.state)) [
  | inl t ↦ rw t (evict_loop-Onwards (addresses e) now e)
  | inr t ↦ rw t (same_heap refl)
]

stop_loop-Onwards : (skip : Bool) (l : List ℕ) (e : Engine) → Onwards e (stop_loop skip l e)
unfolding stop_loop stop_row begin_deactivation
stop_loop-Onwards skip [] e = same_heap refl
stop_loop-Onwards skip (a ∷ l) e =
    Onwards-trans (by_row (act_at a e) refl) (stop_loop-Onwards skip l _)
  where
    by_row : (row : Option Activation) → act_at a e ≡ row → Onwards e (stop_row skip a e row)
    by_row none at = same_heap refl
    by_row (some act) at = elim (Bool-cases (is_active act.state)) [
      | inl t ↦ rw t (depart-Onwards a act _ e at t refl)
      | inr t ↦
          rw t (write-Onwards a act _ e at (record { forward = omega arith; fixed = λ h. refl }))
    ]

mark_skip_loop-Onwards : (l : List ℕ) (e : Engine) → Onwards e (mark_skip_loop l e)
unfolding mark_skip_loop skip_row
mark_skip_loop-Onwards [] e = same_heap refl
mark_skip_loop-Onwards (a ∷ l) e =
    Onwards-trans (by_row (act_at a e) refl) (mark_skip_loop-Onwards l _)
  where
    by_row : (row : Option Activation) → act_at a e ≡ row → Onwards e (skip_row a e row)
    by_row none at = same_heap refl
    by_row (some act) at =
        write-Onwards a act _ e at (record { forward = omega arith; fixed = λ h. refl })

arm_done_heap : (e : Engine) → (arm_done e).heap ≡ e.heap
unfolding arm_done close_done
arm_done_heap e = ground arith

begin_stop-Onwards :
    (skip : Bool) (e e' : Engine) → e'.heap ≡ e.heap → Onwards e (begin_stop_deactivations skip e')
unfolding begin_stop_deactivations
begin_stop-Onwards skip e e' h =
    Onwards-trans (same_heap h)
      (Onwards-trans (stop_loop-Onwards skip (addresses e') e') (same_heap (arm_done_heap _)))

begin_close-Onwards : (e : Engine) → Onwards e (begin_close e)
unfolding begin_close
begin_close-Onwards e = elim (Bool-cases (is_running e.state)) [
  | inl t ↦ rw t (begin_stop-Onwards false e _ refl)
  | inr t ↦ rw t (same_heap refl)
]

begin_kill-Onwards : (e : Engine) → Onwards e (begin_kill e)
unfolding begin_kill
begin_kill-Onwards e = by_state e.state
  where
    by_state :
        (st : EngineState)
        → Onwards e (elim st as (λ _. Engine) [
          | engine_running ↦
              begin_stop_deactivations true
                (close_killing (close_stop (record e { state = engine_killing })))
          | engine_closing ↦
              mark_skip_loop (addresses e) (close_killing (record e { state = engine_killing }))
          | engine_killing ↦ e
        ])
    by_state engine_running = begin_stop-Onwards true e _ refl
    by_state engine_closing =
        Onwards-trans {e' = close_killing (record e { state = engine_killing })} (same_heap refl)
          (mark_skip_loop-Onwards (addresses e) _)
    by_state engine_killing = same_heap refl

forget_heap :
    (a : ℕ) (id : GrainId) (named : Option ℕ) (e : Engine) → (forget a id named e).heap ≡ e.heap
unfolding forget
forget_heap a id none e = refl
forget_heap a id (some b) e = ground arith

finish_row-Onwards :
    (a : ℕ) (e : Engine) (row : Option Activation)
    → act_at a e ≡ row
    → Onwards e (finish_row a e row)
unfolding finish_row finish_act
finish_row-Onwards a e none at = same_heap refl
finish_row-Onwards a e (some act) at = by_state act.state refl
  where
    by_state :
        (s : ActivationState)
        → act.state ≡ s
        → let done = elim s as (λ _. Bool × Activation) [
          | activating ↦ (false, act)
          | active ↦ (false, act)
          | deactivating ↦ (true, record act { state = stopped; finished = channel_closed })
          | stopped ↦ (false, act)
        ] in
          Onwards e (
            if done.0
            then forget a act.id (get GrainId-discrete act.id e.activations) (set_act a done.1 e)
            else e)
    by_state activating s = same_heap refl
    by_state active s = same_heap refl
    by_state deactivating s =
        Onwards-trans
          (write-Onwards a act (record act { state = stopped; finished = channel_closed }) e at
            (record { forward = omega (arith, ap rank s); fixed = λ h. refl }))
          (same_heap (forget_heap a act.id (get GrainId-discrete act.id e.activations) _))
    by_state stopped s = same_heap refl

look_pending_heap : (id : GrainId) (e : Engine) → (look_pending id e).1.heap ≡ e.heap
unfolding look_pending
look_pending_heap id e = ground arith

look_row_heap :
    (id : GrainId) (e : Engine) (a : ℕ) (row : Option Activation)
    → (look_row id e a row).1.heap ≡ e.heap
unfolding look_row
look_row_heap id e a none = look_pending_heap id e
look_row_heap id e a (some act) = by_state act.state
  where
    by_state :
        (s : ActivationState)
        → (elim s as (λ _. Lookup × Engine) [
          | activating ↦ look_pending id e
          | active ↦ (Lookup.found a, e)
          | deactivating ↦ (Lookup.wait_finished a, e)
          | stopped ↦
              look_pending id (record e { activations = delete GrainId-discrete id e.activations })
        ]).1.heap
          ≡ e.heap
    by_state activating = look_pending_heap id e
    by_state active = refl
    by_state deactivating = refl
    by_state stopped = look_pending_heap id _

look_up_heap : (id : GrainId) (e : Engine) → (look_up id e).1.heap ≡ e.heap
unfolding look_up
look_up_heap id e = elim (Bool-cases (is_running e.state)) [
  | inl t ↦ rw t (by_named (get GrainId-discrete id e.activations))
  | inr t ↦ rw t refl
]
  where
    by_named :
        (named : Option ℕ)
        → (elim named as (λ _. Lookup × Engine) [
          | none ↦ look_pending id e
          | some a ↦ look_row id e a (act_at a e)
        ]).1.heap
          ≡ e.heap
    by_named none = look_pending_heap id e
    by_named (some a) = look_row_heap id e a (act_at a e)

-- A new object takes an address that is not in use.
create-Onwards :
    (id : GrainId) (r : Registration) (now : Time) (made : Bool) (e : Engine)
    → IsEngine e
    → Onwards e (create_activation id (if made then some (new_activation id r now) else none) e).1
unfolding create_activation
create-Onwards id r now false e i = same_heap refl
create-Onwards id r now true e i = elim (Bool-cases (is_running e.state)) [
  | inl t ↦ rw t (record {
    moved = λ a act at. (
      act,
      get-put_ne ℕ_discrete a e.next (new_activation id r now) e.heap
            (λ q. omega (arith, i.rows.fresh a act at, q))
          ∙ at,
      Onward-refl act,
    );
  })
  | inr t ↦ rw t (same_heap refl)
]

register_heap : (name : Text) (r : Registration) (e : Engine) → (register name r e).1.heap ≡ e.heap
unfolding register
register_heap name r e = ground arith

finished_heap : (ws : List ℕ) (e : Engine) → (deactivation_finished ws e).heap ≡ e.heap
unfolding deactivation_finished close_done
finished_heap ws e = ground arith

Step-Onwards : {e e' : Engine} → Step e e' → IsEngine e → Onwards e e'
unfolding finish_deactivation stop_activation
Step-Onwards (registers name r e) i = same_heap (register_heap name r e)
Step-Onwards (looks_up id e) i = same_heap (look_up_heap id e)
Step-Onwards (creates id r now made e p) i = create-Onwards id r now made e i
Step-Onwards (admits a now e) i = admit-Onwards a now e
Step-Onwards (finishes_call a e) i = call_finished-Onwards a e
Step-Onwards (deactivates id e) i = deactivate-Onwards id e
Step-Onwards (stops a e) i = deactivate_locked-Onwards a faulted e
Step-Onwards (evicts now e) i = evict-Onwards now e
Step-Onwards (closes e) i = begin_close-Onwards e
Step-Onwards (kills e) i = begin_kill-Onwards e
Step-Onwards (finishes a e) i = finish_row-Onwards a e (act_at a e) refl
Step-Onwards (waiter_ends a act e w at s) i = same_heap (finished_heap _ e)

Steps-Onwards : {e e' : Engine} → Steps e e' → IsEngine e → Onwards e e'
Steps-Onwards done i = same_heap refl
Steps-Onwards (step s rest) i =
    Onwards-trans (Step-Onwards s i) (Steps-Onwards rest (Step-IsEngine s i))

-- From any state that the engine reaches, whatever follows, each activation object only moves
-- forward from active to deactivating to stopped, and once it has left the active state its reason
-- is never rewritten.
pub Steps-onward :
    {e e' : Engine} (timeout : Duration)
    → Steps (new_engine timeout) e
    → Steps e e'
    → (a : ℕ) (act : Activation) → act_at a e ≡ some act
    → (act' : Activation) × (act_at a e' ≡ some act')
      × (rank act.state ≤ rank act'.state)
      × (2 ≤ rank act.state → act'.reason ≡ act.reason)
Steps-onward timeout before after a act at =
    let i = Steps-IsEngine before (new_engine-IsEngine timeout) in
    let (act', at', o) = (Steps-Onwards after i).moved a act at in (act', at', o.forward, o.fixed)
