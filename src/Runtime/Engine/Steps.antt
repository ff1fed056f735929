-- ===== src/Runtime/Engine/Steps.antt =====
-- The engine as a transition system: the sections of runtime/runtime.go, in any order in which
-- goroutines take Runtime.mu.
use gor.Prelude.{
  ℕ, suc, ◌≤◌, Option, none, some, Bool, true, false, List, [], ◌∷◌, get, put, ℕ_discrete, ◌≡◌, ◌≢◌,
  ◌↔◌, inl, inr, refl, ap, ◌∙◌, arith, length, if◌then◌else◌, Bool-cases, Text, pos, ◌-ℤ◌, ℤ,
  ℤ-discrete, Text-discrete,
}
use mathlib.Core.Logic.{if_pos, if_neg}
use gor.Store.{GrainId, GrainId-discrete, Time, Duration}
use gor.Runtime.Engine.{
  Engine, Activation, ActivationState, activating, active, deactivating, stopped, is_running,
  is_active, act_at, set_act, Registration, DeactivationReason, ownership_lost, faulted, new_engine,
  register, look_up, create_activation, new_activation, admit, admit_row, call_finished,
  finished_row, deactivate, stop_activation, evict, begin_close, begin_kill, finish_deactivation,
  deactivation_finished, deactivate_locked, deactivate_row, begin_deactivation, addresses,
  close_done, channel_open, Channel,
}
use gor.Runtime.Engine.Rows.{Rows, waiting, drop_waiter, length-drop_waiter, waiting-drop_waiter}
use gor.Runtime.Engine.Stops.{
  NoActive, Runs-Cleared, same_state-Runs, deactivate_locked-Runs, evict_loop-Runs,
}
use gor.Runtime.Engine.Invariant.{
  IsEngine, Phase, same-IsEngine, running-IsEngine, begin_close-IsEngine, begin_kill-IsEngine,
}
use gor.Runtime.Engine.Publish.{
  same_with, look_up-IsEngine, create_activation-IsEngine, finish_deactivation-IsEngine,
}

-- A creation ends once for a pending id; a waiter ends after it has stopped its activation.
pub data Step : Engine → Engine → Type 0 where
  registers : (name : Text) (r : Registration) (e : Engine) → Step e (register name r e).1
  looks_up : (id : GrainId) (e : Engine) → Step e (look_up id e).1
  creates :
      (id : GrainId) (r : Registration) (now : Time) (made : Bool) (e : Engine)
      → get GrainId-discrete id e.pending ≡ some tt
      → Step e (create_activation id (if made then some (new_activation id r now) else none) e).1
  admits : (a : ℕ) (now : Time) (e : Engine) → Step e (admit a now e).1
  finishes_call : (a : ℕ) (e : Engine) → Step e (call_finished a e)
  deactivates : (id : GrainId) (e : Engine) → Step e (deactivate id e)
  stops : (a : ℕ) (e : Engine) → Step e (stop_activation a e)
  evicts : (now : Time) (e : Engine) → Step e (evict now e)
  closes : (e : Engine) → Step e (begin_close e)
  kills : (e : Engine) → Step e (begin_kill e)
  finishes : (a : ℕ) (e : Engine) → Step e (finish_deactivation a e)
  waiter_ends :
      (a : ℕ) (act : Activation) (e : Engine)
      → waiting a e.waiters ≡ true
      → act_at a e ≡ some act
      → act.state ≡ stopped
      → Step e (deactivation_finished (drop_waiter a e.waiters) e)

pub data Steps : Engine → Engine → Type 0 where
  done : {e : Engine} → Steps e e
  step : {e e' e'' : Engine} → Step e e' → Steps e' e'' → Steps e e''

-- A write to an object that keeps its state keeps the invariant.
same_state-IsEngine :
    (a : ℕ) (act act' : Activation) (e : Engine)
    → act_at a e ≡ some act
    → act'.id ≡ act.id
    → act'.state ≡ act.state
    → IsEngine e
    → IsEngine (set_act a act' e)
same_state-IsEngine a act act' e at i s inv =
    let runs = same_state-Runs a act act' e at i s in
    same-IsEngine (same_with e _ _ _ _ _) (runs.rows inv.rows) (λ r n b. Runs-Cleared b runs (n b))
      inv

admit-IsEngine : (a : ℕ) (now : Time) (e : Engine) → IsEngine e → IsEngine (admit a now e).1
unfolding admit admit_row
admit-IsEngine a now e i = by_row (act_at a e) refl
  where
    by_row : (row : Option Activation) → act_at a e ≡ row → IsEngine (admit_row a now e row).1
    by_row none at = i
    by_row (some act) at = elim (Bool-cases (is_active act.state)) [
      | inl t ↦ rw t (same_state-IsEngine a act _ e at refl refl i)
      | inr t ↦ rw t i
    ]

call_finished-IsEngine : (a : ℕ) (e : Engine) → IsEngine e → IsEngine (call_finished a e)
unfolding call_finished finished_row
call_finished-IsEngine a e i = by_row (act_at a e) refl
  where
    by_row : (row : Option Activation) → act_at a e ≡ row → IsEngine (finished_row a e row)
    by_row none at = i
    by_row (some act) at = same_state-IsEngine a act _ e at refl refl i

-- Where nothing is active, nothing is deactivated.
deactivate_locked_quiet :
    (a : ℕ) (reason : DeactivationReason) (e : Engine)
    → NoActive e
    → deactivate_locked a reason e ≡ e
unfolding deactivate_locked deactivate_row begin_deactivation
deactivate_locked_quiet a reason e n = by_row (act_at a e) refl
  where
    by_row : (row : Option Activation) → act_at a e ≡ row → deactivate_row a reason e row ≡ e
    by_row none at = refl
    by_row (some act) at = rw (n a act at) refl

deactivate_locked-IsEngine :
    (a : ℕ) (reason : DeactivationReason) (e : Engine)
    → IsEngine e
    → IsEngine (deactivate_locked a reason e)
deactivate_locked-IsEngine a reason e i = elim i.phase [
  | inl (s, _, _, _) ↦ running-IsEngine (deactivate_locked-Runs a reason e) s i
  | inr (_, n, _, _) ↦ rw (deactivate_locked_quiet a reason e n) i
]

deactivate-IsEngine : (id : GrainId) (e : Engine) → IsEngine e → IsEngine (deactivate id e)
unfolding deactivate
deactivate-IsEngine id e i =
    elim (get GrainId-discrete id e.activations)
      as (λ n.
        IsEngine
          (elim n as (λ _. Engine) [ none ↦ e | some a ↦ deactivate_locked a ownership_lost e ])) [
            | none ↦ i
            | some a ↦ deactivate_locked-IsEngine a ownership_lost e i
          ]

evict-IsEngine : (now : Time) (e : Engine) → IsEngine e → IsEngine (evict now e)
unfolding evict
evict-IsEngine now e i = elim i.phase [
  | inl (s, _, _, _) ↦
      rw (ap is_running s) (running-IsEngine (evict_loop-Runs (addresses e) now e) s i)
  | inr (s, _, _, _) ↦ rw s i
]

register-IsEngine :
    (name : Text) (r : Registration) (e : Engine) → IsEngine e → IsEngine (register name r e).1
unfolding register
register-IsEngine name r e i =
    elim (get Text-discrete name e.registrations)
      as (λ n.
        IsEngine
          (elim n as (λ _. Bool × Engine) [
            | some x ↦ (false, e)
            | none ↦ (true, record e { registrations = put Text-discrete name r e.registrations })
          ]).1) [
            | some x ↦ i
            | none ↦
                same-IsEngine (same_with e _ _ _ _ _)
                  (record {
                    own = i.rows.own;
                    free = i.rows.free;
                    backed = i.rows.backed;
                    fresh = i.rows.fresh;
                    shown = i.rows.shown;
                    waited = i.rows.waited;
                  })
                  (λ s n. n) i
          ]

-- The rows after a waiter of a stopped object ends.
drop-Rows :
    (a : ℕ) (act : Activation) (e : Engine) (d : Option Channel) (x : ℤ) (p : Bool)
    → act_at a e ≡ some act
    → act.state ≡ stopped
    → Rows e
    → Rows (record e {
      waiters = drop_waiter a e.waiters;
      deactivations_done = d;
      pending_deactivations = x;
      panicked = p;
    })
drop-Rows a act e d x p at s r = record {
  own = r.own;
  free = r.free;
  backed = r.backed;
  fresh = r.fresh;
  shown = r.shown;
  waited = λ b y h t. elim (ℕ_discrete a b) [
    | yes q ↦ absurd (by_state y h t q)
    | no n ↦ waiting-drop_waiter a b e.waiters n (r.waited b y h t)
  ];
}
  where
    by_state : {b : ℕ} (y : Activation) → act_at b e ≡ some y → y.state ≡ deactivating → a ≡ b → ⊥
    by_state y h t q = ground (arith, at, s, h, t, q)

pred_pos : (n : ℕ) {x : ℤ} → x ≡ pos (suc n) → x -ℤ pos 1 ≡ pos n
unfolding ◌-ℤ◌
pred_pos n h = rw h (ground arith)

-- With a waiter left in a stopping engine, the channel is open.
still_open :
    (e : Engine)
    → is_running e.state ≡ false
    → 1 ≤ length e.waiters
    → Phase e
    → e.deactivations_done ≡ some channel_open
still_open e s w (inl (r, _, _, _)) = absurd (ground (arith, r, s))
still_open e s w (inr (_, _, _, inl (d, _))) = d
still_open e s w (inr (_, _, _, inr (z, _))) = absurd (omega (arith, w, z))

module _ (a : ℕ) (act : Activation) (e : Engine) (w : waiting a e.waiters ≡ true)
    (at : act_at a e ≡ some act) (s : act.state ≡ stopped) (i : IsEngine e) where
  rest_length : length e.waiters ≡ suc (length (drop_waiter a e.waiters))
  rest_length = length-drop_waiter a e.waiters w

  rest_counted : e.pending_deactivations -ℤ pos 1 ≡ pos (length (drop_waiter a e.waiters))
  rest_counted = pred_pos (length (drop_waiter a e.waiters)) (i.counted ∙ ap pos rest_length)

  abbrev left : Engine
  left = record e {
    pending_deactivations = e.pending_deactivations -ℤ pos 1;
    waiters = drop_waiter a e.waiters;
  }

  left-Rows : Rows left
  left-Rows = drop-Rows a act e e.deactivations_done _ e.panicked at s i.rows

  -- The waiters that are left keep the channel open.
  some_left : 1 ≤ length (drop_waiter a e.waiters) → IsEngine left
  some_left l = record {
    rows = left-Rows;
    counted = rest_counted;
    calm = i.calm;
    phase = elim i.phase [
      | inl h ↦ inl h
      | inr (r, n, k, d) ↦
          inr (r, n, k, inl (still_open e r (omega (arith, rest_length)) i.phase, l))
    ];
  }

  -- The last waiter closes it and drops it, in a stopping engine.
  last_left :
      length (drop_waiter a e.waiters) ≡ 0
      → (d : Option Channel) → e.deactivations_done ≡ d
      → IsEngine (elim d as (λ _. Engine) [
        | none ↦ left
        | some c ↦ record (close_done left) { deactivations_done = none }
      ])
  unfolding close_done
  last_left z none h = record {
    rows = left-Rows;
    counted = rest_counted;
    calm = i.calm;
    phase = elim i.phase [
      | inl p ↦ inl p
      | inr (r, n, k, d) ↦ absurd (cc (still_open e r (omega (arith, rest_length)) i.phase, h))
    ];
  }
  last_left z (some c) h = elim i.phase [
    | inl (_, d, _, _) ↦ absurd (cc (d, h))
    | inr (r, n, k, d) ↦
        let o = still_open e r (omega (arith, rest_length)) i.phase in
        rw o (record {
          rows = drop-Rows a act e none _ _ at s i.rows;
          counted = rest_counted;
          calm = i.calm;
          phase = inr (r, n, k, inr (z, λ q. absurd (cc q)));
        })
  ]

  deactivation_finished-IsEngine : IsEngine (deactivation_finished (drop_waiter a e.waiters) e)
  unfolding deactivation_finished
  deactivation_finished-IsEngine = elim (ℤ-discrete (e.pending_deactivations -ℤ pos 1) (pos 0)) [
    | yes z ↦
        rw (if_pos _ z) (last_left (ground (arith, rest_counted, z)) e.deactivations_done refl)
    | no z ↦ rw (if_neg _ z) (some_left (ground (arith, rest_counted, z)))
  ]

pub Step-IsEngine : {e e' : Engine} → Step e e' → IsEngine e → IsEngine e'
Step-IsEngine (registers name r e) i = register-IsEngine name r e i
Step-IsEngine (looks_up id e) i = look_up-IsEngine id e i
Step-IsEngine (creates id r now made e p) i = create_activation-IsEngine id r now made e p i
Step-IsEngine (admits a now e) i = admit-IsEngine a now e i
Step-IsEngine (finishes_call a e) i = call_finished-IsEngine a e i
Step-IsEngine (deactivates id e) i = deactivate-IsEngine id e i
Step-IsEngine (stops a e) i = unfold stop_activation in deactivate_locked-IsEngine a faulted e i
Step-IsEngine (evicts now e) i = evict-IsEngine now e i
Step-IsEngine (closes e) i = begin_close-IsEngine e i
Step-IsEngine (kills e) i = begin_kill-IsEngine e i
Step-IsEngine (finishes a e) i = finish_deactivation-IsEngine a e i
Step-IsEngine (waiter_ends a act e w at s) i = deactivation_finished-IsEngine a act e w at s i

pub Steps-IsEngine : {e e' : Engine} → Steps e e' → IsEngine e → IsEngine e'
Steps-IsEngine done i = i
Steps-IsEngine (step s rest) i = Steps-IsEngine rest (Step-IsEngine s i)

pub new_engine-IsEngine : (idle : Duration) → IsEngine (new_engine idle)
unfolding new_engine get
new_engine-IsEngine idle = record {
  rows = record {
    own = λ a act h. absurd (cc h);
    free = λ id h. absurd (cc h);
    backed = λ id a h. absurd (cc h);
    fresh = λ a act h. absurd (cc h);
    shown = λ a act h. absurd (cc h);
    waited = λ a act h. absurd (cc h);
  };
  counted = refl;
  calm = refl;
  phase = inl (refl, refl, refl, refl);
}

-- Whatever calls, evictions, deactivations and stops interleave, the engine's channels stop, killing
-- and deactivationsDone are each closed at most once (a second close would panic), and an engine
-- that has left running admits no call.
pub Steps-calm :
    {e : Engine} (idle : Duration)
    → Steps (new_engine idle) e
    → (e.panicked ≡ false)
      × (is_running e.state ≡ false → (a : ℕ) (now : Time) → admit a now e ≡ (false, e))
unfolding admit admit_row
Steps-calm {e} idle steps =
    let i = Steps-IsEngine steps (new_engine-IsEngine idle) in
    (i.calm, λ s a now. refused s a now i.phase (act_at a e) refl)
  where
    refused :
        is_running e.state ≡ false
        → (a : ℕ) (now : Time) → Phase e
        → (row : Option Activation) → act_at a e ≡ row
        → admit_row a now e row ≡ (false, e)
    refused s a now p none at = refl
    refused s a now (inl (r, _, _, _)) (some act) at = absurd (ground (arith, r, s))
    refused s a now (inr (_, n, _, _)) (some act) at = rw (n a act at) refl

stopped_state :
    (s : ActivationState) → is_active s ≡ false → s ≢ activating → s ≢ deactivating → s ≡ stopped
stopped_state activating a g d = absurd (g refl)
stopped_state active a g d = absurd (cc a)
stopped_state deactivating a g d = absurd (d refl)
stopped_state stopped a g d = refl

no_waiter : (a : ℕ) (ws : List ℕ) → length ws ≡ 0 → waiting a ws ≡ true → ⊥
unfolding waiting
no_waiter a [] z h = cc h
no_waiter a (b ∷ ws) z h = omega (arith, z)

-- In an engine that is stopping, reached by any steps, the channel that drain waits on is open
-- exactly as long as a deactivation is in flight; and once it is not, every activation that was ever
-- published is stopped.
pub Steps-drained :
    {e : Engine} (idle : Duration)
    → Steps (new_engine idle) e
    → is_running e.state ≡ false
    → ((e.deactivations_done ≡ some channel_open) ↔ (1 ≤ length e.waiters))
      × (e.deactivations_done ≢ some channel_open
          → (a : ℕ) (act : Activation) → act_at a e ≡ some act
          → act.state ≡ stopped)
Steps-drained {e} idle steps s =
    let i = Steps-IsEngine steps (new_engine-IsEngine idle) in
    elim i.phase [
      | inl (r, _, _, _) ↦ absurd (ground (arith, r, s))
      | inr (_, n, _, inl (d, w)) ↦ ((λ _. w, λ _. d), λ gone. absurd (gone d))
      | inr (_, n, _, inr (z, d)) ↦ (
        (λ o. absurd (d o), λ w. absurd (omega (arith, w, z))),
        λ _ a act at.
            stopped_state act.state (n a act at) (i.rows.shown a act at)
              (λ t. no_waiter a e.waiters z (i.rows.waited a act at t)),
      )
    ]
