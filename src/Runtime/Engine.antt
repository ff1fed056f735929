-- ===== src/Runtime/Engine.antt =====
-- The engine of runtime/runtime.go. An activation is an object that several calls share, so it lies on
-- a heap and is named by its address. Each operation below is one section under Runtime.mu, with the
-- mailbox closings that follow it; goroutines interleave at their ends. Go's int is unbounded here.
pub mod Rows
pub mod Stops
pub mod Invariant
pub mod Publish
pub mod Steps
pub mod Departures
pub mod Calls
use gor.Prelude.{
  ℕ, suc, ◌+◌, Option, none, some, Bool, true, false, not, ◌&&◌, List, [], ◌∷◌, Map, get, put,
  delete, ite, if◌then◌else◌, ℕ_discrete, ℤ, pos, ◌+ℤ◌, ◌-ℤ◌, ltb_ℤ, ℤ-discrete, map, Text,
  Text-discrete,
}
use gor.Store.{Time, Duration, GrainId, GrainId-discrete}

pub data DeactivationReason : Type 0 where
  idle ownership_lost runtime_closed faulted : DeactivationReason

pub data EngineState : Type 0 where
  engine_running engine_closing engine_killing : EngineState

pub data ActivationState : Type 0 where
  activating active deactivating stopped : ActivationState

-- A channel that is only ever closed.
pub data Channel : Type 0 where
  channel_open channel_closed : Channel

-- The instance and the hook are values of the application; a hook is here or not.
pub record Registration : Type 0 where
  pub has_on_deactivate : Bool

-- `reason` is none where the Go field has its zero value.
pub record Activation : Type 0 where
  pub id : GrainId
  pub has_on_deactivate : Bool
  pub skip_on_deactivate : Bool
  pub reason : Option DeactivationReason
  pub mailbox : Channel
  pub last_used : Time
  pub calls : ℤ
  pub state : ActivationState
  pub finished : Channel

-- `waiters` are the addresses that the goroutines of waitForDeactivation wait for; `panicked` tells
-- whether stop, killing or deactivationsDone was closed twice; it does not count the others (done of an
-- activation, ready of a pending one, done and evictionDone of the Runtime). `next` is the first address
-- that is not in use.
pub record Engine : Type 0 where
  pub idle_timeout : Duration
  pub state : EngineState
  pub registrations : Map Text Registration
  pub heap : Map ℕ Activation
  pub next : ℕ
  pub activations : Map GrainId ℕ
  pub pending : Map GrainId (Unit {0})
  pub stop : Channel
  pub killing : Channel
  pub pending_deactivations : ℤ
  pub deactivations_done : Option Channel
  pub waiters : List ℕ
  pub panicked : Bool

-- New.
unfoldable pub new_engine : Duration → Engine
new_engine idle_timeout = record {
  idle_timeout = idle_timeout;
  state = engine_running;
  registrations = [];
  heap = [];
  next = 0;
  activations = [];
  pending = [];
  stop = channel_open;
  killing = channel_open;
  pending_deactivations = pos 0;
  deactivations_done = none;
  waiters = [];
  panicked = false;
}

abbrev pub is_running : EngineState → Bool
is_running engine_running = true
is_running engine_closing = false
is_running engine_killing = false

abbrev pub is_active : ActivationState → Bool
is_active activating = false
is_active active = true
is_active deactivating = false
is_active stopped = false

abbrev pub act_at : ℕ → Engine → Option Activation
act_at a e = get ℕ_discrete a e.heap

-- A write to the object at an address.
abbrev pub set_act : ℕ → Activation → Engine → Engine
set_act a act e = record e { heap = put ℕ_discrete a act e.heap }

-- Register: whether it succeeds.
unfoldable pub register : Text → Registration → Engine → Bool × Engine
register name registration e = elim (get Text-discrete name e.registrations) [
  | some r ↦ (false, e)
  | none ↦ (true, record e { registrations = put Text-discrete name registration e.registrations })
]

-- What registration returns: ErrRuntimeClosed, ErrTypeNotRegistered, or the registration.
pub data Registered : Type 0 where
  engine_closed not_registered : Registered
  registered : Registration → Registered

unfoldable pub registration : Text → Engine → Registered
registration name e =
    if is_running e.state
    then elim (get Text-discrete name e.registrations) [
      | none ↦ not_registered
      | some r ↦ registered r
    ]
    else engine_closed

-- What one section of activationFor decides: an error, the activation, to wait for the end of an
-- activation or for the one that creates it, or to create it.
pub data Lookup : Type 0 where
  runtime_closed_error : Lookup
  found wait_finished : ℕ → Lookup
  wait_ready create : Lookup

-- The section behind the switch, on the pending entry.
unfoldable pub look_pending : GrainId → Engine → Lookup × Engine
look_pending id e = elim (get GrainId-discrete id e.pending) [
  | some t ↦ (wait_ready, e)
  | none ↦ (create, record e { pending = put GrainId-discrete id tt e.pending })
]

unfoldable pub look_row : GrainId → Engine → ℕ → Option Activation → Lookup × Engine
look_row id e a none = look_pending id e
look_row id e a (some act) =
    let gone =
      look_pending id (record e { activations = delete GrainId-discrete id e.activations }) in
    let rest = look_pending id e in
    elim act.state [
      | activating ↦ rest
      | active ↦ (found a, e)
      | deactivating ↦ (wait_finished a, e)
      | stopped ↦ gone
    ]

unfoldable pub look_up : GrainId → Engine → Lookup × Engine
look_up id e =
    if is_running e.state
    then elim (get GrainId-discrete id e.activations) [
      | none ↦ look_pending id e
      | some a ↦ look_row id e a (act_at a e)
    ]
    else (runtime_closed_error, e)

-- activate, when the factory succeeds at time `now`.
unfoldable pub new_activation : GrainId → Registration → Time → Activation
new_activation id r now = record {
  id = id;
  has_on_deactivate = r.has_on_deactivate;
  skip_on_deactivate = false;
  reason = none;
  mailbox = channel_open;
  last_used = now;
  calls = pos 0;
  state = active;
  finished = channel_open;
}

-- The deferred section of createActivation. `made` is none if the factory failed or panicked. The
-- result is the address, or none for an error; an activation that came too late is dropped.
unfoldable pub create_activation : GrainId → Option Activation → Engine → Option ℕ × Engine
create_activation id made e =
    let e' = record e { pending = delete GrainId-discrete id e.pending } in
    elim made [
      | none ↦ (none, e')
      | some act ↦
          if is_running e.state
          then (
            some e.next,
            record e' {
              heap = put ℕ_discrete e.next act e.heap;
              next = suc e.next;
              activations = put GrainId-discrete id e.next e.activations;
            },
          )
          else (none, e')
    ]

-- admit, on the object at the address.
unfoldable pub admit_row : ℕ → Time → Engine → Option Activation → Bool × Engine
admit_row a now e none = (false, e)
admit_row a now e (some act) =
    if is_active act.state
    then (true, set_act a (record act { last_used = now; calls = act.calls +ℤ pos 1 }) e)
    else (false, e)

unfoldable pub admit : ℕ → Time → Engine → Bool × Engine
admit a now e = admit_row a now e (act_at a e)

unfoldable pub finished_row : ℕ → Engine → Option Activation → Engine
finished_row a e none = e
finished_row a e (some act) = set_act a (record act { calls = act.calls -ℤ pos 1 }) e

-- callFinished
unfoldable pub call_finished : ℕ → Engine → Engine
call_finished a e = finished_row a e (act_at a e)

-- beginDeactivation
unfoldable pub begin_deactivation : Activation → DeactivationReason → Bool × Activation
begin_deactivation act reason =
    if is_active act.state
    then (true, record act { state = deactivating; reason = some reason })
    else (false, act)

-- startDeactivationWaiterLocked
unfoldable pub start_waiter : ℕ → Engine → Engine
start_waiter a e = record e {
  pending_deactivations = e.pending_deactivations +ℤ pos 1;
  waiters = a ∷ e.waiters;
}

-- act.mailbox.Close(): idempotent.
abbrev pub close_mailbox : Activation → Activation
close_mailbox act = record act { mailbox = channel_closed }

-- deactivateLocked, with the Close of the mailbox that each caller makes after it.
unfoldable pub deactivate_row : ℕ → DeactivationReason → Engine → Option Activation → Engine
deactivate_row a reason e none = e
deactivate_row a reason e (some act) =
    if (begin_deactivation act reason).0
    then start_waiter a (set_act a (close_mailbox (begin_deactivation act reason).1) e)
    else e

unfoldable pub deactivate_locked : ℕ → DeactivationReason → Engine → Engine
deactivate_locked a reason e = deactivate_row a reason e (act_at a e)

-- Deactivate
unfoldable pub deactivate : GrainId → Engine → Engine
deactivate id e = elim (get GrainId-discrete id e.activations) [
  | none ↦ e
  | some a ↦ deactivate_locked a ownership_lost e
]

-- stopActivation, of a method that panicked or returned Discard.
unfoldable pub stop_activation : ℕ → Engine → Engine
stop_activation a e = deactivate_locked a faulted e

-- The condition of evict.
unfoldable pub is_victim : Time → Duration → Activation → Bool
is_victim now idle_timeout act =
    is_active act.state
    && (ite (ℤ-discrete act.calls (pos 0)) true false
        && not (ltb_ℤ now (act.last_used +ℤ idle_timeout)))

unfoldable pub evict_row : ℕ → Time → Engine → Option Activation → Engine
evict_row a now e none = e
evict_row a now e (some act) =
    if is_victim now e.idle_timeout act then deactivate_locked a idle e else e

-- The loop of evict over r.activations.
unfoldable pub evict_loop : List ℕ → Time → Engine → Engine
evict_loop [] now e = e
evict_loop (a ∷ others) now e = evict_loop others now (evict_row a now e (act_at a e))

abbrev pub addresses : Engine → List ℕ
addresses e = map (λ x. x.1) e.activations

unfoldable pub evict : Time → Engine → Engine
evict now e = if is_running e.state then evict_loop (addresses e) now e else e

-- close(c); a second close panics.
abbrev pub close_twice : Channel → Bool
close_twice channel_open = false
close_twice channel_closed = true

unfoldable pub close_done : Engine → Engine
close_done e = elim e.deactivations_done [
  | none ↦ e
  | some c ↦ record e {
    deactivations_done = some channel_closed;
    panicked = if close_twice c then true else e.panicked;
  }
]

abbrev pub mark_skip : Bool → Activation → Activation
mark_skip skip act = record act {
  skip_on_deactivate = if skip then true else act.skip_on_deactivate;
}

-- One round of the loop of beginStopDeactivationsLocked, and the Close of the mailbox after it.
unfoldable pub stop_row : Bool → ℕ → Engine → Option Activation → Engine
stop_row skip a e none = e
stop_row skip a e (some act) =
    let (started, act') = begin_deactivation (mark_skip skip act) runtime_closed in
    let e' = set_act a (close_mailbox act') e in if started then start_waiter a e' else e'

unfoldable pub stop_loop : Bool → List ℕ → Engine → Engine
stop_loop skip [] e = e
stop_loop skip (a ∷ others) e = stop_loop skip others (stop_row skip a e (act_at a e))

-- The part behind the loop: make the channel, and close it if no deactivation is in flight.
unfoldable pub arm_done : Engine → Engine
arm_done e =
    let e' = record e { deactivations_done = some channel_open } in
    ite (ℤ-discrete e.pending_deactivations (pos 0)) (close_done e') e'

unfoldable pub begin_stop_deactivations : Bool → Engine → Engine
begin_stop_deactivations skip e = arm_done (stop_loop skip (addresses e) e)

-- close(r.stop) and close(r.killing).
abbrev pub close_stop : Engine → Engine
close_stop e = record e {
  stop = channel_closed;
  panicked = if close_twice e.stop then true else e.panicked;
}

abbrev pub close_killing : Engine → Engine
close_killing e = record e {
  killing = channel_closed;
  panicked = if close_twice e.killing then true else e.panicked;
}

-- BeginClose
unfoldable pub begin_close : Engine → Engine
begin_close e =
    if is_running e.state
    then begin_stop_deactivations false (close_stop (record e { state = engine_closing }))
    else e

-- markSkipOnDeactivateLocked
unfoldable pub skip_row : ℕ → Engine → Option Activation → Engine
skip_row a e none = e
skip_row a e (some act) = set_act a (mark_skip true act) e

unfoldable pub mark_skip_loop : List ℕ → Engine → Engine
mark_skip_loop [] e = e
mark_skip_loop (a ∷ others) e = mark_skip_loop others (skip_row a e (act_at a e))

-- BeginKill. The canceled killCtx reaches the calls through their contexts.
unfoldable pub begin_kill : Engine → Engine
begin_kill e = elim e.state [
  | engine_running ↦
      begin_stop_deactivations true
        (close_killing (close_stop (record e { state = engine_killing })))
  | engine_closing ↦
      mark_skip_loop (addresses e) (close_killing (record e { state = engine_killing }))
  | engine_killing ↦ e
]

-- finishDeactivation of an activation, whose `done` it closes.
unfoldable pub finish_act : Activation → Bool × Activation
finish_act act = elim act.state [
  | activating ↦ (false, act)
  | active ↦ (false, act)
  | deactivating ↦ (true, record act { state = stopped; finished = channel_closed })
  | stopped ↦ (false, act)
]

-- delete(r.activations, act.id), if the map still names this object.
unfoldable pub forget : ℕ → GrainId → Option ℕ → Engine → Engine
forget a id none e = e
forget a id (some current) e =
    ite (ℕ_discrete current a) (record e { activations = delete GrainId-discrete id e.activations })
      e

unfoldable pub finish_row : ℕ → Engine → Option Activation → Engine
finish_row a e none = e
finish_row a e (some act) =
    if (finish_act act).0
    then forget a act.id (get GrainId-discrete act.id e.activations)
        (set_act a (finish_act act).1 e)
    else e

-- Runtime.finishDeactivation
unfoldable pub finish_deactivation : ℕ → Engine → Engine
finish_deactivation a e = finish_row a e (act_at a e)

-- deactivationFinished, at the end of a waiter; `rest` are the waiters left.
unfoldable pub deactivation_finished : List ℕ → Engine → Engine
deactivation_finished rest e =
    let e' = record e {
      pending_deactivations = e.pending_deactivations -ℤ pos 1;
      waiters = rest;
    } in
    ite (ℤ-discrete e'.pending_deactivations (pos 0))
      (elim e.deactivations_done [
        | none ↦ e'
        | some c ↦ record (close_done e') { deactivations_done = none }
      ])
      e'

-- waitForDeactivation's choice: the reason that the hook is called with, or no call.
unfoldable pub hook_call : Activation → Option DeactivationReason
hook_call act = if not act.skip_on_deactivate && act.has_on_deactivate then act.reason else none
