-- ===== src/Runtime/Engine/Calls.antt =====
-- The call count of an activation through Invoke (runtime/runtime.go), which eviction reads.
use gor.Prelude.{
  ℕ, Option, none, some, Bool, true, false, ◌≡◌, ◌≢◌, ap, ◌∙◌, arith, if◌then◌else◌, ℤ, pos, negsuc,
  ◌+ℤ◌, ◌-ℤ◌, ◌≤ℤ◌, get-put_self, ℕ_discrete,
}
use gor.Store.{Time, Duration}
use gor.Runtime.Engine.{
  Engine, Activation, active, is_active, act_at, admit, admit_row, call_finished, finished_row,
  is_victim,
}

-- How mailbox.Call returns: it was refused at the door with ErrOverloaded or ErrClosed; its place in
-- the queue was rejected with ErrClosed; the method ran, and returned no error or an error that wraps
-- one of those two or not; or the caller's context ended first.
pub data CallOutcome : Type 0 where
  refused rejected canceled : CallOutcome
  ran : Option Bool → CallOutcome

-- callFinished, deferred in the function that the mailbox runs.
abbrev pub runs_deferred : CallOutcome → Bool
runs_deferred refused = false
runs_deferred rejected = false
runs_deferred canceled = false
runs_deferred (ran result) = true

-- errors.Is(err, mail.ErrOverloaded) || errors.Is(err, mail.ErrClosed)
abbrev pub is_mailbox_error : CallOutcome → Bool
is_mailbox_error refused = true
is_mailbox_error rejected = true
is_mailbox_error canceled = false
is_mailbox_error (ran none) = false
is_mailbox_error (ran (some wraps)) = wraps

-- The part of Invoke behind admit, as far as the call count goes.
unfoldable pub invoke_admitted : ℕ → CallOutcome → Engine → Engine
invoke_admitted a outcome e =
    let e' = if runs_deferred outcome then call_finished a e else e in
    if is_mailbox_error outcome then call_finished a e' else e'

-- What Invoke adds to the count. The function of a canceled call is still queued.
abbrev pub net_calls : CallOutcome → ℤ
net_calls refused = pos 0
net_calls rejected = pos 0
net_calls canceled = pos 1
net_calls (ran none) = pos 0
net_calls (ran (some false)) = pos 0
net_calls (ran (some true)) = negsuc 0

up_down : (x : ℤ) → (x +ℤ pos 1) -ℤ pos 1 ≡ x +ℤ pos 0
unfolding ◌+ℤ◌ ◌-ℤ◌
up_down x = ground arith

up_down_down : (x : ℤ) → ((x +ℤ pos 1) -ℤ pos 1) -ℤ pos 1 ≡ x +ℤ negsuc 0
unfolding ◌+ℤ◌ ◌-ℤ◌
up_down_down x = ground arith

below_zero : (x : ℤ) → x ≡ pos 0 → x +ℤ negsuc 0 ≢ pos 0
unfolding ◌+ℤ◌
below_zero x h = ground (arith, h)

back_at_zero : (x : ℤ) → x ≡ pos 0 → (x +ℤ negsuc 0) +ℤ pos 1 ≡ pos 0
unfolding ◌+ℤ◌
back_at_zero x h = ground (arith, h)

not_victim :
    (now : Time) (timeout : Duration) (act : Activation)
    → act.calls ≢ pos 0
    → is_victim now timeout act ≡ false
unfolding is_victim
not_victim now timeout act h = ground (arith, h)

victim :
    (now : Time) (timeout : Duration) (act : Activation)
    → act.state ≡ active
    → act.calls ≡ pos 0
    → act.last_used +ℤ timeout ≤ℤ now
    → is_victim now timeout act ≡ true
unfolding is_victim
victim now timeout act s h l = ground (arith, s, h, l)

admit_at :
    (a : ℕ) (now : Time) (act : Activation) (e : Engine)
    → act_at a e ≡ some act
    → act.state ≡ active
    → act_at a (admit a now e).1 ≡ some (record act { last_used = now; calls = act.calls +ℤ pos 1 })
unfolding admit admit_row
admit_at a now act e at s = rw (at, ap is_active s) (get-put_self ℕ_discrete a _ e.heap)

finished_at :
    (a : ℕ) (act : Activation) (e : Engine)
    → act_at a e ≡ some act
    → act_at a (call_finished a e) ≡ some (record act { calls = act.calls -ℤ pos 1 })
unfolding call_finished finished_row
finished_at a act e at = rw at (get-put_self ℕ_discrete a _ e.heap)

-- An admitted Invoke leaves the call count as it found it when its call was refused or rejected, and
-- when its method returned with no mailbox error inside; a canceled call is still counted; and a
-- method that returns a mailbox error has been counted off twice.
pub invoke_calls :
    (a : ℕ) (now : Time) (outcome : CallOutcome) (act : Activation) (e : Engine)
    → act_at a e ≡ some act
    → act.state ≡ active
    → act_at a (invoke_admitted a outcome (admit a now e).1)
      ≡ some (record act { last_used = now; calls = act.calls +ℤ net_calls outcome })
unfolding invoke_admitted
invoke_calls a now refused act e at s =
    finished_at a _ _ (admit_at a now act e at s)
    ∙ ap (λ c. some (record act { last_used = now; calls = c })) (up_down act.calls)
invoke_calls a now rejected act e at s =
    finished_at a _ _ (admit_at a now act e at s)
    ∙ ap (λ c. some (record act { last_used = now; calls = c })) (up_down act.calls)
invoke_calls a now canceled act e at s = admit_at a now act e at s
invoke_calls a now (ran none) act e at s =
    finished_at a _ _ (admit_at a now act e at s)
    ∙ ap (λ c. some (record act { last_used = now; calls = c })) (up_down act.calls)
invoke_calls a now (ran (some false)) act e at s =
    finished_at a _ _ (admit_at a now act e at s)
    ∙ ap (λ c. some (record act { last_used = now; calls = c })) (up_down act.calls)
invoke_calls a now (ran (some true)) act e at s =
    finished_at a _ _ (finished_at a _ _ (admit_at a now act e at s))
    ∙ ap (λ c. some (record act { last_used = now; calls = c })) (up_down_down act.calls)

-- After a method of an unused activation has returned the mailbox error of a nested call, the
-- activation is at no time a victim of eviction while no call is in flight, and is one while the
-- next call runs, as soon as the idle timeout has passed.
pub nested_refusal_lem :
    (a : ℕ) (first second : Time) (timeout : Duration) (act : Activation) (e : Engine)
    → act_at a e ≡ some act
    → act.state ≡ active
    → act.calls ≡ pos 0
    → let e' = invoke_admitted a (ran (some true)) (admit a first e).1 in
      (idle_act busy_act : Activation) × (act_at a e' ≡ some idle_act)
      × (act_at a (admit a second e').1 ≡ some busy_act)
      × ((now : Time) → is_victim now timeout idle_act ≡ false)
      × ((now : Time) → second +ℤ timeout ≤ℤ now → is_victim now timeout busy_act ≡ true)
nested_refusal_lem a first second timeout act e at s z =
    let e' = invoke_admitted a (ran (some true)) (admit a first e).1 in
    let idle_at = invoke_calls a first (ran (some true)) act e at s in
    (
      record act { last_used = first; calls = act.calls +ℤ negsuc 0 },
      record act { last_used = second; calls = (act.calls +ℤ negsuc 0) +ℤ pos 1 },
      idle_at,
      admit_at a second _ e' idle_at s,
      (λ now. not_victim now timeout _ (below_zero act.calls z)),
      λ now h. victim now timeout _ s (back_at_zero act.calls z) h,
    )
