-- ===== src/Runtime/Engine/Invariant.antt =====
-- The invariant of the engine's lifecycle, and the operations that stop it.
use gor.Prelude.{
  ℕ, ◌≤◌, Option, none, some, Bool, true, false, List, [], ◌∷◌, ite, ◌≡◌, ◌≢◌, ◌⊎◌, inl, inr, refl,
  sym, ap, ◌∙◌, arith, length, pos, ℤ-discrete,
}
use gor.Runtime.Engine.{
  Engine, EngineState, engine_running, engine_closing, engine_killing, Activation, Channel,
  channel_open, channel_closed, is_running, act_at, addresses, mark_skip_loop, skip_row, arm_done,
  close_done, begin_stop_deactivations, begin_close, begin_kill, close_stop, close_killing,
}
use gor.Runtime.Engine.Rows.{Rows}
use gor.Runtime.Engine.Stops.{
  Counted, Runs, NoActive, Runs-Cleared, stop_loop-Runs, mark_skip_loop-Runs, stop_loop-NoActive,
}

-- The channel that drain waits on is open as long as a waiter is left, and closed or gone otherwise.
abbrev pub Done : Engine → Type 0
Done e =
    (e.deactivations_done ≡ some channel_open) × (1 ≤ length e.waiters)
    ⊎ (length e.waiters ≡ 0) × (e.deactivations_done ≢ some channel_open)

abbrev pub Phase : Engine → Type 0
Phase e =
    (e.state ≡ engine_running)
      × (e.deactivations_done ≡ none)
      × (e.stop ≡ channel_open)
      × (e.killing ≡ channel_open)
    ⊎ (is_running e.state ≡ false)
      × NoActive e
      × (e.state ≡ engine_closing → e.killing ≡ channel_open)
      × Done e

pub record IsEngine (e : Engine) : Type 0 where
  pub rows : Rows e
  pub counted : Counted e
  pub calm : e.panicked ≡ false
  pub phase : Phase e

-- The fields that the objects do not touch.
pub record SameControl (e e' : Engine) : Type 0 where
  pub state : e'.state ≡ e.state
  pub done : e'.deactivations_done ≡ e.deactivations_done
  pub stop : e'.stop ≡ e.stop
  pub killing : e'.killing ≡ e.killing
  pub panicked : e'.panicked ≡ e.panicked
  pub waiters : e'.waiters ≡ e.waiters
  pub pending : e'.pending_deactivations ≡ e.pending_deactivations

pub same-Phase :
    {e e' : Engine}
    → SameControl e e'
    → (is_running e.state ≡ false → NoActive e → NoActive e')
    → Phase e
    → Phase e'
same-Phase {e} {e'} c quiet p =
    rw (c.state, c.done, c.stop, c.killing, c.waiters)
      (elim p [ inl h ↦ inl h | inr (s, n, k, d) ↦ inr (s, quiet s n, k, d) ])

pub same-IsEngine :
    {e e' : Engine}
    → SameControl e e'
    → Rows e'
    → (is_running e.state ≡ false → NoActive e → NoActive e')
    → IsEngine e
    → IsEngine e'
same-IsEngine c rows quiet i = record {
  rows = rows;
  counted = c.pending ∙ i.counted ∙ ap (λ ws. pos (length ws)) (sym c.waiters);
  calm = c.panicked ∙ i.calm;
  phase = same-Phase c quiet i.phase;
}

-- A run of writes in a running engine.
pub running-IsEngine :
    {e e' : Engine} → Runs e e' → e.state ≡ engine_running → IsEngine e → IsEngine e'
running-IsEngine runs s i = record {
  rows = runs.rows i.rows;
  counted = runs.counted i.counted;
  calm = runs.panicked ∙ i.calm;
  phase = elim i.phase [
    | inl (_, d, t, k) ↦ inl (runs.state ∙ s, runs.done ∙ d, runs.stop ∙ t, runs.killing ∙ k)
    | inr (n, _, _, _) ↦ absurd (ground (arith, n, s))
  ];
}

-- The rows depend on no field of the lifecycle.
Rows-with :
    (e : Engine) (st : EngineState) (s k : Channel) (d : Option Channel) (p : Bool)
    → Rows e
    → Rows (record e { state = st; stop = s; killing = k; deactivations_done = d; panicked = p })
Rows-with e st s k d p r = record {
  own = r.own;
  free = r.free;
  backed = r.backed;
  fresh = r.fresh;
  shown = r.shown;
  waited = r.waited;
}

arm_done-IsEngine :
    (e : Engine)
    → Rows e
    → Counted e
    → e.panicked ≡ false
    → is_running e.state ≡ false
    → NoActive e
    → (e.state ≡ engine_closing → e.killing ≡ channel_open)
    → IsEngine (arm_done e)
unfolding arm_done close_done
arm_done-IsEngine e r c p s n k =
    elim (ℤ-discrete e.pending_deactivations (pos 0))
      as (λ d. IsEngine (
        ite d (close_done (record e { deactivations_done = some channel_open }))
          (record e { deactivations_done = some channel_open }))) [
            | yes z ↦ record {
              rows = Rows-with e e.state e.stop e.killing (some channel_closed) e.panicked r;
              counted = c;
              calm = p;
              phase = inr (s, n, k, inr (ground (arith, c, z), λ h. absurd (cc h)));
            }
            | no z ↦ record {
              rows = Rows-with e e.state e.stop e.killing (some channel_open) e.panicked r;
              counted = c;
              calm = p;
              phase = inr (s, n, k, inl (refl, ground (arith, c, z)));
            }
          ]

begin_stop-IsEngine :
    (skip : Bool) (e : Engine)
    → Rows e
    → Counted e
    → e.panicked ≡ false
    → is_running e.state ≡ false
    → (e.state ≡ engine_closing → e.killing ≡ channel_open)
    → IsEngine (begin_stop_deactivations skip e)
unfolding begin_stop_deactivations
begin_stop-IsEngine skip e r c p s k =
    let runs = stop_loop-Runs skip (addresses e) e in
    arm_done-IsEngine _ (runs.rows r) (runs.counted c) (runs.panicked ∙ p)
      (ap is_running runs.state ∙ s) (stop_loop-NoActive skip e r)
      (λ h. runs.killing ∙ k (sym runs.state ∙ h))

pub begin_close-IsEngine : (e : Engine) → IsEngine e → IsEngine (begin_close e)
unfolding begin_close
begin_close-IsEngine e i = elim i.phase [
  | inl (s, d, t, k) ↦ rw s (
      begin_stop-IsEngine false _
        (Rows-with e engine_closing channel_closed e.killing e.deactivations_done _ i.rows)
        i.counted (rw t i.calm) refl (λ h. k))
  | inr (s, _, _, _) ↦ rw s i
]

skip_row-waiters :
    (a : ℕ) (e : Engine) (row : Option Activation)
    → ((skip_row a e row).waiters ≡ e.waiters)
      × ((skip_row a e row).pending_deactivations ≡ e.pending_deactivations)
unfolding skip_row
skip_row-waiters a e none = (refl, refl)
skip_row-waiters a e (some act) = (refl, refl)

mark_skip_loop-waiters :
    (l : List ℕ) (e : Engine)
    → ((mark_skip_loop l e).waiters ≡ e.waiters)
      × ((mark_skip_loop l e).pending_deactivations ≡ e.pending_deactivations)
unfolding mark_skip_loop
mark_skip_loop-waiters [] e = (refl, refl)
mark_skip_loop-waiters (a ∷ l) e =
    let one = skip_row-waiters a e (act_at a e) in
    let rest = mark_skip_loop-waiters l (skip_row a e (act_at a e)) in
    (rest.0 ∙ one.0, rest.1 ∙ one.1)

mark_skip_loop-IsEngine : (l : List ℕ) (e : Engine) → IsEngine e → IsEngine (mark_skip_loop l e)
mark_skip_loop-IsEngine l e i =
    let runs = mark_skip_loop-Runs l e in
    let same = mark_skip_loop-waiters l e in
    same-IsEngine
      (record {
        state = runs.state;
        done = runs.done;
        stop = runs.stop;
        killing = runs.killing;
        panicked = runs.panicked;
        waiters = same.0;
        pending = same.1;
      })
      (runs.rows i.rows) (λ s n b. Runs-Cleared b runs (n b)) i

pub begin_kill-IsEngine : (e : Engine) → IsEngine e → IsEngine (begin_kill e)
unfolding begin_kill
begin_kill-IsEngine e i = by_state e.state refl
  where
    killed : Engine
    killed = close_killing (close_stop (record e { state = engine_killing }))

    escalated : Engine
    escalated = close_killing (record e { state = engine_killing })

    by_state :
        (st : EngineState)
        → e.state ≡ st
        → IsEngine (elim st as (λ _. Engine) [
          | engine_running ↦ begin_stop_deactivations true killed
          | engine_closing ↦ mark_skip_loop (addresses e) escalated
          | engine_killing ↦ e
        ])
    by_state engine_running s = elim i.phase [
      | inl (_, d, t, k) ↦
          begin_stop-IsEngine true killed
            (Rows-with e engine_killing channel_closed channel_closed e.deactivations_done _ i.rows)
            i.counted (rw (t, k) i.calm) refl (λ h. absurd (cc h))
      | inr (n, _, _, _) ↦ absurd (ground (arith, n, s))
    ]
    by_state engine_closing s = elim i.phase [
      | inl (r, _, _, _) ↦ absurd (cc (r, s))
      | inr (n, q, k, d) ↦ mark_skip_loop-IsEngine (addresses e) escalated (record {
        rows = Rows-with e engine_killing e.stop channel_closed e.deactivations_done _ i.rows;
        counted = i.counted;
        calm = rw (k s) i.calm;
        phase = inr (refl, q, (λ h. absurd (cc h)), d);
      })
    ]
    by_state engine_killing s = i
