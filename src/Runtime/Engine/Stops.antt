-- ===== src/Runtime/Engine/Stops.antt =====
-- Runs of writes to objects: deactivations, marks, and the loop of beginStopDeactivationsLocked.
use gor.Prelude.{
  ℕ, suc, Option, none, some, Bool, true, false, List, [], ◌∷◌, get, ℕ_discrete, ◌≡◌, inl, inr,
  refl, sym, ap, ◌∙◌, arith, length, ℤ, pos, ◌+ℤ◌, Bool-cases, map, Map,
}
use gor.Store.{GrainId, GrainId-discrete, Time}
use gor.Runtime.Engine.{
  Engine, Activation, deactivating, is_active, act_at, set_act, start_waiter, deactivate_row,
  deactivate_locked, begin_deactivation, DeactivationReason, idle, stop_row, stop_loop, skip_row,
  mark_skip_loop, evict_row, evict_loop, is_victim, addresses,
}
use gor.Runtime.Engine.Rows.{Rows, waiting, set_act-Rows, depart-Rows, act_at-set_act}

abbrev pub Counted : Engine → Type 0
Counted e = e.pending_deactivations ≡ pos (length e.waiters)

-- What a run of writes keeps.
pub record Runs (e e' : Engine) : Type 0 where
  pub state : e'.state ≡ e.state
  pub done : e'.deactivations_done ≡ e.deactivations_done
  pub stop : e'.stop ≡ e.stop
  pub killing : e'.killing ≡ e.killing
  pub panicked : e'.panicked ≡ e.panicked
  pub activations : e'.activations ≡ e.activations
  pub rows : Rows e → Rows e'
  pub counted : Counted e → Counted e'
  pub no_revival :
      (b : ℕ) {act' : Activation}
      → act_at b e' ≡ some act'
      → is_active act'.state ≡ true
      → (act : Activation) × (act_at b e ≡ some act) × (is_active act.state ≡ true)

pub Runs-refl : (e : Engine) → Runs e e
Runs-refl e = record {
  state = refl;
  done = refl;
  stop = refl;
  killing = refl;
  panicked = refl;
  activations = refl;
  rows = λ r. r;
  counted = λ c. c;
  no_revival = λ b {act'} h s. (act', h, s);
}

pub Runs-trans : {e e' e'' : Engine} → Runs e e' → Runs e' e'' → Runs e e''
Runs-trans p q = record {
  state = q.state ∙ p.state;
  done = q.done ∙ p.done;
  stop = q.stop ∙ p.stop;
  killing = q.killing ∙ p.killing;
  panicked = q.panicked ∙ p.panicked;
  activations = q.activations ∙ p.activations;
  rows = λ r. q.rows (p.rows r);
  counted = λ c. q.counted (p.counted c);
  no_revival = λ b {act'} h s. let (act, h', s') = q.no_revival b h s in p.no_revival b h' s';
}

set_act-revival :
    (a : ℕ) (act act' : Activation) (e : Engine)
    → act_at a e ≡ some act
    → (is_active act'.state ≡ true → is_active act.state ≡ true)
    → (b : ℕ) {found : Activation} → act_at b (set_act a act' e) ≡ some found
    → is_active found.state ≡ true
    → (x : Activation) × (act_at b e ≡ some x) × (is_active x.state ≡ true)
set_act-revival a act act' e at keeps b {found} h s = elim (act_at-set_act b a act' e h) [
  | inl (p, q) ↦ (act, rw (← p) at, keeps (ap (λ (x : Activation). is_active x.state) (sym q) ∙ s))
  | inr (n, k) ↦ (found, k, s)
]

-- A write that leaves the state of an object as it is.
pub same_state-Runs :
    (a : ℕ) (act act' : Activation) (e : Engine)
    → act_at a e ≡ some act
    → act'.id ≡ act.id
    → act'.state ≡ act.state
    → Runs e (set_act a act' e)
same_state-Runs a act act' e at i s = record {
  state = refl;
  done = refl;
  stop = refl;
  killing = refl;
  panicked = refl;
  activations = refl;
  rows = λ r.
      set_act-Rows a act act' e at
        (record {
          same_id = i;
          no_revival = λ h. ap is_active (sym s) ∙ h;
          stays_shown = rw s (r.shown a act at);
          has_waiter = λ h. r.waited a act at (sym s ∙ h);
        })
        r;
  counted = λ c. c;
  no_revival = set_act-revival a act act' e at (λ h. ap is_active (sym s) ∙ h);
}

suc_pos : (n : ℕ) {x : ℤ} → x ≡ pos n → x +ℤ pos 1 ≡ pos (suc n)
unfolding ◌+ℤ◌
suc_pos n h = rw h (ground arith)

-- An active object starts to deactivate.
pub depart-Runs :
    (a : ℕ) (act act' : Activation) (e : Engine)
    → act_at a e ≡ some act
    → act'.id ≡ act.id
    → act'.state ≡ deactivating
    → Runs e (start_waiter a (set_act a act' e))
depart-Runs a act act' e at i s =
    unfold start_waiter in
    record {
      state = refl;
      done = refl;
      stop = refl;
      killing = refl;
      panicked = refl;
      activations = refl;
      rows = λ r. unfold start_waiter in depart-Rows a act act' e at i s r;
      counted = λ c. suc_pos (length e.waiters) c;
      no_revival = set_act-revival a act act' e at (λ h. absurd (ground (arith, s, h)));
    }

pub deactivate_locked-Runs :
    (a : ℕ) (reason : DeactivationReason) (e : Engine) → Runs e (deactivate_locked a reason e)
unfolding deactivate_locked deactivate_row begin_deactivation
deactivate_locked-Runs a reason e = by_row (act_at a e) refl
  where
    by_row : (row : Option Activation) → act_at a e ≡ row → Runs e (deactivate_row a reason e row)
    by_row none at = Runs-refl e
    by_row (some act) at = elim (Bool-cases (is_active act.state)) [
      | inl t ↦ rw t (depart-Runs a act _ e at refl refl)
      | inr t ↦ rw t (Runs-refl e)
    ]

pub stop_row-Runs : (skip : Bool) (a : ℕ) (e : Engine) → Runs e (stop_row skip a e (act_at a e))
unfolding stop_row begin_deactivation
stop_row-Runs skip a e = by_row (act_at a e) refl
  where
    by_row : (row : Option Activation) → act_at a e ≡ row → Runs e (stop_row skip a e row)
    by_row none at = Runs-refl e
    by_row (some act) at = elim (Bool-cases (is_active act.state)) [
      | inl t ↦ rw t (depart-Runs a act _ e at refl refl)
      | inr t ↦ rw t (same_state-Runs a act _ e at refl refl)
    ]

pub stop_loop-Runs : (skip : Bool) (l : List ℕ) (e : Engine) → Runs e (stop_loop skip l e)
unfolding stop_loop
stop_loop-Runs skip [] e = Runs-refl e
stop_loop-Runs skip (a ∷ l) e = Runs-trans (stop_row-Runs skip a e) (stop_loop-Runs skip l _)

pub mark_skip_loop-Runs : (l : List ℕ) (e : Engine) → Runs e (mark_skip_loop l e)
unfolding mark_skip_loop skip_row
mark_skip_loop-Runs [] e = Runs-refl e
mark_skip_loop-Runs (a ∷ l) e = Runs-trans (by_row (act_at a e) refl) (mark_skip_loop-Runs l _)
  where
    by_row : (row : Option Activation) → act_at a e ≡ row → Runs e (skip_row a e row)
    by_row none at = Runs-refl e
    by_row (some act) at = same_state-Runs a act _ e at refl refl

pub evict_loop-Runs : (l : List ℕ) (now : Time) (e : Engine) → Runs e (evict_loop l now e)
unfolding evict_loop evict_row
evict_loop-Runs [] now e = Runs-refl e
evict_loop-Runs (a ∷ l) now e = Runs-trans (by_row (act_at a e)) (evict_loop-Runs l now _)
  where
    by_row : (row : Option Activation) → Runs e (evict_row a now e row)
    by_row none = Runs-refl e
    by_row (some act) = elim (Bool-cases (is_victim now e.idle_timeout act)) [
      | inl t ↦ rw t (deactivate_locked-Runs a idle e)
      | inr t ↦ rw t (Runs-refl e)
    ]

-- The object at the address, if there is one, is not active.
abbrev pub Cleared : ℕ → Engine → Type 0
Cleared b e = (act : Activation) → act_at b e ≡ some act → is_active act.state ≡ false

pub Runs-Cleared : (b : ℕ) {e e' : Engine} → Runs e e' → Cleared b e → Cleared b e'
Runs-Cleared b runs c act' h = elim (Bool-cases (is_active act'.state)) [
  | inl t ↦ let (act, h', s) = runs.no_revival b h t in absurd (ground (arith, c act h', s))
  | inr t ↦ t
]

stop_row-Cleared : (skip : Bool) (a : ℕ) (e : Engine) → Cleared a (stop_row skip a e (act_at a e))
unfolding stop_row begin_deactivation start_waiter
stop_row-Cleared skip a e = by_row (act_at a e) refl
  where
    written :
        (x : Activation) {act : Activation}
        → is_active x.state ≡ false
        → act_at a (set_act a x e) ≡ some act
        → is_active act.state ≡ false
    written x s h = elim (act_at-set_act a a x e h) [
      | inl (p, q) ↦ ap (λ (y : Activation). is_active y.state) q ∙ s
      | inr (n, k) ↦ absurd (n refl)
    ]

    by_row : (row : Option Activation) → act_at a e ≡ row → Cleared a (stop_row skip a e row)
    by_row none at = λ act h. absurd (cc (at, h))
    by_row (some x) at = elim (Bool-cases (is_active x.state)) [
      | inl t ↦ rw t (λ act h. written _ refl h)
      | inr t ↦ rw t (λ act h. written _ t h)
    ]

stop_loop-Cleared :
    (skip : Bool) (l : List ℕ) (e : Engine) (b : ℕ)
    → waiting b l ≡ true
    → Cleared b (stop_loop skip l e)
unfolding stop_loop waiting
stop_loop-Cleared skip [] e b h = absurd (cc h)
stop_loop-Cleared skip (a ∷ l) e b h = elim (ℕ_discrete a b) [
  | yes p ↦ Runs-Cleared b (stop_loop-Runs skip l _) (rw (← p) (stop_row-Cleared skip a e))
  | no n ↦ stop_loop-Cleared skip l _ b (ground (arith, h, n))
]

addresses_has :
    (id : GrainId) (a : ℕ) (m : Map GrainId ℕ)
    → get GrainId-discrete id m ≡ some a
    → waiting a (map (λ x. x.1) m) ≡ true
unfolding get waiting
addresses_has id a [] h = absurd (cc h)
addresses_has id a ((j, b) ∷ m) h = ground (arith, h, addresses_has id a m)

-- No object on the heap is active.
abbrev pub NoActive : Engine → Type 0
NoActive e = (b : ℕ) → Cleared b e

-- After the loop over the map, no object is active, for the map names every active object.
pub stop_loop-NoActive :
    (skip : Bool) (e : Engine) → Rows e → NoActive (stop_loop skip (addresses e) e)
stop_loop-NoActive skip e r b act h = elim (Bool-cases (is_active act.state)) [
  | inl t ↦
      let (x, h', s) = (stop_loop-Runs skip (addresses e) e).no_revival b h t in
      let named = addresses_has x.id b e.activations (r.own b x h' s) in
      stop_loop-Cleared skip (addresses e) e b named act h
  | inr t ↦ t
]
