-- ===== src/Runtime/Engine/Publish.antt =====
-- Lookups, creations and removals of activations keep the engine's invariant.
use gor.Prelude.{
  ℕ, suc, Option, none, some, Bool, true, false, get, put, delete, ite, ℕ_discrete, ◌≡◌, inl, inr,
  refl, sym, ap, ◌∙◌, arith, if◌then◌else◌, Bool-cases, get-put, get-delete, get-put_ne,
  get-delete_self, get-put_self, Map, Text,
}
use gor.Store.{GrainId, GrainId-discrete, Time}
use gor.Runtime.Engine.{
  Engine, Activation, ActivationState, activating, active, deactivating, stopped, is_running,
  is_active, act_at, set_act, look_pending, look_row, look_up, Lookup, create_activation,
  new_activation, Registration, forget, finish_act, finish_row, finish_deactivation, channel_closed,
}
use gor.Runtime.Engine.Rows.{Rows, set_act-Rows, act_at-set_act}
use gor.Runtime.Engine.Stops.{Cleared}
use gor.Runtime.Engine.Invariant.{IsEngine, SameControl, same-IsEngine}

-- The lifecycle's fields stay when objects, maps or registrations change.
pub same_with :
    (e : Engine) (g : Map Text Registration) (h : Map ℕ Activation) (n : ℕ) (as_map : Map GrainId ℕ)
    (p : Map GrainId (Unit {0}))
    → SameControl e
        (record e { registrations = g; heap = h; next = n; activations = as_map; pending = p })
same_with e g h n as_map p = record {
  state = refl;
  done = refl;
  stop = refl;
  killing = refl;
  panicked = refl;
  waiters = refl;
  pending = refl;
}

unsome : {a b : ℕ} → some a ≡ some b → a ≡ b
unsome h = cc h

-- The map forgets an id whose object is not active.
delete-Rows :
    (id : GrainId) (a : ℕ) (e : Engine)
    → get GrainId-discrete id e.activations ≡ some a
    → Cleared a e
    → Rows e
    → Rows (record e { activations = delete GrainId-discrete id e.activations })
delete-Rows id a e named clear r = record {
  own = λ b act h s. elim (GrainId-discrete id act.id) [
    | yes p ↦
        let mine : some a ≡ some b = sym named ∙ rw p (r.own b act h s) in
        let there : act_at a e ≡ some act = rw (unsome mine) h in
        absurd (ground (arith, clear act there, s))
    | no n ↦ ground (arith, get-delete GrainId-discrete act.id id e.activations, n, r.own b act h s)
  ];
  free = λ j h. ground (arith, get-delete GrainId-discrete j id e.activations, r.free j h);
  backed =
      λ j b h. r.backed j b (ground (arith, get-delete GrainId-discrete j id e.activations, h));
  fresh = r.fresh;
  shown = r.shown;
  waited = r.waited;
}

pending-Rows :
    (id : GrainId) (e : Engine)
    → get GrainId-discrete id e.activations ≡ none
    → Rows e
    → Rows (record e { pending = put GrainId-discrete id tt e.pending })
pending-Rows id e absent r = record {
  own = r.own;
  free = λ j h. elim (GrainId-discrete id j) [
    | yes p ↦ rw (← p) absent
    | no n ↦ r.free j (sym (get-put_ne GrainId-discrete j id tt e.pending n) ∙ h)
  ];
  backed = r.backed;
  fresh = r.fresh;
  shown = r.shown;
  waited = r.waited;
}

look_pending-IsEngine :
    (id : GrainId) (e : Engine)
    → get GrainId-discrete id e.activations ≡ none
    → IsEngine e
    → IsEngine (look_pending id e).1
unfolding look_pending
look_pending-IsEngine id e absent i =
    elim (get GrainId-discrete id e.pending)
      as (λ p.
        IsEngine
          (elim p as (λ _. Lookup × Engine) [
            | some t ↦ (Lookup.wait_ready, e)
            | none ↦ (Lookup.create, record e { pending = put GrainId-discrete id tt e.pending })
          ]).1) [
            | some t ↦ i
            | none ↦
                same-IsEngine (same_with e _ _ _ _ _) (pending-Rows id e absent i.rows) (λ s n. n) i
          ]

look_row-IsEngine :
    (id : GrainId) (e : Engine) (a : ℕ) (row : Option Activation)
    → act_at a e ≡ row
    → get GrainId-discrete id e.activations ≡ some a
    → IsEngine e
    → IsEngine (look_row id e a row).1
unfolding look_row
look_row-IsEngine id e a none at named i =
    let (act, h) = i.rows.backed id a named in absurd (cc (h, at))
look_row-IsEngine id e a (some act) at named i = by_state act.state refl
  where
    cleared : Engine
    cleared = record e { activations = delete GrainId-discrete id e.activations }

    by_state :
        (s : ActivationState)
        → act.state ≡ s
        → IsEngine
            (elim s as (λ _. Lookup × Engine) [
              | activating ↦ look_pending id e
              | active ↦ (Lookup.found a, e)
              | deactivating ↦ (Lookup.wait_finished a, e)
              | stopped ↦ look_pending id cleared
            ]).1
    by_state activating s = absurd (i.rows.shown a act at s)
    by_state active s = i
    by_state deactivating s = i
    by_state stopped s =
        look_pending-IsEngine id cleared (get-delete_self GrainId-discrete id e.activations) (
          same-IsEngine (same_with e _ _ _ _ _)
            (delete-Rows id a e named (λ x h. ground (arith, s, at, h)) i.rows) (λ s n. n) i)

pub look_up-IsEngine : (id : GrainId) (e : Engine) → IsEngine e → IsEngine (look_up id e).1
unfolding look_up
look_up-IsEngine id e i = elim (Bool-cases (is_running e.state)) [
  | inl t ↦ rw t (by_named (get GrainId-discrete id e.activations) refl)
  | inr t ↦ rw t i
]
  where
    by_named :
        (named : Option ℕ)
        → get GrainId-discrete id e.activations ≡ named
        → IsEngine
            (elim named as (λ _. Lookup × Engine) [
              | none ↦ look_pending id e
              | some a ↦ look_row id e a (act_at a e)
            ]).1
    by_named none h = look_pending-IsEngine id e h i
    by_named (some a) h = look_row-IsEngine id e a (act_at a e) refl h i

unpending-Rows :
    (id : GrainId) (e : Engine)
    → Rows e
    → Rows (record e { pending = delete GrainId-discrete id e.pending })
unpending-Rows id e r = record {
  own = r.own;
  free = λ j h. r.free j (ground (arith, get-delete GrainId-discrete j id e.pending, h));
  backed = r.backed;
  fresh = r.fresh;
  shown = r.shown;
  waited = r.waited;
}

-- A new active object under a pending id.
publish-Rows :
    (id : GrainId) (act : Activation) (e : Engine)
    → get GrainId-discrete id e.pending ≡ some tt
    → act.id ≡ id
    → act.state ≡ active
    → Rows e
    → Rows (record e {
      pending = delete GrainId-discrete id e.pending;
      heap = put ℕ_discrete e.next act e.heap;
      next = suc e.next;
      activations = put GrainId-discrete id e.next e.activations;
    })
publish-Rows id act e pending i s r = record {
  own = λ b x h t. elim (act_at-set_act b e.next act e h) [
    | inl (p, q) ↦ ground (
      arith,
      get-put GrainId-discrete x.id id e.next e.activations,
      p,
      i,
      ap (λ (y : Activation). y.id) q,
    )
    | inr (n, k) ↦ elim (GrainId-discrete id x.id) [
      | yes p ↦ absurd (ground (arith, r.own b x k t, r.free id pending, p))
      | no m ↦ get-put_ne GrainId-discrete x.id id e.next e.activations m ∙ r.own b x k t
    ]
  ];
  free = λ j h. elim (GrainId-discrete id j) [
    | yes p ↦ absurd (ground (arith, get-delete GrainId-discrete j id e.pending, p, h))
    | no m ↦
        get-put_ne GrainId-discrete j id e.next e.activations m
        ∙ r.free j (ground (arith, get-delete GrainId-discrete j id e.pending, h))
  ];
  backed = λ j b h. elim (GrainId-discrete id j) [
    | yes p ↦
        let mine : e.next ≡ b =
          unsome (ground (arith, get-put GrainId-discrete j id e.next e.activations, h, p)) in
        (act, rw (← mine) (get-put_self ℕ_discrete e.next act e.heap))
    | no m ↦
        let (x, k) =
          r.backed j b (sym (get-put_ne GrainId-discrete j id e.next e.activations m) ∙ h) in
        (x, get-put_ne ℕ_discrete b e.next act e.heap (λ q. omega (arith, r.fresh b x k, q)) ∙ k)
  ];
  fresh = λ b x h. elim (act_at-set_act b e.next act e h) [
    | inl (p, q) ↦ omega (arith, p)
    | inr (n, k) ↦ omega (arith, r.fresh b x k)
  ];
  shown = λ b x h. elim (act_at-set_act b e.next act e h) [
    | inl (p, q) ↦ rw q (λ t. absurd (cc (t, s)))
    | inr (n, k) ↦ r.shown b x k
  ];
  waited = λ b x h t. elim (act_at-set_act b e.next act e h) [
    | inl (p, q) ↦ absurd (cc (ap (λ (y : Activation). y.state) q, t, s))
    | inr (n, k) ↦ r.waited b x k t
  ];
}

pub create_activation-IsEngine :
    (id : GrainId) (registration : Registration) (now : Time) (made : Bool) (e : Engine)
    → get GrainId-discrete id e.pending ≡ some tt
    → IsEngine e
    → IsEngine
        (create_activation id
          (if made then some (new_activation id registration now) else none)
          e).1
unfolding create_activation new_activation
create_activation-IsEngine id registration now false e p i =
    same-IsEngine (same_with e _ _ _ _ _) (unpending-Rows id e i.rows) (λ s n. n) i
create_activation-IsEngine id registration now true e p i = elim (Bool-cases (is_running e.state)) [
  | inl t ↦ rw t (
      same-IsEngine (same_with e _ _ _ _ _) (publish-Rows id _ e p refl refl i.rows)
        (λ s n. absurd (cc (s, t))) i)
  | inr t ↦ rw t (same-IsEngine (same_with e _ _ _ _ _) (unpending-Rows id e i.rows) (λ s n. n) i)
]

forget-IsEngine :
    (a : ℕ) (id : GrainId) (named : Option ℕ) (e : Engine)
    → get GrainId-discrete id e.activations ≡ named
    → Cleared a e
    → IsEngine e
    → IsEngine (forget a id named e)
unfolding forget
forget-IsEngine a id none e h c i = i
forget-IsEngine a id (some b) e h c i =
    elim (ℕ_discrete b a)
      as (λ d.
        IsEngine (ite d (record e { activations = delete GrainId-discrete id e.activations }) e)) [
          | yes p ↦
              same-IsEngine (same_with e _ _ _ _ _) (delete-Rows id b e h (rw p c) i.rows)
                (λ s n. n) i
          | no n ↦ i
        ]

finished-IsEngine :
    (a : ℕ) (act : Activation) (e : Engine)
    → act_at a e ≡ some act
    → IsEngine e
    → IsEngine (set_act a (record act { state = stopped; finished = channel_closed }) e)
finished-IsEngine a act e at i =
    same-IsEngine (same_with e _ _ _ _ _)
      (set_act-Rows a act _ e at
        (record {
          same_id = refl;
          no_revival = λ h. absurd (cc h);
          stays_shown = λ h. absurd (cc h);
          has_waiter = λ h. absurd (cc h);
        })
        i.rows)
      (λ s n b x h. elim (act_at-set_act b a _ e h) [
        | inl (p, q) ↦ ap (λ (y : Activation). is_active y.state) q
        | inr (m, k) ↦ n b x k
      ])
      i

finish_row-IsEngine :
    (a : ℕ) (e : Engine) (row : Option Activation)
    → act_at a e ≡ row
    → IsEngine e
    → IsEngine (finish_row a e row)
unfolding finish_row finish_act
finish_row-IsEngine a e none at i = i
finish_row-IsEngine a e (some act) at i = by_state act.state refl
  where
    after : Engine
    after = set_act a (record act { state = stopped; finished = channel_closed }) e

    by_state :
        (s : ActivationState)
        → act.state ≡ s
        → let done = elim s as (λ _. Bool × Activation) [
          | activating ↦ (false, act)
          | active ↦ (false, act)
          | deactivating ↦ (true, record act { state = stopped; finished = channel_closed })
          | stopped ↦ (false, act)
        ] in
          IsEngine (
            if done.0
            then forget a act.id (get GrainId-discrete act.id e.activations) (set_act a done.1 e)
            else e)
    by_state activating s = i
    by_state active s = i
    by_state deactivating s =
        forget-IsEngine a act.id _ after refl
          (λ x h. elim (act_at-set_act a a _ e h) [
            | inl (p, q) ↦ ap (λ (y : Activation). is_active y.state) q
            | inr (m, k) ↦ absurd (m refl)
          ])
          (finished-IsEngine a act e at i)
    by_state stopped s = i

pub finish_deactivation-IsEngine :
    (a : ℕ) (e : Engine) → IsEngine e → IsEngine (finish_deactivation a e)
unfolding finish_deactivation
finish_deactivation-IsEngine a e i = finish_row-IsEngine a e (act_at a e) refl i
