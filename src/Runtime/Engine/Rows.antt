-- ===== src/Runtime/Engine/Rows.antt =====
-- The objects on the engine's heap and the maps that name them.
use gor.Prelude.{
  ℕ, suc, ◌<◌, none, some, Bool, true, false, List, [], ◌∷◌, get, ite, ℕ_discrete, ◌≡◌, ◌≢◌, ◌⊎◌,
  inl, inr, sym, ap, ◌∙◌, arith, get-put, get-put_ne, length,
}
use gor.Store.{GrainId, GrainId-discrete}
use gor.Runtime.Engine.{
  Engine, Activation, activating, deactivating, is_active, act_at, set_act, start_waiter,
}

unfoldable pub waiting : ℕ → List ℕ → Bool
waiting a [] = false
waiting a (b ∷ bs) = let rest = waiting a bs in ite (ℕ_discrete b a) true rest

-- The waiters without the first one of an address.
unfoldable pub drop_waiter : ℕ → List ℕ → List ℕ
drop_waiter a [] = []
drop_waiter a (b ∷ bs) = let rest = drop_waiter a bs in ite (ℕ_discrete b a) bs (b ∷ rest)

pub length-drop_waiter :
    (a : ℕ) (ws : List ℕ) → waiting a ws ≡ true → length ws ≡ suc (length (drop_waiter a ws))
unfolding waiting drop_waiter
length-drop_waiter a [] h = cc h
length-drop_waiter a (b ∷ bs) h = ground (arith, h, length-drop_waiter a bs)

pub waiting-drop_waiter :
    (a b : ℕ) (ws : List ℕ) → a ≢ b → waiting b ws ≡ true → waiting b (drop_waiter a ws) ≡ true
unfolding waiting drop_waiter
waiting-drop_waiter a b [] n h = h
waiting-drop_waiter a b (c ∷ ws) n h = ground (arith, h, waiting-drop_waiter a b ws n)

-- An active object is named by the map under its id, the map names objects, a pending id is not in the map, addresses in use
-- are below `next`, and each deactivating object has a waiter.
pub record Rows (e : Engine) : Type 0 where
  pub own :
      (a : ℕ) (act : Activation)
      → act_at a e ≡ some act
      → is_active act.state ≡ true
      → get GrainId-discrete act.id e.activations ≡ some a
  pub free :
      (id : GrainId)
      → get GrainId-discrete id e.pending ≡ some tt
      → get GrainId-discrete id e.activations ≡ none
  pub backed :
      (id : GrainId) (a : ℕ)
      → get GrainId-discrete id e.activations ≡ some a
      → (act : Activation) × (act_at a e ≡ some act)
  pub fresh : (a : ℕ) (act : Activation) → act_at a e ≡ some act → a < e.next
  pub shown : (a : ℕ) (act : Activation) → act_at a e ≡ some act → act.state ≢ activating
  pub waited :
      (a : ℕ) (act : Activation)
      → act_at a e ≡ some act
      → act.state ≡ deactivating
      → waiting a e.waiters ≡ true

-- What a lookup finds after a write.
pub act_at-set_act :
    (b a : ℕ) (act' : Activation) (e : Engine) {act : Activation}
    → act_at b (set_act a act' e) ≡ some act
    → (a ≡ b) × (act ≡ act') ⊎ (a ≢ b) × (act_at b e ≡ some act)
act_at-set_act b a act' e {act} h = elim (ℕ_discrete a b) [
  | yes p ↦ inl (p, ground (arith, get-put ℕ_discrete b a act' e.heap, h, p))
  | no n ↦ inr (n, sym (get-put_ne ℕ_discrete b a act' e.heap n) ∙ h)
]

-- A write that keeps the id, and makes active no object that was not.
pub record Moves (e : Engine) (a : ℕ) (act act' : Activation) : Type 0 where
  pub same_id : act'.id ≡ act.id
  pub no_revival : is_active act'.state ≡ true → is_active act.state ≡ true
  pub stays_shown : act'.state ≢ activating
  pub has_waiter : act'.state ≡ deactivating → waiting a e.waiters ≡ true

pub set_act-Rows :
    (a : ℕ) (act act' : Activation) (e : Engine)
    → act_at a e ≡ some act
    → Moves e a act act'
    → Rows e
    → Rows (set_act a act' e)
set_act-Rows a act act' e at moves r = record {
  own = λ b actb h s. elim (act_at-set_act b a act' e h) [
    | inl (p, q) ↦
        let before =
          r.own a act at
            (moves.no_revival (ap (λ (x : Activation). is_active x.state) (sym q) ∙ s)) in
        cc (p, q, before, moves.same_id)
    | inr (n, k) ↦ r.own b actb k s
  ];
  free = r.free;
  backed = λ id b h.
      let (x, k) = r.backed id b h in
      elim (ℕ_discrete a b) [
        | yes p ↦ (act', ground (arith, get-put ℕ_discrete b a act' e.heap, p))
        | no n ↦ (x, get-put_ne ℕ_discrete b a act' e.heap n ∙ k)
      ];
  fresh = λ b actb h. elim (act_at-set_act b a act' e h) [
    | inl (p, q) ↦ rw (← p) (r.fresh a act at)
    | inr (n, k) ↦ r.fresh b actb k
  ];
  shown = λ b actb h. elim (act_at-set_act b a act' e h) [
    | inl (p, q) ↦ rw q moves.stays_shown
    | inr (n, k) ↦ r.shown b actb k
  ];
  waited = λ b actb h s. elim (act_at-set_act b a act' e h) [
    | inl (p, q) ↦ rw (← p) (moves.has_waiter (ap (λ (x : Activation). x.state) (sym q) ∙ s))
    | inr (n, k) ↦ r.waited b actb k s
  ];
}

waiting-cons : (a b : ℕ) (ws : List ℕ) → waiting b ws ≡ true → waiting b (a ∷ ws) ≡ true
unfolding waiting
waiting-cons a b ws h = ground (arith, h)

waiting_self : (a : ℕ) (ws : List ℕ) → waiting a (a ∷ ws) ≡ true
unfolding waiting
waiting_self a ws = ground arith

pub start_waiter-Rows : (a : ℕ) (e : Engine) → Rows e → Rows (start_waiter a e)
unfolding start_waiter
start_waiter-Rows a e r = record {
  own = r.own;
  free = r.free;
  backed = r.backed;
  fresh = r.fresh;
  shown = r.shown;
  waited = λ b act h s. waiting-cons a b e.waiters (r.waited b act h s);
}

-- An object leaves the active state, and a waiter starts for it.
pub depart-Rows :
    (a : ℕ) (act act' : Activation) (e : Engine)
    → act_at a e ≡ some act
    → act'.id ≡ act.id
    → act'.state ≡ deactivating
    → Rows e
    → Rows (start_waiter a (set_act a act' e))
depart-Rows a act act' e at i s r =
    unfold start_waiter in
    set_act-Rows a act act' (start_waiter a e) at
      (record {
        same_id = i;
        no_revival = λ h. absurd (ground (arith, s, h));
        stays_shown = λ h. absurd (cc (s, h));
        has_waiter = λ h. waiting_self a e.waiters;
      })
      (start_waiter-Rows a e r)
