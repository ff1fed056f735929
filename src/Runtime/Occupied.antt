-- ===== src/Runtime/Occupied.antt =====
-- The occupied chain of a call (runtime/occupied.go). The chain that the context carries is an
-- argument; nil is the empty chain.
use gor.Prelude.{
  Option, none, some, List, [], ◌∷◌, ◌++◌, ◌≡◌, ◌≢◌, ◌⊎◌, inl, inr, refl, sym, ap, ite, Text, arith,
}
use gor.Store.{GrainId, GrainId-discrete}

-- withOccupied
unfoldable pub with_occupied : List GrainId → GrainId → List GrainId
with_occupied chain id = chain ++ id ∷ []

-- chain[start:], from the first occurrence of the id; none is start < 0.
unfoldable pub cycle_from : GrainId → List GrainId → Option (List GrainId)
cycle_from id [] = none
cycle_from id (occupied ∷ chain) =
    let rest = cycle_from id chain in
    ite (GrainId-discrete occupied id) (some (occupied ∷ chain)) rest

-- "%s/%s"
unfoldable pub grain_text : GrainId → Text
grain_text id = id.grain_type ++ 47 ∷ id.grain_key

-- The message: the ids of the cycle with " -> " between them, and the target again.
unfoldable pub cycle_message : List GrainId → GrainId → Text
cycle_message [] id = grain_text id
cycle_message (occupied ∷ chain) id =
    grain_text occupied ++ 32 ∷ 45 ∷ 62 ∷ 32 ∷ cycle_message chain id

abbrev pub message_of : GrainId → Option (List GrainId) → Option Text
message_of id none = none
message_of id (some cycle) = some (cycle_message cycle id)

-- checkCycle: none is nil, and some message an error that wraps ErrCallCycle.
unfoldable pub check_cycle : List GrainId → GrainId → Option Text
unfolding cycle_from
check_cycle chain id = message_of id (cycle_from id chain)

-- The id is on the chain nowhere.
abbrev pub Absent : GrainId → List GrainId → Type 0
Absent id [] = Unit
Absent id (occupied ∷ chain) = (occupied ≢ id) × Absent id chain

-- No entity occupies the chain twice.
abbrev pub IsSimple : List GrainId → Type 0
IsSimple [] = Unit
IsSimple (id ∷ chain) = Absent id chain × IsSimple chain

-- The chain up to and from the first occurrence of the id.
pub record Cycle (id : GrainId) (chain : List GrainId) : Type 0 where
  pub before : List GrainId
  pub after : List GrainId
  pub splits : chain ≡ before ++ id ∷ after
  pub first : Absent id before

cycle_from_cases :
    (id : GrainId) (chain : List GrainId)
    → (cycle_from id chain ≡ none) × Absent id chain
      ⊎ ((c : Cycle id chain) × (cycle_from id chain ≡ some (id ∷ c.after)))
unfolding cycle_from
cycle_from_cases id [] = inl (refl, tt)
cycle_from_cases id (o ∷ chain) =
    elim (GrainId-discrete o id)
      as (λ d.
        (ite d (some (o ∷ chain)) (cycle_from id chain) ≡ none) × Absent id (o ∷ chain)
        ⊎ ((c : Cycle id (o ∷ chain)) × (ite d (some (o ∷ chain)) (cycle_from id chain)
              ≡ some (id ∷ c.after)))) [
                | yes p ↦ inr (
                  record { before = []; after = chain; splits = ap (λ x. x ∷ chain) p; first = tt },
                  ap (λ x. some (x ∷ chain)) p,
                )
                | no n ↦ elim (cycle_from_cases id chain) [
                  | inl (e, a) ↦ inl (e, (n, a))
                  | inr (c, e) ↦ inr (
                    record {
                      before = o ∷ c.before;
                      after = c.after;
                      splits = ap (◌∷◌ o) c.splits;
                      first = (n, c.first);
                    },
                    e,
                  )
                ]
              ]

-- A call is refused exactly when its target occupies the chain, and the message then names the
-- occupied entities from the target's first occurrence to the end of the chain, and the target
-- again.
pub check_cycle_lem :
    (chain : List GrainId) (id : GrainId)
    → (check_cycle chain id ≡ none) × Absent id chain
      ⊎ ((c : Cycle id chain) × (check_cycle chain id ≡ some (cycle_message (id ∷ c.after) id)))
unfolding check_cycle
check_cycle_lem chain id = elim (cycle_from_cases id chain) [
  | inl (e, a) ↦ inl (ap (message_of id) e, a)
  | inr (c, e) ↦ inr (c, ap (message_of id) e)
]

Absent-append :
    (j id : GrainId) (chain : List GrainId) → Absent j chain → id ≢ j → Absent j (chain ++ id ∷ [])
Absent-append j id [] a n = (n, tt)
Absent-append j id (o ∷ chain) a n = (a.0, Absent-append j id chain a.1 n)

with_occupied-IsSimple :
    (chain : List GrainId) (id : GrainId)
    → IsSimple chain
    → Absent id chain
    → IsSimple (with_occupied chain id)
unfolding with_occupied
with_occupied-IsSimple [] id s a = (tt, tt)
with_occupied-IsSimple (o ∷ chain) id s a =
    (Absent-append o id chain s.0 (λ e. a.0 (sym e)), with_occupied-IsSimple chain id s.1 a.1)

-- The nested calls that Invoke accepts, from a chain on: each one runs under the extended chain.
unfoldable pub accepted : List GrainId → List GrainId → Option (List GrainId)
accepted chain [] = some chain
accepted chain (id ∷ ids) =
    let rest = accepted (with_occupied chain id) ids in
    elim (check_cycle chain id) [ none ↦ rest | some message ↦ none ]

-- However deep calls nest, a chain of accepted calls that starts from a chain without repetition
-- never holds an entity twice.
pub accepted-IsSimple :
    (ids chain : List GrainId) {final : List GrainId}
    → IsSimple chain
    → accepted chain ids ≡ some final
    → IsSimple final
unfolding accepted
accepted-IsSimple [] chain {final} s h = let e : final ≡ chain = cc h in rw e s
accepted-IsSimple (id ∷ ids) chain {final} s h = elim (check_cycle_lem chain id) [
  | inl (e, a) ↦
      accepted-IsSimple ids (with_occupied chain id) (with_occupied-IsSimple chain id s a)
        (ground (arith, e, h))
  | inr (c, e) ↦ absurd (ground (arith, e, h))
]
