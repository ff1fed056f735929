-- ===== src/Cluster/Probe/Neighbors.antt =====
-- The neighbours that a node probes, around the probe ring (probeTargets in cluster/probe.go).
use mathlib.Core.List.{
  Nodup, Nodup-cons, Mem, mem-cons_self, mem-cons_of_mem, not-mem-nil, eq-or-mem_of_mem-cons,
}
use mathlib.Core.Logic.Or
use mathlib.Core.HLevel.{⊥_prop}
use mathlib.Core.List.Perm
use gor.Prelude.{
  ℕ, zero, suc, ◌<◌, ◌≤◌, ◌+◌, ◌-◌, ◌%◌, Option, none, some, true, false, List, [], ◌∷◌, sort, map,
  get_elem?, get_elem?-lt, length, if◌then◌else◌, ◌==◌, arith, ◌≡◌, ◌≢◌, refl, sym, ap, subst, ◌∙◌,
  ◌⊎◌, inl, inr, Perm, sort_lem, length-sort, length-map, Bool-cases,
}
use native.Mathlib.Nat.{mod-lt, mod-eq_of_lt, mod_self, add-mod_right}
use gor.Store.{MemberId}
use gor.Cluster.Probe.Agreement.{probe_targets-order}
use gor.Cluster.Probe.{
  ProbePoint, probe_point, probe_point_less, ring_ids, index_of, next_previous, targets_at,
  probe_targets, contains_member_id,
}

map-probe_point : (ms : List MemberId) → map (λ (p : ProbePoint). p.id) (map probe_point ms) ≡ ms
unfolding probe_point
map-probe_point [] = refl
map-probe_point (m ∷ ms) = ap (◌∷◌ m) (map-probe_point ms)

-- The ring holds the given members, each as often.
pub ring_ids-perm : (ms : List MemberId) → Perm (ring_ids ms) ms
unfolding ring_ids
ring_ids-perm ms =
    subst (Perm (map (λ (p : ProbePoint). p.id) (sort probe_point_less (map probe_point ms))))
      (map-probe_point ms)
      (Perm.map (λ (p : ProbePoint). p.id) (sort_lem probe_point_less (map probe_point ms)))

index_of-get_elem? :
    (self : MemberId) (ids : List MemberId) (i : ℕ)
    → index_of self ids ≡ some i
    → (i < length ids) × (get_elem? ids i ≡ some self)
unfolding index_of
index_of-get_elem? self [] i e = cc
index_of-get_elem? self (m ∷ ms) zero e = ground arith
index_of-get_elem? self (m ∷ ms) (suc i) e = ground (arith, index_of-get_elem? self ms i)

get_elem?-mem : (ids : List MemberId) (i : ℕ) {m : MemberId} → get_elem? ids i ≡ some m → Mem m ids
get_elem?-mem [] i e = cc
get_elem?-mem (m ∷ ms) zero {m = n} e =
    let same : m ≡ n = cc in subst (λ x. Mem x (m ∷ ms)) same mem-cons_self
get_elem?-mem (m ∷ ms) (suc i) e = mem-cons_of_mem m (get_elem?-mem ms i e)

-- Without duplicates, the index of an entry is where it stands.
index_of_unique :
    (m : MemberId) (ids : List MemberId) (i : ℕ)
    → Nodup ids
    → get_elem? ids i ≡ some m
    → index_of m ids ≡ some i
unfolding index_of
index_of_unique m [] i d e = cc
index_of_unique m (n ∷ ms) zero d e = ground arith
index_of_unique m (n ∷ ms) (suc i) d e = ground (
  arith,
  index_of_unique m ms i ((Nodup-cons.0 d).1) e,
  λ (same : n ≡ m). (Nodup-cons.0 d).0 (subst (λ x. Mem x ms) (sym same) (get_elem?-mem ms i e)),
)

next_lem : (i n : ℕ) → i < n → (i + 1) % n ≡ (if i + 1 == n then 0 else i + 1)
next_lem i n h = elim (Bool-cases (i + 1 == n)) [
  | inl e ↦ let same : i + 1 ≡ n = ground arith in rw (e, same) (mod_self n)
  | inr e ↦ rw e (mod-eq_of_lt (ground arith))
]

previous_lem : (i n : ℕ) → i < n → (i + n - 1) % n ≡ (if i == 0 then n - 1 else i - 1)
previous_lem zero n h =
    let same : 0 + n - 1 ≡ n - 1 = omega arith in rw same (mod-eq_of_lt (omega arith))
previous_lem (suc i) n h =
    let same : suc i + n - 1 ≡ i + n = omega arith in
    let wrapped : (suc i + n - 1) % n ≡ i =
      rw (same, add-mod_right i n) (mod-eq_of_lt (omega arith)) in
    ground arith

-- The neighbour after the one before, and the other way round.
around : (i n : ℕ) → i < n → ((((i + 1) % n) + n - 1) % n ≡ i) × ((((i + n - 1) % n) + 1) % n ≡ i)
around i n h =
    let positive : 0 < n = omega arith in
    (
      ground (arith, next_lem i n h, previous_lem ((i + 1) % n) n (mod-lt (i + 1) positive)),
      ground
          (arith, previous_lem i n h, next_lem ((i + n - 1) % n) n (mod-lt (i + n - 1) positive)),
    )

contains-next_previous :
    (a b : Option MemberId) (m : MemberId)
    → contains_member_id (next_previous a b) m ≡ true
    → (a ≡ some m) ⊎ (b ≡ some m)
unfolding contains_member_id
contains-next_previous none b m h = ground arith
contains-next_previous (some a) none m h = ground arith
contains-next_previous (some a) (some b) m h = ground arith

contains-left :
    (a : MemberId) (b : MemberId) → contains_member_id (next_previous (some a) (some b)) a ≡ true
unfolding contains_member_id
contains-left a b = ground arith

contains-right :
    (a : MemberId) (b : MemberId) → contains_member_id (next_previous (some a) (some b)) b ≡ true
unfolding contains_member_id
contains-right a b = ground arith

targets_at_long :
    (ids : List MemberId) (i : ℕ)
    → 2 ≤ length ids
    → targets_at ids (some i)
      ≡ next_previous
          (get_elem? ids ((i + 1) % length ids))
          (get_elem? ids ((i + length ids - 1) % length ids))
unfolding targets_at
targets_at_long ids i h = ground arith

-- A target that stands next to, or before, the place of `a`.
contains-targets_at :
    (ids : List MemberId) (i j : ℕ) {a : MemberId}
    → 2 ≤ length ids
    → get_elem? ids i ≡ some a
    → ((j + 1) % length ids ≡ i) ⊎ ((j + length ids - 1) % length ids ≡ i)
    → contains_member_id (targets_at ids (some j)) a ≡ true
contains-targets_at ids i j {a} h e (inl p) =
    let (b, found) =
      get_elem?-lt ids ((j + length ids - 1) % length ids) (mod-lt _ (omega arith)) in
    rw (targets_at_long ids j h, p, e, found) (contains-left a b)
contains-targets_at ids i j {a} h e (inr p) =
    let (b, found) = get_elem?-lt ids ((j + 1) % length ids) (mod-lt _ (omega arith)) in
    rw (targets_at_long ids j h, p, e, found) (contains-right b a)

short :
    (ids : List MemberId) (i : ℕ) (b : MemberId)
    → contains_member_id (targets_at ids (some i)) b ≡ true
    → 2 ≤ length ids
unfolding targets_at contains_member_id
short ids i b h = ground arith

none_contains :
    (ids : List MemberId) (b : MemberId) → contains_member_id (targets_at ids none) b ≡ false
unfolding targets_at contains_member_id
none_contains ids b = refl

targets_at_sym :
    (ids : List MemberId) (a b : MemberId)
    → Nodup ids
    → contains_member_id (targets_at ids (index_of a ids)) b ≡ true
    → contains_member_id (targets_at ids (index_of b ids)) a ≡ true
targets_at_sym ids a b d h = by_index (index_of a ids) refl h
  where
    back :
        (i j : ℕ)
        → get_elem? ids i ≡ some a
        → get_elem? ids j ≡ some b
        → 2 ≤ length ids
        → ((j + 1) % length ids ≡ i) ⊎ ((j + length ids - 1) % length ids ≡ i)
        → contains_member_id (targets_at ids (index_of b ids)) a ≡ true
    back i j at_i at_j long near =
        rw (index_of_unique b ids j d at_j) (contains-targets_at ids i j long at_i near)

    by_index :
        (o : Option ℕ)
        → index_of a ids ≡ o
        → contains_member_id (targets_at ids o) b ≡ true
        → contains_member_id (targets_at ids (index_of b ids)) a ≡ true
    by_index none e h = cc (none_contains ids b)
    by_index (some i) e h =
        let long = short ids i b h in
        let (inside, at_i) = index_of-get_elem? a ids i e in
        let near = around i (length ids) inside in
        elim (contains-next_previous _ _ b (rw (targets_at_long ids i long) at h)) [
          | inl at_next ↦ back i ((i + 1) % length ids) at_i at_next long (inr near.0)
          | inr at_previous ↦
              back i ((i + length ids - 1) % length ids) at_i at_previous long (inl near.1)
        ]

-- If a probes b then b probes a, for member lists without duplicates.
pub probe_targets_sym :
    (ms : List MemberId) (a b : MemberId)
    → Nodup ms
    → contains_member_id (probe_targets ms a) b ≡ true
    → contains_member_id (probe_targets ms b) a ≡ true
unfolding probe_targets
probe_targets_sym ms a b d h =
    targets_at_sym (ring_ids ms) a b (Perm.nodup (Perm.symm (ring_ids-perm ms)) d) h

next_ne : (i n : ℕ) → i < n → 2 ≤ n → ((i + 1) % n ≢ i) × ((i + n - 1) % n ≢ i)
next_ne i n h long = ground (arith, next_lem i n h, previous_lem i n h)

length-ring_ids : (ms : List MemberId) → length (ring_ids ms) ≡ length ms
unfolding ring_ids
length-ring_ids ms =
    length-map _ (sort probe_point_less (map probe_point ms))
    ∙ length-sort probe_point_less (map probe_point ms)
    ∙ length-map probe_point ms

index_of-none : (a : MemberId) (ids : List MemberId) → index_of a ids ≡ none → ¬ Mem a ids
unfolding index_of
index_of-none a [] e = not-mem-nil
index_of-none a (m ∷ ms) e = λ h.
    Or.elim ⊥_prop (eq-or-mem_of_mem-cons h) (λ here. ground arith)
      (index_of-none a ms (ground arith))

-- The entries at two different places differ.
not_self :
    (ids : List MemberId) (a : MemberId) (i j : ℕ)
    → Nodup ids
    → index_of a ids ≡ some i
    → j ≢ i
    → get_elem? ids j ≢ some a
not_self ids a i j d e ne at_j = ne (ground (arith, index_of_unique a ids j d at_j))

-- The place after, and the place before, around a ring of n places.
abbrev pub after : ℕ → ℕ → ℕ
after i n = (i + 1) % n

abbrev pub before : ℕ → ℕ → ℕ
before i n = (i + n - 1) % n

same_place :
    (i n : ℕ) → i < n → 2 ≤ n → (n ≡ 2 → before i n ≡ after i n) × (n ≢ 2 → before i n ≢ after i n)
same_place i n h long = (
  λ e. ground (arith, next_lem i n h, previous_lem i n h),
  λ e. ground (arith, next_lem i n h, previous_lem i n h),
)

-- The targets of the node at a place of the ring: the entries after and before it, one entry where these
-- are the same place.
pub record Targets (ids : List MemberId) (self : MemberId) (targets : List MemberId) : Type 0 where
  pub place : ℕ
  pub next : MemberId
  pub previous : MemberId
  pub here : get_elem? ids place ≡ some self
  pub at_next : get_elem? ids (after place (length ids)) ≡ some next
  pub at_previous : get_elem? ids (before place (length ids)) ≡ some previous
  pub two : length ids ≡ 2 → targets ≡ next ∷ []
  pub more : length ids ≢ 2 → (targets ≡ next ∷ previous ∷ []) × (next ≢ previous)
  pub not_next : next ≢ self
  pub not_previous : previous ≢ self

next_previous_one : (b c : MemberId) → some c ≡ some b → next_previous (some b) (some c) ≡ b ∷ []
next_previous_one b c e = ground arith

next_previous_two : (b c : MemberId) → c ≢ b → next_previous (some b) (some c) ≡ b ∷ c ∷ []
next_previous_two b c n = ground arith

-- The entries at different places of a ring without duplicates differ.
entries_differ :
    (ids : List MemberId) (i j : ℕ) (b c : MemberId)
    → Nodup ids
    → get_elem? ids i ≡ some b
    → get_elem? ids j ≡ some c
    → j ≢ i
    → c ≢ b
entries_differ ids i j b c d at_i at_j n e =
    n (ground (arith, index_of_unique b ids i d at_i, index_of_unique b ids j d (at_j ∙ ap some e)))

targets_at-Targets :
    (ids : List MemberId) (a : MemberId) (i : ℕ)
    → Nodup ids
    → 2 ≤ length ids
    → index_of a ids ≡ some i
    → Targets ids a (targets_at ids (some i))
targets_at-Targets ids a i d long e =
    let (inside, at_i) = index_of-get_elem? a ids i e in
    let (b, at_next) = get_elem?-lt ids (after i (length ids)) (mod-lt _ (omega arith)) in
    let (c, at_previous) = get_elem?-lt ids (before i (length ids)) (mod-lt _ (omega arith)) in
    let apart = next_ne i (length ids) inside long in
    let places = same_place i (length ids) inside long in
    let chosen : targets_at ids (some i) ≡ next_previous (some b) (some c) =
      rw (targets_at_long ids i long, at_next, at_previous) refl in
    record {
      place = i;
      next = b;
      previous = c;
      here = at_i;
      at_next = at_next;
      at_previous = at_previous;
      two = λ t.
          chosen
          ∙ next_previous_one b c (sym at_previous ∙ ap (get_elem? ids) (places.0 t) ∙ at_next);
      more = λ t.
          let n =
            entries_differ ids (after i (length ids)) (before i (length ids)) b c d at_next
              at_previous (places.1 t) in
          (chosen ∙ next_previous_two b c n, λ p. n (sym p));
      not_next = λ p. not_self ids a i _ d e apart.0 (at_next ∙ ap some p);
      not_previous = λ p. not_self ids a i _ d e apart.1 (at_previous ∙ ap some p);
    }

-- The list of ids that probeTargets sorts has the ids of the given members, and a node that stands
-- in it, among at least two members without duplicates, probes its neighbours around the ring of
-- this list: the one member that is there beside itself where there are two, else the next and the
-- previous one, which are different and not the node itself; the targets are the same for the
-- members in any order.
pub probe_targets_lem :
    (ms : List MemberId) (a : MemberId)
    → Nodup ms
    → Mem a ms
    → 2 ≤ length ms
    → Perm (ring_ids ms) ms
      × Targets (ring_ids ms) a (probe_targets ms a)
      × ((ms' : List MemberId) → Perm ms ms' → probe_targets ms' a ≡ probe_targets ms a)
unfolding probe_targets
probe_targets_lem ms a d mem long =
    (ring_ids-perm ms, by_index (index_of a (ring_ids ms)) refl, λ ms' p. probe_targets-order a p)
  where
    long' : 2 ≤ length (ring_ids ms)
    long' = omega (arith, length-ring_ids ms)

    by_index :
        (o : Option ℕ)
        → index_of a (ring_ids ms) ≡ o
        → Targets (ring_ids ms) a (targets_at (ring_ids ms) o)
    by_index none e =
        absurd (index_of-none a (ring_ids ms) e (Perm.subset (Perm.symm (ring_ids-perm ms)) a mem))
    by_index (some i) e =
        targets_at-Targets (ring_ids ms) a i (Perm.nodup (Perm.symm (ring_ids-perm ms)) d) long' e
