-- ===== src/Cluster/Ring/Ownership.antt =====
-- Who owns a grain: the successor of the grain's hash on the ring.
use gor.Prelude.{
  ℕ, zero, suc, ◌<◌, ◌≤◌, true, false, ◌≡◌, ◌≢◌, refl, sym, ap, subst, ◌∙◌, arith, leb,
  if◌then◌else◌, inl, inr, Bool-cases, ◌==◌, Option, none, some, List, [], ◌∷◌, length, get_elem?,
  get_elem?-length, get_elem?-lt, All, IsSorted, sort-IsSorted, All-sort, All-append, Text, select,
  insert, sort, ◌↔◌,
}
use mathlib.Core.List.{Memᴰ}
use gor.Store.{Member, MemberStatus, GrainId}
use gor.Cluster.Hash.{hash_parts}
use gor.Cluster.Members.{active_members, is_active}
use gor.Cluster.Ring.{
  Point, new_view, build_points, points_of, member_points, point_of, point_less, owner,
  owner_of_hash, at_least, addr_of, virtual_point_count,
}
use gor.Cluster.Ring.Order.{point_less-StrictOrder, point_less_tells, hash_le}
use gor.Cluster.Ring.Search.{IsFirst, search_index-IsFirst}

-- The first point whose hash is at least `h`, by a walk along the ring.
first_at_least : ℕ → List Point → Option Point
first_at_least h [] = none
first_at_least h (p ∷ ps) = if leb h p.hash then some p else first_at_least h ps

or_head : Option Point → List Point → Option Point
or_head (some p) ps = some p
or_head none [] = none
or_head none (p ∷ ps) = some p

-- The successor on the ring, which wraps to the first point.
unfoldable pub successor : ℕ → List Point → Option Point
unfolding first_at_least or_head
successor h ps = or_head (first_at_least h ps) ps

-- Hashes never fall along the list.
abbrev Ascending : List Point → Type 0
Ascending [] = Unit
Ascending (p ∷ ps) = All (λ q. p.hash ≤ q.hash) ps × Ascending ps

All-hash_le :
    (p : Point) (ps : List Point)
    → All (λ q. point_less q p ≡ false) ps
    → All (λ q. p.hash ≤ q.hash) ps
All-hash_le p [] h = tt
All-hash_le p (q ∷ ps) h = (hash_le p q h.0, All-hash_le p ps h.1)

IsSorted-Ascending :
    (ps : List Point) → IsSorted point_less-StrictOrder point_less_tells ps → Ascending ps
IsSorted-Ascending [] s = tt
IsSorted-Ascending (p ∷ ps) s = (All-hash_le p ps s.0, IsSorted-Ascending ps s.1)

at_least_of_All :
    (h : ℕ) (p : Point) (ps : List Point) (k : ℕ)
    → h ≤ p.hash
    → All (λ q. p.hash ≤ q.hash) ps
    → k < length ps
    → at_least h (get_elem? ps k) ≡ true
at_least_of_All h p [] k le a lt = elim lt [ ]
at_least_of_All h p (q ∷ ps) zero le a lt = ground arith
at_least_of_All h p (q ∷ ps) (suc k) le a lt = at_least_of_All h p ps k le a.1 (omega arith)

at_least_mono :
    (h : ℕ) (ps : List Point)
    → Ascending ps
    → (k l : ℕ) → k ≤ l
    → l < length ps
    → at_least h (get_elem? ps k) ≡ true
    → at_least h (get_elem? ps l) ≡ true
at_least_mono h [] a k l le lt t = elim lt [ ]
at_least_mono h (p ∷ ps) a zero zero le lt t = t
at_least_mono h (p ∷ ps) a zero (suc l) le lt t =
    at_least_of_All h p ps l (ground arith) a.0 (omega arith)
at_least_mono h (p ∷ ps) a (suc k) zero le lt t = absurd (omega arith)
at_least_mono h (p ∷ ps) a (suc k) (suc l) le lt t =
    at_least_mono h ps a.1 k l (omega arith) (omega arith) t

first_at_least-index :
    (h : ℕ) (ps : List Point) (r : ℕ)
    → IsFirst (λ i. at_least h (get_elem? ps i)) (length ps) r
    → first_at_least h ps ≡ get_elem? ps r
unfolding first_at_least
first_at_least-index h [] r f = refl
first_at_least-index h (p ∷ ps) zero f = ground (arith, f.holds (omega arith))
first_at_least-index h (p ∷ ps) (suc r) f = ground (
  arith,
  f.before 0 (omega arith),
  first_at_least-index h ps r (record {
    within = omega (arith, f.within);
    before = λ k lt. f.before (suc k) (omega arith);
    holds = λ lt. f.holds (omega arith);
  }),
)

pick_index :
    (h : ℕ) (p : Point) (ps : List Point) (r : ℕ)
    → IsFirst (λ i. at_least h (get_elem? (p ∷ ps) i)) (length (p ∷ ps)) r
    → addr_of (get_elem? (p ∷ ps) (if r == length (p ∷ ps) then 0 else r))
      ≡ addr_of (successor h (p ∷ ps))
unfolding successor
pick_index h p ps r f = elim (Bool-cases (r == length (p ∷ ps))) [
  | inl e ↦
      let q : r ≡ length (p ∷ ps) = ground arith in
      let missing : first_at_least h (p ∷ ps) ≡ none =
        first_at_least-index h (p ∷ ps) r f ∙ ap (get_elem? (p ∷ ps)) q ∙ get_elem?-length ps in
      rw (e, missing) refl
  | inr e ↦
      let (q, found) = get_elem?-lt (p ∷ ps) r (ground (arith, f.within)) in
      rw (e, first_at_least-index h (p ∷ ps) r f, found) refl
]

-- The binary search of Owner over any sorted list of points finds the successor of the hash.
owner_of_hash-successor :
    (h : ℕ) (ps : List Point) → Ascending ps → owner_of_hash ps h ≡ addr_of (successor h ps)
unfolding owner_of_hash
owner_of_hash-successor h [] a = unfold successor first_at_least in refl
owner_of_hash-successor h (p ∷ ps) a = pick_index h p ps _ (
    search_index-IsFirst (λ i. at_least h (get_elem? (p ∷ ps) i)) (length (p ∷ ps))
      (at_least_mono h (p ∷ ps) a))

-- Owner of a view built from a snapshot is the address of the first point, in ring order, whose hash
-- is at least the grain's hash, and of the ring's first point where no hash is.
pub owner-successor :
    (s : List Member) (id : GrainId)
    → owner (new_view s) id
      ≡ addr_of (
          successor
            (hash_parts (id.grain_type ∷ id.grain_key ∷ []))
            (build_points (active_members s)))
unfolding owner new_view
owner-successor s id = owner_of_hash-successor _ _ (
    IsSorted-Ascending _ (
      unfold build_points in
      sort-IsSorted point_less-StrictOrder point_less_tells (points_of (active_members s))))

-- The point stands for an active row of the snapshot.
abbrev Stands : List Member → Point → Type 0
Stands s p =
    (m : Member) × Memᴰ m s × (m.status ≡ MemberStatus.active) × (m.node_addr ≡ p.node_addr)

module _ (s : List Member) where
  member_points-Stands :
      (m : Member) (sequence count : ℕ)
      → Memᴰ m s
      → m.status ≡ MemberStatus.active
      → All (Stands s) (member_points m sequence count)
  unfolding member_points point_of
  member_points-Stands m sequence zero h a = tt
  member_points-Stands m sequence (suc count) h a =
      ((m, h, a, refl), member_points-Stands m (suc sequence) count h a)

  points_of-Stands :
      (ms : List Member)
      → All (λ m. Memᴰ m s × (m.status ≡ MemberStatus.active)) ms
      → All (Stands s) (points_of ms)
  unfolding points_of
  points_of-Stands [] h = tt
  points_of-Stands (m ∷ ms) h =
      All-append (Stands s) (member_points m 0 virtual_point_count) (points_of ms)
        (member_points-Stands m 0 virtual_point_count h.0.0 h.0.1) (points_of-Stands ms h.1)

  is_active_lem : (m : Member) → is_active m.status ≡ true → m.status ≡ MemberStatus.active
  is_active_lem m h = ground arith

  active_members-All :
      (ms : List Member)
      → All (λ m. Memᴰ m s) ms
      → All (λ m. Memᴰ m s × (m.status ≡ MemberStatus.active)) (active_members ms)
  unfolding active_members select
  active_members-All [] h = tt
  active_members-All (m ∷ ms) h = elim (Bool-cases (is_active m.status)) [
    | inl e ↦ rw (e, select) ((h.0, is_active_lem m e), active_members-All ms h.1)
    | inr e ↦ rw (e, select) (active_members-All ms h.1)
  ]

All-Memᴰ : (s ms : List Member) → ((m : Member) → Memᴰ m ms → Memᴰ m s) → All (λ m. Memᴰ m s) ms
All-Memᴰ s [] sub = tt
All-Memᴰ s (m ∷ ms) sub = (sub m (Memᴰ.head refl), All-Memᴰ s ms (λ n h. sub n (Memᴰ.tail h)))

module _ {ℓ} (P : Point → Type ℓ) (h : ℕ) where
  first_at_least-All : (ps : List Point) {q : Point} → All P ps → first_at_least h ps ≡ some q → P q
  unfolding first_at_least
  first_at_least-All [] a e = cc
  first_at_least-All (p ∷ ps) {q} a e = elim (Bool-cases (leb h p.hash)) [
    | inl t ↦ let same : p ≡ q = ground arith in subst P same a.0
    | inr t ↦ first_at_least-All ps a.1 (ground arith)
  ]

  or_head-All :
      (o : Option Point) (ps : List Point) {q : Point}
      → All P ps
      → ((r : Point) → o ≡ some r → P r)
      → or_head o ps ≡ some q
      → P q
  unfolding or_head
  or_head-All (some p) ps {q} a f e = f q e
  or_head-All none [] a f e = cc
  or_head-All none (p ∷ ps) {q} a f e = let same : p ≡ q = cc in subst P same a.0

  successor-All : (ps : List Point) {q : Point} → All P ps → successor h ps ≡ some q → P q
  unfolding successor
  successor-All ps a e =
      or_head-All (first_at_least h ps) ps a (λ r. first_at_least-All ps {q = r} a) e

addr_of-some :
    (o : Option Point) {a : Text}
    → addr_of o ≡ some a
    → (q : Point) × (o ≡ some q) × (q.node_addr ≡ a)
addr_of-some none e = cc
addr_of-some (some q) e = (q, refl, cc)

-- The owner of a grain is the address of a row that the snapshot lists as active.
pub owner-active :
    (s : List Member) (id : GrainId) {a : Text}
    → owner (new_view s) id ≡ some a
    → (m : Member) × Memᴰ m s × (m.status ≡ MemberStatus.active) × (m.node_addr ≡ a)
owner-active s id e =
    let hash = hash_parts (id.grain_type ∷ id.grain_key ∷ []) in
    let (q, found, same) = addr_of-some _ (sym (owner-successor s id) ∙ e) in
    let (m, mem, active, addr) =
      successor-All (Stands s) hash (build_points (active_members s))
        (unfold build_points in
          All-sort point_less (Stands s) (points_of (active_members s)) (
            points_of-Stands s (active_members s)
              (active_members-All s s (All-Memᴰ s s (λ m h. h)))))
        found in
    (m, mem, active, addr ∙ same)

insert-ne-nil : (p : Point) (ps : List Point) → insert point_less p ps ≢ []
unfolding insert
insert-ne-nil p [] = ground arith
insert-ne-nil p (q ∷ ps) = ground arith

build_points-nil : (ms : List Member) → build_points ms ≡ [] → ms ≡ []
unfolding build_points points_of member_points sort
build_points-nil [] e = refl
build_points-nil (m ∷ ms) e = absurd (insert-ne-nil _ _ e)

successor-nil : (h : ℕ) (ps : List Point) → addr_of (successor h ps) ≡ none → ps ≡ []
unfolding successor
successor-nil h [] e = refl
successor-nil h (p ∷ ps) e = ground arith

-- There is no owner exactly when the snapshot has no active row.
pub owner-none_iff :
    (s : List Member) (id : GrainId) → (owner (new_view s) id ≡ none) ↔ (active_members s ≡ [])
owner-none_iff s id = (
  λ e.
      build_points-nil (active_members s)
        (successor-nil _ (build_points (active_members s)) (sym (owner-successor s id) ∙ e)),
  λ e.
      owner-successor s id
      ∙ rw e (unfold build_points points_of sort successor first_at_least in refl),
)
