-- ===== src/Cluster/Probe/Agreement.antt =====
-- The probe ring does not depend on the order of the members (sortProbePoints in cluster/probe.go).
use mathlib.Core.List.Perm
use native.Mathlib.Nat.{ℕ_set}
use gor.Prelude.{
  List, ◌≡◌, refl, ap, Perm, sort-perm, StrictOrder, Tells, by_field-StrictOrder, by_field_tells,
  on-StrictOrder, ltb-StrictOrder, ltb_tells, ℕ_discrete, map, false,
}
use gor.Store.{MemberId}
use gor.Cluster.Members.{member_id_less, member_id_less-StrictOrder, member_id_less_tells}
use gor.Cluster.Probe.{ProbePoint, probe_point, probe_point_less, ring_ids, probe_targets}

probe_point_less-StrictOrder : StrictOrder probe_point_less
unfolding probe_point_less
probe_point_less-StrictOrder =
    by_field-StrictOrder ℕ_discrete (λ (p : ProbePoint). p.hash) ltb-StrictOrder
      (on-StrictOrder (λ (p : ProbePoint). p.id) member_id_less-StrictOrder)

by_hash :
    (a b : ProbePoint)
    → probe_point_less a b ≡ false
    → probe_point_less b a ≡ false
    → (a.hash ≡ b.hash) × (member_id_less a.id b.id ≡ false) × (member_id_less b.id a.id ≡ false)
unfolding probe_point_less
by_hash a b =
    by_field_tells ℕ_discrete (λ (p : ProbePoint). p.hash) (λ a b. member_id_less a.id b.id) a b
      ltb_tells

probe_point_less_tells : Tells probe_point_less
probe_point_less_tells a b p q =
    let h = by_hash a b p q in cc (h.0, member_id_less_tells a.id b.id h.1 h.2)

ProbePoint-set : IsSet ProbePoint
ProbePoint-set = hlevel ℕ_set

pub ring_ids-order : {xs ys : List MemberId} → Perm xs ys → ring_ids xs ≡ ring_ids ys
unfolding ring_ids
ring_ids-order {xs} {ys} p = ap (map (λ (p : ProbePoint). p.id)) (
    sort-perm probe_point_less-StrictOrder probe_point_less_tells ProbePoint-set
      {xs = map probe_point xs} {ys = map probe_point ys} (Perm.map probe_point p))

pub probe_targets-order :
    (self : MemberId) {xs ys : List MemberId}
    → Perm xs ys
    → probe_targets ys self ≡ probe_targets xs self
unfolding probe_targets
probe_targets-order self p = rw (ring_ids-order p) refl
