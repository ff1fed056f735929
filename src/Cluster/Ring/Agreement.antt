-- ===== src/Cluster/Ring/Agreement.antt =====
-- Nodes that see the same active members compute the same view.
use gor.Prelude.{
  ℕ, zero, suc, ◌≡◌, refl, ap, ap₂, List, [], ◌∷◌, ◌++◌, map, Perm, sort-perm, select_idem, itoa,
}
use mathlib.Core.Logic.{∥∥₁_elim, ∥∥₁_prop}
use mathlib.Core.List.{Permᴰ, append_assoc, perm_append_comm}
use mathlib.Core.List.Perm
use native.Mathlib.Nat.{ℕ_set}
use gor.Cluster.Hash.{hash_parts}
use gor.Store.{Member, MemberId, GrainId}
use gor.Cluster.Members.{
  active_members, active_member_ids, member_id, member_id_less-StrictOrder, member_id_less_tells,
}
use gor.Cluster.Ring.{
  Point, new_view, build_points, points_of, member_points, point_of, owner, virtual_point_count,
}
use gor.Cluster.Ring.Order.{point_less-StrictOrder, point_less_tells, Point-set}

-- The points as a function of the member ids alone.
id_points_from : MemberId → ℕ → ℕ → List Point
id_points_from id sequence zero = []
id_points_from id sequence (suc count) =
    record {
      hash = hash_parts (id.node_addr ∷ id.generation ∷ itoa sequence ∷ []);
      node_addr = id.node_addr;
      generation = id.generation;
      sequence = sequence;
    }
    ∷ id_points_from id (suc sequence) count

id_points : List MemberId → List Point
id_points [] = []
id_points (id ∷ ids) = id_points_from id 0 virtual_point_count ++ id_points ids

member_points-id :
    (m : Member) (sequence count : ℕ)
    → member_points m sequence count ≡ id_points_from (member_id m) sequence count
unfolding member_points id_points_from member_id point_of
member_points-id m sequence zero = refl
member_points-id m sequence (suc count) =
    ap (◌∷◌ (point_of m sequence)) (member_points-id m (suc sequence) count)

points_of-id : (ms : List Member) → points_of ms ≡ id_points (map member_id ms)
unfolding points_of id_points
points_of-id [] = refl
points_of-id (m ∷ ms) = ap₂ ◌++◌ (member_points-id m 0 virtual_point_count) (points_of-id ms)

-- b ++ (a ++ l) is a ++ (b ++ l) in another order.
perm-swap_append {ℓ} : {A : Type ℓ} (a b l : List A) → Perm (a ++ (b ++ l)) (b ++ (a ++ l))
perm-swap_append a b l =
    rw (← append_assoc a b l, ← append_assoc b a l)
      (Perm.append (perm_append_comm a b) (Perm.refl l))

id_points-perm : {xs ys : List MemberId} → Permᴰ xs ys → Perm (id_points xs) (id_points ys)
unfolding id_points
id_points-perm Permᴰ.nil = Perm.refl []
id_points-perm (Permᴰ.cons {a = a} {l₁ = xs} e p) =
    rw (← e) (Perm.append (Perm.refl (id_points_from a 0 virtual_point_count)) (id_points-perm p))
id_points-perm (Permᴰ.swap {a = a} {b = b} {l = l} e f) =
    rw (← e, ← f)
      (perm-swap_append (id_points_from a 0 virtual_point_count)
        (id_points_from b 0 virtual_point_count) (id_points l))
id_points-perm (Permᴰ.trans p q) = Perm.trans (id_points-perm p) (id_points-perm q)

MemberId-set : IsSet MemberId
MemberId-set = hlevel ℕ_set

active_members_idem : (s : List Member) → active_members (active_members s) ≡ active_members s
unfolding active_members
active_members_idem s = select_idem _ s

-- Snapshots whose active rows name the same members, in any order and with any heartbeat times,
-- votes, versions and inactive rows, give the same view, and so the same owner of every grain.
pub new_view-perm :
    (s t : List Member)
    → Perm (map member_id (active_members s)) (map member_id (active_members t))
    → (new_view s ≡ new_view t) × ((id : GrainId) → owner (new_view s) id ≡ owner (new_view t) id)
unfolding new_view
new_view-perm s t p = (same, λ id. ap (λ v. owner v id) same)
  where
    same_points : build_points (active_members s) ≡ build_points (active_members t)
    same_points =
        unfold build_points in
        sort-perm point_less-StrictOrder point_less_tells Point-set
          {xs = points_of (active_members s)} {ys = points_of (active_members t)}
          (rw (points_of-id (active_members s), points_of-id (active_members t))
            (∥∥₁_elim p ∥∥₁_prop id_points-perm))

    same_members : active_member_ids (active_members s) ≡ active_member_ids (active_members t)
    same_members =
        unfold active_member_ids in
        rw (active_members_idem s) (
          rw (active_members_idem t)
            (sort-perm member_id_less-StrictOrder member_id_less_tells MemberId-set p))

    same : new_view s ≡ new_view t
    same = ap₂ (λ ps ms. record { points = ps; members = ms }) same_points same_members
