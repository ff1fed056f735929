-- ===== src/Tests/Ring.antt =====
-- A ring of two nodes.
use mathlib.Core.List.Perm
use gor.Prelude.{some, [], ◌∷◌, ◌≡◌, refl, pos, bytes, select, ℕ_discrete, itoa}
use gor.Store.{GrainId, Member, MemberStatus}
use gor.Cluster.Hash.{hash_parts}
use gor.Cluster.Members.{active_members, member_id}
use gor.Cluster.Ring.{new_view, owner, build_points, addr_of}
use gor.Cluster.Ring.Agreement.{new_view-perm}
use gor.Cluster.Ring.Ownership.{successor, owner-successor}
use gor.Tests.Store.{cart}

abbrev pub node_a : Member
node_a = record {
  node_addr = bytes "a:1";
  generation = bytes "g";
  status = MemberStatus.active;
  iam_alive_at = pos 4;
  suspect_votes = [];
  etag = 1;
}

abbrev pub node_b : Member
node_b = record node_a { node_addr = bytes "b:1"; iam_alive_at = pos 9 }

new_view-perm_example :
    (new_view (node_a ∷ node_b ∷ []) ≡ new_view (node_b ∷ node_a ∷ []))
    × ((id : GrainId)
        → owner (new_view (node_a ∷ node_b ∷ [])) id ≡ owner (new_view (node_b ∷ node_a ∷ [])) id)
new_view-perm_example =
    new_view-perm (node_a ∷ node_b ∷ []) (node_b ∷ node_a ∷ [])
      (unfold active_members member_id select in Perm.swap (member_id node_b) (member_id node_a) [])

owner-successor_example :
    owner (new_view (node_a ∷ node_b ∷ [])) cart
    ≡ addr_of (
        successor
          (hash_parts (cart.grain_type ∷ cart.grain_key ∷ []))
          (build_points (active_members (node_a ∷ node_b ∷ []))))
owner-successor_example = owner-successor (node_a ∷ node_b ∷ []) cart

owned_by_a : owner (new_view (node_a ∷ [])) cart ≡ some (bytes "a:1")
unfolding owner new_view ℕ_discrete hash_parts itoa
owned_by_a = refl
