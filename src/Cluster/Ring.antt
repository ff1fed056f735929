-- ===== src/Cluster/Ring.antt =====
-- The ownership view of cluster/cluster.go: a hash ring with 128 virtual points for each active member.
pub mod Order
pub mod Agreement
pub mod Search
pub mod Ownership
use gor.Prelude.{
  ℕ, zero, suc, ◌<◌, ◌+◌, ◌-◌, ◌/◌, Option, none, some, Bool, true, false, not, List, [], ◌∷◌, ◌++◌,
  ite, ltb, leb, sort, by_field, map, Text, Text-discrete, text_less, ℕ_discrete, get_elem?, length,
  itoa, if◌then◌else◌, select, ◌==◌,
}
use gor.Store.{GrainId, Member, MemberId}
use gor.Cluster.Hash.{hash_parts}
use gor.Cluster.Members.{active_members, active_member_ids}

abbrev pub virtual_point_count : ℕ
virtual_point_count = 128

pub record Point : Type 0 where
  pub hash : ℕ
  pub node_addr : Text
  pub generation : Text
  pub sequence : ℕ

pub record View : Type 0 where
  pub points : List Point
  pub members : List MemberId

-- The comparison that buildPoints sorts by, from its last test to its first.
unfoldable pub generation_less : Point → Point → Bool
unfolding by_field
generation_less =
    by_field Text-discrete text_less (λ p. p.generation) (λ a b. ltb a.sequence b.sequence)

unfoldable pub addr_less : Point → Point → Bool
unfolding by_field generation_less
addr_less = by_field Text-discrete text_less (λ p. p.node_addr) generation_less

unfoldable pub point_less : Point → Point → Bool
unfolding by_field addr_less
point_less = by_field ℕ_discrete ltb (λ p. p.hash) addr_less

unfoldable pub point_of : Member → ℕ → Point
point_of m sequence = record {
  hash = hash_parts (m.node_addr ∷ m.generation ∷ itoa sequence ∷ []);
  node_addr = m.node_addr;
  generation = m.generation;
  sequence = sequence;
}

-- The inner loop, from `sequence` for `count` more rounds.
unfoldable pub member_points : Member → ℕ → ℕ → List Point
unfolding point_of
member_points m sequence zero = []
member_points m sequence (suc count) = point_of m sequence ∷ member_points m (suc sequence) count

unfoldable pub points_of : List Member → List Point
unfolding member_points
points_of [] = []
points_of (m ∷ ms) = member_points m 0 virtual_point_count ++ points_of ms

unfoldable pub build_points : List Member → List Point
unfolding points_of sort point_less
build_points members = sort point_less (points_of members)

unfoldable pub new_view : List Member → View
unfolding build_points active_members active_member_ids
new_view snapshot = record {
  points = build_points (active_members snapshot);
  members = active_member_ids (active_members snapshot);
}

-- sort.Search: the binary search for the least index at which the test holds.
unfoldable pub search_from : ℕ → ℕ → ℕ → (ℕ → Bool) → ℕ
search_from zero i j f = i
search_from (suc fuel) i j f =
    let h = (i + j) / 2 in
    let left = search_from fuel i h f in
    let right = search_from fuel (h + 1) j f in if ltb i j then (if f h then left else right) else i

unfoldable pub search_index : ℕ → (ℕ → Bool) → ℕ
unfolding search_from
search_index n f = search_from (n + 1) 0 n f

-- view.points[i].hash >= identityHash; the index is in range where the code reads it.
abbrev pub at_least : ℕ → Option Point → Bool
at_least h none = false
at_least h (some p) = leb h p.hash

abbrev pub addr_of : Option Point → Option Text
addr_of none = none
addr_of (some p) = some p.node_addr

unfoldable pub owner_of_hash : List Point → ℕ → Option Text
unfolding search_index
owner_of_hash [] h = none
owner_of_hash (p ∷ ps) h =
    let points = p ∷ ps in
    let index = search_index (length points) (λ i. at_least h (get_elem? points i)) in
    addr_of (get_elem? points (if index == length points then 0 else index))

-- Owner; none stands for "", false.
unfoldable pub owner : View → GrainId → Option Text
unfolding owner_of_hash
owner view id = owner_of_hash view.points (hash_parts (id.grain_type ∷ id.grain_key ∷ []))
