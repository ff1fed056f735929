-- ===== src/Cluster/Members.antt =====
-- The shared member functions of cluster/probe.go and cluster/node.go.
use gor.Prelude.{
  ℕ, suc, Option, none, some, Bool, true, false, List, [], ◌∷◌, ite, select, sort, by_field, map,
  Text-discrete, text_less, StrictOrder, Tells, by_field-StrictOrder, by_field_tells,
  on-StrictOrder, text_less-StrictOrder, text_less_tells,
}
use gor.Store.{Member, MemberId, MemberId-discrete, MemberStatus, joining, active, dead}

-- memberIDLess
unfoldable pub member_id_less : MemberId → MemberId → Bool
unfolding by_field
member_id_less =
    by_field Text-discrete text_less (λ m. m.node_addr) (λ a b. text_less a.generation b.generation)

-- The MemberId literal of a row.
unfoldable pub member_id : Member → MemberId
member_id m = record { node_addr = m.node_addr; generation = m.generation }

abbrev pub is_active : MemberStatus → Bool
is_active joining = false
is_active active = true
is_active dead = false

-- The rows that the loop of NewView and of activeMemberIDs keeps.
unfoldable pub active_members : List Member → List Member
unfolding select
active_members = select (λ m. is_active m.status)

-- activeMemberIDs
unfoldable pub active_member_ids : List Member → List MemberId
unfolding active_members member_id sort member_id_less
active_member_ids members = sort member_id_less (map member_id (active_members members))

-- memberIndex; none is -1.
unfoldable pub member_index : List Member → MemberId → Option ℕ
unfolding member_id
member_index [] target = none
member_index (m ∷ ms) target =
    let rest = member_index ms target in
    ite (MemberId-discrete (member_id m) target) (some 0)
      (elim rest [ none ↦ none | some i ↦ some (suc i) ])

-- members[memberIndex(members, target)]
unfoldable pub find_member : List Member → MemberId → Option Member
unfolding member_id
find_member [] target = none
find_member (m ∷ ms) target =
    let rest = find_member ms target in ite (MemberId-discrete (member_id m) target) (some m) rest

pub member_id_less-StrictOrder : StrictOrder member_id_less
unfolding member_id_less
member_id_less-StrictOrder =
    by_field-StrictOrder Text-discrete (λ (m : MemberId). m.node_addr) text_less-StrictOrder
      (on-StrictOrder (λ (m : MemberId). m.generation) text_less-StrictOrder)

pub member_id_less_tells : Tells member_id_less
unfolding member_id_less
member_id_less_tells a b p q =
    let t =
      by_field_tells Text-discrete (λ (m : MemberId). m.node_addr)
        (λ a b. text_less a.generation b.generation) a b text_less_tells p q in
    cc (t.0, text_less_tells a.generation b.generation t.1 t.2)
