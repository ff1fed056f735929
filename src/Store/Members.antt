-- ===== src/Store/Members.antt =====
-- Memory.WriteMember and Memory.ListMembers of store/member.go.
pub mod Cas
pub mod Listing
pub mod History
use gor.Prelude.{
  ℕ, Option, none, some, Bool, false, List, [], ◌∷◌, Map, get, put, ite, ℕ_discrete, sort, by_field,
  Text, Text-discrete, text_less, map,
}
use gor.Store.{
  ETag, next_etag, Error, conflict, Result, ok, err, Member, MemberId, MemberId-discrete,
  MemberSnapshot, Memory,
}

-- keyForMember: memberKey has the fields of MemberId.
unfoldable pub key_for_member : Member → MemberId
key_for_member m = record { node_addr = m.node_addr; generation = m.generation }

-- The ETag of m.members[key], which is the zero Member's where the key is missing.
abbrev pub etag_of : Option Member → ETag
etag_of none = 0
etag_of (some m) = m.etag

unfoldable pub current_etag : MemberId → Memory → ETag
current_etag id m = etag_of (get MemberId-discrete id m.members)

unfoldable pub write_member : Option Error → Member → Memory → Result ETag × Memory
unfolding current_etag key_for_member
write_member (some e) member m = (err e, m)
write_member none member m =
    let id = key_for_member member in
    let current = current_etag id m in
    ite (ℕ_discrete current member.etag)
      (
        ok (next_etag current),
        record m {
          members = put MemberId-discrete id (record member { etag = next_etag current }) m.members;
        },
      )
      (err conflict, m)

-- The order of sortMembers. The key tells all rows of the map apart.
unfoldable pub member_less : Member → Member → Bool
unfolding by_field
member_less =
    by_field Text-discrete text_less (λ m. m.node_addr) (λ a b. text_less a.generation b.generation)

unfoldable pub sort_members : List Member → List Member
unfolding sort
sort_members = sort member_less

unfoldable pub list_members : Option Error → Memory → Result MemberSnapshot
unfolding sort_members
list_members (some e) m = err e
list_members none m =
    ok (record { members = sort_members (map (λ e. e.1) m.members); table_now = m.clock_now })
