-- ===== src/Store/Members/Listing.antt =====
-- What Memory.ListMembers lists (store/member.go).
use gor.Prelude.{Option, none, some, ◌≡◌, refl, map, ◌∙◌, put, ite, ℕ_discrete}
use gor.Store.{
  Error, conflict, ETag, next_etag, Result, ok, err, Member, MemberId, MemberId-discrete,
  MemberSnapshot, Memory, Time, new_memory,
}
use gor.Store.Keyed.{
  IsKeyed, find_row, find_row-sort, find_row-rows, rows-DistinctRows, put-IsKeyed,
}
use gor.Store.Members.{
  key_for_member, member_less, sort_members, current_etag, write_member, list_members,
}
use gor.Store.Members.Cas.{member_at}

-- The rows of the member map stand under their own keys, and no key stands twice.
abbrev pub IsTable : Memory → Type 0
IsTable m = IsKeyed MemberId-discrete key_for_member m.members

pub new_memory-IsTable : (now : Time) → IsTable (new_memory now)
unfolding new_memory
new_memory-IsTable now = record { own = tt; distinct = tt }

abbrev accept : Member → Memory → Result ETag × Memory
accept row m = (
  ok (next_etag (current_etag (key_for_member row) m)),
  record m {
    members =
        put MemberId-discrete (key_for_member row)
          (record row { etag = next_etag (current_etag (key_for_member row) m) }) m.members;
  },
)

pub write_member-IsTable :
    (ctx : Option Error) (row : Member) (m : Memory)
    → IsTable m
    → IsTable (write_member ctx row m).1
unfolding write_member key_for_member
write_member-IsTable (some e) row m h = h
write_member-IsTable none row m h =
    elim (ℕ_discrete (current_etag (key_for_member row) m) row.etag)
      as (λ d. IsTable (ite d (accept row m) (err conflict, m)).1) [
        | yes p ↦
            put-IsKeyed MemberId-discrete key_for_member (key_for_member row) _ m.members refl h
        | no p ↦ h
      ]

-- On a well-formed table, the snapshot of ListMembers has for each member id exactly the row of the
-- table, and the table's time.
pub list_members_lem :
    (m : Memory)
    → IsTable m
    → (s : MemberSnapshot) × (list_members none m ≡ ok s)
      × ((id : MemberId) → find_row MemberId-discrete key_for_member id s.members ≡ member_at id m)
      × (s.table_now ≡ m.clock_now)
unfolding list_members member_at sort_members
list_members_lem m h = (
  record { members = sort_members (map (λ e. e.1) m.members); table_now = m.clock_now },
  refl,
  (λ id.
      find_row-sort MemberId-discrete key_for_member member_less id _
        (rows-DistinctRows MemberId-discrete key_for_member m.members h)
      ∙ find_row-rows MemberId-discrete key_for_member id m.members h.own),
  refl,
)
