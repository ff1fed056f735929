-- ===== src/Store/Members/Cas.antt =====
-- Compare-and-swap of Memory.WriteMember (store/member.go).
use gor.Prelude.{Option, none, some, ◌≡◌, ◌≢◌, arith, get, get-put, ite}
use gor.Store.{next_etag, conflict, ok, err, Member, MemberId, MemberId-discrete, Memory}
use gor.Store.Members.{key_for_member, current_etag, write_member}

-- m.members[id]
unfoldable pub member_at : MemberId → Memory → Option Member
member_at id m = get MemberId-discrete id m.members

module _ (row : Member) (m : Memory) where
  pub write_member_ok :
      current_etag (key_for_member row) m ≡ row.etag
      → (write_member none row m).0 ≡ ok (next_etag row.etag)
  unfolding write_member
  write_member_ok h = ground arith

  pub member_at-write_member :
      (j : MemberId)
      → current_etag (key_for_member row) m ≡ row.etag
      → member_at j (write_member none row m).1
        ≡ ite
            (MemberId-discrete (key_for_member row) j)
            (some (record row { etag = next_etag row.etag }))
            (member_at j m)
  unfolding write_member member_at
  member_at-write_member j h = ground (
    arith,
    get-put MemberId-discrete j (key_for_member row) (record row { etag = next_etag row.etag })
        m.members,
  )

  pub write_member_conflict :
      current_etag (key_for_member row) m ≢ row.etag → write_member none row m ≡ (err conflict, m)
  unfolding write_member
  write_member_conflict h = ground arith
