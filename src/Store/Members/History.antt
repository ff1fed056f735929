-- ===== src/Store/Members/History.antt =====
-- The membership table as its clients see it: for each member the list of accepted rows, newest first. A
-- version is the number of them, modulo 2 ^ 64.
use gor.Prelude.{
  ◌%◌, ◌^◌, Option, none, some, List, [], ◌∷◌, ◌≡◌, arith, ite, ℕ_discrete, ap, refl, ◌∙◌, ap₂, get,
  length,
}
use gor.Store.{
  ETag, next_etag, Error, conflict, Result, ok, err, Member, MemberId, MemberId-discrete,
  MemberSnapshot, Memory, Time, new_memory,
}
use gor.Store.Keyed.{find_row}
use gor.Store.Members.{key_for_member, current_etag, etag_of, write_member, list_members}
use gor.Store.Members.Cas.{
  member_at, write_member_ok, member_at-write_member, write_member_conflict,
}
use gor.Store.Members.Listing.{IsTable, list_members_lem, write_member-IsTable, new_memory-IsTable}

pub record WriteCall : Type 0 where
  pub ctx_err : Option Error
  pub member : Member

abbrev pub History : Type 0
History = MemberId → List Member

abbrev pub version : List Member → ETag
version h = length h % 2 ^ 64

-- The row of the table: the newest accepted one, with its version.
abbrev pub latest : List Member → Option Member
latest [] = none
latest (row ∷ h) = some (record row { etag = version (row ∷ h) })

-- What the interface promises of WriteMember.
unfoldable pub promised_write : Option Error → Member → History → Result ETag × History
promised_write (some e) row h = (err e, h)
promised_write none row h =
    ite (ℕ_discrete (version (h (key_for_member row))) row.etag)
      (
        ok (version (row ∷ h (key_for_member row))),
        λ j. ite (MemberId-discrete (key_for_member row) j) (row ∷ h (key_for_member row)) (h j),
      )
      (err conflict, h)

unfoldable pub run_writes : List WriteCall → Memory → List (Result ETag) × Memory
unfolding write_member
run_writes [] m = ([], m)
run_writes (c ∷ cs) m =
    let (r, m') = write_member c.ctx_err c.member m in
    let (rs, m'') = run_writes cs m' in (r ∷ rs, m'')

unfoldable pub run_promised : List WriteCall → History → List (Result ETag) × History
unfolding promised_write
run_promised [] h = ([], h)
run_promised (c ∷ cs) h =
    let (r, h') = promised_write c.ctx_err c.member h in
    let (rs, h'') = run_promised cs h' in (r ∷ rs, h'')

pub record Refines (m : Memory) (h : History) : Type 0 where
  pub rows : (id : MemberId) → member_at id m ≡ latest (h id)
  pub table : IsTable m

version-latest : (l : List Member) → etag_of (latest l) ≡ version l
version-latest [] = refl
version-latest (row ∷ l) = refl

version-next : (row : Member) (l : List Member) → next_etag (version l) ≡ version (row ∷ l)
unfolding next_etag
version-next row l = omega arith

module _ (row : Member) (m : Memory) (h : History) (r : Refines m h) where
  abbrev id : MemberId
  id = key_for_member row

  current : current_etag id m ≡ version (h id)
  unfolding current_etag member_at
  current = ap etag_of (r.rows id) ∙ version-latest (h id)

  same_result : (write_member none row m).0 ≡ (promised_write none row h).0
  unfolding promised_write
  same_result = elim (ℕ_discrete (version (h id)) row.etag) [
    | yes p ↦ ground (arith, write_member_ok row m, current, version-next row (h id))
    | no p ↦ ground (arith, write_member_conflict row m, current)
  ]

  same_rows :
      (j : MemberId)
      → member_at j (write_member none row m).1 ≡ latest ((promised_write none row h).1 j)
  unfolding promised_write
  same_rows j = elim (ℕ_discrete (version (h id)) row.etag) [
    | yes p ↦
        ground (arith, member_at-write_member row m j, current, r.rows j, version-next row (h id))
    | no p ↦ ground (arith, write_member_conflict row m, current, r.rows j)
  ]

write_member-Refines :
    (ctx : Option Error) (row : Member) (m : Memory) (h : History)
    → Refines m h
    → ((write_member ctx row m).0 ≡ (promised_write ctx row h).0)
      × Refines (write_member ctx row m).1 (promised_write ctx row h).1
unfolding promised_write
write_member-Refines (some e) row m h r = unfold write_member in (refl, r)
write_member-Refines none row m h r = (
  same_result row m h r,
  record { rows = same_rows row m h r; table = write_member-IsTable none row m r.table },
)

run-Refines :
    (cs : List WriteCall) (m : Memory) (h : History)
    → Refines m h
    → ((run_writes cs m).0 ≡ (run_promised cs h).0)
      × Refines (run_writes cs m).1 (run_promised cs h).1
unfolding run_writes run_promised
run-Refines [] m h r = (refl, r)
run-Refines (c ∷ cs) m h r =
    let (e, r') = write_member-Refines c.ctx_err c.member m h r in
    let (es, r'') = run-Refines cs _ _ r' in (ap₂ ◌∷◌ e es, r'')

-- From an empty table, any sequence of WriteMember calls (canceled, stale, for several members)
-- gives the results of the history specification, and a ListMembers then succeeds and lists for each
-- member the last row of its history, with the number of accepted writes, modulo 2 ^ 64, as its
-- ETag, and no row of a member without one.
pub run_members-Refines :
    (cs : List WriteCall) (now : Time)
    → ((run_writes cs (new_memory now)).0 ≡ (run_promised cs (λ _. [])).0)
      × ((s : MemberSnapshot) × (list_members none (run_writes cs (new_memory now)).1 ≡ ok s)
          × ((id : MemberId)
              → find_row MemberId-discrete key_for_member id s.members
                ≡ latest ((run_promised cs (λ _. [])).1 id)))
unfolding new_memory member_at get
run_members-Refines cs now =
    let (e, r) =
      run-Refines cs (new_memory now) (λ _. [])
        (record { rows = λ id. refl; table = new_memory-IsTable now }) in
    let (s, listed, found, time) = list_members_lem (run_writes cs (new_memory now)).1 r.table in
    (e, (s, listed, λ id. found id ∙ r.rows id))
