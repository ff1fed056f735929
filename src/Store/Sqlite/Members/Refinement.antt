-- ===== src/Store/Sqlite/Members/Refinement.antt =====
-- SQLite.WriteMember beside Memory.WriteMember (store/member_sqlite.go).
use gor.Prelude.{
  ◌+◌, ◌-◌, ◌^◌, ◌<◌, Option, none, some, List, [], ◌∷◌, Text, ◌≡◌, ◌≢◌, refl, sym, ap, ap₂, subst,
  ◌∙◌, ite, ℕ_discrete, arith, All,
}
use mathlib.Core.Logic.{if_pos, if_neg}
use gor.Store.{ETag, next_etag, Error, Result, ok, Member, MemberId, MemberId-discrete, Memory}
use gor.Store.Members.{key_for_member, current_etag, etag_of, write_member}
use gor.Store.Members.Cas.{
  member_at, write_member_ok, member_at-write_member, write_member_conflict,
}
use gor.Store.Sqlite.{Table, IsTable}
use gor.Store.Sqlite.Cas.{cas_count, cas_row, hits, swapped, etag_of_row, IsPositive, changed}
use gor.Store.Sqlite.Members.{
  VoteCodec, MemberRow, member_row, encode_suspect_votes, member_statement, executed,
  sqlite_write_member,
}

pub record MemberCall : Type 0 where
  pub exec_err : Option Error
  pub member : Member

module _ (json : VoteCodec) where
  -- A row of SQLite and a row of Memory.
  abbrev pub Same : Option MemberRow → Option Member → Type 0
  Same none none = Unit
  Same none (some m) = ⊥
  Same (some r) none = ⊥
  Same (some r) (some m) =
      (votes : Text) × (encode_suspect_votes json m.suspect_votes ≡ ok votes)
      × (r ≡ member_row m votes m.etag)
      × (m.etag ≢ 0)

  module _ (t : Table MemberId MemberRow) where
    abbrev pub Holds : t.Contents → Memory → Type 0
    Holds c m = (id : MemberId) → Same (t.row id c) (member_at id m)

    Same-etag :
        (o : Option MemberRow) (p : Option Member)
        → Same o p
        → etag_of_row (λ (r : MemberRow). r.etag) o ≡ etag_of p
    unfolding member_row
    Same-etag none none s = refl
    Same-etag none (some m) s = absurd s
    Same-etag (some r) none s = absurd s
    Same-etag (some r) (some m) (votes, e, row, z) = ap (λ (r : MemberRow). r.etag) row

    Same-IsPositive :
        (o : Option MemberRow) (p : Option Member)
        → Same o p
        → IsPositive (λ (r : MemberRow). r.etag) o
    unfolding member_row
    Same-IsPositive none p s = tt
    Same-IsPositive (some r) none s = absurd s
    Same-IsPositive (some r) (some m) (votes, e, row, z) =
        λ q. z (sym (ap (λ (r : MemberRow). r.etag) row) ∙ q)

    next_small : (e : ETag) → e < 2 ^ 63 - 1 → next_etag e ≡ e + 1
    unfolding next_etag
    next_small e s = omega arith

    module _ (laws : IsTable MemberId-discrete t) (member : Member) (votes : Text)
        (encoded : encode_suspect_votes json member.suspect_votes ≡ ok votes) (c : t.Contents)
        (m : Memory) (h : Holds c m) (small : member.etag < 2 ^ 63 - 1) where
      abbrev key : MemberId
      key = key_for_member member

      abbrev row : Option MemberRow
      row = t.row key c

      row_etag : etag_of_row (λ (r : MemberRow). r.etag) row ≡ current_etag key m
      unfolding current_etag member_at
      row_etag = Same-etag row (member_at key m) (h key)

      executes :
          sqlite_write_member json t none none member c
          ≡ executed json t none none member c (ok votes)
      unfolding sqlite_write_member
      executes = ap (executed json t none none member c) encoded

      count :
          (member_statement json t member votes c).0
          ≡ hits (λ (r : MemberRow). r.etag) member.etag row
      unfolding member_statement
      count =
          cas_count t laws (λ (r : MemberRow). r.etag) key _ _ member.etag c
            (Same-IsPositive row (member_at key m) (h key))

      -- The row of the key behind the statement.
      abbrev swapped_row : Option MemberRow
      swapped_row =
          swapped (λ (r : MemberRow). r.etag) (member_row member votes 1)
            (λ r. member_row member votes (r.etag + 1)) member.etag row

      row_behind :
          (j : MemberId)
          → t.row j (member_statement json t member votes c).1
            ≡ ite (MemberId-discrete key j) swapped_row (t.row j c)
      unfolding member_statement
      row_behind j =
          cas_row t laws (λ (r : MemberRow). r.etag) key _ _ member.etag c
            (Same-IsPositive row (member_at key m) (h key)) j

      new_row :
          (o : Option MemberRow)
          → etag_of_row (λ (r : MemberRow). r.etag) o ≡ member.etag
          → changed
              (λ (r : MemberRow). r.etag)
              (member_row member votes 1)
              (λ r. member_row member votes (r.etag + 1))
              o
            ≡ member_row member votes (next_etag member.etag)
      new_row none e =
          ap (member_row member votes) (ap (λ x. x + 1) e ∙ sym (next_small member.etag small))
      new_row (some r) e =
          ap (member_row member votes) (ap (λ x. x + 1) e ∙ sym (next_small member.etag small))

      statement_hits :
          current_etag key m ≡ member.etag → (member_statement json t member votes c).0 ≡ 1
      statement_hits y = count ∙ if_pos (ℕ_discrete _ member.etag) (row_etag ∙ y) _ _

      statement_misses :
          current_etag key m ≢ member.etag → (member_statement json t member votes c).0 ≡ 0
      statement_misses n = count ∙ if_neg (ℕ_discrete _ member.etag) (λ q. n (sym row_etag ∙ q)) _ _

      same_answer :
          (executed json t none none member c (ok votes)).0 ≡ (write_member none member m).0
      unfolding executed ℕ_discrete
      same_answer = elim (ℕ_discrete (current_etag key m) member.etag) [
        | yes y ↦ rw (statement_hits y) (sym (write_member_ok member m y))
        | no n ↦
            rw (statement_misses n)
              (sym (ap (λ (p : Result ETag × Memory). p.0) (write_member_conflict member m n)))
      ]

      next_positive : next_etag member.etag ≢ 0
      next_positive z = omega (arith, next_small member.etag small, z)

      accepted :
          (j : MemberId)
          → current_etag key m ≡ member.etag
          → Same
              (t.row j (member_statement json t member votes c).1)
              (member_at j (write_member none member m).1)
      accepted j y =
          rw
            (
              row_behind j
                  ∙ ap (λ o. ite (MemberId-discrete key j) o (t.row j c))
                      (if_pos (ℕ_discrete _ member.etag) (row_etag ∙ y) _ _
                        ∙ ap some (new_row row (row_etag ∙ y))),
              member_at-write_member member m j y,
            )
            (elim (MemberId-discrete key j)
              as (λ d.
                Same (ite d (some (member_row member votes (next_etag member.etag))) (t.row j c))
                  (ite d (some (record member { etag = next_etag member.etag })) (member_at j m))) [
                    | yes e ↦ (votes, encoded, unfold member_row in refl, next_positive)
                    | no e ↦ h j
                  ])

      refused :
          (j : MemberId)
          → current_etag key m ≢ member.etag
          → Same
              (t.row j (member_statement json t member votes c).1)
              (member_at j (write_member none member m).1)
      refused j n =
          rw
            (
              row_behind j
                  ∙ ap (λ o. ite (MemberId-discrete key j) o (t.row j c))
                      (if_neg (ℕ_discrete _ member.etag) (λ q. n (sym row_etag ∙ q)) _ _),
              write_member_conflict member m n,
            )
            (elim (MemberId-discrete key j) as (λ d. Same (ite d row (t.row j c)) (member_at j m)) [
              | yes e ↦ subst (λ i. Same (t.row key c) (member_at i m)) e (h key)
              | no e ↦ h j
            ])

      sqlite_write_member-write_member :
          ((sqlite_write_member json t none none member c).0 ≡ (write_member none member m).0)
          × Holds (sqlite_write_member json t none none member c).1 (write_member none member m).1
      unfolding executed
      sqlite_write_member-write_member = (
        ap (λ (p : Result ETag × t.Contents). p.0) executes ∙ same_answer,
        rw executes (λ j. elim (ℕ_discrete (current_etag key m) member.etag) [
          | yes y ↦ accepted j y
          | no n ↦ refused j n
        ]),
      )

    unfoldable pub run_rows : List MemberCall → t.Contents → List (Result ETag) × t.Contents
    unfolding sqlite_write_member
    run_rows [] c = ([], c)
    run_rows (w ∷ ws) c =
        let (r, c') = sqlite_write_member json t w.exec_err none w.member c in
        let (rs, c'') = run_rows ws c' in (r ∷ rs, c'')

    unfoldable pub run_members : List MemberCall → Memory → List (Result ETag) × Memory
    unfolding write_member
    run_members [] m = ([], m)
    run_members (w ∷ ws) m =
        let (r, m') = write_member w.exec_err w.member m in
        let (rs, m'') = run_members ws m' in (r ∷ rs, m'')

    -- The votes have an encoding, and the ETag is below the last that SQLite can count to.
    abbrev pub Fits : MemberCall → Type 0
    Fits w =
        ((votes : Text) × (encode_suspect_votes json w.member.suspect_votes ≡ ok votes))
        × (w.member.etag < 2 ^ 63 - 1)

    call-Holds :
        (laws : IsTable MemberId-discrete t) (exec_err : Option Error) (member : Member)
        (c : t.Contents) (m : Memory)
        → Holds c m
        → Fits (record { exec_err = exec_err; member = member })
        → ((sqlite_write_member json t exec_err none member c).0
            ≡ (write_member exec_err member m).0)
          × Holds
              (sqlite_write_member json t exec_err none member c).1
              (write_member exec_err member m).1
    unfolding sqlite_write_member executed write_member
    call-Holds laws none member c m h ((votes, e), small) =
        sqlite_write_member-write_member laws member votes e c m h small
    call-Holds laws (some x) member c m h ((votes, e), small) =
        rw (ap (executed json t (some x) none member c) e) (refl, h)

    -- On a table that SQLite keeps as documented, with the rows of a memory store, any run of
    -- WriteMember calls whose votes have an encoding and whose ETags are below 2 ^ 63 - 1, stale and
    -- failed ones included, returns what it does on Memory and leaves the same rows.
    pub run_rows-run_members :
        IsTable MemberId-discrete t
        → (ws : List MemberCall) (c : t.Contents) (m : Memory) → Holds c m
        → All Fits ws
        → ((run_rows ws c).0 ≡ (run_members ws m).0) × Holds (run_rows ws c).1 (run_members ws m).1
    unfolding run_rows run_members
    run_rows-run_members laws [] c m h f = (refl, h)
    run_rows-run_members laws (w ∷ ws) c m h f =
        let one = call-Holds laws w.exec_err w.member c m h f.0 in
        let more = run_rows-run_members laws ws _ _ one.1 f.1 in (ap₂ ◌∷◌ one.0 more.0, more.1)
