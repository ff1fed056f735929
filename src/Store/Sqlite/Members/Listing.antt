-- ===== src/Store/Sqlite/Members/Listing.antt =====
-- What SQLite.ListMembers reads of a row (store/member_sqlite.go).
use gor.Prelude.{All, Text, Bool, some, Map, get, ◌≡◌, sym, ap}
use gor.Store.{ok, Time, SuspectVote, Member, MemberId, MemberId-discrete}
use gor.Store.Keyed.{Distinct}
use gor.Store.Members.{key_for_member}
use gor.Store.Sqlite.Members.{VoteCodec, MemberRow, member_row, member_of}
use gor.Store.Sqlite.Reminders.{time_from_value}
use gor.Store.Sqlite.Members.Votes.{
  Documented, IsSendable, IsUnixNano, decode_suspect_votes-encode, time_from_value-time_value,
}
use gor.Store.Sqlite.Members.Refinement.{Same}

-- A row of a table with the rows of a memory store, on encoding/json as documented, with names in UTF-8
-- and times in the range of UnixNano, is listed as the
-- memory store's row, with the same vote of each voter.
pub member_of-Same :
    (json : VoteCodec) (valid_utf8 : Text → Bool)
    → Documented json valid_utf8
    → (id : MemberId) (r : MemberRow) (m : Member) → key_for_member m ≡ id
    → Distinct MemberId-discrete m.suspect_votes
    → All (IsSendable valid_utf8) m.suspect_votes
    → IsUnixNano m.iam_alive_at
    → Same json (some r) (some m)
    → (votes : Map MemberId SuspectVote) × (member_of json (id, r)
        ≡ ok (record m { suspect_votes = votes }))
      × ((voter : MemberId)
          → get MemberId-discrete voter votes ≡ get MemberId-discrete voter m.suspect_votes)
unfolding member_of member_row key_for_member time_from_value
member_of-Same json valid_utf8 doc id r m own d plain range (text, encoded, row, z) =
    let (votes, decoded, same) =
      decode_suspect_votes-encode json valid_utf8 doc m.suspect_votes text plain d encoded in
    (
      votes,
      rw (row, sym own, decoded)
          (ap (λ (x : Time). ok (record m { suspect_votes = votes; iam_alive_at = x }))
            (time_from_value-time_value m.iam_alive_at range)),
      same,
    )
