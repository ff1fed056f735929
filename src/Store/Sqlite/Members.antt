-- ===== src/Store/Sqlite/Members.antt =====
-- The membership rows of the SQLite store: store/member_sqlite.go, and the votes' column of
-- store/member.go. The column of the status holds the string of a status. encoding/json is an argument.
-- Scan of a row does not fail.
pub mod Votes
pub mod Refinement
pub mod Listing
use gor.Prelude.{
  ℕ, ◌+◌, Option, none, some, Bool, List, [], ◌∷◌, Map, get, put, map, sort, by_field, ite, Text,
  Text-discrete, text_less, ℤ, ◌==◌,
}
use gor.Store.{
  ETag, next_etag, Error, Result, ok, err, Time, Member, MemberId, MemberId-discrete, MemberStatus,
  MemberSnapshot, SuspectVote,
}
use gor.Store.Members.{key_for_member}
use gor.Store.Sqlite.{Table, one_row}
use gor.Store.Sqlite.Cas.{cas_statement}
use gor.Store.Sqlite.Reminders.{time_value, time_from_value}

pub record SuspectVoteValue : Type 0 where
  pub node_addr : Text
  pub generation : Text
  pub expires_at : ℤ

-- json.Marshal and json.Unmarshal of the values.
pub record VoteCodec : Type 0 where
  pub marshal : List SuspectVoteValue → Result Text
  pub unmarshal : Text → Result (List SuspectVoteValue)

unfoldable pub vote_value : MemberId × SuspectVote → SuspectVoteValue
unfolding time_value
vote_value (id, vote) = record {
  node_addr = id.node_addr;
  generation = id.generation;
  expires_at = time_value vote.expires_at;
}

unfoldable pub vote_value_less : SuspectVoteValue → SuspectVoteValue → Bool
unfolding by_field
vote_value_less =
    by_field Text-discrete text_less (λ v. v.node_addr) (λ a b. text_less a.generation b.generation)

unfoldable pub voter_of : SuspectVoteValue → MemberId
voter_of v = record { node_addr = v.node_addr; generation = v.generation }

unfoldable pub vote_of : SuspectVoteValue → SuspectVote
unfolding time_from_value
vote_of v = record { expires_at = time_from_value v.expires_at }

-- The loop of decodeSuspectVotes.
unfoldable pub collect_votes :
    List SuspectVoteValue → Map MemberId SuspectVote → Map MemberId SuspectVote
unfolding voter_of vote_of
collect_votes [] votes = votes
collect_votes (v ∷ vs) votes =
    collect_votes vs (put MemberId-discrete (voter_of v) (vote_of v) votes)

abbrev pub and_then {ℓ κ} : {A : Type ℓ} {B : Type κ} → Result A → (A → Result B) → Result B
and_then (ok a) next = next a
and_then (err e) next = err e

-- A row of the table member, behind its key.
pub record MemberRow : Type 0 where
  pub status : MemberStatus
  pub iam_alive_at : ℤ
  pub suspect_votes : Text
  pub etag : ETag

unfoldable pub member_row : Member → Text → ETag → MemberRow
unfolding time_value
member_row member votes etag = record {
  status = member.status;
  iam_alive_at = time_value member.iam_alive_at;
  suspect_votes = votes;
  etag = etag;
}

unfoldable pub key_less : MemberId × MemberRow → MemberId × MemberRow → Bool
unfolding by_field
key_less =
    by_field Text-discrete text_less (λ e. e.0.node_addr)
      (λ a b. text_less a.0.generation b.0.generation)

module _ (json : VoteCodec) where
  -- encodeSuspectVotes, decodeSuspectVotes
  unfoldable pub encode_suspect_votes : Map MemberId SuspectVote → Result Text
  unfolding vote_value sort vote_value_less
  encode_suspect_votes votes = json.marshal (sort vote_value_less (map vote_value votes))

  unfoldable pub decode_suspect_votes : Text → Result (Map MemberId SuspectVote)
  unfolding collect_votes
  decode_suspect_votes [] = ok []
  decode_suspect_votes (b ∷ bs) =
      and_then (json.unmarshal (b ∷ bs)) (λ values. ok (collect_votes values []))

  unfoldable pub member_of : MemberId × MemberRow → Result Member
  unfolding decode_suspect_votes time_from_value
  member_of (id, row) = and_then (decode_suspect_votes row.suspect_votes) (λ votes. ok (record {
    node_addr = id.node_addr;
    generation = id.generation;
    status = row.status;
    iam_alive_at = time_from_value row.iam_alive_at;
    suspect_votes = votes;
    etag = row.etag;
  }))

  unfoldable pub scan_rows : Map MemberId MemberRow → Result (List Member)
  unfolding member_of
  scan_rows [] = ok []
  scan_rows (row ∷ rows) =
      let rest = scan_rows rows in
      and_then (member_of row) (λ member. and_then rest (λ members. ok (member ∷ members)))

  -- ListMembers, over the rows of the table in any order; `rows_err` is the error of rows.Err.
  unfoldable pub sqlite_list_members :
      Option Error → Option Error → Time → Map MemberId MemberRow → Result MemberSnapshot
  unfolding scan_rows sort key_less
  sqlite_list_members (some e) rows_err now rows = err e
  sqlite_list_members none (some e) now rows =
      and_then (scan_rows (sort key_less rows)) (λ members. err e)
  sqlite_list_members none none now rows =
      and_then (scan_rows (sort key_less rows))
        (λ members. ok (record { members = members; table_now = now }))

  module _ (t : Table MemberId MemberRow) where
    -- The two statements of WriteMember.
    unfoldable pub member_statement : Member → Text → t.Contents → ℕ × t.Contents
    unfolding cas_statement member_row key_for_member
    member_statement member votes c =
        cas_statement t (λ row. row.etag) (key_for_member member) (member_row member votes 1)
          (λ row. member_row member votes (row.etag + 1)) member.etag c

    -- WriteMember, behind the encoding of the votes.
    unfoldable pub executed :
        Option Error → Option Error → Member → t.Contents → Result Text → Result ETag × t.Contents
    unfolding member_statement
    executed exec_err count_err member c (err e) = (err e, c)
    executed (some e) count_err member c (ok votes) = (err e, c)
    executed none count_err member c (ok votes) =
        one_row count_err (next_etag member.etag) (member_statement member votes c)

    unfoldable pub sqlite_write_member :
        Option Error → Option Error → Member → t.Contents → Result ETag × t.Contents
    unfolding encode_suspect_votes executed
    sqlite_write_member exec_err count_err member c =
        executed exec_err count_err member c (encode_suspect_votes member.suspect_votes)
