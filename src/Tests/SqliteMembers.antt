-- ===== src/Tests/SqliteMembers.antt =====
-- The membership rows of SQLite, with a codec that reads its lists back.
use gor.Prelude.{
  true, All, ◌-ℤ◌, ℕ, zero, suc, none, List, [], ◌∷◌, ◌++◌, Map, get, Text, ◌≡◌, ◌≢◌, refl, pos, ℤ,
  negsuc, arith, ap, subst, Text-discrete, length, take, drop, take-append, drop-append,
}
use gor.Store.{
  Result, ok, err, Member, MemberId, MemberId-discrete, SuspectVote, new_memory, conflict,
}
use gor.Store.Keyed.{Distinct}
use gor.Store.Members.Cas.{member_at}
use gor.Tests.Ring.{node_a}
use gor.Tests.Probes.{id_a, id_b}
use gor.Store.Sqlite.Rows.{table, table-IsTable}
use gor.Store.Sqlite.Members.{
  VoteCodec, SuspectVoteValue, encode_suspect_votes, decode_suspect_votes,
}
use gor.Store.Sqlite.Members.Votes.{Documented, IsSendable, decode_suspect_votes-encode}
use gor.Store.Sqlite.Members.Refinement.{
  Holds, MemberCall, run_rows, run_members, run_rows-run_members,
}

abbrev chunk : Text → Text
chunk t = length t ∷ t

abbrev first_chunk : Text → Text
first_chunk [] = []
first_chunk (n ∷ t) = take n t

abbrev later_chunks : Text → Text
later_chunks [] = []
later_chunks (n ∷ t) = drop n t

abbrev nanos : ℤ → Text
nanos (pos n) = 0 ∷ n ∷ []
nanos (negsuc n) = 1 ∷ n ∷ []

abbrev read_nanos : Text → ℤ
read_nanos (zero ∷ n ∷ t) = pos n
read_nanos (suc k ∷ n ∷ t) = negsuc n
read_nanos _ = pos 0

read_nanos-nanos : (x : ℤ) (t : Text) → read_nanos (nanos x ++ t) ≡ x
read_nanos-nanos (pos n) t = refl
read_nanos-nanos (negsuc n) t = refl

drop-nanos : (x : ℤ) (t : Text) → drop 2 (nanos x ++ t) ≡ t
drop-nanos (pos n) t = refl
drop-nanos (negsuc n) t = refl

abbrev pack : List SuspectVoteValue → Text
pack [] = []
pack (v ∷ vs) = chunk v.node_addr ++ (chunk v.generation ++ (nanos v.expires_at ++ pack vs))

abbrev unpack : ℕ → Text → List SuspectVoteValue
unpack zero t = []
unpack (suc n) t =
    let rest = later_chunks (later_chunks t) in
    record {
      node_addr = first_chunk t;
      generation = first_chunk (later_chunks t);
      expires_at = read_nanos rest;
    }
    ∷ unpack n (drop 2 rest)

unpack-pack : (vs : List SuspectVoteValue) → unpack (length vs) (pack vs) ≡ vs
unpack-pack [] = refl
unpack-pack (v ∷ vs) =
    rw
      (
        drop-append v.node_addr (chunk v.generation ++ (nanos v.expires_at ++ pack vs)),
        take-append v.node_addr (chunk v.generation ++ (nanos v.expires_at ++ pack vs)),
        drop-append v.generation (nanos v.expires_at ++ pack vs),
        take-append v.generation (nanos v.expires_at ++ pack vs),
        read_nanos-nanos v.expires_at (pack vs),
        drop-nanos v.expires_at (pack vs),
        unpack-pack vs,
      )
      refl

abbrev read_values : Text → Result (List SuspectVoteValue)
read_values [] = err conflict
read_values (n ∷ t) = ok (unpack n t)

abbrev codec : VoteCodec
codec = record { marshal = λ vs. ok (length vs ∷ pack vs); unmarshal = read_values }

abbrev text_of : Result Text → Text
text_of (ok t) = t
text_of (err e) = []

documented : Documented codec (λ t. true)
documented vs t plain h =
    subst (λ x. (x ≢ []) × (codec.unmarshal x ≡ ok vs)) (ap text_of h)
      (λ z. ground arith, ap ok (unpack-pack vs))

abbrev voters : Map MemberId SuspectVote
voters =
    (id_b, record { expires_at = pos 62135596800000000050 })
    ∷ (id_a, record { expires_at = pos 62135596800000000040 })
    ∷ []

abbrev column : Text
column = text_of (encode_suspect_votes codec voters)

encoded_voters : encode_suspect_votes codec voters ≡ ok column
unfolding encode_suspect_votes
encoded_voters = refl

voters-Distinct : Distinct MemberId-discrete voters
unfolding get MemberId-discrete Text-discrete
voters-Distinct = (refl, (refl, tt))

voters-IsSendable : All (IsSendable (λ t. true)) voters
unfolding ◌-ℤ◌
voters-IsSendable = ((refl, refl, ground arith), ((refl, refl, ground arith), tt))

decode_suspect_votes-encode_example :
    (votes : Map MemberId SuspectVote) × (decode_suspect_votes codec column ≡ ok votes)
    × ((id : MemberId) → get MemberId-discrete id votes ≡ get MemberId-discrete id voters)
decode_suspect_votes-encode_example =
    decode_suspect_votes-encode codec (λ t. true) documented voters column voters-IsSendable
      voters-Distinct encoded_voters

abbrev suspected : Member
suspected = record node_a { suspect_votes = voters }

-- A new row, the same row once more, which conflicts, and its update.
abbrev calls : List MemberCall
calls =
    record { exec_err = none; member = record suspected { etag = 0 } }
    ∷ record { exec_err = none; member = record suspected { etag = 0 } }
    ∷ record { exec_err = none; member = record suspected { etag = 1 } }
    ∷ []

no_members : Holds codec (table MemberId-discrete) [] (new_memory (pos 0))
unfolding new_memory member_at get
no_members j = tt

run_rows-run_members_example :
    ((run_rows codec (table MemberId-discrete) calls []).0
      ≡ (run_members codec (table MemberId-discrete) calls (new_memory (pos 0))).0)
    × Holds codec
        (table MemberId-discrete)
        (run_rows codec (table MemberId-discrete) calls []).1
        (run_members codec (table MemberId-discrete) calls (new_memory (pos 0))).1
run_rows-run_members_example =
    run_rows-run_members codec (table MemberId-discrete) (table-IsTable MemberId-discrete) calls []
      (new_memory (pos 0)) no_members
      (
        ((column, encoded_voters), omega arith),
        (((column, encoded_voters), omega arith), (((column, encoded_voters), omega arith), tt)),
      )
