-- ===== src/Store/Sqlite/Members/Votes.antt =====
-- What the column of the votes keeps (encodeSuspectVotes and decodeSuspectVotes of store/member.go).
use gor.Prelude.{
  IsInt64, ◌-ℤ◌, Bool, ℤ, pos, negsuc, ◌-◌, ◌^◌, ◌%◌, true, All, All-sort, Bool-cases, inl, inr,
  ltb, Option, none, some, List, [], ◌∷◌, Map, get, put, map, ite, Text, ◌≡◌, ◌≢◌, refl, ap, ◌∙◌,
  arith, get-put, sort, int_laws,
}
use gor.Store.{ok, Time, MemberId, MemberId-discrete, SuspectVote}
use gor.Store.Keyed.{Distinct, DistinctRows, find_row, find_row-sort, sort-DistinctRows}
use gor.Store.Sqlite.Reminders.{time_value, time_from_value, to_int64, unix_epoch}
use gor.Store.Sqlite.Members.{
  SuspectVoteValue, VoteCodec, vote_value, vote_value_less, voter_of, vote_of, collect_votes,
  encode_suspect_votes, decode_suspect_votes,
}

-- The times whose nanoseconds since 1970 fit an int64: the years from 1678 to 2262.
abbrev pub IsUnixNano : Time → Type 0
IsUnixNano t = IsInt64 (t -ℤ unix_epoch)

to_int64_lem : (x : ℤ) → IsInt64 x → to_int64 x ≡ x
unfolding to_int64
to_int64_lem (pos n) h = ground arith
to_int64_lem (negsuc n) h = ground arith

pub time_from_value-time_value : (t : Time) → IsUnixNano t → time_from_value (time_value t) ≡ t
unfolding time_from_value time_value
time_from_value-time_value t h = rw (to_int64_lem (t -ℤ unix_epoch) h) (grind int_laws)

to_int64-IsInt64 : (x : ℤ) → IsInt64 (to_int64 x)
unfolding to_int64
to_int64-IsInt64 (pos n) = elim (Bool-cases (ltb (n % 2 ^ 64) (2 ^ 63))) [
  | inl t ↦ rw t (ground arith)
  | inr f ↦ rw f (ground arith)
]
to_int64-IsInt64 (negsuc n) = elim (Bool-cases (ltb (2 ^ 64 - 1 - n % 2 ^ 64) (2 ^ 63))) [
  | inl t ↦ rw t (ground arith)
  | inr f ↦ rw f (ground arith)
]

vote_of-vote_value :
    (id : MemberId) (v : SuspectVote) → IsUnixNano v.expires_at → vote_of (vote_value (id, v)) ≡ v
unfolding vote_of vote_value
vote_of-vote_value id v h =
    ap (λ (t : Time). record { expires_at = t }) (time_from_value-time_value v.expires_at h)

abbrev or_vote : Option SuspectVoteValue → Option SuspectVote → Option SuspectVote
or_vote none o = o
or_vote (some v) o = some (vote_of v)

abbrev valued : MemberId → Option SuspectVote → Option SuspectVoteValue
valued id none = none
valued id (some v) = some (vote_value (id, v))

abbrev Rows : List SuspectVoteValue → Type 0
Rows = DistinctRows MemberId-discrete voter_of

abbrev find : MemberId → List SuspectVoteValue → Option SuspectVoteValue
find = find_row MemberId-discrete voter_of

get-collect_votes :
    (id : MemberId) (vs : List SuspectVoteValue) (m : Map MemberId SuspectVote)
    → Rows vs
    → get MemberId-discrete id (collect_votes vs m)
      ≡ or_vote (find id vs) (get MemberId-discrete id m)
unfolding collect_votes find_row
get-collect_votes id [] m d = refl
get-collect_votes id (v ∷ vs) m d = ground (
  arith,
  get-collect_votes id vs (put MemberId-discrete (voter_of v) (vote_of v) m) d.1,
  get-put MemberId-discrete id (voter_of v) (vote_of v) m,
  d.0,
)

find-values :
    (id : MemberId) (votes : Map MemberId SuspectVote)
    → find id (map vote_value votes) ≡ valued id (get MemberId-discrete id votes)
unfolding find_row get voter_of vote_value
find-values id [] = refl
find-values id ((j, v) ∷ votes) =
    elim (MemberId-discrete j id)
      as (λ d.
        ite d (some (vote_value (j, v))) (find id (map vote_value votes))
        ≡ valued id (ite d (some v) (get MemberId-discrete id votes))) [
          | yes e ↦ ap (λ i. some (vote_value (i, v))) e
          | no n ↦ find-values id votes
        ]

values-Rows :
    (votes : Map MemberId SuspectVote)
    → Distinct MemberId-discrete votes
    → Rows (map vote_value votes)
unfolding voter_of vote_value
values-Rows [] d = tt
values-Rows ((j, v) ∷ votes) d = (find-values j votes ∙ ap (valued j) d.0, values-Rows votes d.1)

abbrev IsFound : Option SuspectVote → Type 0
IsFound none = Unit
IsFound (some v) = IsUnixNano v.expires_at

read_vote : (id : MemberId) (o : Option SuspectVote) → IsFound o → or_vote (valued id o) none ≡ o
read_vote id none h = refl
read_vote id (some v) h = ap some (vote_of-vote_value id v h)

-- The votes that JSON carries: the names of the voter are in UTF-8, and the time is in range.
abbrev pub IsSendable : (Text → Bool) → MemberId × SuspectVote → Type 0
IsSendable valid_utf8 (id, v) =
    (valid_utf8 id.node_addr ≡ true) × (valid_utf8 id.generation ≡ true) × IsUnixNano v.expires_at

get-IsFound :
    (valid_utf8 : Text → Bool) (id : MemberId) (votes : Map MemberId SuspectVote)
    → All (IsSendable valid_utf8) votes
    → IsFound (get MemberId-discrete id votes)
unfolding get
get-IsFound valid_utf8 id [] h = tt
get-IsFound valid_utf8 id ((j, v) ∷ votes) h =
    elim (MemberId-discrete j id)
      as (λ d. IsFound (ite d (some v) (get MemberId-discrete id votes))) [
        | yes e ↦ h.0.2
        | no n ↦ get-IsFound valid_utf8 id votes h.1
      ]

-- A value that encoding/json writes without a change: strings in UTF-8, and an int64.
abbrev pub IsPlain : (Text → Bool) → SuspectVoteValue → Type 0
IsPlain valid_utf8 v =
    (valid_utf8 v.node_addr ≡ true) × (valid_utf8 v.generation ≡ true) × IsInt64 v.expires_at

values-IsPlain :
    (valid_utf8 : Text → Bool) (votes : Map MemberId SuspectVote)
    → All (IsSendable valid_utf8) votes
    → All (IsPlain valid_utf8) (map vote_value votes)
unfolding vote_value time_value
values-IsPlain valid_utf8 [] h = tt
values-IsPlain valid_utf8 ((j, v) ∷ votes) h = (
  (h.0.0, h.0.1, to_int64-IsInt64 (v.expires_at -ℤ unix_epoch)),
  values-IsPlain valid_utf8 votes h.1,
)

-- What encoding/json documents of a list of structs whose strings are in UTF-8: it is written as a text
-- that is not empty, and is read back.
abbrev pub Documented : VoteCodec → (Text → Bool) → Type 0
Documented json valid_utf8 =
    (vs : List SuspectVoteValue) (t : Text)
    → All (IsPlain valid_utf8) vs
    → json.marshal vs ≡ ok t
    → (t ≢ []) × (json.unmarshal t ≡ ok vs)

unmarshaled :
    (json : VoteCodec) (vs : List SuspectVoteValue) (t : Text)
    → t ≢ []
    → json.unmarshal t ≡ ok vs
    → decode_suspect_votes json t ≡ ok (collect_votes vs [])
unfolding decode_suspect_votes
unmarshaled json vs [] n h = absurd (n refl)
unmarshaled json vs (b ∷ bs) n h = rw h refl

-- On encoding/json as documented for structs with integers and strings in UTF-8, a map of votes
-- whose voters have names in UTF-8 and whose times are in the range of UnixNano, if
-- encodeSuspectVotes encodes it without an error, is decoded by decodeSuspectVotes to a map with the
-- same vote of each voter.
pub decode_suspect_votes-encode :
    (json : VoteCodec) (valid_utf8 : Text → Bool)
    → Documented json valid_utf8
    → (votes : Map MemberId SuspectVote) (t : Text) → All (IsSendable valid_utf8) votes
    → Distinct MemberId-discrete votes
    → encode_suspect_votes json votes ≡ ok t
    → (votes' : Map MemberId SuspectVote) × (decode_suspect_votes json t ≡ ok votes')
      × ((id : MemberId) → get MemberId-discrete id votes' ≡ get MemberId-discrete id votes)
unfolding encode_suspect_votes get
decode_suspect_votes-encode json valid_utf8 doc votes t plain d h =
    let sorted = sort vote_value_less (map vote_value votes) in
    let rows = values-Rows votes d in
    let (not_empty, read) =
      doc sorted t
        (All-sort vote_value_less (IsPlain valid_utf8) (map vote_value votes)
          (values-IsPlain valid_utf8 votes plain))
        h in
    (
      collect_votes sorted [],
      unmarshaled json sorted t not_empty read,
      λ id.
          get-collect_votes id sorted [] (
            sort-DistinctRows MemberId-discrete voter_of vote_value_less (map vote_value votes)
              rows)
          ∙ ap (λ o. or_vote o none)
              (find_row-sort MemberId-discrete voter_of vote_value_less id (map vote_value votes)
                  rows
                ∙ find-values id votes)
          ∙ read_vote id (get MemberId-discrete id votes) (get-IsFound valid_utf8 id votes plain),
    )
