-- ===== src/Cluster/Vote.antt =====
-- Suspicion votes: cluster/vote.go.
pub mod Threshold
pub mod Later
pub mod Update
use gor.Prelude.{
  ℕ, zero, suc, ◌+◌, ◌-◌, Option, none, some, Bool, true, false, not, ◌&&◌, ◌||◌, List, [], ◌∷◌,
  ite, if◌then◌else◌, ltb, leb, ◌==◌, length, get, put, delete, Map, select, ltb_ℤ, ◌+ℤ◌, pos,
}
use gor.Store.{
  Error, conflict, other, Result, ok, err, ETag, Time, Duration, Member, MemberId,
  MemberId-discrete, MemberStatus, SuspectVote, SuspectVote-discrete, MemberSnapshot,
}
use gor.Cluster.Members.{is_active, active_member_ids, find_member, member_id}
use gor.Cluster.Probe.{probe_targets, contains_member_id}
use gor.Cluster.Table.{MemberTable}

abbrev pub Votes : Type 0
Votes = Map MemberId SuspectVote

-- vote.ExpiresAt.After(now)
abbrev pub is_live : Time → SuspectVote → Bool
is_live now vote = ltb_ℤ now vote.expires_at

-- activeSuspectVotes; nil is the empty map.
unfoldable pub active_suspect_votes : Votes → Time → Votes
unfolding select
active_suspect_votes votes now = select (λ e. is_live now e.1) votes

unfoldable pub vote_threshold : ℕ → ℕ
vote_threshold active_count =
    if leb active_count 1 then 0 else (if ltb (active_count - 1) 2 then active_count - 1 else 2)

unfoldable pub target_neighbors : List Member → MemberId → List MemberId
unfolding probe_targets active_member_ids
target_neighbors members target = probe_targets (active_member_ids members) target

-- The loop of shouldMarkDead over the target's votes.
unfoldable pub count_votes : List MemberId → Time → Votes → ℕ
unfolding contains_member_id
count_votes neighbors now [] = 0
count_votes neighbors now ((voter, vote) ∷ votes) =
    if contains_member_id neighbors voter && is_live now vote
    then suc (count_votes neighbors now votes)
    else count_votes neighbors now votes

-- The tests on the target's row.
unfoldable pub enough_votes : ℕ → List MemberId → Time → Option Member → Bool
unfolding count_votes
enough_votes threshold neighbors now none = false
enough_votes threshold neighbors now (some row) =
    if is_active row.status
    then leb threshold (count_votes neighbors now row.suspect_votes)
    else false

unfoldable pub should_mark_dead : MemberSnapshot → MemberId → Bool
unfolding vote_threshold enough_votes target_neighbors find_member
should_mark_dead snapshot target =
    let threshold = vote_threshold (length (active_member_ids snapshot.members)) in
    if threshold == 0
    then false
    else enough_votes threshold (target_neighbors snapshot.members target) snapshot.table_now
        (find_member snapshot.members target)

-- right[voter], the zero vote where it is missing.
abbrev pub or_zero_vote : Option SuspectVote → SuspectVote
or_zero_vote none = record { expires_at = pos 0 }
or_zero_vote (some v) = v

unfoldable pub all_same : Votes → Votes → Bool
all_same [] right = true
all_same ((voter, vote) ∷ left) right =
    let rest = all_same left right in
    ite (SuspectVote-discrete (or_zero_vote (get MemberId-discrete voter right)) vote) rest false

unfoldable pub same_suspect_votes : Votes → Votes → Bool
unfolding all_same
same_suspect_votes left right = if length left == length right then all_same left right else false

-- members[index] = row, at the first row of that id.
unfoldable pub replace_member : List Member → MemberId → Member → List Member
unfolding member_id
replace_member [] id row = []
replace_member (m ∷ ms) id row =
    let rest = replace_member ms id row in
    ite (MemberId-discrete (member_id m) id) (row ∷ ms) (m ∷ rest)

-- How a round of updateSuspectVote ends: by `continue`, or by a return.
pub data Round : Type 0 where
  again finished : Round

abbrev pub after_write : Result ETag → Round
after_write (ok e) = finished
after_write (err conflict) = again
after_write (err (other n)) = finished

-- The votes that a round writes, from those of the row.
unfoldable pub updated_votes : MemberId → Bool → Time → Duration → Votes → Votes
unfolding active_suspect_votes
updated_votes voter renew now ttl votes =
    if renew
    then put MemberId-discrete voter (record { expires_at = now +ℤ ttl })
        (active_suspect_votes votes now)
    else delete MemberId-discrete voter (active_suspect_votes votes now)

module _ {S : Type 0} (table : MemberTable S) (target voter : MemberId) (renew : Bool)
    (ttl : Duration) where
  -- The part behind the first write.
  unfoldable pub finish_round : MemberSnapshot → Member → S → Round × S
  finish_round snapshot row s =
      if renew && should_mark_dead snapshot target
      then (let (r, s') = table.write (record row { status = MemberStatus.dead }) s in
          (after_write r, s'))
      else (finished, s)

  unfoldable pub written_votes : MemberSnapshot → Member → Result ETag → S → Round × S
  written_votes snapshot row (err e) s = (after_write (err e), s)
  written_votes snapshot row (ok etag) s =
      let row' = record row { etag = etag } in
      finish_round (record snapshot { members = replace_member snapshot.members target row' }) row'
        s

  unfoldable pub vote_on_row : MemberSnapshot → Member → S → Round × S
  vote_on_row snapshot row s =
      let votes = updated_votes voter renew snapshot.table_now ttl row.suspect_votes in
      if same_suspect_votes row.suspect_votes votes
      then finish_round snapshot row s
      else (let row' = record row { suspect_votes = votes } in
          let (r, s') = table.write row' s in written_votes snapshot row' r s')

  unfoldable pub vote_on_snapshot : MemberSnapshot → Option Member → S → Round × S
  vote_on_snapshot snapshot none s = (finished, s)
  vote_on_snapshot snapshot (some row) s =
      if not (is_active row.status)
      then (finished, s)
      else (if renew && not (contains_member_id (target_neighbors snapshot.members target) voter)
          then (finished, s)
          else vote_on_row snapshot row s)

  unfoldable pub vote_on_listing : Result MemberSnapshot → S → Round × S
  vote_on_listing (err e) s = (finished, s)
  vote_on_listing (ok snapshot) s =
      vote_on_snapshot snapshot (find_member snapshot.members target) s

  -- One round of the loop of updateSuspectVote.
  unfoldable pub vote_round : S → Round × S
  vote_round s = let (r, s') = table.list s in vote_on_listing r s'

  -- updateSuspectVote. none: the rounds ran out.
  unfoldable pub update_suspect_vote : ℕ → S → Option S
  update_suspect_vote zero s = none
  update_suspect_vote (suc rounds) s =
      let (r, s') = vote_round s in
      elim r [ again ↦ update_suspect_vote rounds s' | finished ↦ some s' ]
