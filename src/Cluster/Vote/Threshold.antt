-- ===== src/Cluster/Vote/Threshold.antt =====
-- Who can have a member marked dead (shouldMarkDead of cluster/vote.go).
use gor.Prelude.{
  ℕ, suc, ◌≤◌, Option, none, some, true, ◌&&◌, List, [], ◌∷◌, ◌≡◌, ◌≢◌, ◌⊎◌, inl, inr, arith,
  length, get, ◌<ℤ◌, Bool-cases, refl, ap,
}
use gor.Store.{Time, Member, MemberId, MemberId-discrete, MemberStatus, SuspectVote, MemberSnapshot}
use gor.Store.Keyed.{Distinct}
use gor.Cluster.Members.{active_member_ids, find_member}
use gor.Cluster.Probe.{contains_member_id}
use gor.Cluster.Vote.{
  Votes, is_live, vote_threshold, target_neighbors, count_votes, enough_votes, should_mark_dead,
}

-- An unexpired vote of one of the neighbours.
pub record Backed (neighbors : List MemberId) (now : Time) (votes : Votes) (voter : MemberId)
    : Type 0 where
  pub neighbor : contains_member_id neighbors voter ≡ true
  pub vote : SuspectVote
  pub cast : get MemberId-discrete voter votes ≡ some vote
  pub live : now <ℤ vote.expires_at

module _ (neighbors : List MemberId) (now : Time) where
  -- A vote in the rest of the map is one of the whole map, and its voter is another one.
  weaken :
      (k : MemberId) (v : SuspectVote) (votes : Votes) {voter : MemberId}
      → get MemberId-discrete k votes ≡ none
      → Backed neighbors now votes voter
      → Backed neighbors now ((k, v) ∷ votes) voter × (k ≢ voter)
  weaken k v votes {voter} fresh b = (
    record {
      neighbor = b.neighbor;
      vote = b.vote;
      live = b.live;
      cast =
          unfold get in
          ground (arith, b.cast, λ (e : k ≡ voter). ap (λ x. get MemberId-discrete x votes) e);
    },
    λ e. ground (arith, b.cast, ap (λ x. get MemberId-discrete x votes) e),
  )

  head-Backed :
      (k : MemberId) (v : SuspectVote) (votes : Votes)
      → contains_member_id neighbors k && is_live now v ≡ true
      → Backed neighbors now ((k, v) ∷ votes) k
  unfolding get
  head-Backed k v votes h = record {
    neighbor = ground arith;
    vote = v;
    cast = ground arith;
    live = ground arith;
  }

  one_vote :
      (votes : Votes)
      → Distinct MemberId-discrete votes
      → 1 ≤ count_votes neighbors now votes
      → (voter : MemberId) × Backed neighbors now votes voter
  unfolding count_votes
  one_vote [] d h = absurd (omega arith)
  one_vote ((k, v) ∷ votes) d h =
      elim (Bool-cases (contains_member_id neighbors k && is_live now v)) [
        | inl t ↦ (k, head-Backed k v votes t)
        | inr t ↦ let (w, b) = one_vote votes d.1 (rw t at h) in (w, (weaken k v votes d.0 b).0)
      ]

  two_votes :
      (votes : Votes)
      → Distinct MemberId-discrete votes
      → 2 ≤ count_votes neighbors now votes
      → (voter other : MemberId) × Backed neighbors now votes voter
        × Backed neighbors now votes other
        × (voter ≢ other)
  unfolding count_votes
  two_votes [] d h = absurd (omega arith)
  two_votes ((k, v) ∷ votes) d h =
      elim (Bool-cases (contains_member_id neighbors k && is_live now v)) [
        | inl t ↦
            let more : 2 ≤ suc (count_votes neighbors now votes) = rw t at h in
            let (w, b) = one_vote votes d.1 (omega arith) in
            let (b', ne) = weaken k v votes d.0 b in (k, w, head-Backed k v votes t, b', ne)
        | inr t ↦
            let (w, x, b, c, ne) = two_votes votes d.1 (rw t at h) in
            (w, x, (weaken k v votes d.0 b).0, (weaken k v votes d.0 c).0, ne)
      ]

pub vote_threshold_lem :
    (n : ℕ)
    → (vote_threshold n ≡ 0) × (n ≤ 1)
      ⊎ (vote_threshold n ≡ 1) × (n ≡ 2)
      ⊎ (vote_threshold n ≡ 2) × (3 ≤ n)
unfolding vote_threshold
vote_threshold_lem n = ground arith

enough_votes-true :
    (threshold : ℕ) (neighbors : List MemberId) (now : Time) (o : Option Member)
    → enough_votes threshold neighbors now o ≡ true
    → (row : Member) × (o ≡ some row)
      × (row.status ≡ MemberStatus.active)
      × (threshold ≤ count_votes neighbors now row.suspect_votes)
unfolding enough_votes
enough_votes-true threshold neighbors now none h = cc
enough_votes-true threshold neighbors now (some row) h = (row, refl, ground arith, ground arith)

abbrev pub active_count : MemberSnapshot → ℕ
active_count s = length (active_member_ids s.members)

should_mark_dead-true :
    (s : MemberSnapshot) (target : MemberId)
    → should_mark_dead s target ≡ true
    → (vote_threshold (active_count s) ≢ 0)
      × (enough_votes
            (vote_threshold (active_count s))
            (target_neighbors s.members target)
            s.table_now
            (find_member s.members target)
          ≡ true)
unfolding should_mark_dead
should_mark_dead-true s target h = (ground arith, ground arith)

-- A member is marked dead only on its row being active and on unexpired votes of its probe
-- neighbours: with two active members one such vote, with three or more the votes of two different
-- neighbours, and with fewer than two active members never. The votes of its row are a map.
pub should_mark_dead_lem :
    (s : MemberSnapshot) (target : MemberId)
    → ((row : Member)
        → find_member s.members target ≡ some row
        → Distinct MemberId-discrete row.suspect_votes)
    → should_mark_dead s target ≡ true
    → (row : Member) × (find_member s.members target ≡ some row)
      × (row.status ≡ MemberStatus.active)
      × let B = Backed (target_neighbors s.members target) s.table_now row.suspect_votes in
        (active_count s ≡ 2) × ((v : MemberId) × B v)
        ⊎ (3 ≤ active_count s) × ((v w : MemberId) × B v × B w × (v ≢ w))
should_mark_dead_lem s target distinct h =
    let (nonzero, enough) = should_mark_dead-true s target h in
    let neighbors = target_neighbors s.members target in
    let (row, found, active, count) = enough_votes-true _ neighbors s.table_now _ enough in
    let d = distinct row found in
    (
      row,
      found,
      active,
      elim (vote_threshold_lem (active_count s)) [
        | inl t ↦ absurd (nonzero t.0)
        | inr (inl t) ↦ inl (t.1, one_vote neighbors s.table_now row.suspect_votes d (omega arith))
        | inr (inr t) ↦ inr (t.1, two_votes neighbors s.table_now row.suspect_votes d (omega arith))
      ],
    )
