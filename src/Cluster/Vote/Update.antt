-- ===== src/Cluster/Vote/Update.antt =====
-- The retry loop of updateSuspectVote (cluster/vote.go) on a store shared with other nodes.
use gor.Prelude.{
  ℕ, zero, suc, ◌<◌, Option, none, some, Bool, not, ◌&&◌, List, [], ◌∷◌, ◌≡◌, ◌⊎◌, inl, inr, arith,
  length, Bool-cases, refl, sym, ap, ◌∙◌,
}
use gor.Store.{
  ok, ETag, next_etag, Duration, Member, MemberId, MemberId-discrete, MemberStatus, MemberSnapshot,
  Memory,
}
use gor.Store.Keyed.{find_row}
use gor.Store.Members.{etag_of, key_for_member, current_etag, write_member, list_members}
use gor.Store.Members.Cas.{member_at, write_member_ok, member_at-write_member}
use gor.Store.Members.Listing.{IsTable, list_members_lem}
use gor.Cluster.Members.{find_member, is_active}
use gor.Cluster.Probe.{contains_member_id}
use gor.Cluster.Table.{Shared, shared_table, shared_list, shared_write, next_batch}
use gor.Cluster.Vote.{
  Votes, Round, again, finished, after_write, updated_votes, finish_round, written_votes,
  vote_on_row, vote_on_snapshot, vote_on_listing, vote_round, update_suspect_vote, should_mark_dead,
  same_suspect_votes, target_neighbors,
}
use gor.Cluster.Vote.Later.{
  find_member-find_row, find_member-key, next_batch-IsTable, next_batch-others, Later,
  vote_on_listing-Later,
}

-- Nobody else writes any more, and the row is the current one of its key.
record Quiet (row : Member) (s : Shared) : Type 0 where
  silent : s.others ≡ []
  current : current_etag (key_for_member row) s.memory ≡ row.etag

next_batch-silent : (s : Shared) → s.others ≡ [] → next_batch s.others s.memory ≡ s
unfolding next_batch
next_batch-silent s e = ground arith

shared_write-Quiet' :
    (row : Member) (s : Shared)
    → Quiet row s
    → ((shared_write row s).0 ≡ ok (next_etag row.etag))
      × ((shared_write row s).1 ≡ record s { memory = (write_member none row s.memory).1 })
unfolding shared_write
shared_write-Quiet' row s q =
    rw (next_batch-silent s q.silent) (write_member_ok row s.memory q.current, refl)

current_etag-write :
    (row : Member) (m : Memory)
    → current_etag (key_for_member row) m ≡ row.etag
    → current_etag (key_for_member row) (write_member none row m).1 ≡ next_etag row.etag
unfolding current_etag member_at
current_etag-write row m h = ground (arith, member_at-write_member row m (key_for_member row) h)

shared_write-Quiet :
    (row : Member) (s : Shared)
    → Quiet row s
    → Quiet (record row { etag = next_etag row.etag }) (shared_write row s).1
shared_write-Quiet row s q = rw ((shared_write-Quiet' row s q).1) (record {
  silent = q.silent;
  current = unfold key_for_member in current_etag-write row s.memory q.current;
})

-- Only the key and the ETag of the row matter.
restate :
    (row row' : Member) (s : Shared)
    → key_for_member row ≡ key_for_member row'
    → row.etag ≡ row'.etag
    → Quiet row s
    → Quiet row' s
restate row row' s k e q = record {
  silent = q.silent;
  current = ap (λ id. current_etag id s.memory) (sym k) ∙ q.current ∙ e;
}

module _ (target voter : MemberId) (renew : Bool) (ttl : Duration) where
  finish_round-Quiet :
      (snap : MemberSnapshot) (row : Member) (s : Shared)
      → Quiet row s
      → (finish_round shared_table target voter renew ttl snap row s).0 ≡ finished
  unfolding finish_round
  finish_round-Quiet snap row s q = elim (Bool-cases (renew && should_mark_dead snap target)) [
    | inl e ↦
        rw (e, finish_round)
          (ap after_write
            (shared_write-Quiet' (record row { status = MemberStatus.dead }) s
              (restate row _ s (unfold key_for_member in refl) refl q)).0)
    | inr e ↦ rw (e, finish_round) refl
  ]

  written_votes-Quiet :
      (snap : MemberSnapshot) (row : Member) (etag : ETag) (s : Shared)
      → Quiet (record row { etag = etag }) s
      → (written_votes shared_table target voter renew ttl snap row (ok etag) s).0 ≡ finished
  unfolding written_votes
  written_votes-Quiet snap row etag s q = finish_round-Quiet _ _ s q

  vote_on_row-Quiet :
      (snap : MemberSnapshot) (row : Member) (s : Shared)
      → Quiet row s
      → (vote_on_row shared_table target voter renew ttl snap row s).0 ≡ finished
  unfolding vote_on_row
  vote_on_row-Quiet snap row s q = elim (Bool-cases (same_suspect_votes row.suspect_votes votes)) [
    | inl e ↦ rw (e, vote_on_row) (finish_round-Quiet snap row s q)
    | inr e ↦
        rw (e, vote_on_row, (shared_write-Quiet' row' s q').0)
          (written_votes-Quiet snap row' _ _ (shared_write-Quiet row' s q'))
  ]
    where
      votes : Votes
      votes = updated_votes voter renew snap.table_now ttl row.suspect_votes

      row' : Member
      row' = record row { suspect_votes = votes }

      q' : Quiet row' s
      q' = restate row row' s (unfold key_for_member in refl) refl q

  vote_on_snapshot-Quiet :
      (snap : MemberSnapshot) (o : Option Member) (s : Shared)
      → ((row : Member) → o ≡ some row → Quiet row s)
      → (vote_on_snapshot shared_table target voter renew ttl snap o s).0 ≡ finished
  unfolding vote_on_snapshot
  vote_on_snapshot-Quiet snap none s q = refl
  vote_on_snapshot-Quiet snap (some row) s q = elim (Bool-cases (not (is_active row.status))) [
    | inl e ↦ rw (e, vote_on_snapshot) refl
    | inr e ↦
        elim (Bool-cases
          (renew && not (contains_member_id (target_neighbors snap.members target) voter))) [
            | inl f ↦ rw (e, f, vote_on_snapshot) refl
            | inr f ↦ rw (e, f, vote_on_snapshot) (vote_on_row-Quiet snap row s (q row refl))
          ]
  ]

  -- A silent table gives the current row of every member that it lists.
  listed-Quiet :
      (s : Shared) (snap : MemberSnapshot) (row : Member)
      → s.others ≡ []
      → ((id : MemberId)
          → find_row MemberId-discrete key_for_member id snap.members ≡ member_at id s.memory)
      → find_member snap.members target ≡ some row
      → Quiet row s
  listed-Quiet s snap row e lookup found = record {
    silent = e;
    current =
        unfold current_etag member_at in
        rw (find_member-key snap.members target found) (
          ap etag_of
            (sym (lookup target) ∙ sym (find_member-find_row snap.members target) ∙ found));
  }

  vote_on_listing_quiet :
      (s : Shared)
      → s.others ≡ []
      → IsTable s.memory
      → (vote_on_listing shared_table target voter renew ttl (list_members none s.memory) s).0
        ≡ finished
  unfolding vote_on_listing
  vote_on_listing_quiet s e h =
      let (snap, listed, lookup, _) = list_members_lem s.memory h in
      rw (listed, vote_on_listing)
        (vote_on_snapshot-Quiet snap (find_member snap.members target) s
          (λ row found. listed-Quiet s snap row e lookup found))

  vote_round-Later :
      (s : Shared)
      → IsTable s.memory
      → ((vote_round shared_table target voter renew ttl s).0 ≡ finished)
        ⊎ (length (vote_round shared_table target voter renew ttl s).1.others < length s.others)
          × IsTable (vote_round shared_table target voter renew ttl s).1.memory
  unfolding vote_round shared_list
  vote_round-Later s h = by_others s.others refl
    where
      s' : Shared
      s' = next_batch s.others s.memory

      after : Later (length s'.others) (vote_round shared_table target voter renew ttl s).1
      after =
          vote_on_listing-Later target voter renew ttl (length s'.others)
            (list_members none s'.memory) s'
            (record { table = next_batch-IsTable s.others s.memory h; fewer = omega arith })

      by_others :
          (bs : List (List Member))
          → s.others ≡ bs
          → ((vote_round shared_table target voter renew ttl s).0 ≡ finished)
            ⊎ (length (vote_round shared_table target voter renew ttl s).1.others < length s.others)
              × IsTable (vote_round shared_table target voter renew ttl s).1.memory
      by_others [] e = inl (rw (next_batch-silent s e) (vote_on_listing_quiet s e h))
      by_others (b ∷ bs) e =
          let shrinks = (next_batch-others s.others s.memory).1 (omega (arith, ap length e)) in
          inr (omega (arith, after.fewer, shrinks), after.table)

module _ (target voter : MemberId) (renew : Bool) (ttl : Duration) where
  loop_ends :
      (rounds : ℕ) (s : Shared)
      → IsTable s.memory
      → length s.others < rounds
      → (s' : Shared) × (update_suspect_vote shared_table target voter renew ttl rounds s ≡ some s')
  unfolding update_suspect_vote
  loop_ends zero s h lt = elim lt [ ]
  loop_ends (suc rounds) s h lt =
      by_round (vote_round shared_table target voter renew ttl s).0 refl
        (vote_round-Later target voter renew ttl s h)
        (loop_ends rounds (vote_round shared_table target voter renew ttl s).1)
    where
      s' : Shared
      s' = (vote_round shared_table target voter renew ttl s).1

      by_round :
          (r : Round)
          → (vote_round shared_table target voter renew ttl s).0 ≡ r
          → ((vote_round shared_table target voter renew ttl s).0 ≡ finished)
            ⊎ (length s'.others < length s.others) × IsTable s'.memory
          → (IsTable s'.memory
              → length s'.others < rounds
              → (s'' : Shared) × (update_suspect_vote shared_table target voter renew ttl rounds s'
                  ≡ some s''))
          → (s'' : Shared) × (update_suspect_vote shared_table target voter renew ttl (suc rounds) s
              ≡ some s'')
      by_round finished e l rest = (s', rw (e, update_suspect_vote) refl)
      by_round again e (inl f) rest = cc
      by_round again e (inr l) rest = rw (e, update_suspect_vote) (rest l.1 (omega arith))

-- updateSuspectVote ends on a well-formed Memory table that other nodes write to: with more rounds
-- than the batches of writes that the other nodes still make it does not run out of rounds.
pub update_suspect_vote_ends :
    (target voter : MemberId) (renew : Bool) (ttl : Duration) (rounds : ℕ) (s : Shared)
    → IsTable s.memory
    → length s.others < rounds
    → (s' : Shared) × (update_suspect_vote shared_table target voter renew ttl rounds s ≡ some s')
update_suspect_vote_ends = loop_ends
