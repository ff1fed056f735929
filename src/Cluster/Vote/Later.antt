-- ===== src/Cluster/Vote/Later.antt =====
-- What every state of a round of updateSuspectVote keeps, on a store shared with other nodes (cluster/vote.go).
use gor.Prelude.{
  ℕ, ◌≤◌, ◌<◌, Option, none, some, Bool, not, ◌&&◌, List, [], ◌∷◌, ◌≡◌, inl, inr, arith, length,
  Bool-cases, refl,
}
use gor.Store.{
  Result, ok, err, ETag, Duration, Member, MemberId, MemberId-discrete, MemberSnapshot, Memory,
}
use gor.Store.Keyed.{find_row}
use gor.Store.Members.{key_for_member, write_member}
use gor.Store.Members.Listing.{IsTable, write_member-IsTable}
use gor.Cluster.Members.{find_member, member_id, is_active}
use gor.Cluster.Probe.{contains_member_id}
use gor.Cluster.Table.{Shared, shared_table, shared_write, next_batch, write_all}
use gor.Cluster.Vote.{
  updated_votes, finish_round, written_votes, vote_on_row, vote_on_snapshot, vote_on_listing,
  should_mark_dead, same_suspect_votes, target_neighbors,
}

pub find_member-find_row :
    (ms : List Member) (id : MemberId)
    → find_member ms id ≡ find_row MemberId-discrete key_for_member id ms
unfolding find_member find_row member_id key_for_member
find_member-find_row [] id = refl
find_member-find_row (m ∷ ms) id = ground (arith, find_member-find_row ms id)

pub find_member-key :
    (ms : List Member) (id : MemberId) {row : Member}
    → find_member ms id ≡ some row
    → key_for_member row ≡ id
unfolding find_member member_id key_for_member
find_member-key [] id e = cc
find_member-key (m ∷ ms) id {row} e = ground (arith, find_member-key ms id {row = row})

pub write_all-IsTable : (rows : List Member) (m : Memory) → IsTable m → IsTable (write_all rows m)
unfolding write_all
write_all-IsTable [] m h = h
write_all-IsTable (row ∷ rows) m h =
    write_all-IsTable rows (write_member none row m).1 (write_member-IsTable none row m h)

pub next_batch-IsTable :
    (bs : List (List Member)) (m : Memory) → IsTable m → IsTable (next_batch bs m).memory
unfolding next_batch
next_batch-IsTable [] m h = h
next_batch-IsTable (b ∷ bs) m h = write_all-IsTable b m h

pub next_batch-others :
    (bs : List (List Member)) (m : Memory)
    → (length (next_batch bs m).others ≤ length bs)
      × (0 < length bs → length (next_batch bs m).others < length bs)
unfolding next_batch
next_batch-others [] m = omega arith
next_batch-others (b ∷ bs) m = omega arith

pub shared_write-IsTable :
    (row : Member) (s : Shared) → IsTable s.memory → IsTable (shared_write row s).1.memory
unfolding shared_write
shared_write-IsTable row s h =
    write_member-IsTable none row _ (next_batch-IsTable s.others s.memory h)

pub shared_write-others :
    (row : Member) (s : Shared) → length (shared_write row s).1.others ≤ length s.others
unfolding shared_write
shared_write-others row s = omega (arith, next_batch-others s.others s.memory)

-- What every later state of a round keeps: the table, and no more batches than before.
pub record Later (n : ℕ) (s : Shared) : Type 0 where
  pub table : IsTable s.memory
  pub fewer : length s.others ≤ n

pub shared_write-Later :
    {n : ℕ} (row : Member) (s : Shared) → Later n s → Later n (shared_write row s).1
shared_write-Later row s l = record {
  table = shared_write-IsTable row s l.table;
  fewer = omega (arith, shared_write-others row s, l.fewer);
}

module _ (target voter : MemberId) (renew : Bool) (ttl : Duration) (n : ℕ) where
  pub finish_round-Later :
      (snap : MemberSnapshot) (row : Member) (s : Shared)
      → Later n s
      → Later n (finish_round shared_table target voter renew ttl snap row s).1
  unfolding finish_round
  finish_round-Later snap row s l = elim (Bool-cases (renew && should_mark_dead snap target)) [
    | inl e ↦ rw (e, finish_round) (shared_write-Later _ s l)
    | inr e ↦ rw (e, finish_round) l
  ]

  pub written_votes-Later :
      (snap : MemberSnapshot) (row : Member) (r : Result ETag) (s : Shared)
      → Later n s
      → Later n (written_votes shared_table target voter renew ttl snap row r s).1
  unfolding written_votes
  written_votes-Later snap row (err e) s l = l
  written_votes-Later snap row (ok etag) s l = finish_round-Later _ _ s l

  pub vote_on_row-Later :
      (snap : MemberSnapshot) (row : Member) (s : Shared)
      → Later n s
      → Later n (vote_on_row shared_table target voter renew ttl snap row s).1
  unfolding vote_on_row
  vote_on_row-Later snap row s l =
      elim (Bool-cases (
        same_suspect_votes row.suspect_votes
          (updated_votes voter renew snap.table_now ttl row.suspect_votes))) [
            | inl e ↦ rw (e, vote_on_row) (finish_round-Later snap row s l)
            | inr e ↦
                rw (e, vote_on_row) (written_votes-Later snap _ _ _ (shared_write-Later _ s l))
          ]

  pub vote_on_snapshot-Later :
      (snap : MemberSnapshot) (o : Option Member) (s : Shared)
      → Later n s
      → Later n (vote_on_snapshot shared_table target voter renew ttl snap o s).1
  unfolding vote_on_snapshot
  vote_on_snapshot-Later snap none s l = l
  vote_on_snapshot-Later snap (some row) s l = elim (Bool-cases (not (is_active row.status))) [
    | inl e ↦ rw (e, vote_on_snapshot) l
    | inr e ↦
        elim (Bool-cases
          (renew && not (contains_member_id (target_neighbors snap.members target) voter))) [
            | inl f ↦ rw (e, f, vote_on_snapshot) l
            | inr f ↦ rw (e, f, vote_on_snapshot) (vote_on_row-Later snap row s l)
          ]
  ]

  pub vote_on_listing-Later :
      (r : Result MemberSnapshot) (s : Shared)
      → Later n s
      → Later n (vote_on_listing shared_table target voter renew ttl r s).1
  unfolding vote_on_listing
  vote_on_listing-Later (err e) s l = l
  vote_on_listing-Later (ok snap) s l = vote_on_snapshot-Later snap _ s l
