-- ===== src/Cluster/Node/Check.antt =====
-- selfCheck of cluster/node.go: the node's check of its clock and of the table, at each probe tick.
use gor.Prelude.{Option, none, some, Bool, true, false, not, ◌&&◌, if◌then◌else◌, ◌-ℤ◌}
use gor.Store.{conflict, other, Result, ok, err, ETag, Time, Duration, Member, MemberSnapshot}
use gor.Cluster.Members.{find_member, member_id}
use gor.Cluster.Ring.{View, new_view}
use gor.Cluster.Vote.{Votes, active_suspect_votes}
use gor.Cluster.Node.{
  Node, World, gone, or_self, mark_dead, too_slow, check_probe_interval, list_members_for_check,
  write_member_for_check,
}

-- What selfCheck returns: the row, the view, alive, checkOK, and the node.
pub record Checked : Type 0 where
  pub self : Member
  pub view : View
  pub alive : Bool
  pub check_ok : Bool
  pub node : Node

-- A listing that failed or was too slow does not count.
abbrev pub usable : Result MemberSnapshot → Bool → Option MemberSnapshot
usable (err e) slow = none
usable (ok snapshot) true = none
usable (ok snapshot) false = some snapshot

-- if listErr == nil { … }
abbrev pub pruned_votes : Result MemberSnapshot → Votes → Votes
pruned_votes (err e) votes = votes
pruned_votes (ok snapshot) votes = active_suspect_votes votes snapshot.table_now

-- The refresh after a conflict.
unfoldable pub refreshed : Node → Member → View → Bool → Bool → Result MemberSnapshot → Checked
refreshed n self current check_ok slow (err e) = record {
  self = self;
  view = current;
  alive = true;
  check_ok = false;
  node = n;
}
refreshed n self current check_ok slow (ok snapshot) =
    let found = find_member snapshot.members (member_id self) in
    if gone found
    then record {
      self = self;
      view = new_view snapshot.members;
      alive = false;
      check_ok = false;
      node = mark_dead n;
    }
    else record {
      self = or_self found self;
      view = new_view snapshot.members;
      alive = true;
      check_ok = check_ok && not slow;
      node = n;
    }

module _ {S : Type 0} (w : World S) where
  -- A call that is timed by two readings of the clock.
  unfoldable pub timed {ℓ} : {A : Type ℓ} → (S → A × S) → S → A × Duration × S
  timed call s =
      let (started, s1) = w.now s in
      let (a, s2) = call s1 in let (ended, s3) = w.now s2 in (a, ended -ℤ started, s3)

  unfoldable pub check_written :
      Node → Member → Member → View → Bool → Result ETag → S → Checked × S
  check_written n self updated current check_ok (ok etag) s = (
    record {
      self = record updated { etag = etag };
      view = current;
      alive = true;
      check_ok = check_ok;
      node = n;
    },
    s,
  )
  check_written n self updated current check_ok (err conflict) s =
      let (r, elapsed, s1) = timed (list_members_for_check w) s in
      (refreshed n self current check_ok (too_slow elapsed n.max_table_latency) r, s1)
  check_written n self updated current check_ok (err (other e)) s =
      (record { self = self; view = current; alive = true; check_ok = false; node = n }, s)

  unfoldable pub check_write : Node → Member → View → Bool → Result MemberSnapshot → S → Checked × S
  check_write n self current check_ok listed s =
      let (t, s1) = w.now s in
      let updated = record self {
        iam_alive_at = t;
        suspect_votes = pruned_votes listed self.suspect_votes;
      } in
      let (r, elapsed, s2) = timed (write_member_for_check w updated) s1 in
      check_written n self updated current (check_ok && not (too_slow elapsed n.max_table_latency))
        r s2

  unfoldable pub check_listed :
      Node → Member → View → Bool → Result MemberSnapshot → Option MemberSnapshot → S → Checked × S
  check_listed n self current interval_ok listed none s = check_write n self current false listed s
  check_listed n self current interval_ok listed (some snapshot) s =
      let found = find_member snapshot.members (member_id self) in
      if gone found
      then (
        record {
          self = self;
          view = new_view snapshot.members;
          alive = false;
          check_ok = false;
          node = mark_dead n;
        },
        s,
      )
      else check_write n (or_self found self) (new_view snapshot.members) interval_ok listed s

  -- selfCheck
  unfoldable pub self_check : Node → Member → View → Time → S → Checked × S
  self_check n self current probe_at s =
      let (interval_ok, n') = check_probe_interval n probe_at in
      let (listed, elapsed, s1) = timed (list_members_for_check w) s in
      check_listed n' self current interval_ok listed
        (usable listed (too_slow elapsed n.max_table_latency)) s1
