-- ===== src/Cluster/Node.antt =====
-- The node of cluster/node.go: its state, and the operations that its loop runs. The world `S` holds
-- the table, the clock and the outcome of each race with a timer; they are the methods of `World`.
pub mod Start
pub mod Check
pub mod Loop
pub mod Health
pub mod Liveness
use gor.Prelude.{
  ℕ, suc, ◌+◌, Option, none, some, Bool, true, false, not, ◌&&◌, ◌||◌, List, [], ◌∷◌, ite,
  if◌then◌else◌, ltb, ◌==◌, ltb_ℤ, leb_ℤ, ◌-ℤ◌, pos, ℤ-discrete, ℤ, Text, Map,
}
use gor.Store.{
  Error, conflict, other, Result, ok, err, ETag, Time, Duration, Member, MemberId, MemberStatus,
  joining, active, dead, MemberSnapshot,
}
use gor.Cluster.Members.{find_member, member_id}
use gor.Cluster.Ring.{View, Point, new_view}
use gor.Cluster.Probe.{Failures}
use gor.Cluster.Table.{MemberTable}
use gor.Cluster.Vote.{active_suspect_votes, replace_member}

-- State and healthState.
pub data State : Type 0 where
  state_joining state_active state_dead : State

pub data HealthState : Type 0 where
  healthy unhealthy : HealthState

pub record Config : Type 0 where
  pub node_addr : Text
  pub generation : Text
  pub probe_failure_limit : ℕ
  pub vote_ttl : Duration
  pub max_tick_gap : Duration
  pub max_table_latency : Duration

pub record Node : Type 0 where
  pub config : Config
  pub open config use *
  pub state : State
  pub probe_failures : Failures
  pub health : HealthState
  pub healthy_ticks : ℕ
  pub last_probe_at : Time

-- How a call to the table meets its timer and the node's context. After a timeout the call may have
-- been made or not; its result is not seen.
pub data Race : Type 0 where
  completed : Race
  timed_out canceled : Bool → Race

pub record World (S : Type 0) : Type 0 where
  pub table : MemberTable S
  pub now : S → Time × S
  pub race : S → Race × S

-- errMemberCheckTimeout and the context's error.
abbrev pub member_check_timeout : Error
member_check_timeout = other 1

abbrev pub context_canceled : Error
context_canceled = other 2

-- ErrNodeDead as a result of join.
abbrev pub node_dead : Error
node_dead = other 3

-- index < 0 || members[index].Status == store.MemberDead
abbrev pub gone : Option Member → Bool
gone none = true
gone (some row) = elim row.status [ joining ↦ false | active ↦ false | dead ↦ true ]

-- index >= 0 && members[index].Status == store.MemberDead
abbrev pub is_dead_row : Option Member → Bool
is_dead_row none = false
is_dead_row (some row) = elim row.status [ joining ↦ false | active ↦ false | dead ↦ true ]

-- members[index], where the code has an index.
abbrev pub or_self : Option Member → Member → Member
or_self none self = self
or_self (some row) self = row

abbrev pub mark_dead : Node → Node
mark_dead n = record n { state = state_dead }

-- checkProbeInterval
unfoldable pub check_probe_interval : Node → Time → Bool × Node
unfolding ◌-ℤ◌ ℤ-discrete
check_probe_interval n probe_at =
    let delta = probe_at -ℤ n.last_probe_at in
    let fits = ltb_ℤ (pos 0) delta && leb_ℤ delta n.max_tick_gap in
    (ite (ℤ-discrete n.last_probe_at (pos 0)) true fits, record n { last_probe_at = probe_at })

-- updateHealth
unfoldable pub update_health : Node → Bool → Node
update_health n false = record n { health = unhealthy; healthy_ticks = 0; probe_failures = [] }
update_health n true = elim n.health [
  | healthy ↦ n
  | unhealthy ↦ record n {
    healthy_ticks = n.healthy_ticks + 1;
    health = if n.healthy_ticks + 1 == 3 then healthy else unhealthy;
  }
]

-- elapsed < 0 || elapsed > n.maxTableLatency
abbrev pub too_slow : Duration → Duration → Bool
too_slow elapsed limit = ltb_ℤ elapsed (pos 0) || ltb_ℤ limit elapsed

-- sameView compares the points.
unfoldable pub same_points : Discrete Point → List Point → List Point → Bool
same_points dec [] [] = true
same_points dec [] (q ∷ qs) = false
same_points dec (p ∷ ps) [] = false
same_points dec (p ∷ ps) (q ∷ qs) = let rest = same_points dec ps qs in ite (dec p q) rest false

module _ {S : Type 0} (w : World S) where
  -- listMembersForCheck and writeMemberForCheck.
  unfoldable pub list_members_for_check : S → Result MemberSnapshot × S
  list_members_for_check s =
      let (r, s1) = w.race s in
      let (listed, s2) = w.table.list s1 in
      elim r [
        | completed ↦ (listed, s2)
        | timed_out made ↦ (err member_check_timeout, if made then s2 else s1)
        | canceled made ↦ (err context_canceled, if made then s2 else s1)
      ]

  unfoldable pub write_member_for_check : Member → S → Result ETag × S
  write_member_for_check row s =
      let (r, s1) = w.race s in
      let (written, s2) = w.table.write row s1 in
      elim r [
        | completed ↦ (written, s2)
        | timed_out made ↦ (err member_check_timeout, if made then s2 else s1)
        | canceled made ↦ (err context_canceled, if made then s2 else s1)
      ]

  -- The second half of heartbeat, behind its write.
  unfoldable pub heartbeat_refresh : Node → Member → Result MemberSnapshot → Member × Bool × Node
  heartbeat_refresh n self (err e) = (self, true, n)
  heartbeat_refresh n self (ok snapshot) =
      let found = find_member snapshot.members (member_id self) in
      if gone found then (self, false, mark_dead n) else (or_self found self, true, n)

  unfoldable pub heartbeat_written :
      Node → Member → Member → Result ETag → S → (Member × Bool × Node) × S
  heartbeat_written n self updated (ok etag) s = ((record updated { etag = etag }, true, n), s)
  heartbeat_written n self updated (err conflict) s =
      let (r, s') = w.table.list s in (heartbeat_refresh n self r, s')
  heartbeat_written n self updated (err (other e)) s = ((self, true, n), s)

  unfoldable pub heartbeat_row : Node → Member → MemberSnapshot → S → (Member × Bool × Node) × S
  heartbeat_row n row snapshot s =
      let (t, s1) = w.now s in
      let updated = record row {
        iam_alive_at = t;
        suspect_votes = active_suspect_votes row.suspect_votes snapshot.table_now;
      } in
      let (r, s2) = w.table.write updated s1 in heartbeat_written n row updated r s2

  unfoldable pub heartbeat_listed :
      Node → Member → Result MemberSnapshot → S → (Member × Bool × Node) × S
  heartbeat_listed n self (err e) s = ((self, true, n), s)
  heartbeat_listed n self (ok snapshot) s =
      let found = find_member snapshot.members (member_id self) in
      if gone found
      then ((self, false, mark_dead n), s)
      else heartbeat_row n (or_self found self) snapshot s

  -- heartbeat: the node's row, whether it is alive, and the node. The View result is not used.
  unfoldable pub heartbeat : Node → Member → S → (Member × Bool × Node) × S
  heartbeat n self s = let (r, s1) = w.table.list s in heartbeat_listed n self r s1

  unfoldable pub poll_view_listed :
      Node → Member → View → Result MemberSnapshot → View × Bool × Node
  poll_view_listed n self current (err e) = (current, true, n)
  poll_view_listed n self current (ok snapshot) =
      if is_dead_row (find_member snapshot.members (member_id self))
      then (new_view snapshot.members, false, mark_dead n)
      else (new_view snapshot.members, true, n)

  -- pollView
  unfoldable pub poll_view : Node → Member → View → S → (View × Bool × Node) × S
  poll_view n self current s =
      let (r, s1) = w.table.list s in (poll_view_listed n self current r, s1)

  -- leave
  unfoldable pub leave : Node → Member → S → Node × S
  leave n self s = elim n.state [
    | state_joining ↦ (mark_dead n, (w.table.write (record self { status = dead }) s).1)
    | state_active ↦ (mark_dead n, (w.table.write (record self { status = dead }) s).1)
    | state_dead ↦ (n, s)
  ]

  -- join, behind the second listing and behind the second write.
  unfoldable pub join_activated :
      Member → MemberSnapshot → Result ETag → Result (Member × List Member)
  join_activated self snapshot (err conflict) = err node_dead
  join_activated self snapshot (err (other e)) = err (other e)
  join_activated self snapshot (ok etag) =
      let self' = record self { etag = etag } in
      ok (self', replace_member snapshot.members (member_id self) self')

  unfoldable pub join_row : MemberSnapshot → Option Member → S → Result (Member × List Member) × S
  join_row snapshot none s = (err node_dead, s)
  join_row snapshot (some row) s =
      let (t, s1) = w.now s in
      let self = record row { status = active; iam_alive_at = t } in
      let (r, s2) = w.table.write self s1 in
      elim row.status [
        | joining ↦ (join_activated self snapshot r, s2)
        | active ↦ (err node_dead, s)
        | dead ↦ (err node_dead, s)
      ]

  unfoldable pub join_listed :
      Member → Result MemberSnapshot → S → Result (Member × List Member) × S
  join_listed self (err e) s = (err e, s)
  join_listed self (ok snapshot) s =
      join_row snapshot (find_member snapshot.members (member_id self)) s

  unfoldable pub join_created : Member → Result ETag → S → Result (Member × List Member) × S
  join_created self (err e) s = (err e, s)
  join_created self (ok etag) s = let (r, s1) = w.table.list s in join_listed self r s1

  -- join: the node's active row and the members of the first view.
  unfoldable pub join : Config → S → Result (Member × List Member) × S
  join c s =
      let (t, s1) = w.now s in
      let self : Member = record {
        node_addr = c.node_addr;
        generation = c.generation;
        status = joining;
        iam_alive_at = t;
        suspect_votes = [];
        etag = 0;
      } in
      let (r, s2) = w.table.write self s1 in join_created self r s2
