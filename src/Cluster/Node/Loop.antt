-- ===== src/Cluster/Node/Loop.antt =====
-- The loop of the node: run and handleProbeEvent of cluster/node.go and cluster/vote.go. Each round of
-- `select` is one event; which event is ready is the caller's choice.
use gor.Prelude.{
  ℕ, ◌+◌, ◌%◌, ◌^◌, Option, none, some, Bool, true, false, not, List, [], ◌∷◌, if◌then◌else◌, leb,
  get, put, Text-discrete, ℕ_discrete,
}
use gor.Store.{Time, Member, MemberId, MemberId-discrete}
use gor.Cluster.Members.{member_id}
use gor.Cluster.Ring.{View, Point}
use gor.Cluster.Probe.{
  Tasks, ProbeEvent, probe_targets, reconcile_probe_state, record_probe_event, failures_of,
  token_matches,
}
use gor.Cluster.Vote.{update_suspect_vote}
use gor.Cluster.Node.{
  Node, World, healthy, unhealthy, heartbeat, poll_view, leave, update_health, same_points,
}
use gor.Cluster.Node.Check.{self_check}

unfoldable pub Point-discrete : Discrete Point
unfolding Text-discrete ℕ_discrete
Point-discrete = hlevel (Text-discrete, ℕ_discrete)

-- Why the loop returned: the cluster declared the node dead, or Close or Kill.
pub data Ending : Type 0 where
  declared_dead closed : Ending

-- The variables of run. `notified` lists the views handed to notify, the newest first.
pub record Running : Type 0 where
  pub node : Node
  pub self : Member
  pub view : View
  pub tasks : Tasks
  pub next_token : ℕ
  pub notified : List View
  pub ended : Option Ending

pub data Event : Type 0 where
  heartbeat_tick view_tick : Event
  probe_tick : Time → Event
  probe_done : ProbeEvent → Event
  ctx_done : Event

unfoldable pub same_view : View → View → Bool
unfolding same_points Point-discrete
same_view left right = same_points Point-discrete left.points right.points

-- if !sameView(view, updated) { notify }
unfoldable pub change_view : View → Running → Running
unfolding same_view
change_view view r =
    if same_view r.view view
    then record r { view = view }
    else record r { view = view; notified = view ∷ r.notified }

unfoldable pub reconcile : List MemberId → Running → Running
unfolding reconcile_probe_state
reconcile targets r =
    let (tasks, failures, canceled) = reconcile_probe_state targets r.tasks r.node.probe_failures in
    record r { tasks = tasks; node = record r.node { probe_failures = failures } }

-- One round of the loop that starts the missing probes. Tokens are uint64.
unfoldable pub start_probe : MemberId → Running → Running
start_probe target r = elim (get MemberId-discrete target r.tasks) [
  | some token ↦ r
  | none ↦
      let token = (r.next_token + 1) % 2 ^ 64 in
      record r { next_token = token; tasks = put MemberId-discrete target token r.tasks }
]

unfoldable pub start_probes : List MemberId → Running → Running
unfolding start_probe
start_probes [] r = r
start_probes (target ∷ targets) r = start_probes targets (start_probe target r)

-- The case analysis of handleProbeEvent behind recordProbeEvent: whether to renew or to withdraw this
-- node's vote against the target, or neither.
unfoldable pub vote_decision : Node → MemberId → Bool → Option Bool
unfolding failures_of
vote_decision n target success = elim n.health [
  | unhealthy ↦ if success then some false else none
  | healthy ↦
      if success
      then some false
      else (if leb n.probe_failure_limit (failures_of n.probe_failures target)
          then some true
          else none)
]

-- recordProbeEvent on the node's failure counts: whether the probe succeeded, and the node.
unfoldable pub recorded : ProbeEvent → Running → Bool × Node
unfolding record_probe_event
recorded event r =
    let (success, tasks, failures) = record_probe_event event r.tasks r.node.probe_failures in
    (success, record r.node { probe_failures = failures })

-- clear(n.probeFailures) on an unhealthy node.
unfoldable pub clear_if_unhealthy : Node → Node
clear_if_unhealthy n = record n {
  probe_failures = elim n.health [ healthy ↦ n.probe_failures | unhealthy ↦ [] ];
}

unfoldable pub record_event : ProbeEvent → Running → Running
unfolding recorded record_probe_event clear_if_unhealthy
record_event event r =
    let (success, tasks, failures) = record_probe_event event r.tasks r.node.probe_failures in
    record r { tasks = tasks; node = clear_if_unhealthy (recorded event r).1 }

abbrev pub with_world {ℓ} : {S : Type ℓ} → Running → Option S → Option (Running × S)
with_world r none = none
with_world r (some s) = some (r, s)

module _ {S : Type 0} (w : World S) (vote_rounds : ℕ) where
  -- n.updateSuspectVote(target, self, renew); the rounds bound its retries.
  unfoldable pub cast_vote : Node → MemberId → MemberId → Option Bool → S → Option S
  cast_vote n target voter none s = some s
  cast_vote n target voter (some renew) s =
      update_suspect_vote w.table target voter renew n.vote_ttl vote_rounds s

  unfoldable pub handle_probe_event : ProbeEvent → Running → S → Option (Running × S)
  handle_probe_event event r s =
      if not (token_matches (get MemberId-discrete event.target r.tasks) event.token)
      then some (r, s)
      else (let (success, n) = recorded event r in
          with_world (record_event event r)
            (cast_vote n event.target (member_id r.self) (vote_decision n event.target success) s))

  unfoldable pub on_heartbeat : Running → S → Running × S
  on_heartbeat r s =
      let ((self, alive, n), s') = heartbeat w r.node r.self s in
      (
        if alive
            then record r { node = n; self = self }
            else record r { node = n; ended = some declared_dead },
        s',
      )

  unfoldable pub on_view_tick : Running → S → Running × S
  on_view_tick r s =
      let ((view, alive, n), s') = poll_view w r.node r.self r.view s in
      (
        if alive
            then change_view view
                (reconcile (probe_targets view.members (member_id r.self)) (record r { node = n }))
            else record r { node = n; ended = some declared_dead },
        s',
      )

  unfoldable pub on_probe_tick : Time → Running → S → Running × S
  on_probe_tick probe_at r s =
      let (c, s') = self_check w r.node r.self r.view probe_at s in
      (
        if c.alive
            then (let r' = change_view c.view (record r { node = c.node; self = c.self }) in
                let targets = probe_targets r'.view.members (member_id r.self) in
                start_probes targets
                  (reconcile targets (record r' { node = update_health r'.node c.check_ok })))
            else record r { node = c.node; self = c.self; ended = some declared_dead },
        s',
      )

  -- One round of the loop. none: a vote ran out of rounds.
  unfoldable pub run_event : Event → Running → S → Option (Running × S)
  run_event heartbeat_tick r s = some (on_heartbeat r s)
  run_event view_tick r s = some (on_view_tick r s)
  run_event (probe_tick t) r s = some (on_probe_tick t r s)
  run_event (probe_done event) r s = handle_probe_event event r s
  run_event ctx_done r s =
      let (n, s') = leave w r.node r.self s in some (record r { node = n; ended = some closed }, s')

  -- The loop, over the events in the order in which `select` takes them.
  unfoldable pub run_events : List Event → Running → S → Option (Running × S)
  run_events [] r s = some (r, s)
  run_events (e ∷ es) r s =
      let next = run_event e r s in
      elim r.ended [
        | some reason ↦ some (r, s)
        | none ↦ elim next [ none ↦ none | some (r', s') ↦ run_events es r' s' ]
      ]
