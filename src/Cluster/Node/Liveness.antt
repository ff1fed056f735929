-- ===== src/Cluster/Node/Liveness.antt =====
-- How the loop of the node ends (run of cluster/node.go), for every table, clock and interleaving.
use gor.Prelude.{
  ℕ, Option, none, some, Bool, true, false, not, List, [], ◌∷◌, if◌then◌else◌, ◌≡◌, ◌≢◌, refl,
  arith, Bool-cases, inl, inr, ap, get, subst, ◌∙◌,
}
use gor.Store.{
  conflict, other, Result, ok, err, ETag, Time, Member, MemberId, MemberId-discrete, MemberSnapshot,
}
use gor.Cluster.Members.{find_member, member_id}
use gor.Cluster.Ring.{View}
use gor.Cluster.Probe.{ProbeEvent, token_matches}
use gor.Cluster.Node.{
  Node, World, State, state_dead, gone, is_dead_row, heartbeat, heartbeat_listed, heartbeat_row,
  heartbeat_written, heartbeat_refresh, poll_view, poll_view_listed, leave, update_health,
  check_probe_interval,
}
use gor.Cluster.Node.Check.{self_check, check_listed, check_write, check_written, refreshed}
use gor.Cluster.Node.Loop.{
  Running, Event, Ending, on_heartbeat, on_view_tick, on_probe_tick, handle_probe_event, run_event,
  run_events, heartbeat_tick, view_tick, probe_tick, probe_done, ctx_done, change_view, reconcile,
  start_probe, start_probes, same_view, record_event, with_world,
}

-- A result that is not alive comes with a dead node, and any other leaves the node's state alone.
abbrev Tells : State → Bool → Node → Type 0
Tells s true n = n.state ≡ s
Tells s false n = n.state ≡ state_dead

module _ {S : Type 0} (w : World S) where
  heartbeat_refresh-Tells :
      (n : Node) (self : Member) (r : Result MemberSnapshot)
      → let after = heartbeat_refresh w n self r in Tells n.state after.1 after.2
  unfolding heartbeat_refresh
  heartbeat_refresh-Tells n self (err e) = refl
  heartbeat_refresh-Tells n self (ok snap) =
      elim (Bool-cases (gone (find_member snap.members (member_id self)))) [
        | inl e ↦ rw (e, heartbeat_refresh) refl
        | inr e ↦ rw (e, heartbeat_refresh) refl
      ]

  heartbeat_written-Tells :
      (n : Node) (self updated : Member) (r : Result ETag) (s : S)
      → let after = (heartbeat_written w n self updated r s).0 in Tells n.state after.1 after.2
  unfolding heartbeat_written
  heartbeat_written-Tells n self updated (ok e) s = refl
  heartbeat_written-Tells n self updated (err conflict) s =
      heartbeat_refresh-Tells n self (w.table.list s).0
  heartbeat_written-Tells n self updated (err (other e)) s = refl

  heartbeat_listed-Tells :
      (n : Node) (self : Member) (r : Result MemberSnapshot) (s : S)
      → let after = (heartbeat_listed w n self r s).0 in Tells n.state after.1 after.2
  unfolding heartbeat_listed heartbeat_row
  heartbeat_listed-Tells n self (err e) s = refl
  heartbeat_listed-Tells n self (ok snap) s =
      elim (Bool-cases (gone (find_member snap.members (member_id self)))) [
        | inl e ↦ rw (e, heartbeat_listed) refl
        | inr e ↦ rw (e, heartbeat_listed) (heartbeat_written-Tells n _ _ _ _)
      ]

  poll_view-Tells :
      (n : Node) (self : Member) (current : View) (r : Result MemberSnapshot)
      → let after = poll_view_listed w n self current r in Tells n.state after.1 after.2
  unfolding poll_view_listed
  poll_view-Tells n self current (err e) = refl
  poll_view-Tells n self current (ok snap) =
      elim (Bool-cases (is_dead_row (find_member snap.members (member_id self)))) [
        | inl e ↦ rw (e, poll_view_listed) refl
        | inr e ↦ rw (e, poll_view_listed) refl
      ]

  refreshed-Tells :
      (n : Node) (self : Member) (current : View) (fine slow : Bool) (r : Result MemberSnapshot)
      → let c = refreshed n self current fine slow r in Tells n.state c.alive c.node
  unfolding refreshed
  refreshed-Tells n self current fine slow (err e) = refl
  refreshed-Tells n self current fine slow (ok snap) =
      elim (Bool-cases (gone (find_member snap.members (member_id self)))) [
        | inl e ↦ rw (e, refreshed) refl
        | inr e ↦ rw (e, refreshed) refl
      ]

  check_written-Tells :
      (n : Node) (self updated : Member) (current : View) (fine : Bool) (r : Result ETag) (s : S)
      → let c = (check_written w n self updated current fine r s).0 in Tells n.state c.alive c.node
  unfolding check_written
  check_written-Tells n self updated current fine (ok e) s = refl
  check_written-Tells n self updated current fine (err conflict) s =
      refreshed-Tells n self current fine _ _
  check_written-Tells n self updated current fine (err (other e)) s = refl

  check_listed-Tells :
      (n : Node) (self : Member) (current : View) (fine : Bool) (r : Result MemberSnapshot)
      (o : Option MemberSnapshot) (s : S)
      → let c = (check_listed w n self current fine r o s).0 in Tells n.state c.alive c.node
  unfolding check_listed check_write
  check_listed-Tells n self current fine r none s = check_written-Tells n self _ current _ _ _
  check_listed-Tells n self current fine r (some snap) s =
      elim (Bool-cases (gone (find_member snap.members (member_id self)))) [
        | inl e ↦ rw (e, check_listed) refl
        | inr e ↦ rw (e, check_listed) (check_written-Tells n _ _ _ _ _ _)
      ]

  self_check-Tells :
      (n : Node) (self : Member) (current : View) (t : Time) (s : S)
      → let c = (self_check w n self current t s).0 in Tells n.state c.alive c.node
  unfolding self_check check_probe_interval
  self_check-Tells n self current t s = check_listed-Tells _ self current _ _ _ _

-- A loop that has ended has a dead node.
abbrev pub EndsDead : Running → Type 0
EndsDead r = r.ended ≢ none → r.node.state ≡ state_dead

start_probe-keeps :
    (target : MemberId) (r : Running)
    → ((start_probe target r).ended ≡ r.ended) × ((start_probe target r).node ≡ r.node)
unfolding start_probe
start_probe-keeps target r = ground arith

start_probes-keeps :
    (targets : List MemberId) (r : Running)
    → ((start_probes targets r).ended ≡ r.ended) × ((start_probes targets r).node ≡ r.node)
unfolding start_probes
start_probes-keeps [] r = (refl, refl)
start_probes-keeps (target ∷ targets) r =
    let one = start_probe-keeps target r in
    let rest = start_probes-keeps targets (start_probe target r) in (rest.0 ∙ one.0, rest.1 ∙ one.1)

change_view-keeps :
    (view : View) (r : Running)
    → ((change_view view r).ended ≡ r.ended) × ((change_view view r).node ≡ r.node)
unfolding change_view
change_view-keeps view r = elim (Bool-cases (same_view r.view view)) [
  | inl e ↦ rw (e, change_view) (refl, refl)
  | inr e ↦ rw (e, change_view) (refl, refl)
]

update_health-state : (n : Node) (fine : Bool) → (update_health n fine).state ≡ n.state
unfolding update_health
update_health-state n fine = ground arith

module _ {S : Type 0} (w : World S) (n : Node) (self : Member) (s : S) where
  heartbeat-Tells : let after = (heartbeat w n self s).0 in Tells n.state after.1 after.2
  unfolding heartbeat
  heartbeat-Tells = heartbeat_listed-Tells w n self (w.table.list s).0 (w.table.list s).1

  poll_view_lem :
      (view : View) → let after = (poll_view w n self view s).0 in Tells n.state after.1 after.2
  unfolding poll_view
  poll_view_lem view = poll_view-Tells w n self view (w.table.list s).0

branch-EndsDead :
    (alive : Bool) (st : State) {n : Node} (a b : Running)
    → a.ended ≡ none
    → b.node ≡ n
    → Tells st alive n
    → EndsDead (if alive then a else b)
branch-EndsDead true st a b running same t = λ e. absurd (e running)
branch-EndsDead false st {n = n} a b running same t = λ e. ap (λ (m : Node). m.state) same ∙ t

reconcile-ended : (targets : List MemberId) (r : Running) → (reconcile targets r).ended ≡ r.ended
unfolding reconcile
reconcile-ended targets r = refl

of_result :
    {S : Type 0} (p : Running × S) {r' : Running} {s' : S}
    → EndsDead p.0
    → some p ≡ some (r', s')
    → EndsDead r'
of_result p {r'} d e = let same : p.0 ≡ r' = ground arith in subst EndsDead same d

module _ {S : Type 0} (w : World S) (rounds : ℕ) (r : Running) (s : S)
    (running : r.ended ≡ none) where
  on_heartbeat-EndsDead : EndsDead (on_heartbeat w rounds r s).0
  unfolding on_heartbeat
  on_heartbeat-EndsDead =
      branch-EndsDead _ r.node.state _ _ running refl (heartbeat-Tells w r.node r.self s)

  on_view_tick-EndsDead : EndsDead (on_view_tick w rounds r s).0
  unfolding on_view_tick
  on_view_tick-EndsDead =
      branch-EndsDead _ r.node.state _ _ ((change_view-keeps _ _).0 ∙ reconcile-ended _ _ ∙ running)
        refl (poll_view_lem w r.node r.self s r.view)

  on_probe_tick-EndsDead : (t : Time) → EndsDead (on_probe_tick w rounds t r s).0
  unfolding on_probe_tick
  on_probe_tick-EndsDead t =
      branch-EndsDead _ r.node.state _ _
        ((start_probes-keeps _ _).0 ∙ reconcile-ended _ _ ∙ (change_view-keeps _ _).0 ∙ running)
        refl (self_check-Tells w r.node r.self r.view t s)

  leave-dead : (leave w r.node r.self s).0.state ≡ state_dead
  unfolding leave
  leave-dead = ground arith

  with_world-ended :
      (a : Running) (o : Option S) {r' : Running} {s' : S}
      → a.ended ≡ none
      → with_world a o ≡ some (r', s')
      → r'.ended ≡ none
  with_world-ended a none e h = cc
  with_world-ended a (some t) e h = ground arith

  handle_probe_event-ended :
      (event : ProbeEvent) {r' : Running} {s' : S}
      → handle_probe_event w rounds event r s ≡ some (r', s')
      → r'.ended ≡ none
  unfolding handle_probe_event
  handle_probe_event-ended event h =
      elim (Bool-cases
        (not (token_matches (get MemberId-discrete event.target r.tasks) event.token))) [
          | inl e ↦ ground (arith, running)
          | inr e ↦
              with_world-ended (record_event event r) _ (unfold record_event in running)
                (rw (e, handle_probe_event) at h)
        ]

  run_event-EndsDead :
      (event : Event) {r' : Running} {s' : S}
      → run_event w rounds event r s ≡ some (r', s')
      → EndsDead r'
  unfolding run_event
  run_event-EndsDead heartbeat_tick e = of_result _ on_heartbeat-EndsDead e
  run_event-EndsDead view_tick e = of_result _ on_view_tick-EndsDead e
  run_event-EndsDead (probe_tick t) e = of_result _ (on_probe_tick-EndsDead t) e
  run_event-EndsDead (probe_done event) e = λ n. absurd (n (handle_probe_event-ended event e))
  run_event-EndsDead ctx_done e = of_result _ (λ _. leave-dead) e

-- For every table, clock, outcome of the races and order of events, if a loop that has ended has a
-- dead node at the start, then so it has after the events: when the loop has ended, by a declared
-- death or by Close, the node's state is StateDead.
pub run_events-EndsDead :
    {S : Type 0} (w : World S) (rounds : ℕ) (es : List Event) (r : Running) (s : S) {r' : Running}
    {s' : S}
    → EndsDead r
    → run_events w rounds es r s ≡ some (r', s')
    → EndsDead r'
unfolding run_events
run_events-EndsDead w rounds [] r s d e = of_result (r, s) d e
run_events-EndsDead {S} w rounds (ev ∷ es) r s {r'} {s'} d e =
    by_end r.ended refl (run_event w rounds ev r s) refl
      (λ a t n e'. run_events-EndsDead w rounds es a t n e')
  where
    by_end :
        (o : Option Ending)
        → r.ended ≡ o
        → (next : Option (Running × S)) → run_event w rounds ev r s ≡ next
        → ((a : Running) (t : S)
            → EndsDead a
            → run_events w rounds es a t ≡ some (r', s')
            → EndsDead r')
        → EndsDead r'
    by_end (some x) p next q rest = of_result (r, s) d (rw (p, run_events) at e)
    by_end none p none q rest = cc (rw (p, q, run_events) at e)
    by_end none p (some (a, t)) q rest =
        rest a t (run_event-EndsDead w rounds r s p ev q) (rw (p, q, run_events) at e)
