-- ===== src/Tests/Nodes.antt =====
-- Nodes that check themselves, probe and vote.
use gor.Prelude.{
  ◌≤◌, none, some, true, false, [], ◌∷◌, ◌≡◌, ◌∙◌, sym, ◌≢◌, ◌⊎◌, refl, arith, pos, bytes, get,
  Text-discrete, text_less,
}
use gor.Cluster.Hash.{hash_parts}
use gor.Store.{
  Error, ok, err, Member, MemberId, MemberId-discrete, MemberStatus, MemberSnapshot, new_memory,
}
use gor.Store.Keyed.{Distinct}
use gor.Store.Members.Listing.{new_memory-IsTable}
use gor.Cluster.Members.{find_member}
use gor.Cluster.Table.{Shared, shared_table}
use gor.Cluster.Vote.{should_mark_dead, target_neighbors, update_suspect_vote}
use gor.Cluster.Vote.Threshold.{Backed, should_mark_dead_lem, active_count}
use gor.Cluster.Vote.Update.{update_suspect_vote_ends}
use gor.Cluster.Node.{
  Node, Config, World, state_active, state_dead, healthy, unhealthy, completed, heartbeat,
  heartbeat_listed, leave,
}
use gor.Cluster.Node.Loop.{
  Running, ctx_done, heartbeat_tick, vote_decision, run_events, run_event, on_heartbeat, Ending,
}
use gor.Cluster.Node.Liveness.{EndsDead, run_events-EndsDead}
use gor.Tests.Ring.{node_a, node_b}
use gor.Tests.Probes.{id_a, id_b}

abbrev suspect : Member
suspect = record node_a { suspect_votes = (id_b, record { expires_at = pos 50 }) ∷ [] }

abbrev listing : MemberSnapshot
listing = record { members = suspect ∷ node_b ∷ []; table_now = pos 10 }

marked : should_mark_dead listing id_a ≡ true
unfolding should_mark_dead Text-discrete text_less MemberId-discrete hash_parts
marked = refl

found_suspect : find_member listing.members id_a ≡ some suspect
unfolding find_member MemberId-discrete
found_suspect = refl

unsome : {a b : Member} → some a ≡ some b → a ≡ b
unsome h = cc h

one_vote :
    (row : Member)
    → find_member listing.members id_a ≡ some row
    → Distinct MemberId-discrete row.suspect_votes
unfolding get
one_vote row h = let same : suspect ≡ row = unsome (sym found_suspect ∙ h) in rw (← same) (refl, tt)

should_mark_dead_lem_example :
    (row : Member) × (find_member listing.members id_a ≡ some row)
    × (row.status ≡ MemberStatus.active)
    × let B = Backed (target_neighbors listing.members id_a) listing.table_now row.suspect_votes in
      (active_count listing ≡ 2) × ((v : MemberId) × B v)
      ⊎ (3 ≤ active_count listing) × ((v w : MemberId) × B v × B w × (v ≢ w))
should_mark_dead_lem_example = should_mark_dead_lem listing id_a one_vote marked

abbrev busy : Shared
busy = record { memory = new_memory (pos 5); others = (node_a ∷ []) ∷ [] }

update_suspect_vote_ends_example :
    (s' : Shared) × (update_suspect_vote shared_table id_a id_b true (pos 60) 2 busy ≡ some s')
update_suspect_vote_ends_example =
    update_suspect_vote_ends id_a id_b true (pos 60) 2 busy (new_memory-IsTable (pos 5))
      (omega arith)

abbrev config : Config
config = record {
  node_addr = bytes "a:1";
  generation = bytes "g";
  probe_failure_limit = 2;
  vote_ttl = pos 60;
  max_tick_gap = pos 30;
  max_table_latency = pos 3;
}

abbrev sick : Node
sick = record {
  config = config;
  state = state_active;
  probe_failures = [];
  health = unhealthy;
  healthy_ticks = 0;
  last_probe_at = pos 0;
}

abbrev suspicious : Node
suspicious = record sick { health = healthy; probe_failures = (id_b, 2) ∷ [] }

decided : vote_decision suspicious id_b false ≡ some true
unfolding vote_decision get MemberId-discrete
decided = refl

abbrev quiet : World (Unit {0})
quiet = record {
  table = record { list = λ s. (err (Error.other 0), s); write = λ row s. (ok 2, s) };
  now = λ s. (pos 20, s);
  race = λ s. (completed, s);
}

abbrev joined : Running
joined = record {
  node = suspicious;
  self = node_a;
  view = record { points = []; members = [] };
  tasks = [];
  next_token = 0;
  notified = [];
  ended = none;
}

abbrev left : Running
left = record joined { node = record suspicious { state = state_dead }; ended = some Ending.closed }

joined_leaves : run_events quiet 1 (heartbeat_tick ∷ ctx_done ∷ []) joined tt ≡ some (left, tt)
unfolding run_events run_event on_heartbeat heartbeat heartbeat_listed leave
joined_leaves = refl

run_events-EndsDead_example : EndsDead left
run_events-EndsDead_example =
    run_events-EndsDead quiet 1 (heartbeat_tick ∷ ctx_done ∷ []) joined tt (λ e. absurd (e refl))
      joined_leaves
