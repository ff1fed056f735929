-- ===== src/Cluster/Probe.antt =====
-- The probe ring and the probe bookkeeping of cluster/probe.go.
pub mod Agreement
pub mod Neighbors
pub mod Events
use gor.Prelude.{
  ℕ, suc, ◌<◌, ◌+◌, ◌-◌, ◌%◌, ◌^◌, Option, none, some, Bool, true, false, ◌&&◌, ◌||◌, not, List, [],
  ◌∷◌, ite, ltb, sort, by_field, map, ℕ_discrete, get_elem?, length, if◌then◌else◌, ◌==◌, Map, get,
  put, delete, select,
}
use gor.Store.{MemberId, MemberId-discrete}
use gor.Cluster.Hash.{hash_parts}
use gor.Cluster.Members.{member_id_less}

pub record ProbePoint : Type 0 where
  pub hash : ℕ
  pub id : MemberId

-- The comparison of sortProbePoints.
unfoldable pub probe_point_less : ProbePoint → ProbePoint → Bool
unfolding by_field member_id_less
probe_point_less = by_field ℕ_discrete ltb (λ p. p.hash) (λ a b. member_id_less a.id b.id)

unfoldable pub probe_point : MemberId → ProbePoint
probe_point m = record { hash = hash_parts (m.node_addr ∷ m.generation ∷ []); id = m }

unfoldable pub ring_ids : List MemberId → List MemberId
unfolding sort probe_point probe_point_less
ring_ids members = map (λ p. p.id) (sort probe_point_less (map probe_point members))

-- The loop that looks for self; none is -1.
unfoldable pub index_of : MemberId → List MemberId → Option ℕ
index_of self [] = none
index_of self (m ∷ ms) =
    let rest = index_of self ms in
    ite (MemberId-discrete m self) (some 0) (elim rest [ none ↦ none | some i ↦ some (suc i) ])

-- `none` stands for an index out of range, which cannot happen.
abbrev pub next_previous : Option MemberId → Option MemberId → List MemberId
next_previous (some next) (some previous) =
    ite (MemberId-discrete previous next) (next ∷ []) (next ∷ previous ∷ [])
next_previous (some next) none = []
next_previous none previous = []

unfoldable pub targets_at : List MemberId → Option ℕ → List MemberId
targets_at ids none = []
targets_at ids (some i) =
    if ltb (length ids) 2
    then []
    else next_previous (get_elem? ids ((i + 1) % length ids))
        (get_elem? ids ((i + length ids - 1) % length ids))

unfoldable pub probe_targets : List MemberId → MemberId → List MemberId
unfolding targets_at index_of ring_ids
probe_targets members self = let ids = ring_ids members in targets_at ids (index_of self ids)

-- containsMemberID of cluster/vote.go
unfoldable pub contains_member_id : List MemberId → MemberId → Bool
contains_member_id [] target = false
contains_member_id (m ∷ ms) target =
    let rest = contains_member_id ms target in ite (MemberId-discrete m target) true rest

-- A task is its token; its cancel function is an effect, recorded by the task's target.
abbrev pub Tasks : Type 0
Tasks = Map MemberId ℕ

abbrev pub Failures : Type 0
Failures = Map MemberId ℕ

-- The result of a probe: the id that answered, or an error.
pub data ProbeResult : Type 0 where
  answered : MemberId → ProbeResult
  failed : ProbeResult

pub record ProbeEvent : Type 0 where
  pub target : MemberId
  pub token : ℕ
  pub result : ProbeResult

-- The entries of a map whose key is a current target.
unfoldable pub keep_targets {ℓ} :
    {V : Type ℓ} → List MemberId → List (MemberId × V) → List (MemberId × V)
unfolding contains_member_id select
keep_targets targets = select (λ e. contains_member_id targets e.0)

-- reconcileProbeState: the new tasks and failures, and the targets whose tasks are canceled.
unfoldable pub reconcile_probe_state :
    List MemberId → Tasks → Failures → Tasks × Failures × List MemberId
unfolding keep_targets
reconcile_probe_state targets tasks failures = (
  keep_targets targets tasks,
  keep_targets targets failures,
  map (λ e. e.0) (select (λ e. not (contains_member_id targets e.0)) tasks),
)

-- failures[target], zero where it is missing.
abbrev pub count_at : Option ℕ → ℕ
count_at none = 0
count_at (some n) = n

unfoldable pub failures_of : Failures → MemberId → ℕ
failures_of failures target = count_at (get MemberId-discrete target failures)

-- result.Err == nil && result.ID == event.target
abbrev pub succeeded : MemberId → ProbeResult → Bool
succeeded target failed = false
succeeded target (answered id) = ite (MemberId-discrete id target) true false

-- task, ok := tasks[event.target]; ok && task.token == event.token
abbrev pub token_matches : Option ℕ → ℕ → Bool
token_matches none token = false
token_matches (some t) token = t == token

-- recordProbeEvent: whether the probe succeeded, with the new tasks and failures.
unfoldable pub record_probe_event : ProbeEvent → Tasks → Failures → Bool × Tasks × Failures
unfolding failures_of
record_probe_event event tasks failures =
    if token_matches (get MemberId-discrete event.target tasks) event.token
    then (if succeeded event.target event.result
        then (
          true,
          delete MemberId-discrete event.target tasks,
          put MemberId-discrete event.target 0 failures,
        )
        else (
          false,
          delete MemberId-discrete event.target tasks,
          put MemberId-discrete event.target (failures_of failures event.target + 1) failures,
        ))
    else (false, tasks, failures)
