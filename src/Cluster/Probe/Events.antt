-- ===== src/Cluster/Probe/Events.antt =====
-- The bookkeeping of probes (cluster/probe.go): tasks and failure counts.
use gor.Prelude.{
  ℕ, ◌+◌, none, some, true, false, List, [], ◌∷◌, if◌then◌else◌, arith, ◌≡◌, ◌≢◌, get, get-put_self,
  get-put_ne, get-delete, put, ◌⊎◌, inl, inr, select, Map, Bool-cases, ap,
}
use gor.Store.{MemberId, MemberId-discrete}
use gor.Cluster.Probe.{
  contains_member_id, Tasks, Failures, ProbeEvent, keep_targets, reconcile_probe_state, failures_of,
  succeeded, token_matches, record_probe_event,
}

get-keep_targets :
    (targets : List MemberId) (id : MemberId) (m : Map MemberId ℕ)
    → get MemberId-discrete id (keep_targets targets m)
      ≡ (if contains_member_id targets id then get MemberId-discrete id m else none)
unfolding keep_targets select get
get-keep_targets targets id [] = ground arith
get-keep_targets targets id ((j, v) ∷ m) =
    ground (arith, get-keep_targets targets id m, λ (e : j ≡ id). ap (contains_member_id targets) e)

-- After a reconciliation a task or a failure count is left exactly for the current targets that had
-- one, with its token or count, and for no other member.
pub reconcile_probe_state_lem :
    (targets : List MemberId) (tasks : Tasks) (failures : Failures) (id : MemberId)
    → let after = reconcile_probe_state targets tasks failures in
      (get MemberId-discrete id after.0
        ≡ (if contains_member_id targets id then get MemberId-discrete id tasks else none))
      × (get MemberId-discrete id after.1
          ≡ (if contains_member_id targets id then get MemberId-discrete id failures else none))
unfolding reconcile_probe_state
reconcile_probe_state_lem targets tasks failures id =
    (get-keep_targets targets id tasks, get-keep_targets targets id failures)

-- The counts of the targets other than the event's stay.
abbrev pub Others : ProbeEvent → Failures → Failures → Type 0
Others event before after =
    (id : MemberId) → event.target ≢ id → failures_of after id ≡ failures_of before id

-- An event whose token is not that of the running task changes nothing; otherwise the task ends, the
-- right answer resets the target's failure count to zero, any other result adds one to it, and the
-- counts of other members stay.
pub record_probe_event_lem :
    (event : ProbeEvent) (tasks : Tasks) (failures : Failures)
    → let after = record_probe_event event tasks failures in
      let fits = token_matches (get MemberId-discrete event.target tasks) event.token in
      (fits ≡ false) × (after ≡ (false, tasks, failures))
      ⊎ (fits ≡ true)
        × (get MemberId-discrete event.target after.1 ≡ none)
        × (after.0 ≡ succeeded event.target event.result)
        × (failures_of after.2 event.target ≡ (
            if succeeded event.target event.result
            then 0
            else failures_of failures event.target + 1))
        × Others event failures after.2
unfolding record_probe_event
record_probe_event_lem event tasks failures =
    elim (Bool-cases (token_matches (get MemberId-discrete target tasks) event.token)) [
      | inl e ↦ inr (
        e,
        ground (arith, get-delete MemberId-discrete target target tasks),
        ground arith,
        ground (arith, put_own 0, put_own (failures_of failures target + 1)),
        λ id ne.
            ground (arith, put_other 0 id ne, put_other (failures_of failures target + 1) id ne),
      )
      | inr e ↦ inl (e, ground arith)
    ]
  where
    open event use {target}

    put_own :
        (n : ℕ) → get MemberId-discrete target (put MemberId-discrete target n failures) ≡ some n
    put_own n = get-put_self MemberId-discrete target n failures

    put_other :
        (n : ℕ) (id : MemberId)
        → target ≢ id
        → get MemberId-discrete id (put MemberId-discrete target n failures)
          ≡ get MemberId-discrete id failures
    put_other n id ne = get-put_ne MemberId-discrete id target n failures ne
