-- ===== src/Cluster/Node/Health.antt =====
-- The node's own health, and what an unhealthy node may vote (updateHealth and handleProbeEvent).
use gor.Prelude.{
  ℕ, ◌+◌, ◌≤◌, some, Bool, true, false, List, [], ◌∷◌, ◌++◌, ◌==◌, ◌≡◌, ◌⊎◌, inl, inr, refl, arith,
  ap, subst, Bool-cases,
}
use gor.Store.{MemberId}
use gor.Cluster.Probe.{failures_of}
use gor.Cluster.Node.{Node, healthy, unhealthy, update_health}
use gor.Cluster.Node.Loop.{vote_decision}

unfoldable pub run_checks : List Bool → Node → Node
unfolding update_health
run_checks [] n = n
run_checks (c ∷ cs) n = run_checks cs (update_health n c)

-- The checks begin with three good ones, or have three good ones in a row later.
abbrev pub HasRun : List Bool → Type 0
HasRun cs = (before after : List Bool) × (cs ≡ before ++ true ∷ true ∷ true ∷ after)

-- `k` good checks were counted: so many are missing.
abbrev Recovers : ℕ → List Bool → Type 0
Recovers k cs =
    HasRun cs
    ⊎ (k ≡ 1) × ((after : List Bool) × (cs ≡ true ∷ true ∷ after))
    ⊎ (k ≡ 2) × ((after : List Bool) × (cs ≡ true ∷ after))

later_run : (c : Bool) (cs : List Bool) → HasRun cs → HasRun (c ∷ cs)
later_run c cs (before, after, e) = (c ∷ before, after, ap (◌∷◌ c) e)

after_good : (k : ℕ) (cs : List Bool) → k + 1 ≤ 2 → Recovers (k + 1) cs → Recovers k (true ∷ cs)
after_good k cs h (inl r) = inl (later_run true cs r)
after_good k cs h (inr (inl (e, (after, p)))) = inl ([], after, ap (◌∷◌ true) p)
after_good k cs h (inr (inr (e, (after, p)))) = inr (inl (omega arith, (after, ap (◌∷◌ true) p)))

after_bad : (k : ℕ) (cs : List Bool) → Recovers 0 cs → Recovers k (false ∷ cs)
after_bad k cs (inl r) = inl (later_run false cs r)
after_bad k cs (inr (inl (e, r))) = absurd (omega arith)
after_bad k cs (inr (inr (e, r))) = absurd (omega arith)

good_check :
    (n : Node)
    → n.health ≡ unhealthy
    → (n.healthy_ticks + 1 == 3) ≡ false
    → ((update_health n true).health ≡ unhealthy)
      × ((update_health n true).healthy_ticks ≡ n.healthy_ticks + 1)
unfolding update_health
good_check n u e = (ground arith, ground arith)

recovers :
    (cs : List Bool) (n : Node)
    → n.health ≡ unhealthy
    → n.healthy_ticks ≤ 2
    → (run_checks cs n).health ≡ healthy
    → Recovers n.healthy_ticks cs
unfolding run_checks
recovers [] n u t h = cc
recovers (false ∷ cs) n u t h =
    after_bad n.healthy_ticks cs (recovers cs (update_health n false) refl (omega arith) h)
recovers (true ∷ cs) n u t h = elim (Bool-cases (n.healthy_ticks + 1 == 3)) [
  | inl third ↦ inr (inr (ground arith, (cs, refl)))
  | inr early ↦
      let next = good_check n u early in
      after_good n.healthy_ticks cs (ground arith) (
        subst (λ k. Recovers k cs) next.1
          (recovers cs (update_health n true) next.0 (ground (arith, next.1)) h))
]

-- An unhealthy node with no good check counted is healthy again only after three good checks in a
-- row.
pub healthy_needs_run :
    (cs : List Bool) (n : Node)
    → n.health ≡ unhealthy
    → n.healthy_ticks ≡ 0
    → (run_checks cs n).health ≡ healthy
    → HasRun cs
healthy_needs_run cs n u t h = elim (recovers cs n u (omega arith) h) [
  | inl r ↦ r
  | inr (inl (e, r)) ↦ absurd (omega arith)
  | inr (inr (e, r)) ↦ absurd (omega arith)
]

-- And three good checks in a row are enough, after any bad one.
pub run-healthy : (n : Node) → (run_checks (false ∷ true ∷ true ∷ true ∷ []) n).health ≡ healthy
unfolding run_checks
run-healthy n = refl

-- A node votes against a target only when it is healthy itself, the probe failed, and the target's
-- failures in a row have reached the limit.
pub vote_decision_renew :
    (n : Node) (target : MemberId) (success : Bool)
    → vote_decision n target success ≡ some true
    → (n.health ≡ healthy)
      × (success ≡ false)
      × (n.probe_failure_limit ≤ failures_of n.probe_failures target)
unfolding vote_decision
vote_decision_renew n target success h = (ground arith, ground arith, ground arith)
