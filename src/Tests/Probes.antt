-- ===== src/Tests/Probes.antt =====
-- Two nodes that probe each other.
use mathlib.Core.List.{Nodup, Mem, Pairwise, mem-cons_self, not-mem-nil, eq-or-mem_of_mem-cons}
use mathlib.Core.Logic.Or
use mathlib.Core.HLevel.{⊥_prop}
use gor.Prelude.{
  List, Bool, true, false, [], ◌∷◌, ◌≡◌, ◌∙◌, ◌≢◌, refl, arith, bytes, ℕ_discrete, ap, Text, ◌==◌,
  Perm,
}
use gor.Cluster.Hash.{hash_parts}
use gor.Store.{MemberId, MemberId-discrete}
use gor.Cluster.Probe.{
  probe_targets, ring_ids, contains_member_id, ProbeEvent, failed, Tasks, Failures,
}
use gor.Cluster.Probe.Neighbors.{Targets, probe_targets_lem}

abbrev pub id_a : MemberId
id_a = record { node_addr = bytes "a:1"; generation = bytes "g" }

abbrev pub id_b : MemberId
id_b = record { node_addr = bytes "b:1"; generation = bytes "g" }

starts_with_a : Text → Bool
starts_with_a [] = false
starts_with_a (c ∷ cs) = c == 97

differ : id_a ≢ id_b
unfolding starts_with_a
differ h = cc (ap (λ (m : MemberId). starts_with_a m.node_addr) h)

both-Nodup : Nodup (id_a ∷ id_b ∷ [])
both-Nodup =
    Pairwise.cons (λ x m. single x m) (Pairwise.cons (λ x m. absurd (not-mem-nil m)) Pairwise.nil)
  where
    single : (x : MemberId) → Mem x (id_b ∷ []) → id_a ≢ x
    single x m h =
        Or.elim ⊥_prop (eq-or-mem_of_mem-cons m) (λ e. differ (h ∙ e)) (λ e. absurd (not-mem-nil e))

a_probes_b : contains_member_id (probe_targets (id_a ∷ id_b ∷ []) id_a) id_b ≡ true
unfolding contains_member_id probe_targets ℕ_discrete hash_parts MemberId-discrete
a_probes_b = refl

probe_targets_lem_example :
    Perm (ring_ids (id_a ∷ id_b ∷ [])) (id_a ∷ id_b ∷ [])
    × Targets (ring_ids (id_a ∷ id_b ∷ [])) id_a (probe_targets (id_a ∷ id_b ∷ []) id_a)
    × ((ms' : List MemberId)
        → Perm (id_a ∷ id_b ∷ []) ms'
        → probe_targets ms' id_a ≡ probe_targets (id_a ∷ id_b ∷ []) id_a)
probe_targets_lem_example =
    probe_targets_lem (id_a ∷ id_b ∷ []) id_a both-Nodup mem-cons_self (omega arith)

abbrev tasks : Tasks
tasks = (id_a, 1) ∷ (id_b, 2) ∷ []

abbrev failures : Failures
failures = (id_b, 1) ∷ []

abbrev missed : ProbeEvent
missed = record { target = id_b; token = 2; result = failed }
