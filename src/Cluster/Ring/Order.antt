-- ===== src/Cluster/Ring/Order.antt =====
-- The order of the ring's points is strict and tells all points apart.
use gor.Prelude.{
  ◌≤◌, arith, ◌≡◌, false, ltb, Text-discrete, ℕ_discrete, by_field, StrictOrder, Tells,
  by_field-StrictOrder, by_field_tells, on-StrictOrder, text_less-StrictOrder, text_less_tells,
  ltb-StrictOrder, ltb_tells,
}
use native.Mathlib.Nat.{ℕ_set}
use gor.Cluster.Ring.{Point, generation_less, addr_less, point_less}

pub point_less-StrictOrder : StrictOrder point_less
unfolding point_less
point_less-StrictOrder =
    by_field-StrictOrder ℕ_discrete (λ (p : Point). p.hash) ltb-StrictOrder
      (by_field-StrictOrder Text-discrete (λ (p : Point). p.node_addr) text_less-StrictOrder
        (by_field-StrictOrder Text-discrete (λ (p : Point). p.generation) text_less-StrictOrder
          (on-StrictOrder (λ (p : Point). p.sequence) ltb-StrictOrder)))

by_hash :
    (a b : Point)
    → point_less a b ≡ false
    → point_less b a ≡ false
    → (a.hash ≡ b.hash) × (addr_less a b ≡ false) × (addr_less b a ≡ false)
unfolding point_less
by_hash a b = by_field_tells ℕ_discrete (λ (p : Point). p.hash) addr_less a b ltb_tells

by_addr :
    (a b : Point)
    → addr_less a b ≡ false
    → addr_less b a ≡ false
    → (a.node_addr ≡ b.node_addr) × (generation_less a b ≡ false) × (generation_less b a ≡ false)
unfolding addr_less
by_addr a b =
    by_field_tells Text-discrete (λ (p : Point). p.node_addr) generation_less a b text_less_tells

by_generation :
    (a b : Point)
    → generation_less a b ≡ false
    → generation_less b a ≡ false
    → (a.generation ≡ b.generation)
      × (ltb a.sequence b.sequence ≡ false)
      × (ltb b.sequence a.sequence ≡ false)
unfolding generation_less
by_generation a b =
    by_field_tells Text-discrete (λ (p : Point). p.generation) (λ a b. ltb a.sequence b.sequence) a
      b text_less_tells

pub point_less_tells : Tells point_less
point_less_tells a b p q =
    let h = by_hash a b p q in
    let n = by_addr a b h.1 h.2 in
    let g = by_generation a b n.1 n.2 in cc (h.0, n.0, g.0, ltb_tells a.sequence b.sequence g.1 g.2)

pub Point-set : IsSet Point
Point-set = hlevel ℕ_set

-- A point that is not less than another has no smaller hash.
pub hash_le : (p q : Point) → point_less q p ≡ false → p.hash ≤ q.hash
unfolding point_less by_field
hash_le p q h = ground arith
