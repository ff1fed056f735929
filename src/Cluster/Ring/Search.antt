-- ===== src/Cluster/Ring/Search.antt =====
-- The binary search of Owner finds the first index at which a monotone test holds.
use gor.Prelude.{
  ℕ, zero, suc, ◌<◌, ◌≤◌, ◌+◌, ◌-◌, ◌/◌, Bool, true, false, ◌≡◌, arith, ltb, inl, inr, Bool-cases,
}
use gor.Cluster.Ring.{search_from, search_index}

-- `r` is the least index below `n` at which the test holds, or `n`.
pub record IsFirst (f : ℕ → Bool) (n : ℕ) (r : ℕ) : Type 0 where
  pub within : r ≤ n
  pub before : (k : ℕ) → k < r → f k ≡ false
  pub holds : r < n → f r ≡ true

module _ (f : ℕ → Bool) (n : ℕ) (mono : (k l : ℕ) → k ≤ l → l < n → f k ≡ true → f l ≡ true) where
  below : (h : ℕ) → h < n → f h ≡ false → (k : ℕ) → k < h + 1 → f k ≡ false
  below h lt e k p = elim (Bool-cases (f k)) [
    | inl t ↦ cc (mono k h (omega arith) lt t)
    | inr t ↦ t
  ]

  search_from-IsFirst :
      (fuel i j : ℕ)
      → j - i < fuel
      → i ≤ j
      → j ≤ n
      → ((k : ℕ) → k < i → f k ≡ false)
      → (j < n → f j ≡ true)
      → IsFirst f n (search_from fuel i j f)
  unfolding search_from
  search_from-IsFirst zero i j lt le top lo hi = absurd (omega arith)
  search_from-IsFirst (suc fuel) i j lt le top lo hi = elim (Bool-cases (ltb i j)) [
    | inl go ↦ elim (Bool-cases (f ((i + j) / 2))) [
      | inl e ↦
          rw (go, e, search_from)
            (search_from-IsFirst fuel i ((i + j) / 2) (ground arith) (ground arith) (ground arith)
              lo (λ _. e))
      | inr e ↦
          rw (go, e, search_from)
            (search_from-IsFirst fuel ((i + j) / 2 + 1) j (ground arith) (ground arith) top
              (below ((i + j) / 2) (ground arith) e) hi)
    ]
    | inr stop ↦
        let e : i ≡ j = ground arith in
        rw (stop, search_from)
          (record { within = omega arith; before = lo; holds = λ p. rw e (hi (omega arith)) })
  ]

  -- For a monotone test on the indices below n, the binary search that Owner runs gives the least
  -- index at which the test holds, or n where it holds at none.
  pub search_index-IsFirst : IsFirst f n (search_index n f)
  unfolding search_index
  search_index-IsFirst =
      search_from-IsFirst (n + 1) 0 n (omega arith) (omega arith) (omega arith)
        (λ k p. absurd (omega arith)) (λ p. absurd (omega arith))
