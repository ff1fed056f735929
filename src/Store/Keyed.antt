-- ===== src/Store/Keyed.antt =====
-- Rows that carry their own key: the row maps of Memory, and their listings in any order.
use gor.Prelude.{
  Option, none, some, Bool, true, false, List, [], ◌∷◌, Map, get, put, delete, ◌≡◌, refl, ite,
  arith, All, select, sort, insert, map, ◌∙◌, sym, get-delete, ◌≢◌, Bool-cases, inl, inr,
  if◌then◌else◌,
}

module _ {ℓ} {K V : Type ℓ} (dec : Discrete K) where
  -- No key twice.
  abbrev pub Distinct : Map K V → Type ℓ
  Distinct [] = Unit
  Distinct ((k, v) ∷ m) = (get dec k m ≡ none) × Distinct m

  pub delete-Distinct : (k : K) (m : Map K V) → Distinct m → Distinct (delete dec k m)
  unfolding delete
  delete-Distinct k [] d = tt
  delete-Distinct k ((j, v) ∷ m) d =
      elim (dec j k) as (λ c. Distinct (ite c (delete dec k m) ((j, v) ∷ delete dec k m))) [
        | yes p ↦ delete-Distinct k m d.1
        | no p ↦ (ground (arith, get-delete dec j k m, d.0), delete-Distinct k m d.1)
      ]

  pub put-Distinct : (k : K) (v : V) (m : Map K V) → Distinct m → Distinct (put dec k v m)
  unfolding put
  put-Distinct k v m d = (ground (arith, get-delete dec k k m), delete-Distinct k m d)

  pub All-delete {κ} : (P : K × V → Type κ) (k : K) (m : Map K V) → All P m → All P (delete dec k m)
  unfolding delete
  All-delete P k [] h = tt
  All-delete P k ((j, v) ∷ m) h =
      elim (dec j k) as (λ c. All P (ite c (delete dec k m) ((j, v) ∷ delete dec k m))) [
        | yes p ↦ All-delete P k m h.1
        | no p ↦ (h.0, All-delete P k m h.1)
      ]

module _ {ℓ} {K V : Type ℓ} (dec : Discrete K) (key : V → K) where
  -- The first row of a listing with the key.
  unfoldable pub find_row : K → List V → Option V
  find_row k [] = none
  find_row k (v ∷ vs) = let rest = find_row k vs in ite (dec (key v) k) (some v) rest

  -- Every row stands under its own key, and no key stands twice.
  pub record IsKeyed (m : Map K V) : Type ℓ where
    pub own : All (λ e. key e.1 ≡ e.0) m
    pub distinct : Distinct dec m

  abbrev pub DistinctRows : List V → Type ℓ
  DistinctRows [] = Unit
  DistinctRows (v ∷ vs) = (find_row (key v) vs ≡ none) × DistinctRows vs

  pub put-IsKeyed : (k : K) (v : V) (m : Map K V) → key v ≡ k → IsKeyed m → IsKeyed (put dec k v m)
  unfolding put
  put-IsKeyed k v m e h = record {
    own = (e, All-delete dec (λ e. key e.1 ≡ e.0) k m h.own);
    distinct = unfold put in put-Distinct dec k v m h.distinct;
  }

  pub delete-IsKeyed : (k : K) (m : Map K V) → IsKeyed m → IsKeyed (delete dec k m)
  delete-IsKeyed k m h = record {
    own = All-delete dec (λ e. key e.1 ≡ e.0) k m h.own;
    distinct = delete-Distinct dec k m h.distinct;
  }

  pub find_row-rows :
      (k : K) (m : Map K V)
      → All (λ e. key e.1 ≡ e.0) m
      → find_row k (map (λ e. e.1) m) ≡ get dec k m
  unfolding find_row get
  find_row-rows k [] h = refl
  find_row-rows k ((j, v) ∷ m) h = ground (arith, find_row-rows k m h.1, h.0)

  pub get-own :
      (k : K) (v : V) (m : Map K V) → All (λ e. key e.1 ≡ e.0) m → get dec k m ≡ some v → key v ≡ k
  unfolding get
  get-own k v [] h e = cc
  get-own k v ((j, w) ∷ m) h e = ground (arith, get-own k v m h.1, h.0)

  pub rows-DistinctRows : (m : Map K V) → IsKeyed m → DistinctRows (map (λ e. e.1) m)
  rows-DistinctRows [] h = tt
  rows-DistinctRows ((j, v) ∷ m) h = (
    ground (arith, find_row-rows (key v) m h.own.1, h.own.0, h.distinct.0),
    rows-DistinctRows m (record { own = h.own.1; distinct = h.distinct.1 }),
  )

  find_row-insert :
      (less : V → V → Bool) (k : K) (v : V) (vs : List V)
      → find_row (key v) vs ≡ none
      → find_row k (insert less v vs) ≡ find_row k (v ∷ vs)
  unfolding find_row insert
  find_row-insert less k v [] h = refl
  find_row-insert less k v (w ∷ vs) h = ground (arith, find_row-insert less k v vs)

  pub find_row-sort :
      (less : V → V → Bool) (k : K) (vs : List V)
      → DistinctRows vs
      → find_row k (sort less vs) ≡ find_row k vs
  unfolding sort find_row
  find_row-sort less k [] d = refl
  find_row-sort less k (v ∷ vs) d = ground (
    arith,
    find_row-insert less k v (sort less vs),
    find_row-sort less (key v) vs d.1,
    d.0,
    find_row-sort less k vs d.1,
  )

  find_row-select-none :
      (p : V → Bool) (k : K) (vs : List V) → find_row k vs ≡ none → find_row k (select p vs) ≡ none
  unfolding find_row select
  find_row-select-none p k [] h = refl
  find_row-select-none p k (v ∷ vs) h = ground (arith, find_row-select-none p k vs)

  abbrev pub keep : (V → Bool) → Option V → Option V
  keep p none = none
  keep p (some v) = if p v then some v else none

  pub find_row-select :
      (p : V → Bool) (k : K) (vs : List V)
      → DistinctRows vs
      → find_row k (select p vs) ≡ keep p (find_row k vs)
  unfolding find_row select
  find_row-select p k [] d = refl
  find_row-select p k (v ∷ vs) d =
      ground (arith, find_row-select p k vs d.1, find_row-select-none p (key v) vs d.0, d.0)

  pub select-DistinctRows :
      (p : V → Bool) (vs : List V) → DistinctRows vs → DistinctRows (select p vs)
  unfolding select
  select-DistinctRows p [] d = tt
  select-DistinctRows p (v ∷ vs) d =
      elim (p v) as (λ b. DistinctRows (if b then v ∷ select p vs else select p vs)) [
        | true ↦ (find_row-select-none p (key v) vs d.0, select-DistinctRows p vs d.1)
        | false ↦ select-DistinctRows p vs d.1
      ]

  none-head :
      (k : K) (v : V) (vs : List V)
      → find_row k (v ∷ vs) ≡ none
      → (key v ≢ k) × (find_row k vs ≡ none)
  unfolding find_row
  none-head k v vs =
      elim (dec (key v) k)
        as (λ c. ite c (some v) (find_row k vs) ≡ none → (key v ≢ k) × (find_row k vs ≡ none)) [
          | yes e ↦ λ h. absurd (cc h)
          | no n ↦ λ h. (n, h)
        ]

  none-cons :
      (k : K) (v : V) (vs : List V) → key v ≢ k → find_row k vs ≡ none → find_row k (v ∷ vs) ≡ none
  unfolding find_row
  none-cons k v vs n h = ground (arith, h, n)

  insert-DistinctRows :
      (less : V → V → Bool) (v : V) (vs : List V)
      → find_row (key v) vs ≡ none
      → DistinctRows vs
      → DistinctRows (insert less v vs)
  unfolding insert
  insert-DistinctRows less v [] h d = (h, tt)
  insert-DistinctRows less v (w ∷ vs) h d = elim (Bool-cases (less w v)) [
    | inl t ↦
        let (differ, absent) = none-head (key v) w vs h in
        let fresh = none-cons (key w) v vs (λ e. differ (sym e)) d.0 in
        rw (t, insert)
          (
            find_row-insert less (key w) v vs absent ∙ fresh,
            insert-DistinctRows less v vs absent d.1,
          )
    | inr t ↦ rw (t, insert) (h, d)
  ]

  pub sort-DistinctRows :
      (less : V → V → Bool) (vs : List V) → DistinctRows vs → DistinctRows (sort less vs)
  unfolding sort
  sort-DistinctRows less [] d = tt
  sort-DistinctRows less (v ∷ vs) d =
      insert-DistinctRows less v (sort less vs) (find_row-sort less (key v) vs d.1 ∙ d.0)
        (sort-DistinctRows less vs d.1)
