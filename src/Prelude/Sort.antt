-- ===== src/Prelude/Sort.antt =====
-- Go's sort.Slice over a strict order given as a test, by insertion. Where the order tells all
-- different elements apart, every sorting algorithm gives this list.
use mathlib.Core.Path.{◌≡◌, refl, ap, ap₂, ◌∙◌}
use mathlib.Core.Bool.{Bool, true, false}
use mathlib.Core.List.{List, [], ◌∷◌, ◌++◌, Perm, Permᴰ}
use mathlib.Core.List
use mathlib.Core.List.Perm
use mathlib.Core.Logic.{∥∥₁_elim, inl, inr}
use native.Mathlib.Omega.{arith}
use gor.Prelude.Tests.{if◌then◌else◌, Bool-cases}
use gor.Prelude.Lists.{All, length}
use Prim.Native.Nat.{suc}

unfoldable pub insert {ℓ} : {A : Type ℓ} → (A → A → Bool) → A → List A → List A
insert less x [] = x ∷ []
insert less x (y ∷ ys) = if less y x then y ∷ insert less x ys else x ∷ y ∷ ys

unfoldable pub sort {ℓ} : {A : Type ℓ} → (A → A → Bool) → List A → List A
unfolding insert
sort less [] = []
sort less (x ∷ xs) = insert less x (sort less xs)

-- The comparison of one field, and of the rest where that field is equal.
unfoldable pub by_field {ℓ κ} :
    {A : Type ℓ} {F : Type κ}
    → Discrete F
    → (F → F → Bool)
    → (A → F)
    → (A → A → Bool)
    → A
    → A
    → Bool
by_field dec less f next a b = elim (dec (f a) (f b)) [ yes _ ↦ next a b | no _ ↦ less (f a) (f b) ]

pub record StrictOrder {ℓ} {A : Type ℓ} (less : A → A → Bool) : Type ℓ where
  pub irrefl : (a : A) → less a a ≡ false
  pub trans : (a b c : A) → less a b ≡ true → less b c ≡ true → less a c ≡ true

-- Elements that the order does not tell apart are equal.
abbrev pub Tells {ℓ} : {A : Type ℓ} → (A → A → Bool) → Type ℓ
Tells {A} less = (a b : A) → less a b ≡ false → less b a ≡ false → a ≡ b

module _ {ℓ} {A : Type ℓ} (less : A → A → Bool) where
  pub All-insert {κ} :
      (P : A → Type κ) (x : A) (l : List A) → P x → All P l → All P (insert less x l)
  unfolding insert
  All-insert P x [] h a = (h, tt)
  All-insert P x (y ∷ l) h a =
      elim (less y x) as (λ b. All P (if b then y ∷ insert less x l else x ∷ y ∷ l)) [
        | true ↦ (a.0, All-insert P x l h a.1)
        | false ↦ (h, a)
      ]

  pub All-sort {κ} : (P : A → Type κ) (l : List A) → All P l → All P (sort less l)
  unfolding sort
  All-sort P [] h = tt
  All-sort P (x ∷ l) h = All-insert P x (sort less l) h.0 (All-sort P l h.1)

module _ {ℓ} {A : Type ℓ} {less : A → A → Bool} (so : StrictOrder less) (tells : Tells less) where
  asym : (a b : A) → less a b ≡ true → less b a ≡ false
  asym a b h = elim (Bool-cases (less b a)) [
    | inl e ↦ cc (so.irrefl a, so.trans a b a h e)
    | inr e ↦ e
  ]

  insert_comm :
      (x y : A) (l : List A) → insert less x (insert less y l) ≡ insert less y (insert less x l)
  unfolding insert
  insert_comm x y [] = ground (arith, asym x y, tells x y)
  insert_comm x y (z ∷ l) = ground (
    arith,
    asym x y,
    tells x y,
    asym x z,
    asym y z,
    insert_comm x y l,
    so.trans x y z,
    so.trans y x z,
    so.trans z x y,
    so.trans z y x,
    tells x z,
    tells y z,
  )

  sort-Permᴰ : {xs ys : List A} → Permᴰ xs ys → sort less xs ≡ sort less ys
  unfolding sort
  sort-Permᴰ Permᴰ.nil = refl
  sort-Permᴰ (Permᴰ.cons {a = a} {l₂ = ys} e p) =
      ap (insert less a) (sort-Permᴰ p) ∙ ap (λ x. insert less x (sort less ys)) e
  sort-Permᴰ (Permᴰ.swap {a = a} {b = b} {l = l} e f) =
      insert_comm a b (sort less l) ∙ ap₂ (λ x y. insert less x (insert less y (sort less l))) f e
  sort-Permᴰ (Permᴰ.trans p q) = sort-Permᴰ p ∙ sort-Permᴰ q

  -- The order of the input does not matter.
  pub sort-perm : IsSet A → {xs ys : List A} → Perm xs ys → sort less xs ≡ sort less ys
  sort-perm s p = ∥∥₁_elim p (List.is_set s _ _) sort-Permᴰ

  not_less_trans : (x y z : A) → less y x ≡ false → less z y ≡ false → less z x ≡ false
  not_less_trans x y z p q = elim (Bool-cases (less z x)) [
    | inl h ↦ ground (arith, so.trans z x y h, tells x y)
    | inr h ↦ h
  ]

  -- Nothing is less than an element before it.
  abbrev pub IsSorted : List A → Type 0
  IsSorted [] = Unit
  IsSorted (x ∷ xs) = All (λ y. less y x ≡ false) xs × IsSorted xs

  All-not_less :
      (x y : A) (l : List A)
      → less y x ≡ false
      → All (λ z. less z y ≡ false) l
      → All (λ z. less z x ≡ false) l
  All-not_less x y [] h a = tt
  All-not_less x y (z ∷ l) h a = (not_less_trans x y z h a.0, All-not_less x y l h a.1)

  insert-IsSorted : (x : A) (l : List A) → IsSorted l → IsSorted (insert less x l)
  unfolding insert
  insert-IsSorted x [] s = (tt, tt)
  insert-IsSorted x (y ∷ l) s = elim (Bool-cases (less y x)) [
    | inl e ↦
        rw (e, insert)
          (All-insert less (λ z. less z y ≡ false) x l (asym y x e) s.0, insert-IsSorted x l s.1)
    | inr e ↦ rw (e, insert) ((e, All-not_less x y l e s.0), s)
  ]

  pub sort-IsSorted : (l : List A) → IsSorted (sort less l)
  unfolding sort
  sort-IsSorted [] = tt
  sort-IsSorted (x ∷ l) = insert-IsSorted x (sort less l) (sort-IsSorted l)

module _ {ℓ} {A : Type ℓ} (less : A → A → Bool) where
  pub insert-perm : (x : A) (l : List A) → Perm (insert less x l) (x ∷ l)
  unfolding insert
  insert-perm x [] = Perm.refl _
  insert-perm x (y ∷ l) = elim (Bool-cases (less y x)) [
    | inl e ↦ rw (e, insert) (Perm.trans (Perm.cons y (insert-perm x l)) (Perm.swap x y l))
    | inr e ↦ rw (e, insert) (Perm.refl _)
  ]

  length-insert : (x : A) (l : List A) → length (insert less x l) ≡ suc (length l)
  unfolding insert
  length-insert x [] = refl
  length-insert x (y ∷ l) = ground (arith, length-insert x l)

  pub length-sort : (l : List A) → length (sort less l) ≡ length l
  unfolding sort
  length-sort [] = refl
  length-sort (x ∷ l) = omega (arith, length-insert x (sort less l), length-sort l)

  pub sort_lem : (l : List A) → Perm (sort less l) l
  unfolding sort
  sort_lem [] = Perm.refl _
  sort_lem (x ∷ l) = Perm.trans (insert-perm x (sort less l)) (Perm.cons x (sort_lem l))

module _ {ℓ κ} {A : Type ℓ} {F : Type κ} (dec : Discrete F) {less : F → F → Bool} (f : A → F) where
  pub by_field-StrictOrder :
      {next : A → A → Bool}
      → StrictOrder less
      → StrictOrder next
      → StrictOrder (by_field dec less f next)
  unfolding by_field
  by_field-StrictOrder s n = record {
    irrefl = λ a. ground (arith, n.irrefl a);
    trans = λ a b c p q.
        ground (arith, n.trans a b c, s.trans (f a) (f b) (f c), s.irrefl (f a), s.irrefl (f b));
  }

  pub by_field_tells :
      (next : A → A → Bool) (a b : A)
      → Tells less
      → by_field dec less f next a b ≡ false
      → by_field dec less f next b a ≡ false
      → (f a ≡ f b) × (next a b ≡ false) × (next b a ≡ false)
  unfolding by_field
  by_field_tells next a b t p q = ground (arith, t (f a) (f b))

-- An order pulled back along a field.
pub on-StrictOrder {ℓ κ} :
    {A : Type ℓ} {F : Type κ} {less : F → F → Bool} (f : A → F)
    → StrictOrder less
    → StrictOrder (λ a b. less (f a) (f b))
on-StrictOrder f s = record {
  irrefl = λ a. s.irrefl (f a);
  trans = λ a b c. s.trans (f a) (f b) (f c);
}
