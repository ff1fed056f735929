-- ===== src/Store/Sqlite/Cas.antt =====
-- The two statements of a compare-and-swap in SQLite, which Write and WriteMember share (store/sqlite.go,
-- store/member_sqlite.go): an INSERT where the expected ETag is 0, and an UPDATE of the row with it.
use gor.Prelude.{ℕ, Option, none, some, ◌≡◌, ◌≢◌, refl, sym, ap, ◌∙◌, ite, ℕ_discrete, arith, ◌==◌}
use mathlib.Core.Logic.{if_pos, if_neg}
use gor.Store.{ETag}
use gor.Store.Sqlite.{Table, IsTable, absent_rows, or_new, matched_rows, updated}

module _ {K R : Type 0} (t : Table K R) (etag : R → ETag) where
  unfoldable pub cas_statement : K → R → (R → R) → ETag → t.Contents → ℕ × t.Contents
  cas_statement k new f expect c =
      ite (ℕ_discrete expect 0) (t.insert_or_nothing k new c)
        (t.update k (λ r. etag r == expect) f c)

module _ {R : Type 0} (etag : R → ETag) where
  abbrev pub etag_of_row : Option R → ETag
  etag_of_row none = 0
  etag_of_row (some r) = etag r

  -- ETags start at 1.
  abbrev pub IsPositive : Option R → Type 0
  IsPositive none = Unit
  IsPositive (some r) = etag r ≢ 0

  abbrev pub changed : R → (R → R) → Option R → R
  changed new f none = new
  changed new f (some r) = f r

  -- The rows affected, and the row behind the statement.
  abbrev pub hits : ETag → Option R → ℕ
  hits expect o = ite (ℕ_discrete (etag_of_row o) expect) 1 0

  abbrev pub swapped : R → (R → R) → ETag → Option R → Option R
  swapped new f expect o = ite (ℕ_discrete (etag_of_row o) expect) (some (changed new f o)) o

  new_hits : (o : Option R) → IsPositive o → absent_rows o ≡ hits 0 o
  unfolding ℕ_discrete
  new_hits none p = refl
  new_hits (some r) p = ground arith

  old_hits :
      (expect : ETag) (o : Option R)
      → expect ≢ 0
      → matched_rows (λ r. etag r == expect) o ≡ hits expect o
  old_hits expect none z = ground arith
  old_hits expect (some r) z = ground arith

  new_swapped :
      (new : R) (f : R → R) (o : Option R) → IsPositive o → or_new new o ≡ swapped new f 0 o
  unfolding ℕ_discrete
  new_swapped new f none p = refl
  new_swapped new f (some r) p = ground arith

  old_swapped :
      (new : R) (f : R → R) (expect : ETag) (o : Option R)
      → expect ≢ 0
      → updated (λ r. etag r == expect) f o ≡ swapped new f expect o
  old_swapped new f expect none z = ground arith
  old_swapped new f expect (some r) z = ground arith

module _ {K R : Type 0} {dec : Discrete K} (t : Table K R) (laws : IsTable dec t) (etag : R → ETag)
    (k : K) (new : R) (f : R → R) (expect : ETag) (c : t.Contents)
    (p : IsPositive etag (t.row k c)) where
  pub cas_count : (cas_statement t etag k new f expect c).0 ≡ hits etag expect (t.row k c)
  unfolding cas_statement
  cas_count = elim (ℕ_discrete expect 0) [
    | yes z ↦
        ap (λ (s : ℕ × t.Contents). s.0) (if_pos (ℕ_discrete expect 0) z _ _)
        ∙ laws.insert_count k _ c
        ∙ new_hits etag (t.row k c) p
        ∙ ap (λ x. hits etag x (t.row k c)) (sym z)
    | no z ↦
        ap (λ (s : ℕ × t.Contents). s.0) (if_neg (ℕ_discrete expect 0) z _ _)
        ∙ laws.update_count k _ _ c
        ∙ old_hits etag expect (t.row k c) z
  ]

  pub cas_row :
      (j : K)
      → t.row j (cas_statement t etag k new f expect c).1
        ≡ ite (dec k j) (swapped etag new f expect (t.row k c)) (t.row j c)
  unfolding cas_statement
  cas_row j = elim (ℕ_discrete expect 0) [
    | yes z ↦
        ap (λ (s : ℕ × t.Contents). t.row j s.1) (if_pos (ℕ_discrete expect 0) z _ _)
        ∙ laws.insert_row j k _ c
        ∙ ap (λ x. ite (dec k j) x (t.row j c))
            (new_swapped etag new f (t.row k c) p
              ∙ ap (λ x. swapped etag new f x (t.row k c)) (sym z))
    | no z ↦
        ap (λ (s : ℕ × t.Contents). t.row j s.1) (if_neg (ℕ_discrete expect 0) z _ _)
        ∙ laws.update_row j k _ _ c
        ∙ ap (λ x. ite (dec k j) x (t.row j c)) (old_swapped etag new f expect (t.row k c) z)
  ]
