-- ===== src/Store/Sqlite.antt =====
-- The SQLite store: store/sqlite.go, store/member_sqlite.go and store/schedule_sqlite.go. SQLite itself is
-- an argument: a table with a primary key, and what the statements of the source do with it. A method's
-- error is that of the statement, which then changes nothing, or that of RowsAffected. An ETag is below
-- 2 ^ 63 - 1, since SQLite's `etag + 1` is no integer from there on.
pub mod Rows
pub mod Cas
pub mod Members
pub mod Migration
pub mod Records
pub mod Reminders
pub mod Schedule
pub mod Runs
use gor.Prelude.{
  ℕ, ◌≡◌, Option, none, some, Bool, true, false, List, [], Map, get, ite, if◌then◌else◌, ℕ_discrete,
}
use gor.Store.{ETag, Error, conflict, Result, ok, err}

-- `insert_or_nothing` is INSERT with ON CONFLICT DO NOTHING, and `upsert` with DO UPDATE; `update` and
-- `remove` are UPDATE and DELETE of the row of a key WHERE a test holds. The number is that of the rows
-- affected.
pub record Table (K R : Type 0) : Type 1 where
  pub Contents : Type 0
  pub row : K → Contents → Option R
  pub insert_or_nothing : K → R → Contents → ℕ × Contents
  pub update : K → (R → Bool) → (R → R) → Contents → ℕ × Contents
  pub remove : K → (R → Bool) → Contents → ℕ × Contents
  pub upsert : K → R → (R → R) → Contents → Contents

abbrev pub absent_rows {ℓ} : {R : Type ℓ} → Option R → ℕ
absent_rows none = 1
absent_rows (some r) = 0

abbrev pub or_new {ℓ} : {R : Type ℓ} → R → Option R → Option R
or_new r none = some r
or_new r (some old) = some old

abbrev pub matched_rows {ℓ} : {R : Type ℓ} → (R → Bool) → Option R → ℕ
matched_rows p none = 0
matched_rows p (some r) = if p r then 1 else 0

abbrev pub updated {ℓ} : {R : Type ℓ} → (R → Bool) → (R → R) → Option R → Option R
updated p f none = none
updated p f (some r) = some (if p r then f r else r)

abbrev pub kept {ℓ} : {R : Type ℓ} → (R → Bool) → Option R → Option R
kept p none = none
kept p (some r) = if p r then none else some r

abbrev pub upserted {ℓ} : {R : Type ℓ} → R → (R → R) → Option R → Option R
upserted r f none = some r
upserted r f (some old) = some (f old)

-- What SQLite documents of the statements: the rows affected, and the row of each key afterwards.
pub record IsTable {K R : Type 0} (dec : Discrete K) (t : Table K R) : Type 0 where
  pub insert_count :
      (k : K) (r : R) (c : t.Contents) → (t.insert_or_nothing k r c).0 ≡ absent_rows (t.row k c)
  pub insert_row :
      (j k : K) (r : R) (c : t.Contents)
      → t.row j (t.insert_or_nothing k r c).1 ≡ ite (dec k j) (or_new r (t.row k c)) (t.row j c)
  pub update_count :
      (k : K) (p : R → Bool) (f : R → R) (c : t.Contents)
      → (t.update k p f c).0 ≡ matched_rows p (t.row k c)
  pub update_row :
      (j k : K) (p : R → Bool) (f : R → R) (c : t.Contents)
      → t.row j (t.update k p f c).1 ≡ ite (dec k j) (updated p f (t.row k c)) (t.row j c)
  pub remove_count :
      (k : K) (p : R → Bool) (c : t.Contents) → (t.remove k p c).0 ≡ matched_rows p (t.row k c)
  pub remove_row :
      (j k : K) (p : R → Bool) (c : t.Contents)
      → t.row j (t.remove k p c).1 ≡ ite (dec k j) (kept p (t.row k c)) (t.row j c)
  pub upsert_row :
      (j k : K) (r : R) (f : R → R) (c : t.Contents)
      → t.row j (t.upsert k r f c) ≡ ite (dec k j) (upserted r f (t.row k c)) (t.row j c)

-- `if rows != 1 { return 0, ErrConflict }`, behind RowsAffected with its error.
abbrev pub one_row {ℓ κ} : {A : Type ℓ} {C : Type κ} → Option Error → A → ℕ × C → Result A × C
one_row (some e) a (n, c) = (err e, c)
one_row none a (n, c) = (ite (ℕ_discrete n 1) (ok a) (err conflict), c)
