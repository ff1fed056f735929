-- ===== src/Store/Sqlite/Migration/Copy.antt =====
-- The rows that INSERT OR REPLACE leaves, and their number (store/sqlite.go).
use gor.Prelude.{
  suc, Option, none, some, [], ◌∷◌, get, put, delete, length, ite, ◌≡◌, refl, sym, ap, ◌∙◌, subst,
  arith, get-put, get-delete,
}
use mathlib.Core.Logic.{if_pos, if_neg}
use gor.Store.{GrainId, GrainId-discrete, Record}
use gor.Store.Keyed.{Distinct, put-Distinct, delete-Distinct}
use gor.Store.Sqlite.Migration.{Rows, insert_or_replace}

abbrev pub row : GrainId → Rows → Option Record
row = get GrainId-discrete

-- The same rows, in any order.
abbrev pub SameRows : Rows → Rows → Type 0
SameRows a b = (id : GrainId) → get GrainId-discrete id a ≡ get GrainId-discrete id b

abbrev pub or_old : Option Record → Option Record → Option Record
or_old none o = o
or_old (some r) o = some r

pub row-insert :
    (id : GrainId) (rows state : Rows)
    → Distinct GrainId-discrete rows
    → row id (insert_or_replace rows state) ≡ or_old (row id rows) (row id state)
unfolding insert_or_replace get
row-insert id [] state d = refl
row-insert id ((k, r) ∷ rows) state d = ground (
  arith,
  row-insert id rows (put GrainId-discrete k r state) d.1,
  get-put GrainId-discrete id k r state,
  d.0,
)

pub insert-Distinct :
    (rows state : Rows)
    → Distinct GrainId-discrete state
    → Distinct GrainId-discrete (insert_or_replace rows state)
unfolding insert_or_replace
insert-Distinct [] state d = d
insert-Distinct ((k, r) ∷ rows) state d =
    insert-Distinct rows (put GrainId-discrete k r state)
      (put-Distinct GrainId-discrete k r state d)

length-delete_absent :
    (k : GrainId) (m : Rows) → row k m ≡ none → length (delete GrainId-discrete k m) ≡ length m
unfolding delete get
length-delete_absent k [] e = refl
length-delete_absent k ((j, r) ∷ m) e = ground (arith, length-delete_absent k m)

length-delete :
    (k : GrainId) (r : Record) (m : Rows)
    → Distinct GrainId-discrete m
    → row k m ≡ some r
    → length m ≡ suc (length (delete GrainId-discrete k m))
unfolding delete get
length-delete k r [] d e = ground arith
length-delete k r ((j, s) ∷ m) d e =
    ground (arith, length-delete k r m d.1, length-delete_absent k m, d.0)

no_rows : (m : Rows) → SameRows m [] → length m ≡ 0
unfolding get
no_rows [] h = refl
no_rows ((k, r) ∷ m) h = ground (arith, sym (if_pos (GrainId-discrete k k) refl _ _) ∙ h k)

pub same_length :
    (a b : Rows)
    → Distinct GrainId-discrete a
    → Distinct GrainId-discrete b
    → SameRows a b
    → length a ≡ length b
unfolding get
same_length a [] d e h = no_rows a h
same_length a ((k, r) ∷ b) d e h =
    let found = h k ∙ if_pos (GrainId-discrete k k) refl _ _ in
    length-delete k r a d found
    ∙ ap suc (
        same_length (delete GrainId-discrete k a) b (delete-Distinct GrainId-discrete k a d) e.1
          (λ id.
            get-delete GrainId-discrete id k a
            ∙ elim (GrainId-discrete k id) as (λ c. ite c none (row id a) ≡ row id b) [
              | yes q ↦ sym (subst (λ i. row i b ≡ none) q e.0)
              | no n ↦ h id ∙ if_neg (GrainId-discrete k id) n _ _
            ]))
