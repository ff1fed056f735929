-- ===== src/Store/Sqlite/Migration.antt =====
-- The migration of an old single-file database on opening (store/sqlite.go). Each statement's outcome is an
-- argument. A transaction that is not committed leaves nothing; a process that dies between the commit and
-- the DROP leaves what a failed DROP leaves.
pub mod Copy
pub mod Safety
use gor.Prelude.{ℕ, Option, none, some, List, [], ◌∷◌, Map, put, length, ite, ℕ_discrete}
use gor.Store.{GrainId, GrainId-discrete, Error, Record}

abbrev pub Rows : Type 0
Rows = Map GrainId Record

-- The table records of the old file, if it is there, and that of the state file.
pub record Files : Type 0 where
  pub old : Option Rows
  pub state : Rows

pub data MigrateError : Type 0 where
  failed : Error → MigrateError
  copied_of : ℕ → ℕ → MigrateError

pub record Outcomes : Type 0 where
  pub exists : Option Error
  pub begin : Option Error
  pub attach : Option Error
  pub copy : Option Error
  pub count_old : Option Error
  pub count_new : Option Error
  pub commit : Option Error
  pub detach : Option Error
  pub drop : Option Error

-- INSERT OR REPLACE INTO state.records SELECT FROM records.
unfoldable pub insert_or_replace : Rows → Rows → Rows
insert_or_replace [] state = state
insert_or_replace ((id, r) ∷ rows) state = insert_or_replace rows (put GrainId-discrete id r state)

-- A step that may fail, and what follows it otherwise.
abbrev pub step {ℓ} : {A : Type ℓ} → Option Error → A → (Error → A) → A
step none next fail = next
step (some e) next fail = fail e

abbrev pub rolled_back : Rows → Error → Option MigrateError × Rows
rolled_back state e = (some (failed e), state)

-- copyStateRows: its error, and the state table.
unfoldable pub copy_state_rows : Outcomes → Rows → Rows → Option MigrateError × Rows
unfolding insert_or_replace
copy_state_rows o old state =
    let copied = insert_or_replace old state in
    step o.begin
      (step o.attach
        (step o.copy
          (step o.count_old
            (step o.count_new
              (ite (ℕ_discrete (length old) (length copied))
                (step o.commit (step o.detach (none, copied) (rolled_back copied))
                  (rolled_back state))
                (some (copied_of (length copied) (length old)), state))
              (rolled_back state))
            (rolled_back state))
          (rolled_back state))
        (rolled_back state))
      (rolled_back state)

-- DROP TABLE records.
abbrev pub drop_records :
    Option Error → Rows → Option MigrateError × Rows → Option MigrateError × Files
drop_records drop old (some e, state) = (some e, record { old = some old; state = state })
drop_records (some e) old (none, state) =
    (some (failed e), record { old = some old; state = state })
drop_records none old (none, state) = (none, record { old = none; state = state })

unfoldable pub migrate_records : Outcomes → Option Rows → Rows → Option MigrateError × Files
unfolding copy_state_rows
migrate_records o none state = (none, record { old = none; state = state })
migrate_records o (some old) state = drop_records o.drop old (copy_state_rows o old state)

-- migrateOldLayout
unfoldable pub migrate_old_layout : Outcomes → Files → Option MigrateError × Files
unfolding migrate_records
migrate_old_layout o files =
    step o.exists (migrate_records o files.old files.state) (λ e. (some (failed e), files))

-- The openings of a database, one after the other.
unfoldable pub openings : List Outcomes → Files → Files
unfolding migrate_old_layout
openings [] files = files
openings (o ∷ os) files = openings os (migrate_old_layout o files).1
