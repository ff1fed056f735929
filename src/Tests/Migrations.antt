-- ===== src/Tests/Migrations.antt =====
-- An old database whose first two openings fail.
use gor.Prelude.{none, some, [], ◌∷◌, ◌≡◌, refl, bytes, get, put, delete, ℕ_discrete}
use gor.Store.{GrainId-discrete, other}
use gor.Store.Sqlite.Migration.{
  Rows, Files, Outcomes, openings, migrate_old_layout, migrate_records, copy_state_rows,
  insert_or_replace,
}
use gor.Store.Sqlite.Migration.Copy.{SameRows}
use gor.Store.Sqlite.Migration.Safety.{all_well, migrate_old_layout_lem}

abbrev old_rows : Rows
old_rows =
    (
      record { grain_type = bytes "a"; grain_key = bytes "1" },
      record { content = 1 ∷ []; etag = 4 },
    )
    ∷ (record { grain_type = bytes "a"; grain_key = bytes "2" }, record { content = []; etag = 1 })
    ∷ []

abbrev commit_fails : Outcomes
commit_fails = record all_well { commit = some (other 1) }

abbrev drop_fails : Outcomes
drop_fails = record all_well { drop = some (other 2) }

abbrev files : Files
files = openings (commit_fails ∷ drop_fails ∷ []) (record { old = some old_rows; state = [] })

-- The copy is there, and so is the old table.
still_old : files.old ≡ some old_rows
unfolding openings migrate_old_layout migrate_records copy_state_rows insert_or_replace put
    ℕ_discrete delete GrainId-discrete
still_old = refl

migrate_old_layout_lem_example :
    ((migrate_old_layout all_well files).0 ≡ none)
    × ((migrate_old_layout all_well files).1.old ≡ none)
    × SameRows (migrate_old_layout all_well files).1.state old_rows
unfolding GrainId-discrete
migrate_old_layout_lem_example =
    migrate_old_layout_lem old_rows (unfold get in (refl, (refl, tt)))
      (commit_fails ∷ drop_fails ∷ [])
