-- ===== src/Store/Sqlite/Migration/Safety.antt =====
-- The migration of an old database under failing statements (store/sqlite.go).
use gor.Prelude.{
  Option, none, some, List, [], ◌∷◌, get, length, ◌≡◌, ◌⊎◌, inl, inr, refl, sym, ap, ◌∙◌, subst,
  arith, ℕ_discrete,
}
use mathlib.Core.Logic.{if_pos}
use gor.Store.{GrainId-discrete, Error, Record}
use gor.Store.Keyed.{Distinct}
use gor.Store.Sqlite.Migration.{
  Rows, Files, Outcomes, MigrateError, insert_or_replace, copy_state_rows, drop_records,
  rolled_back, failed, copied_of, migrate_records, migrate_old_layout, openings, step,
}
use gor.Store.Sqlite.Migration.Copy.{
  SameRows, row, or_old, row-insert, insert-Distinct, same_length,
}

-- The files of a database whose old records were `rows`: the old table is there, and the state table is
-- empty or a copy of it; or the old table is gone, and the state table is the copy.
abbrev IsCopied : Rows → Rows → Type 0
IsCopied rows state = (state ≡ []) ⊎ SameRows state rows

abbrev Located : Rows → Option Rows → Rows → Type 0
Located rows none state = SameRows state rows
Located rows (some old) state = (old ≡ rows) × IsCopied rows state

pub record Keeps (rows : Rows) (files : Files) : Type 0 where
  pub located : Located rows files.old files.state
  pub distinct : Distinct GrainId-discrete files.state

-- No statement fails.
abbrev pub all_well : Outcomes
all_well = record {
  exists = none;
  begin = none;
  attach = none;
  copy = none;
  count_old = none;
  count_new = none;
  commit = none;
  detach = none;
  drop = none;
}

module _ (rows : Rows) (unique : Distinct GrainId-discrete rows) where
  or_old_self : (o : Option Record) → or_old o o ≡ o
  or_old_self none = refl
  or_old_self (some r) = refl

  or_old-none : (o : Option Record) → or_old o none ≡ o
  or_old-none none = refl
  or_old-none (some r) = refl

  insert-SameRows :
      (state : Rows) → IsCopied rows state → SameRows (insert_or_replace rows state) rows
  unfolding get
  insert-SameRows state (inl e) id =
      row-insert id rows state unique
      ∙ ap (λ s. or_old (row id rows) (row id s)) e
      ∙ or_old-none (row id rows)
  insert-SameRows state (inr h) id =
      row-insert id rows state unique ∙ ap (or_old (row id rows)) (h id) ∙ or_old_self (row id rows)

  same_count :
      (state : Rows)
      → IsCopied rows state
      → Distinct GrainId-discrete state
      → length rows ≡ length (insert_or_replace rows state)
  same_count state c d =
      same_length rows (insert_or_replace rows state) unique (insert-Distinct rows state d)
        (λ id. sym (insert-SameRows state c id))

  record Copied (r : Option MigrateError × Rows) : Type 0 where
    pub copied : IsCopied rows r.1
    pub distinct : Distinct GrainId-discrete r.1
    pub done : r.0 ≡ none → SameRows r.1 rows

  rolled_back-Copied :
      (state : Rows) (e : Error)
      → IsCopied rows state
      → Distinct GrainId-discrete state
      → Copied (rolled_back state e)
  rolled_back-Copied state e c d = record { copied = c; distinct = d; done = λ z. ground arith }

  step-Copied :
      (x : Option Error) (next : Option MigrateError × Rows) (state : Rows)
      → IsCopied rows state
      → Distinct GrainId-discrete state
      → Copied next
      → Copied (step x next (rolled_back state))
  step-Copied none next state c d n = n
  step-Copied (some e) next state c d n = rolled_back-Copied state e c d

  module _ (o : Outcomes) (state : Rows) (c : IsCopied rows state)
      (d : Distinct GrainId-discrete state) where
    abbrev new_state : Rows
    new_state = insert_or_replace rows state

    detached-Copied : (x : Option Error) → Copied (step x (none, new_state) (rolled_back new_state))
    detached-Copied x =
        step-Copied x (none, new_state) new_state (inr (insert-SameRows state c))
          (insert-Distinct rows state d)
          (record {
            copied = inr (insert-SameRows state c);
            distinct = insert-Distinct rows state d;
            done = λ _. insert-SameRows state c;
          })

    copy_state_rows-Copied : Copied (copy_state_rows o rows state)
    unfolding copy_state_rows
    copy_state_rows-Copied =
        rw (if_pos (ℕ_discrete (length rows) (length new_state)) (same_count state c d) _ _) (
          step-Copied o.begin _ state c d (
            step-Copied o.attach _ state c d (
              step-Copied o.copy _ state c d (
                step-Copied o.count_old _ state c d (
                  step-Copied o.count_new _ state c d
                    (step-Copied o.commit _ state c d (detached-Copied o.detach)))))))

  dropped-Keeps :
      (drop : Option Error) (r : Option MigrateError × Rows)
      → Copied r
      → Keeps rows (drop_records drop rows r).1
  dropped-Keeps drop (some e, state) c = record {
    located = (refl, c.copied);
    distinct = c.distinct;
  }
  dropped-Keeps (some e) (none, state) c = record {
    located = (refl, c.copied);
    distinct = c.distinct;
  }
  dropped-Keeps none (none, state) c = record { located = c.done refl; distinct = c.distinct }

  migrated-Keeps :
      (o : Outcomes) (old : Option Rows) (state : Rows)
      → Keeps rows (record { old = old; state = state })
      → Keeps rows (migrate_records o old state).1
  unfolding migrate_records
  migrated-Keeps o none state k = k
  migrated-Keeps o (some old) state k =
      subst (λ x. Keeps rows (drop_records o.drop x (copy_state_rows o x state)).1)
        (sym k.located.0)
        (dropped-Keeps o.drop (copy_state_rows o rows state)
          (copy_state_rows-Copied o state k.located.1 k.distinct))

  opened-Keeps :
      (o : Outcomes) (files : Files) → Keeps rows files → Keeps rows (migrate_old_layout o files).1
  unfolding migrate_old_layout
  opened-Keeps o files k =
      elim o.exists
        as (λ x.
          Keeps rows
            (step x (migrate_records o files.old files.state) (λ e. (some (failed e), files))).1) [
              | none ↦ migrated-Keeps o files.old files.state k
              | some e ↦ k
            ]

  openings-Keeps :
      (os : List Outcomes) (files : Files) → Keeps rows files → Keeps rows (openings os files)
  unfolding openings
  openings-Keeps [] files k = k
  openings-Keeps (o ∷ os) files k =
      openings-Keeps os (migrate_old_layout o files).1 (opened-Keeps o files k)

  finish :
      (old : Option Rows) (state : Rows)
      → Located rows old state
      → Distinct GrainId-discrete state
      → ((migrate_records all_well old state).0 ≡ none)
        × ((migrate_records all_well old state).1.old ≡ none)
        × SameRows (migrate_records all_well old state).1.state rows
  unfolding migrate_records copy_state_rows
  finish none state l d = (refl, refl, l)
  finish (some old) state (e, c) d =
      let copied = insert_or_replace rows state in
      rw
        (
          e,
          if_pos {C = Option MigrateError × Rows} (ℕ_discrete (length rows) (length copied))
              (same_count state c d) (none, copied)
              (some (copied_of (length copied) (length rows)), state),
        )
        (refl, refl, insert-SameRows state c)

  -- An old database after some openings.
  abbrev pub opened : List Outcomes → Files
  opened os = openings os (record { old = some rows; state = [] })

  -- However often the opening of an old database fails or is interrupted, at whatever statements,
  -- the next opening in which nothing fails ends without an error, drops the old table, and leaves
  -- in the state table exactly the old records.
  pub migrate_old_layout_lem :
      (os : List Outcomes)
      → ((migrate_old_layout all_well (opened os)).0 ≡ none)
        × ((migrate_old_layout all_well (opened os)).1.old ≡ none)
        × SameRows (migrate_old_layout all_well (opened os)).1.state rows
  unfolding migrate_old_layout
  migrate_old_layout_lem os =
      let k =
        openings-Keeps os (record { old = some rows; state = [] })
          (record { located = (refl, inl refl); distinct = tt }) in
      finish _ _ k.located k.distinct
