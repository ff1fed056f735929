-- ===== src/Store/Sqlite/Records.antt =====
-- SQLite.Read and SQLite.Write (store/sqlite.go), beside those of Memory.
use gor.Prelude.{
  ℕ, ◌+◌, ◌-◌, ◌^◌, ◌<◌, Option, none, some, List, [], ◌∷◌, ◌≡◌, ◌≢◌, refl, sym, ap, ap₂, subst,
  ◌∙◌, ite, ℕ_discrete, arith, All,
}
use mathlib.Core.Logic.{if_pos, if_neg}
use gor.Store.{GrainId, GrainId-discrete, ETag, next_etag, Error, Result, ok, err, Record, Memory}
use gor.Store.Records.{current_record, read, write}
use gor.Store.Records.Cas.{write_ok, write_conflict, current_record-write}
use gor.Store.Records.History.{WriteCall, run_writes}
use gor.Store.Sqlite.{Table, IsTable, one_row}
use gor.Store.Sqlite.Cas.{
  cas_statement, cas_count, cas_row, hits, swapped, changed, etag_of_row, IsPositive,
}

abbrev pub etag_of : Record → ETag
etag_of r = r.etag

module _ (t : Table GrainId Record) where
  -- Scan into a Record; sql.ErrNoRows is no error.
  abbrev pub scanned : Option Record → Record
  scanned none = record { content = []; etag = 0 }
  scanned (some r) = r

  unfoldable pub sqlite_read : Option Error → GrainId → t.Contents → Result Record
  sqlite_read (some e) id c = err e
  sqlite_read none id c = ok (scanned (t.row id c))

  -- The two statements of Write.
  unfoldable pub write_statement : GrainId → List ℕ → ETag → t.Contents → ℕ × t.Contents
  unfolding cas_statement
  write_statement id content expect c =
      cas_statement t etag_of id (record { content = content; etag = 1 })
        (λ r. record { content = content; etag = r.etag + 1 }) expect c

  unfoldable pub sqlite_write :
      Option Error → Option Error → GrainId → List ℕ → ETag → t.Contents → Result ETag × t.Contents
  unfolding write_statement
  sqlite_write (some e) count_err id content expect c = (err e, c)
  sqlite_write none count_err id content expect c =
      one_row count_err (next_etag expect) (write_statement id content expect c)

  unfoldable pub run_sqlite : List WriteCall → t.Contents → List (Result ETag) × t.Contents
  unfolding sqlite_write
  run_sqlite [] c = ([], c)
  run_sqlite (w ∷ ws) c =
      let (r, c') = sqlite_write w.ctx_err none w.id w.content w.expect c in
      let (rs, c'') = run_sqlite ws c' in (r ∷ rs, c'')

  -- The table has the records of the memory store, and its ETags start at 1.
  pub record Holds (c : t.Contents) (m : Memory) : Type 0 where
    pub same : (id : GrainId) → scanned (t.row id c) ≡ current_record id m
    pub positive : (id : GrainId) → IsPositive etag_of (t.row id c)

  module _ (laws : IsTable GrainId-discrete t) where
    scanned_etag : (o : Option Record) → etag_of_row etag_of o ≡ (scanned o).etag
    scanned_etag none = refl
    scanned_etag (some r) = refl

    module _ (id : GrainId) (content : List ℕ) (expect : ETag) (c : t.Contents) where
      -- The row of the id behind a Write.
      abbrev written : Option Record → Option Record
      written =
          swapped etag_of (record { content = content; etag = 1 })
            (λ r. record { content = content; etag = r.etag + 1 }) expect

      abbrev changed_row : Option Record → Record
      changed_row =
          changed etag_of (record { content = content; etag = 1 })
            (λ r. record { content = content; etag = r.etag + 1 })

      changed_row_lem :
          (o : Option Record)
          → etag_of_row etag_of o ≡ expect
          → changed_row o ≡ record { content = content; etag = expect + 1 }
      changed_row_lem none e = ap (λ (v : ETag). record { content = content; etag = v + 1 }) e
      changed_row_lem (some r) e = ap (λ (v : ETag). record { content = content; etag = v + 1 }) e

      changed-IsPositive : (o : Option Record) → (changed_row o).etag ≢ 0
      changed-IsPositive none z = ground arith
      changed-IsPositive (some r) z = ground arith

      written-IsPositive :
          (o : Option Record) → IsPositive etag_of o → IsPositive etag_of (written o)
      written-IsPositive o p =
          elim (ℕ_discrete (etag_of_row etag_of o) expect)
            as (λ d. IsPositive etag_of (ite d (some (changed_row o)) o)) [
              | yes h ↦ changed-IsPositive o
              | no h ↦ p
            ]

      module _ (m : Memory) (h : Holds c m) (small : expect < 2 ^ 63 - 1) where
        next_small : next_etag expect ≡ expect + 1
        unfolding next_etag
        next_small = omega arith

        expected : ((current_record id m).etag ≡ expect) → etag_of_row etag_of (t.row id c) ≡ expect
        expected y = scanned_etag (t.row id c) ∙ ap (λ (r : Record). r.etag) (h.same id) ∙ y

        unexpected :
            ((current_record id m).etag ≢ expect) → etag_of_row etag_of (t.row id c) ≢ expect
        unexpected n q =
            n (sym (ap (λ (r : Record). r.etag) (h.same id)) ∙ sym (scanned_etag (t.row id c)) ∙ q)

        count_is :
            (k : ℕ)
            → hits etag_of expect (t.row id c) ≡ k
            → (write_statement id content expect c).0 ≡ k
        unfolding write_statement
        count_is k e = cas_count t laws etag_of id _ _ expect c (h.positive id) ∙ e

        same_answer :
            (sqlite_write none none id content expect c).0 ≡ (write none id content expect m).0
        unfolding sqlite_write ℕ_discrete
        same_answer = elim (ℕ_discrete (current_record id m).etag expect) [
          | yes y ↦
              rw
                (count_is 1
                  (if_pos (ℕ_discrete (etag_of_row etag_of (t.row id c)) expect) (expected y) _ _))
                (sym (write_ok id content expect m y))
          | no n ↦
              rw
                (count_is 0 (
                  if_neg (ℕ_discrete (etag_of_row etag_of (t.row id c)) expect) (unexpected n) _ _))
                (sym
                  (ap (λ (p : Result ETag × Memory). p.0) (write_conflict id content expect m n)))
        ]

        row_is :
            (j : GrainId) (o : Option Record)
            → written (t.row id c) ≡ o
            → t.row j (write_statement id content expect c).1
              ≡ ite (GrainId-discrete id j) o (t.row j c)
        unfolding write_statement
        row_is j o e =
            cas_row t laws etag_of id _ _ expect c (h.positive id) j
            ∙ ap (λ x. ite (GrainId-discrete id j) x (t.row j c)) e

        write-Holds :
            Holds (sqlite_write none none id content expect c).1 (write none id content expect m).1
        unfolding sqlite_write
        write-Holds = record {
          same = λ j. elim (ℕ_discrete (current_record id m).etag expect) [
            | yes y ↦
                ap scanned (
                  row_is j _ (
                    if_pos (ℕ_discrete (etag_of_row etag_of (t.row id c)) expect) (expected y) _ _
                    ∙ ap some (changed_row_lem (t.row id c) (expected y))))
                ∙ elim (GrainId-discrete id j)
                    as (λ d.
                      scanned
                        (ite d (some (record { content = content; etag = expect + 1 })) (t.row j c))
                      ≡ ite d (record { content = content; etag = next_etag expect })
                          (current_record j m)) [
                            | yes e ↦
                                ap (λ (v : ETag). record { content = content; etag = v })
                                  (sym next_small)
                            | no e ↦ h.same j
                          ]
                ∙ sym (current_record-write id content expect m j y)
            | no n ↦
                ap scanned (
                  row_is j _ (
                    if_neg (ℕ_discrete (etag_of_row etag_of (t.row id c)) expect) (unexpected n) _
                      _))
                ∙ elim (GrainId-discrete id j)
                    as (λ d. scanned (ite d (t.row id c) (t.row j c)) ≡ current_record j m) [
                      | yes e ↦ ap (λ i. scanned (t.row i c)) e ∙ h.same j
                      | no e ↦ h.same j
                    ]
                ∙ sym (
                    ap (λ (p : Result ETag × Memory). current_record j p.1)
                      (write_conflict id content expect m n))
          ];
          positive = λ j.
              subst (IsPositive etag_of) (sym (row_is j _ refl))
                (elim (GrainId-discrete id j)
                  as (λ d. IsPositive etag_of (ite d (written (t.row id c)) (t.row j c))) [
                    | yes e ↦ written-IsPositive (t.row id c) (h.positive id)
                    | no e ↦ h.positive j
                  ]);
        }

    abbrev IsSmall : WriteCall → Type 0
    IsSmall w = w.expect < 2 ^ 63 - 1

    sqlite_write-Holds :
        (ctx : Option Error) (id : GrainId) (content : List ℕ) (expect : ETag) (c : t.Contents)
        (m : Memory)
        → Holds c m
        → expect < 2 ^ 63 - 1
        → ((sqlite_write ctx none id content expect c).0 ≡ (write ctx id content expect m).0)
          × Holds (sqlite_write ctx none id content expect c).1 (write ctx id content expect m).1
    unfolding sqlite_write write
    sqlite_write-Holds none id content expect c m h s =
        (same_answer id content expect c m h s, write-Holds id content expect c m h s)
    sqlite_write-Holds (some e) id content expect c m h s = (refl, h)

    sqlite_read-Holds :
        (ctx : Option Error) (id : GrainId) (c : t.Contents) (m : Memory)
        → Holds c m
        → sqlite_read ctx id c ≡ read ctx id m
    unfolding sqlite_read read
    sqlite_read-Holds none id c m h = ap ok (h.same id)
    sqlite_read-Holds (some e) id c m h = refl

    -- On a table that SQLite keeps as documented, with the records of a memory store, any run of
    -- Writes that expect ETags below 2 ^ 63 - 1, stale and canceled ones included, returns what it
    -- does on Memory, and so does every Read afterwards.
    pub run_sqlite-run_writes :
        (ws : List WriteCall) (c : t.Contents) (m : Memory)
        → Holds c m
        → All IsSmall ws
        → ((run_sqlite ws c).0 ≡ (run_writes ws m).0)
          × ((ctx : Option Error) (id : GrainId)
              → sqlite_read ctx id (run_sqlite ws c).1 ≡ read ctx id (run_writes ws m).1)
    unfolding run_sqlite run_writes
    run_sqlite-run_writes [] c m h s = (refl, λ ctx id. sqlite_read-Holds ctx id c m h)
    run_sqlite-run_writes (w ∷ ws) c m h s =
        let one = sqlite_write-Holds w.ctx_err w.id w.content w.expect c m h s.0 in
        let more = run_sqlite-run_writes ws _ _ one.1 s.1 in (ap₂ ◌∷◌ one.0 more.0, more.1)
