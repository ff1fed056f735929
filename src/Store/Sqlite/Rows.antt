-- ===== src/Store/Sqlite/Rows.antt =====
-- A table as an association list: what SQLite documents of its statements can hold.
use gor.Prelude.{Option, none, some, Map, get, put, delete, ◌≡◌, refl, ite, get-put, get-delete}
use gor.Store.Sqlite.{Table, IsTable, absent_rows, or_new, matched_rows, updated, kept, upserted}

module _ {K R : Type 0} (dec : Discrete K) where
  abbrev put_row : K → Option R → Map K R → Map K R
  put_row k none m = delete dec k m
  put_row k (some r) m = put dec k r m

  abbrev pub table : Table K R
  table = record {
    Contents = Map K R;
    row = get dec;
    insert_or_nothing = λ k r m. (absent_rows (get dec k m), put_row k (or_new r (get dec k m)) m);
    update = λ k p f m. (matched_rows p (get dec k m), put_row k (updated p f (get dec k m)) m);
    remove = λ k p m. (matched_rows p (get dec k m), put_row k (kept p (get dec k m)) m);
    upsert = λ k r f m. put_row k (upserted r f (get dec k m)) m;
  }

  get-put_row :
      (j k : K) (o : Option R) (m : Map K R)
      → get dec j (put_row k o m) ≡ ite (dec k j) o (get dec j m)
  get-put_row j k none m = get-delete dec j k m
  get-put_row j k (some r) m = get-put dec j k r m

  pub table-IsTable : IsTable dec table
  table-IsTable = record {
    insert_count = λ k r c. refl;
    insert_row = λ j k r c. get-put_row j k _ c;
    update_count = λ k p f c. refl;
    update_row = λ j k p f c. get-put_row j k _ c;
    remove_count = λ k p c. refl;
    remove_row = λ j k p c. get-put_row j k _ c;
    upsert_row = λ j k r f c. get-put_row j k _ c;
  }
