-- ===== src/State.antt =====
-- The persistent states of a grain (state.go): the cells of a Binder, which are written together as one
-- record of the store. A state's value is of one type V here, a sum of the types of the handles; its JSON
-- form, and that of the document, are the functions of encoding/json. A load that fails leaves the cells
-- as they were; the activation, and the Binder with it, is then dropped.
pub mod Reload
use gor.Prelude.{
  ℕ, Option, none, some, Bool, true, false, List, [], ◌∷◌, ite, if◌then◌else◌, Map, get, Text,
  Text-discrete,
}
use gor.Store.{GrainId, ETag, Error, conflict, other, Result, ok, err, Record, Memory}
use gor.Store.Records.{read, write}

-- stateCellValue
pub record Cell (V : Type 0) : Type 0 where
  pub value : V
  pub present : Bool

-- The code of `discard`.
pub data Discard : Type 0 where
  persistence_conflict persistence_failed : Discard

pub record Binder (V : Type 0) : Type 0 where
  pub identity : GrainId
  pub etag : ETag
  pub states : Map Text (Cell V)
  pub discard : Option Discard

-- How a call ends: without error, with an encoding or decoding error, with the context's error, or with
-- an error that carries a code.
pub data Outcome : Type 0 where
  done json_error context_error : Outcome
  coded : Discard → Outcome

-- encoding/json: Marshal and Unmarshal of a value, and of the document.
pub record Json (V : Type 0) : Type 0 where
  pub encode : V → Option (List ℕ)
  pub decode : List ℕ → Option V
  pub marshal : Map Text (List ℕ) → Option (List ℕ)
  pub unmarshal : List ℕ → Option (Map Text (List ℕ))

module _ {V : Type 0} (json : Json V) (zero : V) (is_context : ℕ → Bool) where
  -- An entry in front of the rest of the document.
  abbrev pub entry :
      Text → Option (List ℕ) → Option (Map Text (List ℕ)) → Option (Map Text (List ℕ))
  entry name none rest = none
  entry name (some d) none = none
  entry name (some d) (some doc) = some ((name, d) ∷ doc)

  -- The loop of persist. `content` is none where the changed state is cleared.
  unfoldable pub document : Text → Option (List ℕ) → Map Text (Cell V) → Option (Map Text (List ℕ))
  document changed content [] = some []
  document changed content ((name, cell) ∷ cells) =
      let rest = document changed content cells in
      ite (Text-discrete name changed)
        (elim content [ none ↦ rest | some d ↦ entry name (some d) rest ])
        (if cell.present then entry name (json.encode cell.value) rest else rest)

  abbrev pub code_of : Error → Discard
  code_of conflict = persistence_conflict
  code_of (other n) = persistence_failed

  -- persist, behind the Write.
  unfoldable pub persisted : Binder V → Result ETag × Memory → Outcome × Binder V × Memory
  persisted b (ok etag, m) = (done, record b { etag = etag }, m)
  persisted b (err conflict, m) =
      (coded persistence_conflict, record b { discard = some persistence_conflict }, m)
  persisted b (err (other n), m) =
      if is_context n
      then (context_error, b, m)
      else (coded persistence_failed, record b { discard = some persistence_failed }, m)

  unfoldable pub persist_content :
      Option Error → Option (List ℕ) → Binder V → Memory → Outcome × Binder V × Memory
  persist_content ctx none b m = (json_error, b, m)
  persist_content ctx (some content) b m = persisted b (write ctx b.identity content b.etag m)

  unfoldable pub persist_document :
      Option Error → Option (Map Text (List ℕ)) → Binder V → Memory → Outcome × Binder V × Memory
  unfolding persist_content
  persist_document ctx none b m = (json_error, b, m)
  persist_document ctx (some doc) b m = persist_content ctx (json.marshal doc) b m

  -- persist; `ctx` is the context's error at the store.
  unfoldable pub persist :
      Option Error → Text → Option (List ℕ) → Binder V → Memory → Outcome × Binder V × Memory
  persist ctx changed content b m = persist_document ctx (document changed content b.states) b m

  -- s.cell = cell, at the state's name.
  unfoldable pub set_cell : Text → Cell V → Map Text (Cell V) → Map Text (Cell V)
  set_cell name cell [] = []
  set_cell name cell ((n, c) ∷ cells) =
      let rest = set_cell name cell cells in
      ite (Text-discrete n name) ((n, cell) ∷ rest) ((n, c) ∷ rest)

  abbrev pub keep_cell : Text → Cell V → Outcome × Binder V × Memory → Outcome × Binder V × Memory
  keep_cell name cell (done, b, m) = (done, record b { states = set_cell name cell b.states }, m)
  keep_cell name cell (json_error, b, m) = (json_error, b, m)
  keep_cell name cell (context_error, b, m) = (context_error, b, m)
  keep_cell name cell (coded d, b, m) = (coded d, b, m)

  unfoldable pub set_encoded :
      Option Error → Text → V → Option (List ℕ) → Binder V → Memory → Outcome × Binder V × Memory
  set_encoded ctx name value none b m = (json_error, b, m)
  set_encoded ctx name value (some d) b m =
      keep_cell name (record { value = value; present = true }) (persist ctx name (some d) b m)

  -- State.Set
  unfoldable pub set_state :
      Option Error → Text → V → Binder V → Memory → Outcome × Binder V × Memory
  set_state ctx name value b m = set_encoded ctx name value (json.encode value) b m

  -- State.Clear
  unfoldable pub clear_state : Option Error → Text → Binder V → Memory → Outcome × Binder V × Memory
  clear_state ctx name b m =
      keep_cell name (record { value = zero; present = false }) (persist ctx name none b m)

  abbrev pub decoded : Cell V → Option (List ℕ) → Option (Cell V)
  decoded cell none = some cell
  decoded cell (some d) = elim (json.decode d) [
    | none ↦ none
    | some v ↦ some (record { value = v; present = true })
  ]

  abbrev pub with_cell :
      Text → Option (Cell V) → Option (Map Text (Cell V)) → Option (Map Text (Cell V))
  with_cell name none rest = none
  with_cell name (some c) none = none
  with_cell name (some c) (some cells) = some ((name, c) ∷ cells)

  -- The loop of load over the document.
  unfoldable pub load_cells : Map Text (List ℕ) → Map Text (Cell V) → Option (Map Text (Cell V))
  load_cells doc [] = some []
  load_cells doc ((name, cell) ∷ cells) =
      with_cell name (decoded cell (get Text-discrete name doc)) (load_cells doc cells)

  abbrev pub loaded : ETag → Option (Map Text (Cell V)) → Binder V → Outcome × Binder V
  loaded etag none b = (json_error, b)
  loaded etag (some cells) b = (done, record b { etag = etag; states = cells })

  abbrev pub load_document : ETag → Option (Map Text (List ℕ)) → Binder V → Outcome × Binder V
  load_document etag none b = (json_error, b)
  load_document etag (some doc) b = loaded etag (load_cells doc b.states) b

  unfoldable pub load_record : Result Record → Binder V → Outcome × Binder V
  load_record (err conflict) b = (coded persistence_failed, b)
  load_record (err (other n)) b =
      (if is_context n then context_error else coded persistence_failed, b)
  load_record (ok r) b = elim r.content [
    | [] ↦ (done, record b { etag = r.etag })
    | c ∷ cs ↦ load_document r.etag (json.unmarshal (c ∷ cs)) b
  ]

  -- Binder.load
  unfoldable pub load : Option Error → Binder V → Memory → Outcome × Binder V
  load ctx b m = load_record (read ctx b.identity m) b
