-- ===== src/State/Reload.antt =====
-- What a fresh activation loads after a state was set (state.go).
use gor.Prelude.{
  ℕ, Option, none, some, Bool, true, false, List, [], ◌∷◌, ◌≡◌, ◌≢◌, ◌⊎◌, inl, inr, refl, sym, ap,
  ◌∙◌, arith, ite, Map, get, Text, Text-discrete, All, Bool-cases,
}
use mathlib.Core.Logic.{if_pos, if_neg}
use gor.Store.{GrainId-discrete, ETag, next_etag, ok, Memory}
use gor.Store.Keyed.{Distinct}
use gor.Store.Records.{current_record, read, write}
use gor.Store.Records.Cas.{current_record-write, write_ok}
use gor.State.{
  Cell, Binder, done, Json, document, persisted, persist_content, persist_document, persist,
  set_cell, keep_cell, set_encoded, set_state, decoded, load_cells, loaded, load_document,
  load_record, load,
}

-- JSON carries the value: if it is encoded, it is read back. A value with a field that JSON leaves out, say,
-- is not carried.
abbrev pub Carried : {V : Type 0} → Json V → V → Type 0
Carried json v = (d : List ℕ) → json.encode v ≡ some d → json.decode d ≡ some v

-- JSON carries the document: it is written as a text that is not empty, and read back with the same entry
-- for each name.
pub record Crosses {V : Type 0} (json : Json V) (doc : Map Text (List ℕ)) : Type 0 where
  pub first : ℕ
  pub rest : List ℕ
  pub read : Map Text (List ℕ)
  pub marshaled : json.marshal doc ≡ some (first ∷ rest)
  pub unmarshaled : json.unmarshal (first ∷ rest) ≡ some read
  pub same : (name : Text) → get Text-discrete name read ≡ get Text-discrete name doc

module _ {V : Type 0} (json : Json V) (zero : V) (is_context : ℕ → Bool) where
  abbrev absent_cell : Cell V
  absent_cell = record { value = zero; present = false }

  -- The cells as NewState registers them.
  abbrev pub fresh : Map Text (Cell V) → Map Text (Cell V)
  fresh [] = []
  fresh ((name, cell) ∷ cells) = (name, absent_cell) ∷ fresh cells

  -- No name twice, JSON carries the present states, and an absent state has its zero value.
  abbrev pub IsCells : Map Text (Cell V) → Type 0
  IsCells [] = Unit
  IsCells ((name, cell) ∷ cells) =
      (get Text-discrete name cells ≡ none)
      × ((cell.present ≡ true) × Carried json cell.value ⊎ (cell ≡ absent_cell))
      × IsCells cells

  module _ (changed : Text) (value : V) (d : List ℕ) (encoded : json.encode value ≡ some d)
      (carried : Carried json value) where
    abbrev new_cell : Cell V
    new_cell = record { value = value; present = true }

    decoded_encoded :
        (v : V) (x : List ℕ)
        → Carried json v
        → json.encode v ≡ some x
        → decoded json zero is_context absent_cell (some x)
          ≡ some (record { value = v; present = true })
    decoded_encoded v x c h = ground (arith, c x h)

    -- The document gives back the cell, or the new one.
    abbrev Gives : Map Text (List ℕ) → Text × Cell V → Type 0
    Gives doc e =
        decoded json zero is_context absent_cell (get Text-discrete e.0 doc)
        ≡ some (ite (Text-discrete e.0 changed) new_cell e.1)

    Gives-cons :
        (name : Text) (x : List ℕ) (doc : Map Text (List ℕ)) (cells : Map Text (Cell V))
        → get Text-discrete name cells ≡ none
        → All (Gives doc) cells
        → All (Gives ((name, x) ∷ doc)) cells
    unfolding get
    Gives-cons name x doc [] h g = tt
    Gives-cons name x doc ((n, c) ∷ cells) h g = elim (Text-discrete n name) [
      | yes p ↦ absurd (ground (arith, h, p))
      | no q ↦ (
        rw (if_neg _ (λ (e : name ≡ n). q (sym e))) g.0,
        Gives-cons name x doc cells (ground (arith, h, q)) g.1,
      )
    ]

    record Documents (cells : Map Text (Cell V)) (doc : Map Text (List ℕ)) : Type 0 where
      pub gives : All (Gives doc) cells
      pub misses : (n : Text) → get Text-discrete n cells ≡ none → get Text-discrete n doc ≡ none
      pub distinct : Distinct Text-discrete doc

    cons-Documents :
        (name : Text) (cell : Cell V) (cells : Map Text (Cell V)) (x : List ℕ)
        (doc : Map Text (List ℕ))
        → get Text-discrete name cells ≡ none
        → decoded json zero is_context absent_cell (some x)
          ≡ some (ite (Text-discrete name changed) new_cell cell)
        → Documents cells doc
        → Documents ((name, cell) ∷ cells) ((name, x) ∷ doc)
    unfolding get
    cons-Documents name cell cells x doc h g docs = record {
      gives = (rw (if_pos _ refl) g, Gives-cons name x doc cells h docs.gives);
      misses = λ n m. get_cons_none n m;
      distinct = (docs.misses name h, docs.distinct);
    }
      where
        get_cons_none :
            (n : Text)
            → get Text-discrete n ((name, cell) ∷ cells) ≡ none
            → get Text-discrete n ((name, x) ∷ doc) ≡ none
        get_cons_none n m = elim (Text-discrete name n) [
          | yes p ↦ absurd (ground (arith, m, p))
          | no q ↦ rw (if_neg _ q) (docs.misses n (ground (arith, m, q)))
        ]

    -- An absent state leaves no entry.
    skip-Documents :
        (name : Text) (cell : Cell V) (cells : Map Text (Cell V)) (doc : Map Text (List ℕ))
        → get Text-discrete name cells ≡ none
        → name ≢ changed
        → cell ≡ absent_cell
        → Documents cells doc
        → Documents ((name, cell) ∷ cells) doc
    unfolding get
    skip-Documents name cell cells doc h other a docs = record {
      gives = (rw (docs.misses name h, if_neg _ other) (ap some (sym a)), docs.gives);
      misses = λ n m. docs.misses n (ground (arith, m));
      distinct = docs.distinct;
    }

    -- The changed state, a present one and an absent one.
    unsome : {x y : Map Text (List ℕ)} → some x ≡ some y → x ≡ y
    unsome h = cc h

    document-Documents :
        (cells : Map Text (Cell V)) (doc : Map Text (List ℕ))
        → IsCells cells
        → document json zero is_context changed (some d) cells ≡ some doc
        → Documents cells doc
    unfolding document
    document-Documents [] doc i h =
        let e : [] ≡ doc = unsome h in
        rw (← e) (record { gives = tt; misses = λ n m. unfold get in refl; distinct = tt })
    document-Documents ((name, cell) ∷ cells) doc i h =
        by_rest (document json zero is_context changed (some d) cells) refl
          (λ doc' e. document-Documents cells doc' i.2 e)
      where
        by_rest :
            (rest : Option (Map Text (List ℕ)))
            → document json zero is_context changed (some d) cells ≡ rest
            → ((doc' : Map Text (List ℕ))
                → document json zero is_context changed (some d) cells ≡ some doc'
                → Documents cells doc')
            → Documents ((name, cell) ∷ cells) doc
        by_rest none e ih = absurd (ground (arith, h, e))
        by_rest (some doc') e ih = elim (Text-discrete name changed) [
          | yes p ↦
              let same : (name, d) ∷ doc' ≡ doc = unsome (ground (arith, h, e, p)) in
              rw (← same) (
                cons-Documents name cell cells d doc' i.0
                  (rw (if_pos _ p) (decoded_encoded value d carried encoded)) (ih doc' e))
          | no q ↦ elim (Bool-cases cell.present) [
            | inl t ↦ by_encode (json.encode cell.value) refl q t
            | inr f ↦
                let same : doc' ≡ doc = unsome (ground (arith, h, e, q, f)) in
                rw (← same)
                  (skip-Documents name cell cells doc' i.0 q (is_absent f i.1) (ih doc' e))
          ]
        ]
          where
            is_absent :
                cell.present ≡ false
                → (cell.present ≡ true) × Carried json cell.value ⊎ (cell ≡ absent_cell)
                → cell ≡ absent_cell
            is_absent f (inl t) = absurd (cc (f, t.0))
            is_absent f (inr a) = a

            is_carried :
                cell.present ≡ true
                → (cell.present ≡ true) × Carried json cell.value ⊎ (cell ≡ absent_cell)
                → Carried json cell.value
            is_carried t (inl c) = c.1
            is_carried t (inr a) = absurd (cc (t, ap (λ (c : Cell V). c.present) a))

            by_encode :
                (x : Option (List ℕ))
                → json.encode cell.value ≡ x
                → name ≢ changed
                → cell.present ≡ true
                → Documents ((name, cell) ∷ cells) doc
            by_encode none g q t = absurd (ground (arith, h, e, q, t, g))
            by_encode (some x) g q t =
                let same : (name, x) ∷ doc' ≡ doc = unsome (ground (arith, h, e, q, t, g)) in
                rw (← same) (
                  cons-Documents name cell cells x doc' i.0
                    (rw (if_neg _ q) (
                      decoded_encoded cell.value x (is_carried t i.1) g
                      ∙ ap (λ b. some (record { value = cell.value; present = b })) (sym t)))
                    (ih doc' e))

    -- Loading the document into fresh cells gives the cells after the change.
    load_cells-fresh :
        (cells : Map Text (Cell V)) (doc doc' : Map Text (List ℕ))
        → ((name : Text) → get Text-discrete name doc' ≡ get Text-discrete name doc)
        → All (Gives doc) cells
        → load_cells json zero is_context doc' (fresh cells)
          ≡ some (set_cell json zero is_context changed new_cell cells)
    unfolding load_cells set_cell
    load_cells-fresh [] doc doc' same g = refl
    load_cells-fresh ((name, cell) ∷ cells) doc doc' same g =
        let rest = load_cells-fresh cells doc doc' same g.1 in
        let here = ap (decoded json zero is_context absent_cell) (same name) ∙ g.0 in
        elim (Text-discrete name changed) [
          | yes p ↦ ground (arith, here, rest, p)
          | no q ↦ ground (arith, here, rest, q)
        ]

  load_record_ok :
      (content cs : List ℕ) (c : ℕ) (etag : ETag) (b : Binder V) (doc : Map Text (List ℕ))
      (cells : Map Text (Cell V))
      → content ≡ c ∷ cs
      → json.unmarshal content ≡ some doc
      → load_cells json zero is_context doc b.states ≡ some cells
      → load_record json zero is_context (ok (record { content = content; etag = etag })) b
        ≡ (done, record b { etag = etag; states = cells })
  unfolding load_record
  load_record_ok [] cs c etag b doc cells n u l = absurd (cc n)
  load_record_ok (x ∷ xs) cs c etag b doc cells n u l =
      ap (λ o. load_document json zero is_context etag o b) u
      ∙ ap (λ o. loaded json zero is_context etag o b) l

  set_state_ok :
      (name : Text) (value : V) (d content : List ℕ) (doc : Map Text (List ℕ)) (b : Binder V)
      (m m' : Memory) (etag : ETag)
      → json.encode value ≡ some d
      → document json zero is_context name (some d) b.states ≡ some doc
      → json.marshal doc ≡ some content
      → write none b.identity content b.etag m ≡ (ok etag, m')
      → set_state json zero is_context none name value b m ≡ (
        done,
        record b {
          etag = etag;
          states =
              set_cell json zero is_context name
                (record { value = value; present = true })
                b.states;
        },
        m',
      )
  unfolding set_state set_encoded persist persist_document persist_content persisted
  set_state_ok name value d content doc b m m' etag encodes documents marshals written =
      ap (λ o. set_encoded json zero is_context none name value o b m) encodes
      ∙ ap
          (λ o.
            keep_cell json zero is_context name new
              (persist_document json zero is_context none o b m))
          documents
      ∙ ap
          (λ o.
            keep_cell json zero is_context name new
              (persist_content json zero is_context none o b m))
          marshals
      ∙ ap (λ r. keep_cell json zero is_context name new (persisted json zero is_context b r))
          written
    where
      new : Cell V
      new = record { value = value; present = true }

  -- With a context that is not canceled, a value that encodes and that JSON carries, present states
  -- that encode to a document that JSON carries, an expected ETag that is current, and cells with
  -- distinct names whose absent ones are zero, Set succeeds, puts the value in its cell, and a fresh
  -- Binder with the same names then loads exactly the states and the ETag that this one has.
  pub set_state-load :
      (name : Text) (value : V) (d : List ℕ) (doc : Map Text (List ℕ)) (b : Binder V) (m : Memory)
      → json.encode value ≡ some d
      → Carried json value
      → document json zero is_context name (some d) b.states ≡ some doc
      → Crosses json doc
      → (current_record b.identity m).etag ≡ b.etag
      → IsCells b.states
      → (b' : Binder V) × (m' : Memory) × (set_state json zero is_context none name value b m
          ≡ (done, b', m'))
        × (b'.states
            ≡ set_cell json zero is_context name
                (record { value = value; present = true })
                b.states)
        × (load json zero is_context none
              (record b { etag = 0; states = fresh b.states; discard = none })
              m'
            ≡ (done, record b' { discard = none }))
  unfolding load read
  set_state-load name value d doc b m encodes carried documents crosses current cells =
      let docs = document-Documents name value d encodes carried b.states doc cells documents in
      let content = crosses.first ∷ crosses.rest in
      let m' : Memory = (write none b.identity (content) b.etag m).1 in
      let written = ap (λ r. (r, m')) (write_ok b.identity (content) b.etag m current) in
      let stored : current_record b.identity m'
          ≡ record { content = content; etag = next_etag b.etag } =
        current_record-write b.identity (content) b.etag m b.identity current
        ∙ if_pos (GrainId-discrete b.identity b.identity) refl _ _ in
      let start : Binder V = record b { etag = 0; states = fresh b.states; discard = none } in
      (
        _,
        m',
        set_state_ok name value d content doc b m m' (next_etag b.etag) encodes documents
            crosses.marshaled written,
        refl,
        ap (λ r. load_record json zero is_context (ok r) start) stored
            ∙ load_record_ok content crosses.rest crosses.first (next_etag b.etag) start
                crosses.read _ refl crosses.unmarshaled
                (load_cells-fresh name value d encodes carried b.states doc crosses.read
                  crosses.same docs.gives),
      )
