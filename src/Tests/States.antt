-- ===== src/Tests/States.antt =====
-- A grain with two number states. The documents are written with the elements of a list one above their
-- value, and a zero at its end.
use mathlib.Core.List.{append_assoc, append-nil}
use gor.Prelude.{
  ℕ, zero, suc, Option, none, some, true, false, List, [], ◌∷◌, ◌++◌, ◌≡◌, inl, inr, refl, sym, ap,
  ◌∙◌, Map, get, Text, bytes, Text-discrete,
}
use gor.Store.{Memory, new_memory}
use gor.Store.Records.{current_record}
use gor.State.{Binder, done, Json, document, set_state, set_cell, load}
use gor.State.Reload.{Carried, Crosses, IsCells, fresh, set_state-load}
use gor.Tests.Store.{cart, empty_store}

seal : List ℕ → List ℕ → List ℕ
seal [] rest = 0 ∷ rest
seal (x ∷ xs) rest = suc x ∷ seal xs rest

write_document : Map Text (List ℕ) → List ℕ
write_document [] = 0 ∷ []
write_document ((name, d) ∷ doc) = 1 ∷ seal name (seal d (write_document doc))

data Place : Type 0 where
  between : Place
  in_name : Text → Place
  in_content : Text → List ℕ → Place

in_front : Text → List ℕ → Option (Map Text (List ℕ)) → Option (Map Text (List ℕ))
in_front name d none = none
in_front name d (some doc) = some ((name, d) ∷ doc)

parse : Place → List ℕ → Option (Map Text (List ℕ))
parse p [] = none
parse between (zero ∷ rest) = some []
parse between (suc x ∷ rest) = parse (in_name []) rest
parse (in_name n) (zero ∷ rest) = parse (in_content n []) rest
parse (in_name n) (suc x ∷ rest) = parse (in_name (n ++ x ∷ [])) rest
parse (in_content n d) (zero ∷ rest) = in_front n d (parse between rest)
parse (in_content n d) (suc x ∷ rest) = parse (in_content n (d ++ x ∷ [])) rest

parse_content :
    (n : Text) (d xs rest : List ℕ)
    → parse (in_content n d) (seal xs rest) ≡ in_front n (d ++ xs) (parse between rest)
unfolding parse seal
parse_content n d [] rest = ap (λ l. in_front n l (parse between rest)) (sym (append-nil d))
parse_content n d (x ∷ xs) rest =
    parse_content n (d ++ x ∷ []) xs rest
    ∙ ap (λ l. in_front n l (parse between rest)) (append_assoc d (x ∷ []) xs)

parse_name :
    (n : Text) (xs rest : List ℕ)
    → parse (in_name n) (seal xs rest) ≡ parse (in_content (n ++ xs) []) rest
unfolding parse seal
parse_name n [] rest = ap (λ l. parse (in_content l []) rest) (sym (append-nil n))
parse_name n (x ∷ xs) rest =
    parse_name (n ++ x ∷ []) xs rest
    ∙ ap (λ l. parse (in_content l []) rest) (append_assoc n (x ∷ []) xs)

parse-write_document : (doc : Map Text (List ℕ)) → parse between (write_document doc) ≡ some doc
unfolding parse write_document in_front
parse-write_document [] = refl
parse-write_document ((name, d) ∷ doc) =
    parse_name [] name (seal d (write_document doc))
    ∙ parse_content name [] d (write_document doc)
    ∙ ap (in_front name d) (parse-write_document doc)

single : List ℕ → Option ℕ
single [] = none
single (x ∷ xs) = some x

abbrev numbers : Json ℕ
numbers = record {
  encode = λ v. some (v ∷ []);
  decode = single;
  marshal = λ doc. some (write_document doc);
  unmarshal = parse between;
}

unsome : {x y : List ℕ} → some x ≡ some y → x ≡ y
unsome h = cc h

every-Carried : (v : ℕ) → Carried numbers v
unfolding single
every-Carried v d h = ap single (sym (unsome h))

abbrev counter : Binder ℕ
counter = record {
  identity = cart;
  etag = 0;
  discard = none;
  states =
      (bytes "count", record { value = 3; present = true })
      ∷ (bytes "limit", record { value = 0; present = false })
      ∷ [];
}

abbrev written : Map Text (List ℕ)
written = (bytes "count", 4 ∷ []) ∷ []

stored_state :
    document numbers 0 (λ n. false) (bytes "count") (some (4 ∷ [])) counter.states ≡ some written
unfolding document Text-discrete
stored_state = refl

written-Crosses : Crosses numbers written
unfolding write_document seal
written-Crosses = record {
  first = 1;
  rest = seal (bytes "count") (seal (4 ∷ []) (0 ∷ []));
  read = written;
  marshaled = refl;
  unmarshaled = parse-write_document written;
  same = λ name. refl;
}

no_record : (current_record cart empty_store).etag ≡ 0
unfolding current_record new_memory get
no_record = refl

counter-IsCells : IsCells numbers 0 (λ n. false) counter.states
unfolding get Text-discrete
counter-IsCells = (refl, inl (refl, every-Carried 3), (refl, inr refl, tt))

set_state-load_example :
    (b' : Binder ℕ) × (m' : Memory) × (set_state numbers 0
        (λ n. false)
        none
        (bytes "count")
        4
        counter
        empty_store
      ≡ (done, b', m'))
    × (b'.states
        ≡ set_cell numbers 0
            (λ n. false)
            (bytes "count")
            (record { value = 4; present = true })
            counter.states)
    × (load numbers 0
          (λ n. false)
          none
          (record counter {
            etag = 0;
            states = fresh numbers 0 (λ n. false) counter.states;
            discard = none;
          })
          m'
        ≡ (done, record b' { discard = none }))
set_state-load_example =
    set_state-load numbers 0 (λ n. false) (bytes "count") 4 (4 ∷ []) written counter empty_store
      refl (every-Carried 4) stored_state written-Crosses no_record counter-IsCells
