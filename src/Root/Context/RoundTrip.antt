-- ===== src/Root/Context/RoundTrip.antt =====
-- What a request context keeps of its values on the way to another node (request_context.go).
use gor.Prelude.{
  if◌then◌else◌, suc, Option, none, some, Bool, true, false, List, [], ◌∷◌, Map, put, get-put_self,
  ltb, length, Text, Text-discrete, map, ◌≡◌, ◌≢◌, refl, sym, ap, subst, ◌∙◌, arith, Bool-cases,
  inl, inr, length-map, All, IsInt64, ◌<◌, ◌^◌, bytes,
}
use mathlib.Core.List.{Permᴰ}
use gor.Store.Keyed.{Distinct, put-Distinct, All-delete}
use gor.Root.Errors.{GoError, Returned, value, failure, wrap}
use gor.Root.Forward.{or_fail}
use gor.Root.Context.{
  Scalar, null, text, float64, Snapshot, Codec, validate_key, normalize_value, marshal_entries,
  within_bytes, marshal_context, context_payload, decode_json_object, decode_wire, decode_context,
  max_entries, wrapped, fails, Given, given_nil, given_bool, given_text, given_signed,
  given_unsigned, given_float, given_other, with_request_context, encode_error,
  request_context_value, WireEntry,
}
use gor.Root.Context.Laws.{Object, InRange, Documented, or_fail_value, value_of}
use gor.Root.Context.Entries.{
  decode_json_object-read, with_entries, entry_of, IsGood, marshaled_entries,
  marshal_entries-IsGood, decode_entries-IsGood, with_entries-IsSent, with_entries-Distinct,
}

module _ {A : Type 0} where
  All-Permᴰ : (P : A → Type 0) {xs ys : List A} → Permᴰ xs ys → All P ys → All P xs
  All-Permᴰ P Permᴰ.nil h = tt
  All-Permᴰ P (Permᴰ.cons e p) h = (subst P (sym e) h.0, All-Permᴰ P p h.1)
  All-Permᴰ P (Permᴰ.swap e f) h = (subst P (sym e) h.1.0, (subst P (sym f) h.0, h.1.1))
  All-Permᴰ P (Permᴰ.trans p q) h = All-Permᴰ P p (All-Permᴰ P q h)

  length-Permᴰ : {xs ys : List A} → Permᴰ xs ys → length xs ≡ length ys
  length-Permᴰ Permᴰ.nil = refl
  length-Permᴰ (Permᴰ.cons e p) = ap suc (length-Permᴰ p)
  length-Permᴰ (Permᴰ.swap e f) = refl
  length-Permᴰ (Permᴰ.trans p q) = length-Permᴰ p ∙ length-Permᴰ q

module _ {F : Type 0} (codec : Codec F) where
  -- The range of the Go type of a given value.
  abbrev pub IsGiven : Given F → Type 0
  IsGiven (given_signed n) = IsInt64 n
  IsGiven (given_unsigned n) = n < 2 ^ 64
  IsGiven _ = Unit

  within : (t payload : Text) → within_bytes codec t ≡ value payload → t ≡ payload
  unfolding within_bytes
  within t payload h = ground arith

  read_context :
      (t : Text)
      → t ≢ []
      → decode_context codec t
        ≡ decode_json_object codec
            (bytes "request_context")
            (bytes "decode request_context: ")
            (decode_wire codec)
            t
  unfolding decode_context
  read_context [] n = absurd (n refl)
  read_context (c ∷ cs) n = refl

  few_entries :
      (values : Snapshot F) (payload : Text)
      → ltb max_entries (length values) ≡ false
      → marshal_context codec values ≡ value payload
      → or_fail (marshal_entries codec values) failure (λ wire.
        or_fail
          (codec.encode_entries wire)
          (wrapped (bytes "encode entries: "))
          (within_bytes codec))
        ≡ value payload
  unfolding marshal_context
  few_entries values payload few h = rw few at h

  too_many :
      (values : Snapshot F) (payload : Text)
      → ltb max_entries (length values) ≡ true
      → marshal_context codec values ≡ value payload
      → ⊥
  unfolding marshal_context
  too_many values payload many h = ground (arith, rw many at h)

  chosen :
      (b : Bool) (s s' : Scalar F) (t : Text) → (if b then value s else fails t) ≡ value s' → s ≡ s'
  chosen true s s' t h = ap (value_of null) h
  chosen false s s' t h = ground arith

  in_range :
      (given : Given F) (s : Scalar F)
      → IsGiven given
      → normalize_value codec given ≡ value s
      → InRange codec s
  unfolding normalize_value
  in_range given_nil s r h = subst (InRange codec) (ap (value_of null) h) tt
  in_range (given_bool b) s r h = subst (InRange codec) (ap (value_of null) h) tt
  in_range (given_signed n) s r h = subst (InRange codec) (ap (value_of null) h) r
  in_range (given_unsigned n) s r h = subst (InRange codec) (ap (value_of null) h) r
  in_range (given_text t) s r h =
      subst (InRange codec) (chosen (codec.valid_utf8 t) (text t) s _ h) tt
  in_range (given_float x) s r h =
      subst (InRange codec) (chosen (codec.is_finite x) (float64 x) s _ h) tt
  in_range (given_other t) s r h = ground arith

  module _ (doc : Documented codec) where
    abbrev raws : Map Text WireEntry → Map Text Text
    raws wire = map (λ e. (e.0, doc.raw_entry e.1)) wire

    Object-back :
        (values : Snapshot F) (t : Text)
        → Distinct Text-discrete values
        → All (IsGood codec doc) values
        → codec.encode_entries (with_entries codec doc values) ≡ value t
        → (t ≢ []) × Object codec t (raws (with_entries codec doc (doc.arrange values)))
    Object-back values t d good e =
        let law =
          doc.entries_law (with_entries codec doc values) t
            (with_entries-Distinct codec doc values d) (with_entries-IsSent codec doc values good)
            e in
        (
          law.0,
          subst (Object codec t)
              (doc.arrange-map doc.raw_entry (with_entries codec doc values)
                ∙ ap raws (doc.arrange-map (entry_of codec doc) values))
              law.1,
        )

    -- The values are encoded to the same bytes in any order that Go ranges in.
    arranged :
        (values : Snapshot F) (payload : Text)
        → ltb max_entries (length values) ≡ false
        → Distinct Text-discrete values
        → All (IsGood codec doc) values
        → or_fail
            (codec.encode_entries (with_entries codec doc values))
            (wrapped (bytes "encode entries: "))
            (within_bytes codec)
          ≡ value payload
        → marshal_context codec (doc.arrange values) ≡ value payload
    unfolding marshal_context
    arranged values payload few d good h =
        rw
          (
            length-Permᴰ (doc.arrange-perm values),
            few,
            marshal_entries-IsGood codec doc (doc.arrange values)
                (All-Permᴰ (IsGood codec doc) (doc.arrange-perm values) good),
            sym (doc.arrange-map (entry_of codec doc) values),
            doc.order_law (with_entries codec doc values)
                (with_entries-Distinct codec doc values d),
          )
          h

    wire_back :
        (values : Snapshot F) (payload : Text)
        → ltb max_entries (length values) ≡ false
        → Distinct Text-discrete values
        → All (IsGood codec doc) values
        → or_fail
            (codec.encode_entries (with_entries codec doc values))
            (wrapped (bytes "encode entries: "))
            (within_bytes codec)
          ≡ value payload
        → decode_wire codec (raws (with_entries codec doc (doc.arrange values)))
          ≡ value (doc.arrange values)
    unfolding decode_wire
    wire_back values payload few d good h =
        rw
          (
            length-map {B = Text × Text} (λ e. (e.0, doc.raw_entry e.1))
                (with_entries codec doc (doc.arrange values)),
            length-map {B = Text × WireEntry} (λ e. (e.0, entry_of codec doc e.1))
                (doc.arrange values),
            length-Permᴰ (doc.arrange-perm values),
            few,
            decode_entries-IsGood codec doc (doc.arrange values)
                (All-Permᴰ (IsGood codec doc) (doc.arrange-perm values) good),
            arranged values payload few d good h,
          )
          refl

    context_back :
        (values : Snapshot F) (payload : Text)
        → Distinct Text-discrete values
        → All (λ e. InRange codec e.1) values
        → marshal_context codec values ≡ value payload
        → (values' : Snapshot F) × (decode_context codec payload ≡ value values')
          × Permᴰ values' values
    context_back values payload d r h = elim (Bool-cases (ltb max_entries (length values))) [
      | inl many ↦ absurd (too_many values payload many h)
      | inr few ↦
          let (wire, wire_ok, h1) =
            or_fail_value (marshal_entries codec values) (λ e. e) _ payload
              (few_entries values payload few h) in
          let (good, same) = marshaled_entries codec doc values wire r wire_ok in
          let h2 : or_fail (codec.encode_entries (with_entries codec doc values))
                (wrapped (bytes "encode entries: ")) (within_bytes codec)
              ≡ value payload =
            rw (sym same) h1 in
          let (t, encoded, h3) =
            or_fail_value (codec.encode_entries (with_entries codec doc values))
              (λ e. wrap (bytes "encode entries: ") e []) _ payload h2 in
          let (not_empty, object) = Object-back values t d good encoded in
          (
            doc.arrange values,
            subst (λ p. decode_context codec p ≡ value (doc.arrange values)) (within t payload h3)
                (read_context t not_empty
                  ∙ decode_json_object-read codec doc (bytes "request_context")
                      (bytes "decode request_context: ") (decode_wire codec) t _ object
                  ∙ wire_back values payload few d good h2),
            doc.arrange-perm values,
          )
    ]

    -- On encoding/json as documented, a request context, whose integers are in the range of their
    -- types, that is encoded without an error for a forwarded call is decoded on the other node to
    -- the same context: the same keys with their values and the values' types, in some order.
    pub decode_context-context_payload :
        (values : Snapshot F) (payload : Text)
        → Distinct Text-discrete values
        → All (λ e. InRange codec e.1) values
        → context_payload codec values ≡ value payload
        → (values' : Snapshot F) × (decode_context codec payload ≡ value values')
          × Permᴰ values' values
    unfolding context_payload decode_context
    decode_context-context_payload [] payload d r h = (
      [],
      subst (λ p. decode_context codec p ≡ value []) (ap (value_of payload) h) refl,
      Permᴰ.nil,
    )
    decode_context-context_payload (e ∷ es) payload d r h = context_back (e ∷ es) payload d r h

    no_error :
        {A : Type 0} (r : Returned A) (next : A → Snapshot F × Option GoError) (ctx : Snapshot F)
        (fail : GoError → GoError)
        → (or_fail r (λ e. (ctx, some (fail e))) next).1 ≡ none
        → (a : A) × (r ≡ value a)
          × ((next a).1 ≡ none)
          × (or_fail r (λ e. (ctx, some (fail e))) next ≡ next a)
    no_error (value a) next ctx fail h = (a, refl, h, refl)
    no_error (failure e) next ctx fail h = ground arith

    put-InRange :
        (ctx : Snapshot F) (key : Text) (s : Scalar F)
        → All (λ e. InRange codec e.1) ctx
        → InRange codec s
        → All (λ e. InRange codec e.1) (put Text-discrete key s ctx)
    unfolding put
    put-InRange ctx key s r h = (h, All-delete Text-discrete (λ e. InRange codec e.1) key ctx r)

    -- On encoding/json as documented, with integers in the range of their types, WithRequestContext
    -- that ends without an error has put the canonical form of the value under the key, where
    -- RequestContextValue finds it, and left the rest of the context; the whole context can then be
    -- encoded, and is decoded to the same keys and values, in some order.
    pub with_request_context_lem :
        (ctx : Snapshot F) (key : Text) (given : Given F)
        → Distinct Text-discrete ctx
        → All (λ e. InRange codec e.1) ctx
        → IsGiven given
        → (with_request_context codec ctx key given).1 ≡ none
        → (canonical : Scalar F) × (payload : Text) × (values : Snapshot F) × (normalize_value codec
              given
            ≡ value canonical)
          × (request_context_value (with_request_context codec ctx key given).0 key
              ≡ some canonical)
          × ((with_request_context codec ctx key given).0 ≡ put Text-discrete key canonical ctx)
          × (context_payload codec (put Text-discrete key canonical ctx) ≡ value payload)
          × (decode_context codec payload ≡ value values)
          × Permᴰ values (put Text-discrete key canonical ctx)
    unfolding with_request_context context_payload put request_context_value
    with_request_context_lem ctx key given d r g h =
        let (ok, key_ok, h1, e1) = no_error (validate_key codec key) _ ctx (encode_error codec) h in
        let (canonical, given_ok, h2, e2) =
          no_error (normalize_value codec given) _ ctx (encode_error codec) h1 in
        let values = put Text-discrete key canonical ctx in
        let (payload, made, h3, e3) =
          no_error (marshal_context codec values) _ ctx (encode_error codec) h2 in
        let stored = ap (λ (p : Snapshot F × Option GoError). p.0) (e1 ∙ e2 ∙ e3) in
        let (values', decoded, perm) =
          context_back values payload (put-Distinct Text-discrete key canonical ctx d)
            (put-InRange ctx key canonical r (in_range given canonical g given_ok)) made in
        (
          canonical,
          payload,
          values',
          given_ok,
          ap (λ v. request_context_value v key) stored
              ∙ get-put_self Text-discrete key canonical ctx,
          stored,
          made,
          decoded,
          perm,
        )
