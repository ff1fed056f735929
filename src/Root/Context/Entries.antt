-- ===== src/Root/Context/Entries.antt =====
-- The entries of a request context in JSON (request_context.go).
use gor.Prelude.{
  All, ap₂, none, some, Bool, true, false, [], ◌∷◌, Map, get, if◌then◌else◌, Text, Text-discrete,
  bytes, map, ◌≡◌, ◌≢◌, refl, sym, ap, subst, ◌++◌, ◌∙◌, arith, Bool-cases, inl, inr,
}
use gor.Store.Keyed.{Distinct}
use gor.Root.Errors.{Returned, value, failure, wrap}
use gor.Root.Forward.{or_fail}
use gor.Root.Context.{
  Scalar, null, bool, text, int64, uint64, float64, WireEntry, Snapshot, Codec, validate_key,
  normalize_value, type_name, encode_canonical, marshal_entry, marshal_entries, is_json_null,
  decode_typed, or_null, decode_value, named_value, decode_fields, fields_of_type,
  decode_json_object, decode_entry, decode_entries, wrapped, fails,
}
use gor.Root.Context.Laws.{
  value_field, Object, Fits, Decodes, InRange, IsEntry, IsSent, Documented, value_of, or_fail_value,
}

module _ {F : Type 0} (codec : Codec F) where
  module _ (doc : Documented codec) where
    pub decode_json_object-read :
        {A : Type 0} (what doing : Text) (next : Map Text Text → Returned A) (raw : Text)
        (fields : Map Text Text)
        → Object codec raw fields
        → decode_json_object codec what doing next raw ≡ next fields
    unfolding decode_json_object
    decode_json_object-read what doing next raw fields o = rw (o.valid, o.brace, o.decoded) refl

    or_null-some :
        (raw : Text) → is_json_null codec raw ≡ false → or_null codec (some raw) ≡ some raw
    unfolding or_null
    or_null-some raw h = rw h refl

    named :
        (s : Scalar F) (fields : Map Text Text)
        → named_value codec fields (type_name codec s)
          ≡ decode_value codec (type_name codec s) fields
    unfolding named_value
    named null fields = refl
    named (bool b) fields = refl
    named (text t) fields = refl
    named (int64 k) fields = refl
    named (uint64 k) fields = refl
    named (float64 x) fields = refl

    fields_read :
        (s : Scalar F) (rest : Map Text Text)
        → decode_fields codec ((bytes "type", doc.raw_name (type_name codec s)) ∷ rest)
          ≡ decode_value codec
              (type_name codec s)
              ((bytes "type", doc.raw_name (type_name codec s)) ∷ rest)
    unfolding decode_fields fields_of_type get Text-discrete
    fields_read s rest =
        ap (fields_of_type codec ((bytes "type", doc.raw_name (type_name codec s)) ∷ rest))
          (or_null-some (doc.raw_name (type_name codec s)) (doc.name_law s).0)
        ∙ rw (doc.name_law s).1 (named s ((bytes "type", doc.raw_name (type_name codec s)) ∷ rest))

    -- An entry with the name of a scalar's type.
    entry_read :
        (s : Scalar F) (raw : Text)
        → IsEntry codec (record { type = type_name codec s; raw = raw })
        → decode_entry codec (doc.raw_entry (record { type = type_name codec s; raw = raw }))
          ≡ decode_value codec
              (type_name codec s)
              ((bytes "type", doc.raw_name (type_name codec s)) ∷ value_field raw)
    unfolding decode_entry
    entry_read s raw is_entry =
        decode_json_object-read (bytes "entry") (bytes "decode entry: ") (decode_fields codec)
          (doc.raw_entry (record { type = type_name codec s; raw = raw })) _
          (doc.entry_law (record { type = type_name codec s; raw = raw }) is_entry)
        ∙ fields_read s (value_field raw)

    value_read :
        (s : Scalar F) (raw : Text)
        → s ≢ null
        → (is_json_null codec raw ≡ false) × (raw ≢ []) × Decodes codec s raw
        → Fits codec s
        → decode_value codec
            (type_name codec s)
            ((bytes "type", doc.raw_name (type_name codec s)) ∷ value_field raw)
          ≡ value s
    unfolding decode_value decode_typed get Text-discrete or_null
    value_read s [] n d f = absurd (d.1 refl)
    value_read null (c ∷ cs) n d f = absurd (n refl)
    value_read (bool b) (c ∷ cs) n d f = rw (d.0, d.2) refl
    value_read (text t) (c ∷ cs) n d f = rw (d.0, d.2) refl
    value_read (int64 k) (c ∷ cs) n d f = rw (d.0, d.2) refl
    value_read (uint64 k) (c ∷ cs) n d f = rw (d.0, d.2) refl
    value_read (float64 x) (c ∷ cs) n d f = rw (d.0, d.2, f) refl

    encoded_back :
        (s : Scalar F) (e : WireEntry)
        → s ≢ null
        → Fits codec s
        → encode_canonical codec s ≡ value e
        → or_fail
            (codec.encode_scalar s)
            (wrapped (bytes "encode value: "))
            (λ encoded. value (record { type = type_name codec s; raw = encoded }))
          ≡ value e
        → decode_entry codec (doc.raw_entry e) ≡ value s
    encoded_back s e n f sent h =
        let (raw, encoded, made) =
          or_fail_value (codec.encode_scalar s) (λ e. wrap (bytes "encode value: ") e []) _ e h in
        let same = ap (value_of e) made in
        ap (λ x. decode_entry codec (doc.raw_entry x)) (sym same)
        ∙ entry_read s raw (subst (IsEntry codec) (sym same) (s, f, sent))
        ∙ value_read s raw n (doc.scalar_law s raw n f encoded) f

    abbrev is_null : Scalar F → Bool
    is_null null = true
    is_null _ = false

    other : (s : Scalar F) → is_null s ≡ false → s ≢ null
    other s h e = ground (arith, ap is_null e)

    checked :
        (b : Bool) (s : Scalar F) (t : Text) (e : WireEntry)
        → or_fail (if b then value s else fails t) failure (encode_canonical codec) ≡ value e
        → (b ≡ true) × (encode_canonical codec s ≡ value e)
    checked true s t e h = (refl, h)
    checked false s t e h = ground arith

    -- A value in range that is encoded fits.
    marshaled :
        (s : Scalar F) (e : WireEntry)
        → InRange codec s
        → marshal_entry codec s ≡ value e
        → Fits codec s × (encode_canonical codec s ≡ value e)
    unfolding marshal_entry normalize_value
    marshaled null e r h = (tt, h)
    marshaled (bool b) e r h = (tt, h)
    marshaled (text t) e r h = checked (codec.valid_utf8 t) (text t) _ e h
    marshaled (int64 k) e r h = (r, h)
    marshaled (uint64 k) e r h = (r, h)
    marshaled (float64 x) e r h = checked (codec.is_finite x) (float64 x) _ e h

    -- An entry that was made of a value is read back as that value.
    entry_back :
        (s : Scalar F) (e : WireEntry)
        → Fits codec s
        → encode_canonical codec s ≡ value e
        → decode_entry codec (doc.raw_entry e) ≡ value s
    unfolding decode_value get Text-discrete
    entry_back null e f h =
        ap (λ x. decode_entry codec (doc.raw_entry x)) (sym (ap (value_of e) h))
        ∙ entry_read null [] (subst (IsEntry codec) (sym (ap (value_of e) h)) (null, f, h))
    entry_back (bool b) e f h = encoded_back (bool b) e (other (bool b) refl) f h h
    entry_back (text t) e f h = encoded_back (text t) e (other (text t) refl) f h h
    entry_back (int64 k) e f h = encoded_back (int64 k) e (other (int64 k) refl) f h h
    entry_back (uint64 k) e f h = encoded_back (uint64 k) e (other (uint64 k) refl) f h h
    entry_back (float64 x) e f h = encoded_back (float64 x) e (other (float64 x) refl) f h h

    -- The entry of a value that is encoded.
    abbrev pub entry_of : Scalar F → WireEntry
    entry_of s = value_of (record { type = []; raw = [] }) (marshal_entry codec s)

    abbrev pub with_entries : Snapshot F → Map Text WireEntry
    with_entries values = map (λ e. (e.0, entry_of e.1)) values

    -- A key and a value that are encoded.
    abbrev pub IsGood : Text × Scalar F → Type 0
    IsGood (key, s) =
        (validate_key codec key ≡ value tt)
        × (marshal_entry codec s ≡ value (entry_of s))
        × InRange codec s

    pub marshaled_entries :
        (values : Snapshot F) (wire : Map Text WireEntry)
        → All (λ e. InRange codec e.1) values
        → marshal_entries codec values ≡ value wire
        → All IsGood values × (wire ≡ with_entries values)
    unfolding marshal_entries
    marshaled_entries [] wire r h = (tt, sym (ap (value_of wire) h))
    marshaled_entries ((key, s) ∷ values) wire r h =
        let (ok, key_ok, h1) = or_fail_value (validate_key codec key) (λ e. e) _ wire h in
        let (entry, entry_ok, h2) =
          or_fail_value (marshal_entry codec s)
            (λ e. wrap (bytes "key " ++ codec.quote key ++ bytes ": ") e []) _ wire h1 in
        let (rest, rest_ok, h3) = or_fail_value (marshal_entries codec values) (λ e. e) _ wire h2 in
        let (good, same) = marshaled_entries values rest r.1 rest_ok in
        let here = ap (value_of (record { type = []; raw = [] })) entry_ok in
        (
          ((key_ok, entry_ok ∙ ap value (sym here), r.0), good),
          sym (ap (value_of wire) h3) ∙ ap₂ (λ e m. (key, e) ∷ m) (sym here) same,
        )

    pub marshal_entries-IsGood :
        (values : Snapshot F)
        → All IsGood values
        → marshal_entries codec values ≡ value (with_entries values)
    unfolding marshal_entries
    marshal_entries-IsGood [] g = refl
    marshal_entries-IsGood ((key, s) ∷ values) g =
        rw (g.0.0, g.0.1, marshal_entries-IsGood values g.1) refl

    pub decode_entries-IsGood :
        (values : Snapshot F)
        → All IsGood values
        → decode_entries codec (map (λ e. (e.0, doc.raw_entry e.1)) (with_entries values))
          ≡ value values
    unfolding decode_entries
    decode_entries-IsGood [] g = refl
    decode_entries-IsGood ((key, s) ∷ values) g =
        let (f, encoded) = marshaled s (entry_of s) g.0.2 g.0.1 in
        rw (g.0.0, entry_back s (entry_of s) f encoded, decode_entries-IsGood values g.1) refl

    key-valid : (key : Text) → validate_key codec key ≡ value tt → codec.valid_utf8 key ≡ true
    unfolding validate_key
    key-valid [] h = ground arith
    key-valid (c ∷ cs) h = elim (Bool-cases (codec.valid_utf8 (c ∷ cs))) [
      | inl t ↦ t
      | inr f ↦ absurd (ground (arith, rw f at h))
    ]

    pub with_entries-IsSent :
        (values : Snapshot F) → All IsGood values → All (IsSent codec) (with_entries values)
    with_entries-IsSent [] g = tt
    with_entries-IsSent ((key, s) ∷ values) g =
        let (f, encoded) = marshaled s (entry_of s) g.0.2 g.0.1 in
        ((key-valid key g.0.0, (s, f, encoded)), with_entries-IsSent values g.1)

    with_entries-absent :
        (k : Text) (m : Snapshot F)
        → get Text-discrete k m ≡ none
        → get Text-discrete k (with_entries m) ≡ none
    unfolding get
    with_entries-absent k [] h = refl
    with_entries-absent k ((j, v) ∷ m) h = ground (arith, with_entries-absent k m)

    -- The keys of the entries are those of the values.
    pub with_entries-Distinct :
        (values : Snapshot F)
        → Distinct Text-discrete values
        → Distinct Text-discrete (with_entries values)
    with_entries-Distinct [] d = tt
    with_entries-Distinct ((key, s) ∷ values) d =
        (with_entries-absent key values d.0, with_entries-Distinct values d.1)
