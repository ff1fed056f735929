-- ===== src/Root/Context/Laws.antt =====
-- What encoding/json documents for the values of a request context (request_context.go).
use gor.Prelude.{
  IsInt64, ◌<◌, ◌^◌, All, some, true, false, [], ◌∷◌, Map, Text, Text-discrete, bytes, map, ◌≡◌,
  ◌≢◌, refl, arith,
}
use gor.Store.Keyed.{Distinct}
use mathlib.Core.List.{Permᴰ}
use gor.Root.Errors.{GoError, Returned, value, failure}
use gor.Root.Forward.{or_fail}
use gor.Root.Context.{
  Scalar, null, bool, text, int64, uint64, float64, WireEntry, Codec, type_name, encode_canonical,
  is_json_null, is_object,
}

-- The value of an entry, which omitempty leaves out where it is empty.
abbrev pub value_field : Text → Map Text Text
value_field [] = []
value_field (c ∷ cs) = (bytes "value", c ∷ cs) ∷ []

abbrev pub value_of : {A : Type 0} → A → Returned A → A
value_of a (value b) = b
value_of a (failure e) = a

pub or_fail_value :
    {A B : Type 0} (r : Returned A) (fail : GoError → GoError) (next : A → Returned B) (b : B)
    → or_fail r (λ e. failure (fail e)) next ≡ value b
    → (a : A) × (r ≡ value a) × (next a ≡ value b)
or_fail_value (value a) fail next b h = (a, refl, h)
or_fail_value (failure e) fail next b h = ground arith

module _ {F : Type 0} (codec : Codec F) where
  -- A raw JSON object with the fields.
  pub record Object (raw : Text) (fields : Map Text Text) : Type 0 where
    pub valid : codec.valid_utf8 (codec.trim_space raw) ≡ true
    pub brace : is_object codec (codec.trim_space raw) ≡ true
    pub decoded : codec.decode_object (codec.trim_space raw) ≡ value (some fields)

  -- A string in UTF-8, an integer in range and a finite float: what JSON carries.
  abbrev pub Fits : Scalar F → Type 0
  Fits null = Unit
  Fits (bool b) = Unit
  Fits (text t) = codec.valid_utf8 t ≡ true
  Fits (int64 n) = IsInt64 n
  Fits (uint64 n) = n < 2 ^ 64
  Fits (float64 x) = codec.is_finite x ≡ true

  abbrev pub Decodes : Scalar F → Text → Type 0
  Decodes null raw = Unit
  Decodes (bool b) raw = codec.decode_bool raw ≡ value b
  Decodes (text t) raw = codec.decode_text raw ≡ value t
  Decodes (int64 n) raw = codec.decode_int64 raw ≡ value n
  Decodes (uint64 n) raw = codec.decode_uint64 raw ≡ value n
  Decodes (float64 x) raw = codec.decode_float64 raw ≡ value x

  -- The range of the value's Go type.
  abbrev pub InRange : Scalar F → Type 0
  InRange (int64 n) = IsInt64 n
  InRange (uint64 n) = n < 2 ^ 64
  InRange _ = Unit

  -- An entry that marshalRequestContextEntry makes of a value that JSON carries.
  abbrev pub IsEntry : WireEntry → Type 0
  IsEntry e = (s : Scalar F) × Fits s × (encode_canonical codec s ≡ value e)

  abbrev pub IsSent : Text × WireEntry → Type 0
  IsSent (key, e) = (codec.valid_utf8 key ≡ true) × IsEntry e

  -- What encoding/json documents of Marshal and Unmarshal, for the values of a request context. A map is
  -- written in the order of its keys, so the order of the list does not matter; the map that is read has
  -- the same keys and values, and Go ranges over it in an order of its own, `arrange`. omitempty leaves out
  -- an empty value. A scalar other than null, in the range of its type, is read back.
  pub record Documented : Type 1 where
    pub raw_entry : WireEntry → Text
    pub raw_name : Text → Text
    pub arrange : {A : Type 0} → Map Text A → Map Text A
    pub arrange-map :
        {A B : Type 0} (f : A → B) (m : Map Text A)
        → arrange (map (λ e. (e.0, f e.1)) m) ≡ map (λ e. (e.0, f e.1)) (arrange m)
    pub arrange-perm : {A : Type 0} (m : Map Text A) → Permᴰ (arrange m) m
    pub order_law :
        (wire : Map Text WireEntry)
        → Distinct Text-discrete wire
        → codec.encode_entries (arrange wire) ≡ codec.encode_entries wire
    pub entries_law :
        (wire : Map Text WireEntry) (t : Text)
        → Distinct Text-discrete wire
        → All IsSent wire
        → codec.encode_entries wire ≡ value t
        → (t ≢ []) × Object t (arrange (map (λ e. (e.0, raw_entry e.1)) wire))
    pub entry_law :
        (e : WireEntry)
        → IsEntry e
        → Object (raw_entry e) ((bytes "type", raw_name e.type) ∷ value_field e.raw)
    pub name_law :
        (s : Scalar F)
        → (is_json_null codec (raw_name (type_name codec s)) ≡ false)
          × (codec.decode_text (raw_name (type_name codec s)) ≡ value (type_name codec s))
    pub scalar_law :
        (s : Scalar F) (raw : Text)
        → s ≢ null
        → Fits s
        → codec.encode_scalar s ≡ value raw
        → (is_json_null codec raw ≡ false) × (raw ≢ []) × Decodes s raw
