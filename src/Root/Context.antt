-- ===== src/Root/Context.antt =====
-- The request context of a call (request_context.go). F is the type of float64. The encoding/json, utf8 and
-- bytes functions that the code calls are the functions of a Codec. A context is its snapshot; a nil
-- context is not modelled. Where Go ranges over a map, the list's order is taken.
pub mod Laws
pub mod Entries
pub mod RoundTrip
use gor.Prelude.{
  ℕ, Option, none, some, Bool, true, false, not, ◌||◌, List, [], ◌∷◌, ◌++◌, Map, get, put, ite,
  if◌then◌else◌, ltb, length, ℤ, Text, Text-discrete, bytes, itoa, map,
}
use gor.Root.Errors.{
  GoError, opaque, wrap, with_code, Returned, value, failure, err_request_encode_failed,
}
use gor.Root.Forward.{or_fail}

abbrev pub max_entries : ℕ
max_entries = 32

abbrev pub max_bytes : ℕ
max_bytes = 4096

abbrev pub max_key_size : ℕ
max_key_size = 128

-- A canonical value: the types that a call carries.
pub data Scalar (F : Type 0) : Type 0 where
  null : Scalar F
  bool : Bool → Scalar F
  text : Text → Scalar F
  int64 : ℤ → Scalar F
  uint64 : ℕ → Scalar F
  float64 : F → Scalar F

-- A value that a caller gives: one of any signed or unsigned type, of a float type, or of another type.
pub data Given (F : Type 0) : Type 0 where
  given_nil : Given F
  given_bool : Bool → Given F
  given_text : Text → Given F
  given_signed : ℤ → Given F
  given_unsigned : ℕ → Given F
  given_float : F → Given F
  given_other : Text → Given F

pub record WireEntry : Type 0 where
  pub type : Text
  pub raw : Text

abbrev pub Snapshot : Type 0 → Type 0
Snapshot F = Map Text (Scalar F)

pub record Codec (F : Type 0) : Type 0 where
  pub valid_utf8 : Text → Bool
  pub trim_space : Text → Text
  pub is_finite : F → Bool
  pub encode_scalar : Scalar F → Returned Text
  pub encode_entries : Map Text WireEntry → Returned Text
  pub decode_object : Text → Returned (Option (Map Text Text))
  pub decode_text : Text → Returned Text
  pub decode_bool : Text → Returned Bool
  pub decode_int64 : Text → Returned ℤ
  pub decode_uint64 : Text → Returned ℕ
  pub decode_float64 : Text → Returned F
  pub quote : Text → Text

abbrev pub fails {ℓ} : {A : Type ℓ} → Text → Returned A
fails message = failure (opaque message)

abbrev pub wrapped {ℓ} : {A : Type ℓ} → Text → GoError → Returned A
wrapped before e = failure (wrap before e [])

-- RequestContextValue
unfoldable pub request_context_value : {F : Type 0} → Map Text F → Text → Option F
request_context_value ctx key = get Text-discrete key ctx

module _ {F : Type 0} (codec : Codec F) where
  -- validateRequestContextKey
  unfoldable pub validate_key : Text → Returned (Unit {0})
  unfolding itoa
  validate_key [] = fails (bytes "key is empty")
  validate_key (c ∷ cs) =
      if not (codec.valid_utf8 (c ∷ cs))
      then fails (bytes "key is not valid UTF-8")
      else if ltb max_key_size (length (c ∷ cs))
      then fails (bytes "key is " ++ itoa (length (c ∷ cs)) ++ bytes " bytes, maximum is 128")
      else value tt

  -- normalizeRequestContextValue
  unfoldable pub normalize_value : Given F → Returned (Scalar F)
  normalize_value given_nil = value null
  normalize_value (given_bool b) = value (bool b)
  normalize_value (given_text t) =
      if codec.valid_utf8 t then value (text t) else fails (bytes "value is not valid UTF-8")
  normalize_value (given_signed n) = value (int64 n)
  normalize_value (given_unsigned n) = value (uint64 n)
  normalize_value (given_float x) =
      if codec.is_finite x then value (float64 x) else fails (bytes "value is not finite")
  normalize_value (given_other type) =
      fails (bytes "value type " ++ type ++ bytes " is not a supported scalar")

  abbrev pub as_given : Scalar F → Given F
  as_given null = given_nil
  as_given (bool b) = given_bool b
  as_given (text t) = given_text t
  as_given (int64 n) = given_signed n
  as_given (uint64 n) = given_unsigned n
  as_given (float64 x) = given_float x

  abbrev pub type_name : Scalar F → Text
  type_name null = bytes "null"
  type_name (bool b) = bytes "bool"
  type_name (text t) = bytes "string"
  type_name (int64 n) = bytes "int64"
  type_name (uint64 n) = bytes "uint64"
  type_name (float64 x) = bytes "float64"

  abbrev pub encode_canonical : Scalar F → Returned WireEntry
  encode_canonical null = value (record { type = bytes "null"; raw = [] })
  encode_canonical s =
      or_fail (codec.encode_scalar s) (wrapped (bytes "encode value: "))
        (λ encoded. value (record { type = type_name s; raw = encoded }))

  -- marshalRequestContextEntry
  unfoldable pub marshal_entry : Scalar F → Returned WireEntry
  unfolding normalize_value
  marshal_entry s = or_fail (normalize_value (as_given s)) failure encode_canonical

  -- The loop of marshalRequestContext.
  unfoldable pub marshal_entries : Snapshot F → Returned (Map Text WireEntry)
  unfolding validate_key marshal_entry
  marshal_entries [] = value []
  marshal_entries ((key, s) ∷ values) =
      let rest = marshal_entries values in
      or_fail (validate_key key) failure (λ ok.
        or_fail (marshal_entry s) (wrapped (bytes "key " ++ codec.quote key ++ bytes ": "))
          (λ entry. or_fail rest failure (λ wire. value ((key, entry) ∷ wire))))

  abbrev pub within_bytes : Text → Returned Text
  unfolding itoa
  within_bytes encoded =
      if ltb max_bytes (length encoded)
      then fails (bytes "is " ++ itoa (length encoded) ++ bytes " bytes, maximum is 4096")
      else value encoded

  -- marshalRequestContext
  unfoldable pub marshal_context : Snapshot F → Returned Text
  unfolding marshal_entries within_bytes itoa
  marshal_context values =
      if ltb max_entries (length values)
      then fails (bytes "has " ++ itoa (length values) ++ bytes " entries, maximum is 32")
      else or_fail (marshal_entries values) failure (λ wire.
        or_fail (codec.encode_entries wire) (wrapped (bytes "encode entries: ")) within_bytes)

  -- requestContextPayload
  unfoldable pub context_payload : Snapshot F → Returned Text
  unfolding marshal_context
  context_payload [] = value []
  context_payload (e ∷ es) = marshal_context (e ∷ es)

  -- requestContextEncodeError
  abbrev pub encode_error : GoError → GoError
  encode_error e = with_code err_request_encode_failed (wrap (bytes "request context: ") e [])

  -- WithRequestContext: the snapshot afterwards, and its error.
  unfoldable pub with_request_context : Snapshot F → Text → Given F → Snapshot F × Option GoError
  unfolding validate_key normalize_value marshal_context
  with_request_context ctx key given =
      or_fail (validate_key key) (λ e. (ctx, some (encode_error e)))
        (λ ok.
          or_fail (normalize_value given) (λ e. (ctx, some (encode_error e)))
            (λ canonical.
              let values = put Text-discrete key canonical ctx in
              or_fail (marshal_context values) (λ e. (ctx, some (encode_error e)))
                (λ encoded. (values, none))))

  -- isJSONNull
  unfoldable pub is_json_null : Text → Bool
  is_json_null raw = ite (Text-discrete (codec.trim_space raw) (bytes "null")) true false

  -- trimmed[0] == '{'
  abbrev pub is_object : Text → Bool
  is_object [] = false
  is_object (c ∷ cs) = ite (Text-discrete (c ∷ []) (bytes "{")) true false

  abbrev pub decode_as {ℓ} : {A : Type ℓ} → Text → (A → Scalar F) → Returned A → Returned (Scalar F)
  decode_as type make r =
      or_fail r (wrapped (bytes "decode " ++ type ++ bytes " value: ")) (λ a. value (make a))

  abbrev pub finite_only : F → Returned (Scalar F)
  finite_only x =
      if codec.is_finite x then value (float64 x) else fails (bytes "float64 value is not finite")

  abbrev pub names : Text → Text → Bool
  names a b = ite (Text-discrete a b) true false

  -- The switch on typeName.
  unfoldable pub decode_typed : Text → Text → Returned (Scalar F)
  decode_typed type raw =
      if names type (bytes "bool")
      then decode_as type bool (codec.decode_bool raw)
      else if names type (bytes "string")
      then decode_as type text (codec.decode_text raw)
      else if names type (bytes "int64")
      then decode_as type int64 (codec.decode_int64 raw)
      else if names type (bytes "uint64")
      then decode_as type uint64 (codec.decode_uint64 raw)
      else if names type (bytes "float64")
      then or_fail (codec.decode_float64 raw) (wrapped (bytes "decode float64 value: ")) finite_only
      else fails (bytes "unknown entry type " ++ codec.quote type)

  unfoldable pub or_null : Option Text → Option Text
  unfolding is_json_null
  or_null none = none
  or_null (some raw) = if is_json_null raw then none else some raw

  unfoldable pub decode_value : Text → Map Text Text → Returned (Scalar F)
  unfolding decode_typed or_null
  decode_value type fields =
      if names type (bytes "null")
      then elim (get Text-discrete (bytes "value") fields) [
        | none ↦ value null
        | some raw ↦ fails (bytes "null entry must not have a value")
      ]
      else elim (or_null (get Text-discrete (bytes "value") fields)) [
        | none ↦ fails (type ++ bytes " entry value is missing or null")
        | some raw ↦ decode_typed type raw
      ]

  abbrev pub named_value : Map Text Text → Text → Returned (Scalar F)
  unfolding decode_value
  named_value fields [] = fails (bytes "entry type is not a string")
  named_value fields (c ∷ cs) = decode_value (c ∷ cs) fields

  unfoldable pub fields_of_type : Map Text Text → Option Text → Returned (Scalar F)
  unfolding named_value
  fields_of_type fields none = fails (bytes "entry type is missing")
  fields_of_type fields (some raw) =
      or_fail (codec.decode_text raw) (λ e. fails (bytes "entry type is not a string"))
        (named_value fields)

  unfoldable pub decode_fields : Map Text Text → Returned (Scalar F)
  unfolding fields_of_type or_null
  decode_fields fields = fields_of_type fields (or_null (get Text-discrete (bytes "type") fields))

  abbrev pub not_object {ℓ} :
      {A : Type ℓ} → Text → (Map Text Text → Returned A) → Option (Map Text Text) → Returned A
  not_object what next none = fails (what ++ bytes " must be a JSON object")
  not_object what next (some fields) = next fields

  -- The tests in front of a JSON object, which an entry and the whole context share.
  unfoldable pub decode_json_object {ℓ} :
      {A : Type ℓ} → Text → Text → (Map Text Text → Returned A) → Text → Returned A
  decode_json_object what doing next raw =
      let trimmed = codec.trim_space raw in
      if not (codec.valid_utf8 trimmed)
      then fails (what ++ bytes " is not valid UTF-8")
      else if not (is_object trimmed)
      then fails (what ++ bytes " must be a JSON object")
      else or_fail (codec.decode_object trimmed) (wrapped doing) (not_object what next)

  -- decodeRequestContextEntry
  unfoldable pub decode_entry : Text → Returned (Scalar F)
  unfolding decode_json_object decode_fields
  decode_entry raw = decode_json_object (bytes "entry") (bytes "decode entry: ") decode_fields raw

  abbrev pub key_error {ℓ} : {A : Type ℓ} → Text → GoError → Returned A
  key_error key e = wrapped (bytes "request_context key " ++ codec.quote key ++ bytes ": ") e

  -- The loop of decodeRequestContext.
  unfoldable pub decode_entries : Map Text Text → Returned (Snapshot F)
  unfolding validate_key decode_entry
  decode_entries [] = value []
  decode_entries ((key, raw) ∷ wire) =
      let rest = decode_entries wire in
      or_fail (validate_key key) (key_error key) (λ ok.
        or_fail (decode_entry raw) (key_error key)
          (λ s. or_fail rest failure (λ values. value ((key, s) ∷ values))))

  unfoldable pub decode_wire : Map Text Text → Returned (Snapshot F)
  unfolding decode_entries marshal_context itoa
  decode_wire wire =
      if ltb max_entries (length wire)
      then fails
          (bytes "request_context has " ++ itoa (length wire) ++ bytes " entries, maximum is 32")
      else or_fail (decode_entries wire) failure (λ values.
        or_fail (marshal_context values) (wrapped (bytes "validate request_context: "))
          (λ encoded. value values))

  -- decodeRequestContext
  unfoldable pub decode_context : Text → Returned (Snapshot F)
  unfolding decode_json_object decode_wire
  decode_context [] = value []
  decode_context (c ∷ cs) =
      decode_json_object (bytes "request_context") (bytes "decode request_context: ") decode_wire
        (c ∷ cs)
