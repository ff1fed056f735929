-- ===== src/Tests/Contexts.antt =====
-- A codec that keeps what encoding/json documents, and a context with two values.
use gor.Prelude.{
  get, All, ℕ, zero, suc, Option, none, some, Bool, true, false, [], ◌∷◌, ◌++◌, Map, put, delete,
  length, take, drop, ℤ, pos, negsuc, Text, Text-discrete, bytes, map, ◌≡◌, ◌≢◌, refl, ap, subst,
  arith, take-append, drop-append,
}
use gor.Root.Errors.{GoError, opaque, Returned, value, failure}
use gor.Root.Context.{
  Scalar, null, bool, text, int64, uint64, float64, WireEntry, Snapshot, Codec, is_json_null,
  given_text, with_request_context, context_payload, decode_context, normalize_value,
  marshal_context, validate_key, request_context_value,
}
use gor.Store.Keyed.{Distinct}
use gor.Root.Context.Laws.{InRange, Object, Documented, Fits, Decodes, value_field}
use gor.Root.Context.RoundTrip.{decode_context-context_payload, with_request_context_lem}
use mathlib.Core.List.{Permᴰ}
use mathlib.Core.List.Permᴰ

abbrev chunk : Text → Text
chunk t = length t ∷ t

abbrev first_chunk : Text → Text
first_chunk [] = []
first_chunk (n ∷ t) = take n t

abbrev later_chunks : Text → Text
later_chunks [] = []
later_chunks (n ∷ t) = drop n t

abbrev pack : Map Text Text → Text
pack [] = []
pack ((k, v) ∷ m) = chunk k ++ (chunk v ++ pack m)

abbrev unpack : ℕ → Text → Map Text Text
unpack zero t = []
unpack (suc n) t =
    (first_chunk t, first_chunk (later_chunks t)) ∷ unpack n (later_chunks (later_chunks t))

unpack-pack : (m : Map Text Text) → unpack (length m) (pack m) ≡ m
unpack-pack [] = refl
unpack-pack ((k, v) ∷ m) =
    rw
      (
        drop-append k (chunk v ++ pack m),
        take-append k (chunk v ++ pack m),
        drop-append v (pack m),
        take-append v (pack m),
        unpack-pack m,
      )
      refl

abbrev object_text : Map Text Text → Text
object_text m = 123 ∷ length m ∷ pack m

abbrev short : GoError
short = opaque (bytes "unexpected end of JSON input")

abbrev read_object : Text → Returned (Option (Map Text Text))
read_object [] = failure short
read_object (c ∷ []) = failure short
read_object (c ∷ n ∷ t) = value (some (unpack n t))

abbrev name_text : Text → Text
name_text t = 34 ∷ t

abbrev read_text : Text → Returned Text
read_text [] = failure short
read_text (c ∷ t) = value t

abbrev entry_text : WireEntry → Text
entry_text e = object_text ((bytes "type", name_text e.type) ∷ value_field e.raw)

abbrev int_text : ℤ → Text
int_text (pos n) = 1 ∷ n ∷ []
int_text (negsuc n) = 2 ∷ n ∷ []

abbrev read_int : Text → Returned ℤ
read_int (suc zero ∷ n ∷ t) = value (pos n)
read_int (suc (suc k) ∷ n ∷ t) = value (negsuc n)
read_int _ = failure short

abbrev bool_text : Bool → Text
bool_text true = 1 ∷ []
bool_text false = 0 ∷ []

abbrev read_bool : Text → Returned Bool
read_bool (zero ∷ t) = value false
read_bool (suc k ∷ t) = value true
read_bool [] = failure short

abbrev read_nat : Text → Returned ℕ
read_nat (c ∷ n ∷ t) = value n
read_nat _ = failure short

abbrev scalar_text : Scalar Bool → Text
scalar_text null = 0 ∷ []
scalar_text (bool b) = bool_text b
scalar_text (text t) = name_text t
scalar_text (int64 n) = int_text n
scalar_text (uint64 n) = 1 ∷ n ∷ []
scalar_text (float64 x) = bool_text x

abbrev codec : Codec Bool
codec = record {
  valid_utf8 = λ t. true;
  trim_space = λ t. t;
  is_finite = λ x. true;
  encode_scalar = λ s. value (scalar_text s);
  encode_entries = λ wire. value (object_text (map (λ e. (e.0, entry_text e.1)) wire));
  decode_object = read_object;
  decode_text = read_text;
  decode_bool = read_bool;
  decode_int64 = read_int;
  decode_uint64 = read_nat;
  decode_float64 = read_bool;
  quote = λ t. t;
}

object : (m : Map Text Text) → Object codec (object_text m) m
unfolding Text-discrete
object m = record { valid = refl; brace = refl; decoded = ap (λ f. value (some f)) (unpack-pack m) }

abbrev text_of : Text → Returned Text → Text
text_of a (value b) = b
text_of a (failure e) = a

read_back :
    (s : Scalar Bool)
    → Fits codec s
    → (is_json_null codec (scalar_text s) ≡ false)
      × (scalar_text s ≢ [])
      × Decodes codec s (scalar_text s)
unfolding Text-discrete is_json_null
read_back null f = (refl, λ z. ground arith, tt)
read_back (bool true) f = (refl, λ z. ground arith, refl)
read_back (bool false) f = (refl, λ z. ground arith, refl)
read_back (text t) f = (refl, λ z. ground arith, refl)
read_back (int64 (pos n)) f = (refl, λ z. ground arith, refl)
read_back (int64 (negsuc n)) f = (refl, λ z. ground arith, refl)
read_back (uint64 n) f = (refl, λ z. ground arith, refl)
read_back (float64 true) f = (refl, λ z. ground arith, refl)
read_back (float64 false) f = (refl, λ z. ground arith, refl)

documented : Documented codec
unfolding Text-discrete is_json_null
documented = record {
  raw_entry = entry_text;
  raw_name = name_text;
  arrange = λ m. m;
  arrange-map = λ f m. refl;
  arrange-perm = λ m. Permᴰ.refl m;
  order_law = λ wire d. refl;
  entries_law = λ wire t d sent e.
      subst (λ x. (x ≢ []) × Object codec x (map (λ e. (e.0, entry_text e.1)) wire))
        (ap (text_of []) e) (λ z. ground arith, object (map (λ e. (e.0, entry_text e.1)) wire));
  entry_law = λ e sent. object ((bytes "type", name_text e.type) ∷ value_field e.raw);
  name_law = λ s. (refl, refl);
  scalar_law = λ s raw n f e.
      subst (λ x. (is_json_null codec x ≡ false) × (x ≢ []) × Decodes codec s x) (ap (text_of []) e)
        (read_back s f);
}

abbrev context : Snapshot Bool
context = (bytes "tenant", text (bytes "a")) ∷ (bytes "depth", int64 (pos 3)) ∷ []

abbrev wire_of : Returned Text → Text
wire_of (value t) = t
wire_of (failure e) = []

abbrev payload : Text
payload = object_text (
    (bytes "tenant", entry_text (record { type = bytes "string"; raw = name_text (bytes "a") }))
    ∷ (bytes "depth", entry_text (record { type = bytes "int64"; raw = 1 ∷ 3 ∷ [] }))
    ∷ [])

sent_payload : context_payload codec context ≡ value payload
unfolding context_payload marshal_context
sent_payload = refl

distinct : Distinct Text-discrete context
unfolding get Text-discrete
distinct = (refl, (refl, tt))

in_range : All (λ e. InRange codec e.1) context
in_range = (tt, (ground arith, tt))

decode_context-context_payload_example :
    (values' : Snapshot Bool) × (decode_context codec payload ≡ value values')
    × Permᴰ values' context
decode_context-context_payload_example =
    decode_context-context_payload codec documented context payload distinct in_range sent_payload

no_failure : (with_request_context codec context (bytes "user") (given_text (bytes "x"))).1 ≡ none
unfolding with_request_context validate_key normalize_value marshal_context put Text-discrete delete
no_failure = refl

with_request_context_lem_example :
    (canonical : Scalar Bool) × (payload : Text) × (values : Snapshot Bool) × (normalize_value codec
        (given_text (bytes "x"))
      ≡ value canonical)
    × (request_context_value
          (with_request_context codec context (bytes "user") (given_text (bytes "x"))).0
          (bytes "user")
        ≡ some canonical)
    × ((with_request_context codec context (bytes "user") (given_text (bytes "x"))).0
        ≡ put Text-discrete (bytes "user") canonical context)
    × (context_payload codec (put Text-discrete (bytes "user") canonical context) ≡ value payload)
    × (decode_context codec payload ≡ value values)
    × Permᴰ values (put Text-discrete (bytes "user") canonical context)
with_request_context_lem_example =
    with_request_context_lem codec documented context (bytes "user") (given_text (bytes "x"))
      distinct in_range tt no_failure
