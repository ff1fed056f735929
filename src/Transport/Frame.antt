-- ===== src/Transport/Frame.antt =====
-- ReadFrame and WriteFrame of transport/frame.go. A reader is the list of the bytes that are still to
-- come, at whose end it reports io.EOF. A writer is a function on its own state.
pub mod RoundTrip
pub mod Rejects
use gor.Prelude.{
  ℕ, zero, suc, ◌+◌, ◌*◌, ◌/◌, ◌%◌, ◌^◌, ◌≤◌, ◌<◌, Option, none, some, Bool, true, false, not, ◌&&◌,
  List, [], ◌∷◌, ◌++◌, if◌then◌else◌, ltb, leb, length, take, drop, get_elem?,
}

abbrev pub max_payload_size : ℕ
max_payload_size = 2 ^ 20

abbrev pub frame_header_size : ℕ
frame_header_size = 13

pub data Error : Type 0 where
  eof unexpected_eof : Error
  payload_too_large : ℕ → Error
  invalid_frame_type : ℕ → Error
  write_error : ℕ → Error

pub data Result {ℓ} (A : Type ℓ) : Type ℓ where
  ok : A → Result A
  err : Error → Result A

-- FrameType is a uint8.
abbrev pub frame_request : ℕ
frame_request = 1

abbrev pub frame_response : ℕ
frame_response = 2

abbrev pub frame_error : ℕ
frame_error = 3

pub record Frame : Type 0 where
  pub id : ℕ
  pub type : ℕ
  pub payload : List ℕ

-- FrameType.valid
unfoldable pub valid : ℕ → Bool
valid t = leb frame_request t && leb t frame_error

-- binary.BigEndian.PutUint32 and PutUint64.
unfoldable pub put_uint32 : ℕ → List ℕ
put_uint32 v = v / 2 ^ 24 % 256 ∷ v / 2 ^ 16 % 256 ∷ v / 2 ^ 8 % 256 ∷ v % 256 ∷ []

unfoldable pub put_uint64 : ℕ → List ℕ
put_uint64 v =
    v / 2 ^ 56 % 256
    ∷ v / 2 ^ 48 % 256
    ∷ v / 2 ^ 40 % 256
    ∷ v / 2 ^ 32 % 256
    ∷ v / 2 ^ 24 % 256
    ∷ v / 2 ^ 16 % 256
    ∷ v / 2 ^ 8 % 256
    ∷ v % 256
    ∷ []

-- binary.BigEndian.Uint32 and Uint64, as the number that the bytes write in base 256.
unfoldable pub big_endian : ℕ → List ℕ → ℕ
big_endian acc [] = acc
big_endian acc (b ∷ bs) = big_endian (acc * 256 + b) bs

-- The first n bytes and the rest.
unfoldable pub take_exact : ℕ → List ℕ → Option (List ℕ × List ℕ)
take_exact zero bs = some ([], bs)
take_exact (suc n) [] = none
take_exact (suc n) (b ∷ bs) = elim (take_exact n bs) [
  | none ↦ none
  | some (xs, rest) ↦ some (b ∷ xs, rest)
]

-- The error of io.ReadFull where too few bytes are left.
abbrev pub short_read : List ℕ → Error
short_read [] = eof
short_read (b ∷ bs) = unexpected_eof

-- io.ReadFull: the bytes read, and the reader behind them.
unfoldable pub read_full : ℕ → List ℕ → Result (List ℕ) × List ℕ
read_full n bs = elim (take_exact n bs) [
  | none ↦ (err (short_read bs), [])
  | some (xs, rest) ↦ (ok xs, rest)
]

-- ReadFrame behind the header.
unfoldable pub read_payload : ℕ → ℕ → Result (List ℕ) × List ℕ → Result Frame × List ℕ
read_payload id type (err e, rest) = (err e, rest)
read_payload id type (ok payload, rest) =
    (ok (record { id = id; type = type; payload = payload }), rest)

unfoldable pub read_body : ℕ → ℕ → ℕ → List ℕ → Result Frame × List ℕ
read_body size id type rest =
    if ltb max_payload_size size
    then (err (payload_too_large size), rest)
    else (if not (valid type)
        then (err (invalid_frame_type type), rest)
        else read_payload id type (read_full size rest))

-- header[12], which a header of 13 bytes has.
abbrev pub byte_of : Option ℕ → ℕ
byte_of none = 0
byte_of (some b) = b

-- The fields header[:4], header[4:12] and header[12].
unfoldable pub parse_header : List ℕ → List ℕ → Result Frame × List ℕ
unfolding big_endian
parse_header header rest =
    read_body (big_endian 0 (take 4 header)) (big_endian 0 (take 8 (drop 4 header)))
      (byte_of (get_elem? header 12)) rest

unfoldable pub read_header : Result (List ℕ) × List ℕ → Result Frame × List ℕ
unfolding parse_header
read_header (err e, rest) = (err e, rest)
read_header (ok header, rest) = parse_header header rest

unfoldable pub read_frame : List ℕ → Result Frame × List ℕ
unfolding read_header read_full
read_frame bs = read_header (read_full frame_header_size bs)

unfoldable pub header_of : Frame → List ℕ
unfolding put_uint32 put_uint64
header_of frame =
    put_uint32 (length frame.payload % 2 ^ 32) ++ (put_uint64 frame.id ++ frame.type % 256 ∷ [])

-- io.Writer: none is success.
abbrev pub Writer : Type 0 → Type 0
Writer S = List ℕ → S → Option Error × S

unfoldable pub write_parts : {S : Type 0} → Writer S → List ℕ → List ℕ → S → Option Error × S
write_parts w header payload s =
    let (e, s1) = w header s in elim e [ some x ↦ (some x, s1) | none ↦ w payload s1 ]

unfoldable pub write_frame : {S : Type 0} → Writer S → Frame → S → Option Error × S
write_frame w frame s =
    if not (valid frame.type)
    then (some (invalid_frame_type frame.type), s)
    else (if ltb max_payload_size (length frame.payload)
        then (some (payload_too_large (length frame.payload)), s)
        else write_parts w (header_of frame) frame.payload s)
