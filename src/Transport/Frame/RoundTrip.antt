-- ===== src/Transport/Frame/RoundTrip.antt =====
-- What WriteFrame writes, ReadFrame reads back (transport/frame.go).
use gor.Prelude.{
  ℕ, zero, suc, ◌%◌, ◌^◌, ◌≤◌, ◌<◌, Option, none, some, true, false, List, [], ◌∷◌, ◌++◌, ltb,
  length, ◌≡◌, refl, sym, ap, ◌∙◌, arith, All,
}
use mathlib.Core.List.{append_assoc, append-nil}
use native.Mathlib.Nat.{mod-eq_of_lt}
use gor.Transport.Frame.{
  max_payload_size, Error, Result, ok, err, Frame, valid, put_uint32, put_uint64, big_endian,
  take_exact, read_full, read_payload, read_body, read_frame, header_of, Writer, write_parts,
  write_frame,
}

big_endian-put_uint32 : (v : ℕ) → v < 2 ^ 32 → big_endian 0 (put_uint32 v) ≡ v
unfolding big_endian put_uint32
big_endian-put_uint32 v h = omega arith

big_endian-put_uint64 : (v : ℕ) → v < 2 ^ 64 → big_endian 0 (put_uint64 v) ≡ v
unfolding big_endian put_uint64
big_endian-put_uint64 v h = omega arith

take_exact-append : (xs rest : List ℕ) → take_exact (length xs) (xs ++ rest) ≡ some (xs, rest)
unfolding take_exact
take_exact-append [] rest = refl
take_exact-append (x ∷ xs) rest = rw (take_exact-append xs rest) refl

read_full-append : (xs rest : List ℕ) → read_full (length xs) (xs ++ rest) ≡ (ok xs, rest)
unfolding read_full
read_full-append xs rest = rw (take_exact-append xs rest, read_full) refl

-- A frame that WriteFrame accepts, with fields in the range of their Go types.
pub record IsFrame (f : Frame) : Type 0 where
  pub kind : valid f.type ≡ true
  pub fits : length f.payload ≤ max_payload_size
  pub id64 : f.id < 2 ^ 64

-- The bytes of a frame on the wire.
unfoldable pub encode : Frame → List ℕ
encode f = header_of f ++ f.payload

read_frame_bytes :
    (f : Frame) (rest : List ℕ)
    → read_frame (header_of f ++ rest)
      ≡ read_body
          (big_endian 0 (put_uint32 (length f.payload % 2 ^ 32)))
          (big_endian 0 (put_uint64 f.id))
          (f.type % 256)
          rest
unfolding read_frame header_of take_exact
read_frame_bytes f rest = refl

read_body_ok :
    (size id type : ℕ) (payload rest : List ℕ)
    → length payload ≡ size
    → size ≤ max_payload_size
    → valid type ≡ true
    → read_body size id type (payload ++ rest)
      ≡ (ok (record { id = id; type = type; payload = payload }), rest)
unfolding read_body read_payload
read_body_ok size id type payload rest e fits v =
    rw (small, v, read_body, ← e, read_full-append payload rest) refl
  where
    small : ltb max_payload_size size ≡ false
    small = ground arith

valid_small : (t : ℕ) → valid t ≡ true → t % 256 ≡ t
unfolding valid
valid_small t v = mod-eq_of_lt (ground arith)

size_lem : (n : ℕ) → n ≤ max_payload_size → big_endian 0 (put_uint32 (n % 2 ^ 32)) ≡ n
size_lem n h = big_endian-put_uint32 (n % 2 ^ 32) (omega arith) ∙ omega arith

-- A frame in range that is followed by any bytes is read back, and the reader stands behind it.
pub read_frame-encode :
    (f : Frame) (rest : List ℕ) → IsFrame f → read_frame (encode f ++ rest) ≡ (ok f, rest)
unfolding encode
read_frame-encode f rest h =
    ap read_frame (append_assoc (header_of f) f.payload rest)
    ∙ read_frame_bytes f (f.payload ++ rest)
    ∙ rw
        (
          size_lem (length f.payload) h.fits,
          big_endian-put_uint64 f.id h.id64,
          valid_small f.type h.kind,
        )
        (read_body_ok (length f.payload) f.id f.type f.payload rest refl h.fits h.kind)

-- A writer that keeps all bytes.
unfoldable pub append_writer : Writer (List ℕ)
append_writer bs s = (none, s ++ bs)

write_frame_ok :
    (f : Frame) (s : List ℕ) → IsFrame f → write_frame append_writer f s ≡ (none, s ++ encode f)
unfolding write_frame write_parts append_writer encode
write_frame_ok f s h =
    let small : ltb max_payload_size (length f.payload) ≡ false = ground (arith, h.fits) in
    rw (h.kind, small, write_frame) (ap (λ b. (none, b)) (append_assoc s (header_of f) f.payload))

-- The next call, unless the one before failed.
abbrev pub then_write : {S : Type 0} → (S → Option Error × S) → Option Error × S → Option Error × S
then_write more (none, s) = more s
then_write more (some e, s) = (some e, s)

-- WriteFrame for each of a list of frames, up to the first error.
unfoldable pub write_frames : {S : Type 0} → Writer S → List Frame → S → Option Error × S
write_frames w [] s = (none, s)
write_frames w (f ∷ fs) s = then_write (write_frames w fs) (write_frame w f s)

abbrev pub with_frame : Frame → Result (List Frame) × List ℕ → Result (List Frame) × List ℕ
with_frame f (err e, rest) = (err e, rest)
with_frame f (ok fs, rest) = (ok (f ∷ fs), rest)

abbrev pub then_read :
    (List ℕ → Result (List Frame) × List ℕ) → Result Frame × List ℕ → Result (List Frame) × List ℕ
then_read more (err e, rest) = (err e, rest)
then_read more (ok f, rest) = with_frame f (more rest)

-- ReadFrame for as many frames as asked for; the frames read, and the reader behind them.
unfoldable pub read_frames : ℕ → List ℕ → Result (List Frame) × List ℕ
read_frames zero bs = (ok [], bs)
read_frames (suc n) bs = then_read (read_frames n) (read_frame bs)

unfoldable pub encode_all : List Frame → List ℕ
encode_all [] = []
encode_all (f ∷ fs) = encode f ++ encode_all fs

write_frames_ok :
    (fs : List Frame) (s : List ℕ)
    → All IsFrame fs
    → write_frames append_writer fs s ≡ (none, s ++ encode_all fs)
unfolding write_frames encode_all
write_frames_ok [] s h = ap (λ b. (none, b)) (sym (append-nil s))
write_frames_ok (f ∷ fs) s h =
    rw (write_frame_ok f s h.0, write_frames_ok fs (s ++ encode f) h.1)
      (ap (λ b. (none, b)) (append_assoc s (encode f) (encode_all fs)))

read_frames-encode_all :
    (fs : List Frame) (rest : List ℕ)
    → All IsFrame fs
    → read_frames (length fs) (encode_all fs ++ rest) ≡ (ok fs, rest)
unfolding read_frames encode_all
read_frames-encode_all [] rest h = refl
read_frames-encode_all (f ∷ fs) rest h =
    rw
      (
        append_assoc (encode f) (encode_all fs) rest,
        read_frame-encode f (encode_all fs ++ rest) h.0,
        read_frames-encode_all fs rest h.1,
      )
      refl

-- What WriteFrame writes one frame after the other, for frames in range, ReadFrame reads back in
-- order, and leaves the bytes behind them unread.
pub read_frames-write_frames :
    (fs : List Frame) (rest : List ℕ)
    → All IsFrame fs
    → ((write_frames append_writer fs []).0 ≡ none)
      × (read_frames (length fs) ((write_frames append_writer fs []).1 ++ rest) ≡ (ok fs, rest))
read_frames-write_frames fs rest h =
    rw (write_frames_ok fs [] h) (refl, read_frames-encode_all fs rest h)
