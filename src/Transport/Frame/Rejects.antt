-- ===== src/Transport/Frame/Rejects.antt =====
-- What ReadFrame and WriteFrame refuse (transport/frame.go).
use gor.Prelude.{
  ℕ, zero, suc, ◌≤◌, ◌<◌, Option, none, some, true, false, List, [], ◌∷◌, ◌++◌, ltb, length, ◌≡◌,
  refl, sym, ap, ◌∙◌, arith, Bool-cases, inl, inr, ◌⊎◌,
}
use gor.Transport.Frame.{
  max_payload_size, payload_too_large, invalid_frame_type, Result, ok, err, Frame, valid,
  take_exact, read_full, read_payload, read_body, parse_header, read_header, read_frame, header_of,
  Writer, write_parts, write_frame, short_read,
}

-- WriteFrame writes nothing when the type is invalid or the payload too large, and says which, the
-- type first; otherwise it writes the header and then the payload.
pub write_frame_lem :
    {S : Type 0} (w : Writer S) (f : Frame) (s : S)
    → (valid f.type ≡ false) × (write_frame w f s ≡ (some (invalid_frame_type f.type), s))
      ⊎ (valid f.type ≡ true)
        × (max_payload_size < length f.payload)
        × (write_frame w f s ≡ (some (payload_too_large (length f.payload)), s))
      ⊎ (valid f.type ≡ true)
        × (length f.payload ≤ max_payload_size)
        × (write_frame w f s ≡ write_parts w (header_of f) f.payload s)
unfolding write_frame
write_frame_lem w f s = elim (Bool-cases (valid f.type)) [
  | inl v ↦ elim (Bool-cases (ltb max_payload_size (length f.payload))) [
    | inl l ↦ inr (inl (v, ground arith, rw (v, l, write_frame) refl))
    | inr l ↦ inr (inr (v, ground arith, rw (v, l, write_frame) refl))
  ]
  | inr v ↦ inl (v, rw (v, write_frame) refl)
]

read_payload_ok :
    (id type : ℕ) (r : Result (List ℕ)) (rest : List ℕ) {f : Frame} {out : List ℕ}
    → read_payload id type (r, rest) ≡ (ok f, out)
    → (r ≡ ok f.payload) × (f.type ≡ type) × (out ≡ rest)
unfolding read_payload
read_payload_ok id type (err e) rest h = cc
read_payload_ok id type (ok p) rest h = (ground arith, ground arith, ground arith)

take_exact_ok :
    (n : ℕ) (bs : List ℕ) {p : List ℕ × List ℕ}
    → take_exact n bs ≡ some p
    → (length p.0 ≡ n) × (bs ≡ p.0 ++ p.1)
unfolding take_exact
take_exact_ok zero bs {p} h =
    let same : ([], bs) ≡ p = ground arith in (rw (← same) refl, rw (← same) refl)
take_exact_ok (suc n) [] h = cc
take_exact_ok (suc n) (b ∷ bs) {p} h =
    by_rest (take_exact n bs) (λ q e. take_exact_ok n bs {p = q} e) h
  where
    by_rest :
        (o : Option (List ℕ × List ℕ))
        → ((q : List ℕ × List ℕ) → o ≡ some q → (length q.0 ≡ n) × (bs ≡ q.0 ++ q.1))
        → (elim o [ none ↦ none | some (xs, rest) ↦ some (b ∷ xs, rest) ]) ≡ some p
        → (length p.0 ≡ suc n) × (b ∷ bs ≡ p.0 ++ p.1)
    by_rest none ih e = cc
    by_rest (some (xs, rest)) ih e =
        let (long, split) = ih (xs, rest) refl in
        let same : (b ∷ xs, rest) ≡ p = ground arith in
        rw (← same) (omega (arith, long), ap (◌∷◌ b) split)

read_full_ok :
    (n : ℕ) (bs : List ℕ) {xs : List ℕ}
    → (read_full n bs).0 ≡ ok xs
    → (length xs ≡ n) × (bs ≡ xs ++ (read_full n bs).1)
unfolding read_full
read_full_ok n bs {xs} h = by_take (take_exact n bs) refl h
  where
    by_take :
        (o : Option (List ℕ × List ℕ))
        → take_exact n bs ≡ o
        → (elim o as (λ _. Result (List ℕ) × List ℕ) [
          | none ↦ (err (short_read bs), [])
          | some (xs, rest) ↦ (ok xs, rest)
        ]).0
          ≡ ok xs
        → (length xs ≡ n)
          × (bs
              ≡ xs
                ++ (elim o as (λ _. Result (List ℕ) × List ℕ) [
                  | none ↦ (err (short_read bs), [])
                  | some (xs, rest) ↦ (ok xs, rest)
                ]).1)
    by_take none e h = cc
    by_take (some (ys, rest)) e h =
        let same : ys ≡ xs = ground arith in
        let (long, split) = take_exact_ok n bs {p = (ys, rest)} e in rw (← same) (long, split)

-- What a frame read with the given size field satisfies.
record Accepted (size type : ℕ) (bs rest : List ℕ) (f : Frame) : Type 0 where
  size_fits : size ≤ max_payload_size
  kind : valid f.type ≡ true
  whole : length f.payload ≡ size
  split : bs ≡ f.payload ++ rest

read_body-Accepted :
    (size id type : ℕ) (bs : List ℕ) {f : Frame} {rest : List ℕ}
    → read_body size id type bs ≡ (ok f, rest)
    → Accepted size type bs rest f
unfolding read_body
read_body-Accepted size id type bs {f} {rest} h = elim (Bool-cases (ltb max_payload_size size)) [
  | inl l ↦ cc (rw (l, read_body) at h)
  | inr l ↦ elim (Bool-cases (valid type)) [
    | inl v ↦
        let (got, same, out) =
          read_payload_ok id type (read_full size bs).0 (read_full size bs).1
            (rw (l, v, read_body) at h) in
        let (long, split) = read_full_ok size bs got in
        record {
          size_fits = ground arith;
          kind = ap valid same ∙ v;
          whole = long;
          split = split ∙ ap (◌++◌ f.payload) (sym out);
        }
    | inr v ↦ cc (rw (l, v, read_body) at h)
  ]
]

-- A frame that was read: what stood in the input in front of the bytes that are left.
pub record Consumed (bs rest : List ℕ) (f : Frame) : Type 0 where
  pub header : List ℕ
  pub header_size : length header ≡ 13
  pub kind : valid f.type ≡ true
  pub fits : length f.payload ≤ max_payload_size
  pub split : bs ≡ header ++ (f.payload ++ rest)

parse_header-Accepted :
    (header bs : List ℕ) {f : Frame} {rest : List ℕ}
    → parse_header header bs ≡ (ok f, rest)
    → (size type : ℕ) × Accepted size type bs rest f
unfolding parse_header
parse_header-Accepted header bs h = (_, _, read_body-Accepted _ _ _ bs h)

-- ReadFrame accepts only frames of a valid type with at most MaxPayloadSize bytes of payload, and
-- then it has read 13 header bytes and exactly the payload.
pub read_frame-Consumed :
    (bs : List ℕ) {f : Frame} {rest : List ℕ} → read_frame bs ≡ (ok f, rest) → Consumed bs rest f
unfolding read_frame read_header
read_frame-Consumed bs {f} {rest} h = by_header (read_full 13 bs).0 refl h
  where
    by_header :
        (r : Result (List ℕ))
        → (read_full 13 bs).0 ≡ r
        → read_header (r, (read_full 13 bs).1) ≡ (ok f, rest)
        → Consumed bs rest f
    by_header (err e) q h = cc
    by_header (ok header) q h =
        let (long, split) = read_full_ok 13 bs q in
        let (size, type, a) = parse_header-Accepted header (read_full 13 bs).1 h in
        record {
          header = header;
          header_size = long;
          kind = a.kind;
          fits = omega (arith, a.whole, a.size_fits);
          split = split ∙ ap (◌++◌ header) a.split;
        }
