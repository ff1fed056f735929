-- ===== src/Store/Records/Cas.antt =====
-- Compare-and-swap of Memory.Write (store/store.go).
use gor.Prelude.{ℕ, ◌^◌, ◌<◌, none, List, ◌≡◌, ◌≢◌, ◌⊎◌, arith, get-put, ite, ℕ_discrete, inl, inr}
use gor.Store.{GrainId, GrainId-discrete, ETag, next_etag, conflict, ok, err, Memory}
use gor.Store.Records.{current_record, read, write}

pub next_etag_ne : (e : ETag) → e < 2 ^ 64 → next_etag e ≢ e
unfolding next_etag
next_etag_ne e h = omega arith

module _ (id : GrainId) (content : List ℕ) (expect : ETag) (m : Memory) where
  pub write_ok :
      (current_record id m).etag ≡ expect
      → (write none id content expect m).0 ≡ ok (next_etag expect)
  unfolding write
  write_ok h = ground arith

  pub current_record-write :
      (j : GrainId)
      → (current_record id m).etag ≡ expect
      → current_record j (write none id content expect m).1
        ≡ ite
            (GrainId-discrete id j)
            (record { content = content; etag = next_etag expect })
            (current_record j m)
  unfolding write current_record
  current_record-write j h = ground (
    arith,
    get-put GrainId-discrete j id (record { content = content; etag = next_etag expect }) m.records,
  )

  pub write_conflict :
      (current_record id m).etag ≢ expect → write none id content expect m ≡ (err conflict, m)
  unfolding write
  write_conflict h = ground arith

  -- With a context that is not canceled, Write succeeds exactly when the record's current ETag is the expected one; it then returns the
  -- next ETag, and a later Read returns the content with that ETag for the id and what it did before
  -- for any other; otherwise it returns ErrConflict and leaves the store as it was.
  pub write_lem :
      ((current_record id m).etag ≡ expect)
        × ((write none id content expect m).0 ≡ ok (next_etag expect))
        × ((j : GrainId)
            → read none j (write none id content expect m).1
              ≡ ite
                  (GrainId-discrete id j)
                  (ok (record { content = content; etag = next_etag expect }))
                  (read none j m))
      ⊎ ((current_record id m).etag ≢ expect) × (write none id content expect m ≡ (err conflict, m))
  unfolding read
  write_lem = elim (ℕ_discrete (current_record id m).etag expect) [
    | yes h ↦ inl (h, write_ok h, λ j. ground (arith, current_record-write j h))
    | no h ↦ inr (h, write_conflict h)
  ]

-- Once a Write with an expected ETag, in the range of its 64 bits, has succeeded, a second one with
-- the same expected ETag gets ErrConflict and changes nothing.
pub write_twice :
    (id : GrainId) (a b : List ℕ) (expect e : ETag) (m : Memory)
    → expect < 2 ^ 64
    → (write none id a expect m).0 ≡ ok e
    → write none id b expect (write none id a expect m).1
      ≡ (err conflict, (write none id a expect m).1)
write_twice id a b expect e m h w = elim (ℕ_discrete (current_record id m).etag expect) [
  | yes p ↦
      write_conflict id b expect (write none id a expect m).1
        (λ q. next_etag_ne expect h (ground (arith, current_record-write id a expect m id p)))
  | no p ↦ cc (write_conflict id a expect m p)
]
