-- ===== src/Store/Records/History.antt =====
-- The store as its clients see it: for each id the list of accepted contents, newest first. A version
-- is the number of them, modulo 2 ^ 64.
use gor.Prelude.{
  ℕ, ◌%◌, ◌^◌, Option, none, some, List, [], ◌∷◌, ◌≡◌, arith, ite, ℕ_discrete, ap, refl, ◌∙◌, ap₂,
  get, length,
}
use gor.Store.{
  GrainId, GrainId-discrete, ETag, next_etag, Error, conflict, Result, ok, err, Record, Memory,
  Time, new_memory,
}
use gor.Store.Records.{current_record, read, write, zero_record}
use gor.Store.Records.Cas.{write_ok, current_record-write, write_conflict}

pub record WriteCall : Type 0 where
  pub ctx_err : Option Error
  pub id : GrainId
  pub content : List ℕ
  pub expect : ETag

abbrev pub History : Type 0
History = GrainId → List (List ℕ)

abbrev pub version : List (List ℕ) → ETag
version h = length h % 2 ^ 64

abbrev pub snapshot : List (List ℕ) → Record
snapshot [] = zero_record
snapshot (c ∷ h) = record { content = c; etag = version (c ∷ h) }

-- What the interface promises of a write.
abbrev pub spec_write : Option Error → GrainId → List ℕ → ETag → History → Result ETag × History
spec_write (some e) id content expect h = (err e, h)
spec_write none id content expect h =
    ite (ℕ_discrete (version (h id)) expect)
      (ok (version (content ∷ h id)), λ j. ite (GrainId-discrete id j) (content ∷ h j) (h j))
      (err conflict, h)

unfoldable pub run_writes : List WriteCall → Memory → List (Result ETag) × Memory
run_writes [] m = ([], m)
run_writes (c ∷ cs) m =
    let (r, m') = write c.ctx_err c.id c.content c.expect m in
    let (rs, m'') = run_writes cs m' in (r ∷ rs, m'')

unfoldable pub run_spec : List WriteCall → History → List (Result ETag) × History
run_spec [] h = ([], h)
run_spec (c ∷ cs) h =
    let (r, h') = spec_write c.ctx_err c.id c.content c.expect h in
    let (rs, h'') = run_spec cs h' in (r ∷ rs, h'')

abbrev Refines : Memory → History → Type 0
Refines m h = (id : GrainId) → current_record id m ≡ snapshot (h id)

version_etag : (l : List (List ℕ)) → (snapshot l).etag ≡ version l
version_etag [] = refl
version_etag (c ∷ l) = refl

version-next : (c : List ℕ) (l : List (List ℕ)) → next_etag (version l) ≡ version (c ∷ l)
unfolding next_etag
version-next c l = omega arith

module _ (id : GrainId) (content : List ℕ) (expect : ETag) (m : Memory) (h : History)
    (r : Refines m h) where
  etag-version : (current_record id m).etag ≡ version (h id)
  etag-version = ap (λ (c : Record). c.etag) (r id) ∙ version_etag (h id)

  result-write : (write none id content expect m).0 ≡ (spec_write none id content expect h).0
  result-write = elim (ℕ_discrete (version (h id)) expect) [
    | yes p ↦
        ground (arith, write_ok id content expect m, etag-version, version-next content (h id))
    | no p ↦ ground (arith, write_conflict id content expect m, etag-version)
  ]

  current_record-write_spec :
      (j : GrainId)
      → current_record j (write none id content expect m).1
        ≡ snapshot ((spec_write none id content expect h).1 j)
  current_record-write_spec j = elim (ℕ_discrete (version (h id)) expect) [
    | yes p ↦ ground (
      arith,
      current_record-write id content expect m j,
      etag-version,
      r j,
      version-next content (h id),
    )
    | no p ↦ ground (arith, write_conflict id content expect m, etag-version, r j)
  ]

write-Refines :
    (ctx : Option Error) (id : GrainId) (content : List ℕ) (expect : ETag) (m : Memory)
    (h : History)
    → Refines m h
    → ((write ctx id content expect m).0 ≡ (spec_write ctx id content expect h).0)
      × Refines (write ctx id content expect m).1 (spec_write ctx id content expect h).1
write-Refines (some e) id content expect m h r = unfold write in (refl, r)
write-Refines none id content expect m h r =
    (result-write id content expect m h r, current_record-write_spec id content expect m h r)

run-Refines :
    (cs : List WriteCall) (m : Memory) (h : History)
    → Refines m h
    → ((run_writes cs m).0 ≡ (run_spec cs h).0) × Refines (run_writes cs m).1 (run_spec cs h).1
unfolding run_writes run_spec
run-Refines [] m h r = (refl, r)
run-Refines (c ∷ cs) m h r =
    let (e, r') = write-Refines c.ctx_err c.id c.content c.expect m h r in
    let (es, r'') = run-Refines cs _ _ r' in (ap₂ ◌∷◌ e es, r'')

-- From an empty store, any sequence of writes (canceled, stale, for several ids) gives the results
-- of the history specification, and a Read of each id then returns the last accepted content of its
-- history with the number of accepted writes, modulo 2 ^ 64, as its ETag.
pub run_writes-Refines :
    (cs : List WriteCall) (now : Time)
    → ((run_writes cs (new_memory now)).0 ≡ (run_spec cs (λ _. [])).0)
      × ((id : GrainId)
          → read none id (run_writes cs (new_memory now)).1
            ≡ ok (snapshot ((run_spec cs (λ _. [])).1 id)))
unfolding read new_memory current_record get
run_writes-Refines cs now =
    let (e, r) = run-Refines cs (new_memory now) (λ _. []) (λ id. refl) in (e, λ id. ap ok (r id))
