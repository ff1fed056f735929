-- ===== src/Store/Records.antt =====
-- Memory.Read and Memory.Write of store/store.go, and the durable view of a run of writes.
pub mod Cas
pub mod History
use gor.Prelude.{ℕ, Option, none, some, List, [], Map, get, put, ite, ℕ_discrete}
use gor.Store.{
  GrainId, GrainId-discrete, ETag, next_etag, Error, conflict, Result, ok, err, Record, Memory,
}

-- The zero Record, which a missing key reads as.
abbrev pub zero_record : Record
zero_record = record { content = []; etag = 0 }

abbrev pub or_zero : Option Record → Record
or_zero none = zero_record
or_zero (some r) = r

-- m.records[id]
unfoldable pub current_record : GrainId → Memory → Record
current_record id m = or_zero (get GrainId-discrete id m.records)

unfoldable pub read : Option Error → GrainId → Memory → Result Record
read (some e) id m = err e
read none id m = ok (current_record id m)

-- The critical section of Write.
write_locked : GrainId → List ℕ → ETag → Record → Memory → Result ETag × Memory
write_locked id content expect current m =
    ite (ℕ_discrete current.etag expect)
      (
        ok (next_etag current.etag),
        record m {
          records =
              put GrainId-discrete id (record { content = content; etag = next_etag current.etag })
                m.records;
        },
      )
      (err conflict, m)

unfoldable pub write : Option Error → GrainId → List ℕ → ETag → Memory → Result ETag × Memory
unfolding write_locked
write (some e) id content expect m = (err e, m)
write none id content expect m = write_locked id content expect (current_record id m) m
