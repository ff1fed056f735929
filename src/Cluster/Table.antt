-- ===== src/Cluster/Table.antt =====
-- The membership table as the cluster package uses it: the two methods of store.MemberStore over the
-- state of the rest of the world, which may change between two calls.
use gor.Prelude.{none, List, [], ◌∷◌}
use gor.Store.{ETag, Result, Member, MemberSnapshot, Memory}
use gor.Store.Members.{write_member, list_members}

pub record MemberTable (S : Type 0) : Type 0 where
  pub list : S → Result MemberSnapshot × S
  pub write : Member → S → Result ETag × S

-- A Memory store shared with other nodes. Before each call of ours the other nodes make the writes
-- of the next batch, in which stale rows fail; when no batch is left, they are silent.
pub record Shared : Type 0 where
  pub memory : Memory
  pub others : List (List Member)

unfoldable pub write_all : List Member → Memory → Memory
write_all [] m = m
write_all (row ∷ rows) m = write_all rows (write_member none row m).1

unfoldable pub next_batch : List (List Member) → Memory → Shared
next_batch [] m = record { memory = m; others = [] }
next_batch (batch ∷ rest) m = record { memory = write_all batch m; others = rest }

unfoldable pub shared_list : Shared → Result MemberSnapshot × Shared
unfolding next_batch
shared_list s = let s' = next_batch s.others s.memory in (list_members none s'.memory, s')

unfoldable pub shared_write : Member → Shared → Result ETag × Shared
unfolding next_batch
shared_write row s =
    let s' = next_batch s.others s.memory in
    let (r, m) = write_member none row s'.memory in (r, record s' { memory = m })

abbrev pub shared_table : MemberTable Shared
shared_table = record { list = shared_list; write = shared_write }
