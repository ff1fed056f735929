-- ===== src/Cluster/Hash.antt =====
-- hashParts of cluster/cluster.go: 64-bit FNV-1a (hash/fnv) over the parts, each closed by a zero byte.
use Prim.Native.Nat.{bit_xor}
use gor.Prelude.{ℕ, ◌*◌, ◌%◌, ◌^◌, ◌<◌, List, [], ◌∷◌, Text, arith}

abbrev pub fnv_offset : ℕ
fnv_offset = 14695981039346656037

abbrev pub fnv_prime : ℕ
fnv_prime = 1099511628211

-- One byte of hash.Write.
unfoldable pub fnv_byte : ℕ → ℕ → ℕ
fnv_byte hash b = (bit_xor hash b * fnv_prime) % 2 ^ 64

unfoldable pub fnv_write : ℕ → Text → ℕ
unfolding fnv_byte
fnv_write hash [] = hash
fnv_write hash (b ∷ bs) = fnv_write (fnv_byte hash b) bs

hash_from : ℕ → List Text → ℕ
unfolding fnv_write fnv_byte
hash_from hash [] = hash
hash_from hash (part ∷ parts) = hash_from (fnv_byte (fnv_write hash part) 0) parts

unfoldable pub hash_parts : List Text → ℕ
unfolding hash_from
hash_parts parts = hash_from fnv_offset parts

-- A hash is a uint64.
fnv_write-lt : (hash : ℕ) (bs : Text) → hash < 2 ^ 64 → fnv_write hash bs < 2 ^ 64
unfolding fnv_write
fnv_write-lt hash [] h = h
fnv_write-lt hash (b ∷ bs) h = fnv_write-lt (fnv_byte hash b) bs (omega arith)

hash_from-lt : (hash : ℕ) (parts : List Text) → hash < 2 ^ 64 → hash_from hash parts < 2 ^ 64
unfolding hash_from
hash_from-lt hash [] h = h
hash_from-lt hash (part ∷ parts) h =
    hash_from-lt (fnv_byte (fnv_write hash part) 0) parts (omega arith)

pub hash_parts-lt : (parts : List Text) → hash_parts parts < 2 ^ 64
unfolding hash_parts
hash_parts-lt parts = hash_from-lt fnv_offset parts (omega arith)
