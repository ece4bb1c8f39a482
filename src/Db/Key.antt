-- ===== src/Db/Key.antt =====
-- db/src/traits/kvs.rs, `BaseDbKey`, and db/src/error.rs, `ErrorKind`. A key is its byte string.
use plasma_rust_framework.Prelude.{ℕ, Option, none, some, ◌++◌, length, drop, leb, if◌then◌else◌}
use plasma_rust_framework.Prelude.Bytes.{Bytes}
use plasma_rust_framework.Prelude.Words.{be_bytes}

pub data ErrorKind : Type 0 where
  io dammy level_db : ErrorKind

abbrev pub BaseDbKey : Type 0
BaseDbKey = Bytes

abbrev pub concat : BaseDbKey → BaseDbKey → BaseDbKey
concat self key = self ++ key

-- `split_at` panics, which is `none` here, where the key is shorter than the prefix.
unfoldable pub remove_prefix : BaseDbKey → BaseDbKey → Option BaseDbKey
remove_prefix self key =
    if leb (length key) (length self) then some (drop (length key) self) else none

-- `From<u64>`
unfoldable pub from_u64 : ℕ → BaseDbKey
from_u64 n = be_bytes 8 n
