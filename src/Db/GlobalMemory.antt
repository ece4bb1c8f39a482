-- ===== src/Db/GlobalMemory.antt =====
-- db/src/impls/kvs/global_memory.rs: databases that share one global map, told apart by a prefix.
pub mod Laws
use plasma_rust_framework.Prelude.{true, map}
use plasma_rust_framework.Prelude.Bytes.{starts_with}
use plasma_rust_framework.Prelude.Result.{ok}
use plasma_rust_framework.Db.Key.{BaseDbKey, concat}
use plasma_rust_framework.Db.BTreeMap
use plasma_rust_framework.Db.BTreeMap.{BTreeMap}
use plasma_rust_framework.Db.Kvs.{KeyValueStore}
use plasma_rust_framework.Db.Bucket.{prefix_op}
use plasma_rust_framework.Db.Memory.{scan, within, run}

pub record GlobalMemoryDb : Type 0 where
  pub dbname : BaseDbKey

abbrev pub get_key : GlobalMemoryDb → BaseDbKey → BaseDbKey
get_key self key = concat self.dbname key

-- The state is `GLOBAL_DB`. `iter_all` does not stop at the end of the database.
abbrev pub as_store : GlobalMemoryDb → KeyValueStore BTreeMap
as_store self = record {
  get = λ key db. ok (BTreeMap.get (get_key self key) db);
  put = λ key value db. (ok tt, BTreeMap.insert (get_key self key) value db);
  del = λ key db. (ok tt, BTreeMap.remove (get_key self key) db);
  has = λ key db. ok true;
  batch = λ operations db. (ok tt, run (map (prefix_op self.dbname) operations) db);
  iter_all_with_prefix = λ prefix start f db.
      scan (concat (get_key self prefix) start) (within (get_key self prefix) f) db;
  iter_all = λ start f db. scan (get_key self start) f db;
}
