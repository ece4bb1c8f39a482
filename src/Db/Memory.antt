-- ===== src/Db/Memory.antt =====
-- db/src/impls/kvs/memory.rs: the store in a map in memory.
pub mod Laws
pub mod Contents
use plasma_rust_framework.Prelude.{
  Ordering, Bool, true, false, Option, none, some, List, [], ◌∷◌, if◌then◌else◌,
}
use plasma_rust_framework.Prelude.Bytes.{cmp, starts_with}
use plasma_rust_framework.Prelude.Result.{ok}
use plasma_rust_framework.Db.Key.{BaseDbKey, concat}
use plasma_rust_framework.Db.BTreeMap
use plasma_rust_framework.Db.BTreeMap.{BTreeMap}
use plasma_rust_framework.Db.Kvs.{Batch, put, del, KeyValue, KeyValueStore, Test}

-- `*k > start`
abbrev pub gtb : BaseDbKey → BaseDbKey → Bool
gtb k start = elim (cmp k start) [ Ordering.gt ↦ true | _ ↦ false ]

abbrev pub pushed : KeyValue → Option (List KeyValue) → Option (List KeyValue)
pushed kv none = none
pushed kv (some kvs) = some (kv ∷ kvs)

-- The loop of both iterators: entries up to `start` are passed over, and the first entry behind it
-- that fails the test ends the loop.
unfoldable pub scan : BaseDbKey → Test → BTreeMap → Option (List KeyValue)
scan start f [] = some []
scan start f ((k, v) ∷ db) =
    let next = scan start f db in
    if gtb k start
    then elim (f k v) [
      | none ↦ none
      | some true ↦ pushed (record { key = k; value = v }) next
      | some false ↦ some []
    ]
    else next

-- `k.0.starts_with(&prefix.0) && f(&k, &v)`
abbrev pub within : BaseDbKey → Test → Test
within prefix f k v = if starts_with k prefix then f k v else some false

unfoldable pub apply : Batch → BTreeMap → BTreeMap
apply (put key value) db = BTreeMap.insert key value db
apply (del key) db = BTreeMap.remove key db

-- The loop of `batch`.
unfoldable pub run : List Batch → BTreeMap → BTreeMap
run [] db = db
run (op ∷ operations) db = run operations (apply op db)

-- `CoreDbMemoryImpl`; `has` answers yes for every key.
abbrev pub memory : KeyValueStore BTreeMap
memory = record {
  get = λ key db. ok (BTreeMap.get key db);
  put = λ key value db. (ok tt, BTreeMap.insert key value db);
  del = λ key db. (ok tt, BTreeMap.remove key db);
  has = λ key db. ok true;
  batch = λ operations db. (ok tt, run operations db);
  iter_all_with_prefix = λ prefix start f db. scan (concat prefix start) (within prefix f) db;
  iter_all = λ start f db. scan start f db;
}

abbrev pub open_db : BTreeMap
open_db = []
