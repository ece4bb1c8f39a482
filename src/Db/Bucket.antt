-- ===== src/Db/Bucket.antt =====
-- db/src/traits/kvs.rs: `Bucket`, the part of a store whose keys have a prefix.
pub mod Laws
pub mod Apart
use plasma_rust_framework.Prelude.{Option, none, some, List, [], ◌∷◌, map}
use plasma_rust_framework.Db.Key.{BaseDbKey, concat, remove_prefix}
use plasma_rust_framework.Db.Kvs.{Batch, put, del, KeyValue, KeyValueStore, Test}

pub record Bucket (S : Type 0) : Type 0 where
  pub prefix : BaseDbKey
  pub store : KeyValueStore S

-- `Bucket::new`, which is `bucket` of the stores that are no buckets themselves.
abbrev pub new : {S : Type 0} → BaseDbKey → KeyValueStore S → Bucket S
new prefix store = record { prefix = prefix; store = store }

-- The trait's `root`.
abbrev pub root : {S : Type 0} → KeyValueStore S → Bucket S
root store = new [] store

-- A bucket of a bucket is a bucket of the store.
abbrev pub bucket : {S : Type 0} → Bucket S → BaseDbKey → Bucket S
bucket self prefix = new (concat self.prefix prefix) self.store

abbrev pub prefix_op : BaseDbKey → Batch → Batch
prefix_op prefix (put key value) = put (concat prefix key) value
prefix_op prefix (del key) = del (concat prefix key)

-- `iter().map(…).collect()`, which panics where `remove_prefix` does.
unfoldable pub remove_prefixes : BaseDbKey → List KeyValue → Option (List KeyValue)
unfolding remove_prefix
remove_prefixes prefix [] = some []
remove_prefixes prefix (kv ∷ kvs) = elim (remove_prefix kv.key prefix) [
  | none ↦ none
  | some key ↦ elim (remove_prefixes prefix kvs) [
    | none ↦ none
    | some rest ↦ some (record { key = key; value = kv.value } ∷ rest)
  ]
]

unfoldable pub iter_all : {S : Type 0} → Bucket S → BaseDbKey → Test → S → Option (List KeyValue)
unfolding remove_prefixes
iter_all self start f s = elim (self.store.iter_all_with_prefix self.prefix start f s) [
  | none ↦ none
  | some kvs ↦ remove_prefixes self.prefix kvs
]

-- `impl KeyValueStore for Bucket`. The iteration with a prefix is the trait's own.
abbrev pub as_store : {S : Type 0} → Bucket S → KeyValueStore S
as_store self = record {
  get = λ key. self.store.get (concat self.prefix key);
  put = λ key. self.store.put (concat self.prefix key);
  del = λ key. self.store.del (concat self.prefix key);
  has = λ key. self.store.has (concat self.prefix key);
  batch = λ operations. self.store.batch (map (prefix_op self.prefix) operations);
  iter_all_with_prefix = λ prefix start. iter_all self (concat prefix start);
  iter_all = iter_all self;
}
