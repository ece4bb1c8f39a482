-- ===== src/Db/Kvs.antt =====
-- db/src/traits/kvs.rs: the trait `KeyValueStore` and its messages. A store writes through a lock behind
-- a shared reference, so an implementation acts on a state `S` that is passed on explicitly.
use plasma_rust_framework.Prelude.{Bool, Option, List}
use plasma_rust_framework.Prelude.Bytes.{Bytes}
use plasma_rust_framework.Prelude.Result.{Result}
use plasma_rust_framework.Db.Key.{BaseDbKey, ErrorKind}

pub data Batch : Type 0 where
  put : BaseDbKey → Bytes → Batch
  del : BaseDbKey → Batch

pub record KeyValue : Type 0 where
  pub key : BaseDbKey
  pub value : Bytes

-- The tests handed to the iterators are called in order, and none of the callers' tests has state. A test is
-- `none` where it panics.
abbrev pub Test : Type 0
Test = BaseDbKey → Bytes → Option Bool

-- An iteration is `none` where it panics.
pub record KeyValueStore (S : Type 0) : Type 0 where
  pub get : BaseDbKey → S → Result (Option Bytes) ErrorKind
  pub put : BaseDbKey → Bytes → S → Result (Unit {0}) ErrorKind × S
  pub del : BaseDbKey → S → Result (Unit {0}) ErrorKind × S
  pub has : BaseDbKey → S → Result Bool ErrorKind
  pub batch : List Batch → S → Result (Unit {0}) ErrorKind × S
  pub iter_all_with_prefix : BaseDbKey → BaseDbKey → Test → S → Option (List KeyValue)
  pub iter_all : BaseDbKey → Test → S → Option (List KeyValue)
