-- ===== src/EventWatcher/EventDb.antt =====
-- event-watcher/src/event_db.rs: the last block that was logged for each event, and the events seen.
use plasma_rust_framework.Prelude.{ℕ, Bool, true, false, Option, none, some}
use plasma_rust_framework.Prelude.Bytes.{Bytes}
use plasma_rust_framework.Prelude.Result.{Result, ok, err}
use plasma_rust_framework.Db.Kvs.{KeyValueStore}

-- The trait `EventDb`; a read is `none` where it panics.
pub record EventDb (S : Type 0) : Type 0 where
  pub get_last_logged_block : Bytes → S → Option (Option ℕ)
  pub set_last_logged_block : Bytes → ℕ → S → S
  pub get_event_seen : Bytes → S → Option Bool
  pub set_event_seen : Bytes → S → S

-- What the store takes from `rlp`.
pub record Rlp : Type 0 where
  pub encode_u64 : ℕ → Bytes
  pub decode_u64 : Bytes → Option ℕ
  pub encode_bool : Bool → Bytes
  pub decode_bool : Bytes → Option Bool

-- `rlp::decode(&v[..]).unwrap()`
abbrev pub block_of : {E : Type 0} → Rlp → Result (Option Bytes) E → Option (Option ℕ)
block_of rlp (ok (some v)) = elim (rlp.decode_u64 v) [ none ↦ none | some n ↦ some (some n) ]
block_of rlp (ok none) = some none
block_of rlp (err e) = some none

abbrev pub seen_of : {E : Type 0} → Rlp → Result (Option Bytes) E → Option Bool
seen_of rlp (ok (some v)) = rlp.decode_bool v
seen_of rlp (ok none) = some false
seen_of rlp (err e) = some false

-- `EventDbImpl`; the results of the writes are dropped.
abbrev pub event_db : {S : Type 0} → Rlp → KeyValueStore S → EventDb S
event_db rlp db = record {
  get_last_logged_block = λ topic_hash s. block_of rlp (db.get topic_hash s);
  set_last_logged_block =
      λ topic_hash block_number s. (db.put topic_hash (rlp.encode_u64 block_number) s).1;
  get_event_seen = λ event_hash s. seen_of rlp (db.get event_hash s);
  set_event_seen = λ event_hash s. (db.put event_hash (rlp.encode_bool true) s).1;
}
