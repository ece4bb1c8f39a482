-- ===== src/Clients/BlockDb.antt =====
-- clients/src/plasma/block_db.rs: the queues of state updates and transactions of the next block, and the blocks.
-- The store `db` is that of the range database. `none` is a panic.
use plasma_rust_framework.Prelude.{ℕ, Option, none, some, List, [], ◌∷◌}
use plasma_rust_framework.Prelude.Bytes.{Bytes}
use plasma_rust_framework.Prelude.Result.{Result, ok, err}
use plasma_rust_framework.Db.Key.{from_u64}
use plasma_rust_framework.Db.Kvs.{KeyValueStore}
use plasma_rust_framework.Db.Bucket.{new, bucket, as_store}
use plasma_rust_framework.Db.Range.{Range}
use plasma_rust_framework.Db.RangeDb
use plasma_rust_framework.Ovm.Types.{StateUpdate, get_range}
use plasma_rust_framework.Ovm.External.{External}
use plasma_rust_framework.Clients.Types.{
  ErrorKind, abi_error, plasma_db_error, NewTransactionEvent, PlasmaBlock, Codecs, into_error,
  min_range, max_range,
}

-- "queued_state_updates", "queued_txs", "plasma_block_db" and "blocks"
abbrev pub queued_state_updates : Bytes
queued_state_updates =
    113 ∷ 117 ∷ 101 ∷ 117 ∷ 101 ∷ 100 ∷ 95 ∷ 115 ∷ 116 ∷ 97 ∷ 116 ∷ 101 ∷ 95 ∷ 117 ∷ 112 ∷ 100 ∷ 97
    ∷ 116 ∷ 101 ∷ 115 ∷ []

abbrev pub queued_txs : Bytes
queued_txs = 113 ∷ 117 ∷ 101 ∷ 117 ∷ 101 ∷ 100 ∷ 95 ∷ 116 ∷ 120 ∷ 115 ∷ []

abbrev pub plasma_block_db : Bytes
plasma_block_db =
    112 ∷ 108 ∷ 97 ∷ 115 ∷ 109 ∷ 97 ∷ 95 ∷ 98 ∷ 108 ∷ 111 ∷ 99 ∷ 107 ∷ 95 ∷ 100 ∷ 98 ∷ []

abbrev pub blocks : Bytes
blocks = 98 ∷ 108 ∷ 111 ∷ 99 ∷ 107 ∷ 115 ∷ []

-- `map(from_abi(…).unwrap()).collect()`
unfoldable pub decode_values : {A : Type 0} → (Bytes → Option A) → List Range → Option (List A)
decode_values decode [] = some []
decode_values decode (r ∷ ranges) = elim (decode r.value) [
  | none ↦ none
  | some a ↦ elim (decode_values decode ranges) [ none ↦ none | some as' ↦ some (a ∷ as') ]
]

abbrev pub get_values :
    {A E : Type 0}
    → (Bytes → Option A)
    → Option (Result (List Range) E)
    → Option (Result (List A) ErrorKind)
get_values decode none = none
get_values decode (some (err e)) = some (err plasma_db_error)
get_values decode (some (ok ranges)) = elim (decode_values decode ranges) [
  | none ↦ none
  | some values ↦ some (ok values)
]

-- The result of a write or a deletion, with the error converted and the value dropped.
abbrev pub done :
    {A E S : Type 0} → Option (Result A E × S) → Option (Result (Unit {0}) ErrorKind × S)
done none = none
done (some (ok a, s)) = some (ok tt, s)
done (some (err e, s)) = some (err plasma_db_error, s)

abbrev pub decode_block :
    {E : Type 0}
    → (Bytes → Option PlasmaBlock)
    → Result (Option Bytes) E
    → Result PlasmaBlock ErrorKind
decode_block decode (err e) = err plasma_db_error
decode_block decode (ok none) = err plasma_db_error
decode_block decode (ok (some b)) = elim (decode b) [ none ↦ err abi_error | some block ↦ ok block ]

module _ {S : Type 0} (ext : External) (codecs : Codecs) (db : KeyValueStore S) where
  abbrev pub updates_bucket : KeyValueStore S
  updates_bucket = as_store (new queued_state_updates db)

  abbrev pub txs_bucket : KeyValueStore S
  txs_bucket = as_store (new queued_txs db)

  abbrev pub blocks_bucket : KeyValueStore S
  blocks_bucket = as_store (bucket (new plasma_block_db db) blocks)

  unfoldable pub enqueue_state_update : StateUpdate → S → Option (Result (Unit {0}) ErrorKind × S)
  enqueue_state_update update s = done (
      RangeDb.put ext.rlp updates_bucket (get_range update).start (get_range update).end
        (ext.state_update_to_abi update) s)

  unfoldable pub get_queued_state_updates : ℕ → ℕ → S → Option (Result (List StateUpdate) ErrorKind)
  unfolding decode_values
  get_queued_state_updates start end s =
      get_values ext.state_update_from_abi (RangeDb.get ext.rlp updates_bucket start end s)

  unfoldable pub get_pending_state_updates : S → Option (Result (List StateUpdate) ErrorKind)
  unfolding decode_values
  get_pending_state_updates s =
      get_values ext.state_update_from_abi
        (RangeDb.get ext.rlp updates_bucket min_range max_range s)

  unfoldable pub delete_all_queued_state_updates : S → Option (Result (Unit {0}) ErrorKind × S)
  delete_all_queued_state_updates s =
      done (RangeDb.del_batch ext.rlp updates_bucket min_range max_range s)

  unfoldable pub enqueue_tx : NewTransactionEvent → S → Option (Result (Unit {0}) ErrorKind × S)
  enqueue_tx tx s = done (
      RangeDb.put ext.rlp txs_bucket tx.transaction.range.start tx.transaction.range.end
        (codecs.event_to_abi tx) s)

  unfoldable pub get_pending_txs : S → Option (Result (List NewTransactionEvent) ErrorKind)
  unfolding decode_values
  get_pending_txs s =
      get_values codecs.event_from_abi (RangeDb.get ext.rlp txs_bucket min_range max_range s)

  unfoldable pub delete_all_queued_txs : S → Option (Result (Unit {0}) ErrorKind × S)
  delete_all_queued_txs s = done (RangeDb.del_batch ext.rlp txs_bucket min_range max_range s)

  unfoldable pub get_block : ℕ → S → Result PlasmaBlock ErrorKind
  get_block block_number s =
      decode_block codecs.block_from_abi (blocks_bucket.get (from_u64 block_number) s)

  unfoldable pub save_block : PlasmaBlock → S → Result (Unit {0}) ErrorKind × S
  save_block block s =
      let (saved, s') =
        blocks_bucket.put (from_u64 block.block_number) (codecs.block_to_abi block) s in
      (into_error saved, s')
