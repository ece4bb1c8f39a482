-- ===== src/Clients/BlockManager.antt =====
-- clients/src/plasma/block_manager.rs: the queues of the aggregator and the submission of blocks. The submission to
-- the commitment contract is the parameter `contract`: `none` where loading the contract panics, `some false`
-- where it reports an error. `none` is a panic.
pub mod Inversion
pub mod Kept
pub mod Queue
pub mod Error
pub mod Submit
pub mod Enqueue
use plasma_rust_framework.Prelude.{ℕ, ◌+◌, ◌%◌, ◌^◌, Bool, true, false, Option, none, some, List}
use plasma_rust_framework.Prelude.Bytes.{Bytes}
use plasma_rust_framework.Prelude.Result.{Result, ok, err}
use plasma_rust_framework.Db.Kvs.{KeyValueStore}
use plasma_rust_framework.MerkleTree.IntervalTree.{MerkleIntervalNode}
use plasma_rust_framework.Ovm.Types.{StateUpdate}
use plasma_rust_framework.Ovm.External.{External}
use plasma_rust_framework.Clients.Types.{
  ErrorKind, contract_error, NewTransactionEvent, PlasmaBlock, Codecs,
}
use plasma_rust_framework.Clients.BlockDb
use plasma_rust_framework.Clients.PlasmaBlock

pub record BlockManager (S : Type 0) : Type 0 where
  pub store : S
  pub current_block_number : ℕ

-- The store of a new manager is the one that is opened.
abbrev pub new : {S : Type 0} → S → BlockManager S
new store = record { store = store; current_block_number = 1 }

abbrev pub get_next_block_number : {S : Type 0} → BlockManager S → ℕ
get_next_block_number self = (self.current_block_number + 1) % 2 ^ 64

abbrev pub save_next_block_number : {S : Type 0} → BlockManager S → ℕ → BlockManager S
save_next_block_number self block_number = record self { current_block_number = block_number }

-- The state behind a database call.
abbrev pub with_store :
    {A S : Type 0}
    → BlockManager S
    → Option (Result A ErrorKind × S)
    → Option (Result A ErrorKind × BlockManager S)
with_store self none = none
with_store self (some (r, s)) = some (r, record self { store = s })

-- The state behind a call whose result is dropped.
abbrev pub dropped :
    {A S : Type 0}
    → Option (Result A ErrorKind × S)
    → (S → Option (Result (Unit {0}) ErrorKind × BlockManager S))
    → Option (Result (Unit {0}) ErrorKind × BlockManager S)
dropped none f = none
dropped (some (r, s)) f = f s

-- The operator `?` on a read.
abbrev pub read_or :
    {A S : Type 0}
    → Option (Result A ErrorKind)
    → BlockManager S
    → (A → Option (Result (Unit {0}) ErrorKind × BlockManager S))
    → Option (Result (Unit {0}) ErrorKind × BlockManager S)
read_or none self f = none
read_or (some (err e)) self f = some (err e, self)
read_or (some (ok a)) self f = f a

module _ {S : Type 0} (ext : External) (codecs : Codecs) (db : KeyValueStore S) where
  unfoldable pub get_queued_state_updates : BlockManager S → Option (List StateUpdate)
  get_queued_state_updates self =
      elim (BlockDb.get_pending_state_updates ext codecs db self.store) [
        | none ↦ none
        | some (err e) ↦ none
        | some (ok updates) ↦ some updates
      ]

  unfoldable pub enqueue_state_update :
      StateUpdate → BlockManager S → Option (Result (Unit {0}) ErrorKind × BlockManager S)
  enqueue_state_update update self =
      with_store self (BlockDb.enqueue_state_update ext codecs db update self.store)

  unfoldable pub enqueue_tx :
      NewTransactionEvent → BlockManager S → Option (Result (Unit {0}) ErrorKind × BlockManager S)
  enqueue_tx tx self = with_store self (BlockDb.enqueue_tx ext codecs db tx self.store)

  abbrev pub get_block_range : ℕ → BlockManager S → Result PlasmaBlock ErrorKind
  get_block_range block_number self = BlockDb.get_block ext codecs db block_number self.store

  -- What follows a submission that the contract has taken. The results of the three writes are dropped.
  unfoldable pub finish_block :
      PlasmaBlock → BlockManager S → Option (Result (Unit {0}) ErrorKind × BlockManager S)
  finish_block block self =
      dropped
        (BlockDb.delete_all_queued_state_updates ext codecs db
          (BlockDb.save_block ext codecs db block self.store).1)
        (λ s. dropped (BlockDb.delete_all_queued_txs ext codecs db s) (λ s'. some (
          ok tt,
          save_next_block_number (record self { store = s' }) (get_next_block_number self),
        )))

  module _ (order : List (ℕ × List MerkleIntervalNode) → List (ℕ × List MerkleIntervalNode))
      (contract : ℕ → Bytes → Option Bool) where
    unfoldable pub submit_block :
        PlasmaBlock → Bytes → BlockManager S → Option (Result (Unit {0}) ErrorKind × BlockManager S)
    unfolding finish_block
    submit_block block root self = elim (contract block.block_number root) [
      | none ↦ none
      | some false ↦ some (err contract_error, self)
      | some true ↦ finish_block block self
    ]

    unfoldable pub submit_next_block :
        BlockManager S → Option (Result (Unit {0}) ErrorKind × BlockManager S)
    unfolding submit_block
    submit_next_block self =
        read_or (BlockDb.get_pending_state_updates ext codecs db self.store) self (λ state_updates.
          read_or (BlockDb.get_pending_txs ext codecs db self.store) self (λ transactions.
            read_or
              (PlasmaBlock.merkelize ext order
                (PlasmaBlock.new self.current_block_number state_updates transactions))
              self (λ merkelized. submit_block merkelized.1 merkelized.0 self)))
