-- ===== src/Clients/Aggregator/Queries.antt =====
-- clients/src/plasma/plasma_aggregator.rs: what an aggregator does besides the ingestion. `none` is a panic.
use plasma_rust_framework.Prelude.{ℕ, Bool, Option, none, some, List, [], ◌∷◌, ◌++◌}
use plasma_rust_framework.Prelude.Bytes.{Bytes}
use plasma_rust_framework.Prelude.Result.{Result, ok, err}
use plasma_rust_framework.Db.Kvs.{KeyValueStore}
use plasma_rust_framework.MerkleTree.IntervalTree.{MerkleIntervalNode}
use plasma_rust_framework.Ovm.Types.{StateUpdate}
use plasma_rust_framework.Ovm.External.{External}
use plasma_rust_framework.Clients.Types.{ErrorKind, PlasmaBlock, Codecs}
use plasma_rust_framework.Clients.StateDb
use plasma_rust_framework.Clients.StateDb.{put_verified_state_update}
use plasma_rust_framework.Clients.PlasmaClient.{or_empty}
use plasma_rust_framework.Clients.PlasmaClient.NewBlock.{asserted_some, test_state_updates}
use plasma_rust_framework.Clients.BlockManager
use plasma_rust_framework.Clients.Aggregator.{PlasmaAggregator}

-- `map(|b| StateUpdateList::new(…))`
abbrev pub state_updates_of : Result PlasmaBlock ErrorKind → Result (List StateUpdate) ErrorKind
state_updates_of (err e) = err e
state_updates_of (ok b) = ok b.state_updates

module _ {S : Type 0} (ext : External) (codecs : Codecs) (kvs : KeyValueStore S) where
  unfoldable pub submit_next_block :
      (List (ℕ × List MerkleIntervalNode) → List (ℕ × List MerkleIntervalNode))
      → (ℕ → Bytes → Option Bool)
      → PlasmaAggregator S
      → Option (Result (Unit {0}) ErrorKind × PlasmaAggregator S)
  submit_next_block order contract self =
      elim (BlockManager.submit_next_block ext codecs kvs order contract self.block_manager) [
        | none ↦ none
        | some (r, manager) ↦ some (r, record self { block_manager = manager })
      ]

  unfoldable pub get_all_state_updates : PlasmaAggregator S → Option (List StateUpdate)
  get_all_state_updates self = or_empty (StateDb.get_all_state_updates ext kvs self.range_db)

  abbrev pub get_plasma_block_of_block : ℕ → PlasmaAggregator S → Result PlasmaBlock ErrorKind
  get_plasma_block_of_block block_number self =
      BlockManager.get_block_range ext codecs kvs block_number self.block_manager

  abbrev pub get_state_updates_of_block :
      ℕ → PlasmaAggregator S → Result (List StateUpdate) ErrorKind
  get_state_updates_of_block block_number self =
      state_updates_of (get_plasma_block_of_block block_number self)

  -- `assert!` of each write.
  unfoldable pub put_all : List StateUpdate → S → Option S
  put_all [] r = some r
  put_all (s ∷ state_updates) r = elim (asserted_some (put_verified_state_update ext kvs s r)) [
    | none ↦ none
    | some r' ↦ put_all state_updates r'
  ]

  -- The address of the owner is that of the string in the code.
  unfoldable pub insert_test_ranges : ℕ → PlasmaAggregator S → Option (PlasmaAggregator S)
  unfolding put_all
  insert_test_ranges owner self =
      elim (put_all
        (test_state_updates ext kvs owner 0 20 ++ test_state_updates ext kvs owner 1 100)
        self.range_db) [ none ↦ none | some r ↦ some (record self { range_db = r }) ]
