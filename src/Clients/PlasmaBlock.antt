-- ===== src/Clients/PlasmaBlock.antt =====
-- clients/src/plasma/plasma_block.rs: a block with its tree. `none` is a panic.
use plasma_rust_framework.Prelude.{
  ℕ, suc, true, Option, none, some, List, [], ◌∷◌, map, if◌then◌else◌,
}
use plasma_rust_framework.Prelude.Bytes.{Bytes}
use plasma_rust_framework.Prelude.Result.{Result, ok, err}
use plasma_rust_framework.MerkleTree.IntervalTree.{MerkleIntervalNode}
use plasma_rust_framework.MerkleTree.AddressTree.{eq_bytes}
use plasma_rust_framework.MerkleTree.DoubleLayerTree
use plasma_rust_framework.MerkleTree.DoubleLayerTree.{DoubleLayerTree, DoubleLayerTreeLeaf}
use plasma_rust_framework.Ovm.Types.{
  StateUpdate, PlasmaDataBlock, get_block_number, get_deposit_contract_address, get_range,
}
use plasma_rust_framework.Ovm.External.{External}
use plasma_rust_framework.Clients.Types.{
  ErrorKind, merkelizing_error, NewTransactionEvent, PlasmaBlock,
}

abbrev pub new : ℕ → List StateUpdate → List NewTransactionEvent → PlasmaBlock
new block_number state_updates transactions = record {
  block_number = block_number;
  state_updates = state_updates;
  transactions = transactions;
  tree = none;
}

unfoldable pub get_root : PlasmaBlock → Option Bytes
get_root self = elim self.tree [ none ↦ none | some tree ↦ some (DoubleLayerTree.get_root tree) ]

-- `StateUpdate::get_hash`
abbrev pub get_hash : External → StateUpdate → Bytes
get_hash ext update = ext.static_hash (ext.state_update_to_abi update)

-- `iter().position(…)` on the hashes.
unfoldable pub position : External → StateUpdate → List StateUpdate → Option ℕ
position ext update [] = none
position ext update (s ∷ state_updates) =
    let next = position ext update state_updates in
    if eq_bytes (get_hash ext s) (get_hash ext update)
    then some 0
    else elim next [ none ↦ none | some i ↦ some (suc i) ]

-- `Some` of a proof, or the panic of the tree.
abbrev pub or_none : Option Bytes → Option (Option Bytes)
or_none none = none
or_none (some proof) = some (some proof)

unfoldable pub get_inclusion_proof_with_index :
    External → PlasmaBlock → ℕ → ℕ → Option (Option Bytes)
get_inclusion_proof_with_index ext self address index = elim self.tree [
  | none ↦ some none
  | some tree ↦
      or_none (
        DoubleLayerTree.get_inclusion_proof ext.hash_leaf ext.inclusion_proof_abi tree address
          index)
]

unfoldable pub get_inclusion_proof : External → PlasmaBlock → StateUpdate → Option (Option Bytes)
unfolding position get_inclusion_proof_with_index
get_inclusion_proof ext self update = elim (position ext update self.state_updates) [
  | none ↦ some none
  | some index ↦ get_inclusion_proof_with_index ext self (get_deposit_contract_address update) index
]

abbrev pub get_plasma_data_block : External → Bytes → StateUpdate → PlasmaDataBlock
get_plasma_data_block ext root update = record {
  deposit_contract_address = get_deposit_contract_address update;
  updated_range = get_range update;
  root = root;
  is_included = true;
  block_number = get_block_number update;
  data' = ext.state_update_to_abi update;
}

abbrev pub leaf_of : External → StateUpdate → DoubleLayerTreeLeaf
leaf_of ext s = record {
  data' = ext.state_update_to_abi s;
  end = (get_range s).end;
  address = get_deposit_contract_address s;
}

-- The root, and the block with its tree.
abbrev pub with_tree :
    PlasmaBlock → Option DoubleLayerTree → Option (Result (Bytes × PlasmaBlock) ErrorKind)
with_tree self none = none
with_tree self (some tree) =
    some (ok (DoubleLayerTree.get_root tree, record self { tree = some tree }))

-- `merkelize` of a block with these state updates. The order is that of the iteration over a `HashMap`.
unfoldable pub merkelize_updates :
    External
    → (List (ℕ × List MerkleIntervalNode) → List (ℕ × List MerkleIntervalNode))
    → PlasmaBlock
    → List StateUpdate
    → Option (Result (Bytes × PlasmaBlock) ErrorKind)
merkelize_updates ext order self [] = some (err merkelizing_error)
merkelize_updates ext order self (s ∷ state_updates) =
    with_tree self
      (DoubleLayerTree.generate ext.hash_leaf order (map (leaf_of ext) (s ∷ state_updates)))

unfoldable pub merkelize :
    External
    → (List (ℕ × List MerkleIntervalNode) → List (ℕ × List MerkleIntervalNode))
    → PlasmaBlock
    → Option (Result (Bytes × PlasmaBlock) ErrorKind)
unfolding merkelize_updates
merkelize ext order self = merkelize_updates ext order self self.state_updates
