-- ===== src/Ovm/Stored.antt =====
-- ovm/src/quantifiers: the quantifiers that read the databases of the executor, and the one that builds a
-- property. `none` is a panic.
use plasma_rust_framework.Prelude.{
  ℕ, ◌+◌, ◌-◌, ◌%◌, ◌^◌, Bool, true, false, Option, none, some, List, [], ◌∷◌, ◌==◌, if◌then◌else◌,
}
use plasma_rust_framework.Prelude.Bytes.{Bytes}
use plasma_rust_framework.Prelude.Result.{ok, err}
use plasma_rust_framework.PlasmaCore.Range as Coins
use plasma_rust_framework.PlasmaCore.Range.{is_subrange}
use plasma_rust_framework.PlasmaCore.Transaction.{Transaction}
use plasma_rust_framework.Db.Kvs.{KeyValueStore}
use plasma_rust_framework.Db.Range
use plasma_rust_framework.Db.Range.{get_intersection}
use plasma_rust_framework.Db.RangeDb
use plasma_rust_framework.MerkleTree.DoubleLayerTree
use plasma_rust_framework.MerkleTree.DoubleLayerTree.{DoubleLayerTreeLeaf}
use plasma_rust_framework.Ovm.Types.{
  PropertyInputs, PlasmaDataBlock, QuantifierResultItem, bytes_item, property_item,
  state_update_item, QuantifierResult, Variables, argument, to_address, to_integer, to_range,
  to_state_update, get_block_number, get_range,
}
use plasma_rust_framework.Ovm.Quantifiers.{quantified}
use plasma_rust_framework.Ovm.Statements.{create_channel_state_object_for_variables}
use plasma_rust_framework.Ovm.External.{External}
use plasma_rust_framework.Ovm.SignedByDb
use plasma_rust_framework.Ovm.SignedByDb.{SignedByRecord}
use plasma_rust_framework.Ovm.RangeAtBlockDb
use plasma_rust_framework.Ovm.RangeAtBlockDb.{RangeAtBlockRecord}
use plasma_rust_framework.Ovm.TransactionDb

-- `H256::zero()`
abbrev pub zero_hash : Bytes
zero_hash =
    0 ∷ 0 ∷ 0 ∷ 0 ∷ 0 ∷ 0 ∷ 0 ∷ 0 ∷ 0 ∷ 0 ∷ 0 ∷ 0 ∷ 0 ∷ 0 ∷ 0 ∷ 0 ∷ 0 ∷ 0 ∷ 0 ∷ 0 ∷ 0 ∷ 0 ∷ 0 ∷ 0
    ∷ 0 ∷ 0 ∷ 0 ∷ 0 ∷ 0 ∷ 0 ∷ 0 ∷ 0 ∷ []

abbrev pub exclusion_leaf : PlasmaDataBlock → DoubleLayerTreeLeaf
exclusion_leaf block = record {
  data' = zero_hash;
  end = block.updated_range.end;
  address = block.deposit_contract_address;
}

abbrev pub verify_exclusion : External → PlasmaDataBlock → Bytes → Option Bool
verify_exclusion ext block inclusion_proof =
    DoubleLayerTree.verify ext.hash_leaf ext.inclusion_proof_abi (exclusion_leaf block)
      inclusion_proof block.root

-- The fold over the intersections, in `u64`.
unfoldable pub sum_of : ℕ → ℕ → List Range.Range → ℕ → ℕ
sum_of start end [] acc = acc
sum_of start end (r ∷ result) acc = elim (get_intersection r start end) [
  | none ↦ sum_of start end result acc
  | some i ↦ sum_of start end result ((acc + i.end + (2 ^ 64 - i.start)) % 2 ^ 64)
]

-- The blocks that are included. The closure is a `move` closure, so that the `full_range_included` it resets for an
-- exclusion that is not verified is a copy of its own; nothing is left of it but the panic on bytes that are no
-- proof.
unfoldable pub included_blocks : External → List Range.Range → Option (List PlasmaDataBlock)
included_blocks ext [] = some []
included_blocks ext (r ∷ result) = elim (ext.range_at_block_abi.decode r.value) [
  | none ↦ none
  | some rec ↦ elim (rec.plasma_data_block.is_included) [
    | true ↦ elim (included_blocks ext result) [
      | none ↦ none
      | some blocks ↦ some (rec.plasma_data_block ∷ blocks)
    ]
    | false ↦ elim (verify_exclusion ext rec.plasma_data_block rec.inclusion_proof) [
      | none ↦ none
      | some verified ↦ included_blocks ext result
    ]
  ]
]

-- `From<PlasmaDataBlock>` for `StateUpdate`, for each block.
unfoldable pub state_updates_of :
    External → List PlasmaDataBlock → Option (List QuantifierResultItem)
state_updates_of ext [] = some []
state_updates_of ext (p ∷ blocks) = elim (ext.state_update_from_abi p.data') [
  | none ↦ none
  | some update ↦ elim (state_updates_of ext blocks) [
    | none ↦ none
    | some items ↦ some (state_update_item update ∷ items)
  ]
]

-- `BlockRangeQuantifier` once the ranges have been read.
unfoldable pub blocks_quantified :
    External → Coins.Range → List Range.Range → Option QuantifierResult
unfolding sum_of included_blocks state_updates_of
blocks_quantified ext range result =
    let sum = sum_of range.start range.end result 0 in
    let full_range_included = sum == (range.end + (2 ^ 64 - range.start)) % 2 ^ 64 in
    elim (included_blocks ext result) [
      | none ↦ none
      | some plasma_data_blocks ↦ elim (state_updates_of ext plasma_data_blocks) [
        | none ↦ none
        | some items ↦ some (quantified items full_range_included)
      ]
    ]

abbrev pub messages_of : List SignedByRecord → List QuantifierResultItem
messages_of [] = []
messages_of (m ∷ messages) = bytes_item m.message ∷ messages_of messages

-- The filter and the map of `TxQuantifier`.
unfoldable pub txs_of : External → Coins.Range → List Transaction → List QuantifierResultItem
txs_of ext range [] = []
txs_of ext range (tx ∷ txs) =
    if is_subrange range tx.range
    then bytes_item (ext.to_body_abi tx) ∷ txs_of ext range txs
    else txs_of ext range txs

-- `PropertyQuantifier`
unfoldable pub property_quantified : PropertyInputs → Variables → Option QuantifierResult
unfolding create_channel_state_object_for_variables
property_quantified inputs variables =
    elim (create_channel_state_object_for_variables inputs variables) [
      | none ↦ none
      | some p ↦ some (quantified (property_item p ∷ []) true)
    ]

module _ {S : Type 0} (ext : External) (db range_db : KeyValueStore S) (s r : S) where
  -- `BlockRangeQuantifier`
  unfoldable pub block_range_quantified : PropertyInputs → Variables → Option QuantifierResult
  unfolding blocks_quantified
  block_range_quantified inputs variables = elim (argument to_integer inputs 0 variables) [
    | none ↦ none
    | some block_number ↦ elim (argument to_range inputs 1 variables) [
      | none ↦ none
      | some range ↦
          elim (RangeDb.get ext.rlp
            (RangeAtBlockDb.block_bucket ext.range_at_block_abi ext.rlp range_db block_number)
            range.start range.end r) [
              | none ↦ none
              | some (err e) ↦ none
              | some (ok result) ↦ blocks_quantified ext range result
            ]
    ]
  ]

  -- `SignedByQuantifier`
  unfoldable pub signed_by_quantified : PropertyInputs → Variables → Option QuantifierResult
  signed_by_quantified inputs variables = elim (argument to_address inputs 0 variables) [
    | none ↦ none
    | some signed_by ↦
        elim (SignedByDb.get_all_signed_by ext.static_hash ext.signed_by_abi db signed_by s) [
          | none ↦ none
          | some messages ↦ some (quantified (messages_of messages) true)
        ]
  ]

  -- `TxQuantifier`
  unfoldable pub tx_quantified : PropertyInputs → Variables → Option QuantifierResult
  unfolding txs_of
  tx_quantified inputs variables = elim (argument to_state_update inputs 0 variables) [
    | none ↦ none
    | some update ↦
        elim (TransactionDb.get_transactions ext.transaction_abi ext.rlp range_db
          (get_block_number update) (get_range update) r) [
            | none ↦ none
            | some none ↦ some (quantified [] false)
            | some (some txs) ↦ some (quantified (txs_of ext (get_range update) txs) true)
          ]
  ]
