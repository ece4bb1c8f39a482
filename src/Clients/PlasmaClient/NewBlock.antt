-- ===== src/Clients/PlasmaClient/NewBlock.antt =====
-- clients/src/plasma/plasma_client.rs: a client takes in a block. The map of the tree is iterated in the order `order`.
use plasma_rust_framework.Prelude.{ℕ, ◌+◌, ◌*◌, Option, none, some, List, [], ◌∷◌, ◌++◌, map}
use plasma_rust_framework.Prelude.Bytes.{Bytes}
use plasma_rust_framework.Prelude.Words.{le_bytes}
use plasma_rust_framework.Prelude.Result.{Result, ok, err}
use plasma_rust_framework.PlasmaCore.Transaction.{Transaction}
use plasma_rust_framework.Db.Kvs.{KeyValueStore}
use plasma_rust_framework.MerkleTree.IntervalTree.{MerkleIntervalNode}
use plasma_rust_framework.Ovm.Types.{StateUpdate, state_update, get_block_number, get_range}
use plasma_rust_framework.Ovm.External.{External}
use plasma_rust_framework.Ovm.RangeAtBlockDb
use plasma_rust_framework.Ovm.SignedByDb
use plasma_rust_framework.Ovm.TransactionDb.{put_transaction}
use plasma_rust_framework.Ovm.Witnessed.{recover}
use plasma_rust_framework.Ovm.Statements.{create_plasma_property}
use plasma_rust_framework.Ovm.PropertyExecutor.{decide}
use plasma_rust_framework.Clients.Types.{
  NewTransactionEvent, PlasmaBlock, Call, returns, or_panic, answered, asserted, then_call,
  of_option,
}
use plasma_rust_framework.Clients.StateDb.{put_verified_state_update}
use plasma_rust_framework.Clients.PlasmaBlock
use plasma_rust_framework.Clients.PlasmaBlock.{
  merkelize, get_inclusion_proof, get_plasma_data_block,
}
use plasma_rust_framework.Clients.PlasmaClient.{
  PlasmaClient, create_ownership_state_object, get_all_state_updates, latest_block_number,
}

-- Both a panic of the tree and `unwrap` of an error.
abbrev pub merkelized : {A E : Type 0} → Option (Result A E) → Option A
merkelized none = none
merkelized (some (err e)) = none
merkelized (some (ok a)) = some a

-- Both a panic of the tree and `unwrap` of `None`.
abbrev pub proof_of : Option (Option Bytes) → Option Bytes
proof_of none = none
proof_of (some proof) = proof

abbrev pub asserted_some : {E S : Type 0} → Option (Result (Unit {0}) E × S) → Option S
asserted_some none = none
asserted_some (some (r, s)) = asserted (r, s)

module _ {S : Type 0} (ext : External) (kvs : KeyValueStore S) where
  -- The loop of `update_state_updates`; the results of the writes are dropped.
  unfoldable pub update_state_updates : List StateUpdate → S → Option S
  update_state_updates [] r = some r
  update_state_updates (s ∷ state_updates) r = elim (put_verified_state_update ext kvs s r) [
    | none ↦ none
    | some (done, r') ↦ update_state_updates state_updates r'
  ]

  -- The loop over `prev_state_block_numbers`.
  unfoldable pub put_at_blocks : List ℕ → Transaction → S → Option S
  put_at_blocks [] transaction r = some r
  put_at_blocks (n ∷ block_numbers) transaction r =
      elim (put_transaction ext.transaction_abi ext.rlp kvs n transaction r) [
        | none ↦ none
        | some r' ↦ put_at_blocks block_numbers transaction r'
      ]

  unfoldable pub handle_new_transaction :
      NewTransactionEvent → PlasmaClient S → Option (PlasmaClient S)
  unfolding put_at_blocks
  handle_new_transaction event self =
      elim (put_at_blocks event.prev_state_block_numbers event.transaction self.range_db) [
        | none ↦ none
        | some r ↦ some (record self { range_db = r })
      ]

  -- The first loop of `handle_new_block`.
  unfoldable pub store_inclusions : PlasmaBlock → Bytes → List StateUpdate → S → Option S
  store_inclusions block root [] r = some r
  store_inclusions block root (s ∷ state_updates) r =
      elim (proof_of (get_inclusion_proof ext block s)) [
        | none ↦ none
        | some proof ↦
            elim (asserted_some (
              RangeAtBlockDb.store_witness ext.range_at_block_abi ext.rlp kvs root proof
                (get_plasma_data_block ext root s) r)) [
                  | none ↦ none
                  | some r' ↦ store_inclusions block root state_updates r'
                ]
      ]

  -- The second loop, on both stores.
  unfoldable pub store_transactions : List NewTransactionEvent → S → S → Option (S × S)
  unfolding put_at_blocks
  store_transactions [] s r = some (s, r)
  store_transactions (tx ∷ transactions) s r =
      elim (put_at_blocks tx.prev_state_block_numbers tx.transaction r) [
        | none ↦ none
        | some r' ↦ elim (recover ext tx.transaction.signature (ext.to_body_abi tx.transaction)) [
          | none ↦ none
          | some signer ↦
              elim (asserted (
                SignedByDb.store_witness ext.static_hash ext.signed_by_abi kvs signer
                  (ext.to_body_abi tx.transaction) tx.transaction.signature s)) [
                    | none ↦ none
                    | some s' ↦ store_transactions transactions s' r'
                  ]
        ]
      ]

  -- The third loop: the decisions are printed only, and leave the executor's variables.
  unfoldable pub check_claims : ℕ → List StateUpdate → PlasmaClient S → Call (PlasmaClient S)
  check_claims fuel [] self = returns self
  check_claims fuel (su ∷ state_updates) self =
      answered
        (decide ext kvs kvs self.db self.range_db fuel
          (create_plasma_property (get_block_number su) (get_range su)) self.variables)
        (λ decided variables.
          check_claims fuel state_updates (record self { variables = variables }))

  -- The end of `handle_new_block`; the result of the last write is dropped.
  unfoldable pub finish_new_block : PlasmaBlock → PlasmaClient S → Option (PlasmaClient S)
  unfolding update_state_updates
  finish_new_block block self = elim (update_state_updates block.state_updates self.range_db) [
    | none ↦ none
    | some r ↦ some (record self {
      range_db = r;
      db = (kvs.put latest_block_number (le_bytes 8 block.block_number) self.db).1;
    })
  ]

  unfoldable pub handle_new_block :
      (List (ℕ × List MerkleIntervalNode) → List (ℕ × List MerkleIntervalNode))
      → ℕ
      → PlasmaBlock
      → PlasmaClient S
      → Call (PlasmaClient S)
  unfolding check_claims finish_new_block store_inclusions store_transactions
  handle_new_block order fuel block self =
      or_panic (merkelized (merkelize ext order block)) (λ (root, block').
        or_panic (store_inclusions block' root block'.state_updates self.range_db) (λ r.
          or_panic (store_transactions block'.transactions self.db r) (λ (s, r').
            let self' : PlasmaClient S = record self { db = s; range_db = r' } in
            or_panic (get_all_state_updates ext kvs self') (λ state_updates.
              then_call (check_claims fuel state_updates self')
                (λ checked. of_option (finish_new_block block' checked))))))

  -- The state updates of `insert_test_ranges`: three of `size` coins each.
  abbrev pub test_state_updates : ℕ → ℕ → ℕ → List StateUpdate
  test_state_updates owner token size =
      map
        (λ i.
          state_update 0 token (record { start = i * size; end = (i + 1) * size })
            (create_ownership_state_object owner))
        (0 ∷ 1 ∷ 2 ∷ [])

  -- The address of the owner is that of the string in the code.
  unfoldable pub insert_test_ranges :
      (List (ℕ × List MerkleIntervalNode) → List (ℕ × List MerkleIntervalNode))
      → ℕ
      → ℕ
      → PlasmaClient S
      → Call (PlasmaClient S)
  unfolding handle_new_block
  insert_test_ranges order fuel owner self =
      handle_new_block order fuel
        (PlasmaBlock.new 0 (test_state_updates owner 0 20 ++ test_state_updates owner 1 100) [])
        self
