-- ===== src/Examples/Transitions.antt =====
-- A transition of coins of the address 8 by a transaction that the address 5 has signed
-- (ovm/src/types/state_update.rs), over concrete memory stores.
use plasma_rust_framework.Prelude.{◌≡◌, refl, false, Option, none, some, [], ◌∷◌, arith}
use plasma_rust_framework.Prelude.Bytes.{cmp, starts_with}
use plasma_rust_framework.Prelude.Result.{ok}
use plasma_rust_framework.PlasmaCore.Range as Coins
use plasma_rust_framework.PlasmaCore.Transaction.{Transaction}
use plasma_rust_framework.Db.Key.{from_u64, remove_prefix}
use plasma_rust_framework.Db.BTreeMap
use plasma_rust_framework.Db.BTreeMap.{BTreeMap}
use plasma_rust_framework.Db.Memory.{memory, open_db, scan, run, apply}
use plasma_rust_framework.Db.Bucket
use plasma_rust_framework.Db.Range.{intersect}
use plasma_rust_framework.Db.RangeDb
use plasma_rust_framework.Ovm.Types.{
  StateUpdate, state_update, state_update_item, Variables, returns,
}
use plasma_rust_framework.Ovm.Deciders.{decision}
use plasma_rust_framework.Ovm.Statements.{state_update_name}
use plasma_rust_framework.Ovm.TransactionDb.{
  put_transaction, get_transactions, transactions_of, block_name, digits,
}
use plasma_rust_framework.Ovm.Manager.{property_of}
use plasma_rust_framework.Prelude.Words.{be_bytes, le_bytes, of_le}
use plasma_rust_framework.Ovm.Witnessed.{recover, bytes_to_signature}
use plasma_rust_framework.Ovm.PropertyExecutor.{decide}
use plasma_rust_framework.Clients.Types.{Call}
use plasma_rust_framework.Clients.StateTransition.{next_state, execute_state_transition}
use plasma_rust_framework.Clients.StateTransition.Ownership.{
  owned_by, execute_state_transition_others,
}
use plasma_rust_framework.Examples.External.{sample, signature_of, state_object}
use plasma_rust_framework.Examples.Trees.{fill}

abbrev transaction : Transaction
transaction = record {
  deposit_contract_address = 0;
  range = Coins.new 0 10;
  parameters = 1 ∷ [];
  signature = signature_of 5;
  metadata = record { from = 5; to = 6 };
}

abbrev owned : StateUpdate
owned = state_update 1 0 (Coins.new 0 10) (owned_by 8)

abbrev stored : Option BTreeMap → BTreeMap
stored none = []
stored (some s) = s

with_transaction : BTreeMap
with_transaction =
    stored (put_transaction sample.transaction_abi sample.rlp memory 1 transaction open_db)

transaction_read :
    get_transactions sample.transaction_abi sample.rlp memory 1 (Coins.new 0 10) with_transaction
    ≡ some (some (transaction ∷ []))
unfolding with_transaction put_transaction get_transactions transactions_of block_name digits
    property_of RangeDb.get RangeDb.put RangeDb.put_batch RangeDb.del_batch RangeDb.decode_all
    RangeDb.hits RangeDb.left_rest RangeDb.right_rest RangeDb.output_ranges intersect
    Bucket.iter_all Bucket.remove_prefixes remove_prefix scan run apply BTreeMap.insert BTreeMap.get
    BTreeMap.remove from_u64 starts_with cmp be_bytes le_bytes of_le fill
transaction_read = refl

signed_by_five : recover sample (signature_of 5) (1 ∷ []) ≡ some 5
unfolding recover bytes_to_signature fill
signed_by_five = refl

abbrev with_owned : Variables
with_owned = (state_update_name, state_update_item owned) ∷ []

execute_state_transition_others_example :
    (decide sample memory memory open_db with_transaction 1 (owned_by 8) with_owned
      ≡ returns (ok (decision false [])) with_owned)
    × (execute_state_transition sample
          (λ bytes. some state_object)
          memory
          memory
          open_db
          with_transaction
          1
          owned
          transaction
          2
          []
        ≡ Call.returns (ok (next_state transaction 2 state_object), with_owned))
execute_state_transition_others_example =
    execute_state_transition_others sample (λ bytes. some state_object) memory memory open_db
      with_transaction 0 8 owned transaction 2 [] state_object (transaction ∷ []) refl refl
      transaction_read ((5, signed_by_five, λ e. omega (arith, e)), tt)
