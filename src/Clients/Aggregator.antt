-- ===== src/Clients/Aggregator.antt =====
-- clients/src/plasma/plasma_aggregator.rs: the ingestion of transactions. The stores of the executor and of the block
-- manager are of one type, `kvs`, each in a state of its own.
pub mod Transitions
pub mod Ingest
pub mod Queries
use plasma_rust_framework.Prelude.{ℕ, Option, none, some, List, [], ◌∷◌, map}
use plasma_rust_framework.Prelude.Bytes.{Bytes}
use plasma_rust_framework.Prelude.Result.{Result, ok, err}
use plasma_rust_framework.PlasmaCore.Transaction.{Transaction}
use plasma_rust_framework.Db.Kvs.{KeyValueStore}
use plasma_rust_framework.Ovm.Types.{StateUpdate, Property, Variables, get_block_number}
use plasma_rust_framework.Ovm.External.{External}
use plasma_rust_framework.Ovm.SignedByDb
use plasma_rust_framework.Ovm.TransactionDb.{put_transaction}
use plasma_rust_framework.Ovm.Witnessed.{recover}
use plasma_rust_framework.Clients.Types.{
  ErrorKind, plasma_db_error, invalid_transaction, NewTransactionEvent, Codecs, into_error, Call,
  returns, or_panic, then_ok, asserted, of_option, panics, out_of_fuel,
}
use plasma_rust_framework.Clients.StateDb.{get_verified_state_updates, put_verified_state_update}
use plasma_rust_framework.Clients.BlockManager
use plasma_rust_framework.Clients.BlockManager.{BlockManager}
use plasma_rust_framework.Clients.StateTransition
use plasma_rust_framework.Clients.StateTransition.{CoreErrorKind, execute_state_transition}

pub record PlasmaAggregator (S : Type 0) : Type 0 where
  pub block_manager : BlockManager S
  pub db : S
  pub range_db : S
  pub variables : Variables

-- The error of a database, as the operator `?` converts it.
abbrev pub converted : {A E S : Type 0} → Option (Result A E × S) → Option (Result A ErrorKind × S)
converted none = none
converted (some (r, s)) = some (into_error r, s)

abbrev pub new_event : List StateUpdate → Transaction → NewTransactionEvent
new_event state_updates transaction = record {
  prev_state_block_numbers = map get_block_number state_updates;
  transaction = transaction;
}

module _ {S : Type 0} (ext : External) (codecs : Codecs) (kvs : KeyValueStore S) where
  -- The first loop of `ingest_transaction`.
  unfoldable pub put_transactions : List StateUpdate → Transaction → S → Option S
  put_transactions [] transaction r = some r
  put_transactions (prev_state ∷ state_updates) transaction r =
      elim (put_transaction ext.transaction_abi ext.rlp kvs (get_block_number prev_state)
        transaction r) [ none ↦ none | some r' ↦ put_transactions state_updates transaction r' ]

  unfoldable pub store_signature : Transaction → S → Option S
  store_signature transaction s =
      let message = ext.to_body_abi transaction in
      elim (recover ext transaction.signature message) [
        | none ↦ none
        | some signer ↦ asserted (
            SignedByDb.store_witness ext.static_hash ext.signed_by_abi kvs signer message
              transaction.signature s)
      ]

  -- The aggregator behind a call of the block manager, and of the state database.
  abbrev pub at_manager :
      {A : Type 0}
      → PlasmaAggregator S
      → Option (Result A ErrorKind × BlockManager S)
      → Call (Result A ErrorKind × PlasmaAggregator S)
  at_manager self none = panics
  at_manager self (some (r, manager)) = returns (r, record self { block_manager = manager })

  abbrev pub at_range_db :
      {A : Type 0}
      → PlasmaAggregator S
      → Option (Result A ErrorKind × S)
      → Call (Result A ErrorKind × PlasmaAggregator S)
  at_range_db self none = panics
  at_range_db self (some (r, range_db)) = returns (r, record self { range_db = range_db })

  unfoldable pub store_next_state :
      StateUpdate → PlasmaAggregator S → Call (Result (Unit {0}) ErrorKind × PlasmaAggregator S)
  store_next_state next_state self =
      then_ok
        (at_manager self
          (BlockManager.enqueue_state_update ext codecs kvs next_state self.block_manager))
        (λ _ self'.
          at_range_db self'
            (converted (put_verified_state_update ext kvs next_state self'.range_db)))

  -- What follows a state transition; the executor keeps its variables.
  abbrev pub transitioned :
      PlasmaAggregator S
      → Call (Result StateUpdate CoreErrorKind × Variables)
      → Call (Result (Unit {0}) ErrorKind × PlasmaAggregator S)
  transitioned self out_of_fuel = out_of_fuel
  transitioned self panics = panics
  transitioned self (returns (err e, variables)) =
      returns (err invalid_transaction, record self { variables = variables })
  transitioned self (returns (ok next_state, variables)) =
      store_next_state next_state (record self { variables = variables })

  -- The second loop of `ingest_transaction`.
  unfoldable pub transitions :
      ℕ
      → ℕ
      → Transaction
      → List StateUpdate
      → PlasmaAggregator S
      → Call (Result (Unit {0}) ErrorKind × PlasmaAggregator S)
  unfolding execute_state_transition store_next_state
  transitions fuel next_block_number transaction [] self = returns (ok tt, self)
  transitions fuel next_block_number transaction (prev_state ∷ state_updates) self =
      then_ok
        (transitioned self (
          execute_state_transition ext codecs.property_from_abi kvs kvs self.db self.range_db fuel
            prev_state transaction next_block_number self.variables))
        (λ _ self'. transitions fuel next_block_number transaction state_updates self')

  -- `ingest_transaction` behind the query, for at least one state update.
  unfoldable pub ingest :
      ℕ
      → Transaction
      → List StateUpdate
      → PlasmaAggregator S
      → Call (Result NewTransactionEvent ErrorKind × PlasmaAggregator S)
  unfolding put_transactions store_signature transitions
  ingest fuel transaction state_updates self =
      or_panic (put_transactions state_updates transaction self.range_db) (λ range_db.
        or_panic (store_signature transaction self.db) (λ db.
          then_ok
            (transitions fuel self.block_manager.current_block_number transaction state_updates
              (record self { range_db = range_db; db = db }))
            (λ _ self'.
              then_ok
                (at_manager self' (
                  BlockManager.enqueue_tx ext codecs kvs (new_event state_updates transaction)
                    self'.block_manager))
                (λ _ self''. returns (ok (new_event state_updates transaction), self'')))))

  unfoldable pub ingest_transaction :
      ℕ
      → Transaction
      → PlasmaAggregator S
      → Call (Result NewTransactionEvent ErrorKind × PlasmaAggregator S)
  unfolding ingest
  ingest_transaction fuel transaction self =
      elim (get_verified_state_updates ext kvs transaction.deposit_contract_address
        transaction.range.start transaction.range.end self.range_db) [
          | none ↦ panics
          | some (err e) ↦ panics
          | some (ok []) ↦ returns (err invalid_transaction, self)
          | some (ok (prev_state ∷ state_updates)) ↦
              ingest fuel transaction (prev_state ∷ state_updates) self
        ]
