-- ===== src/Clients/Aggregator/Ingest.antt =====
-- What the ingestion of a transaction does (clients/src/plasma/plasma_aggregator.rs, `ingest_transaction`).
use plasma_rust_framework.Prelude.{
  ℕ, ◌^◌, ◌<◌, ◌≡◌, refl, sym, ap, ◌∙◌, Option, none, some, List, [], ◌∷◌, arith, filter, All,
}
use plasma_rust_framework.Prelude.Result.{Result, ok, err}
use plasma_rust_framework.PlasmaCore.Transaction.{Transaction}
use plasma_rust_framework.Db.BTreeMap.{BTreeMap}
use plasma_rust_framework.Db.Key.{ErrorKind as DbErrorKind}
use plasma_rust_framework.Db.Kvs.{KeyValueStore}
use plasma_rust_framework.Db.Store.{IsStore, HasPrefixIteration}
use plasma_rust_framework.Db.Range.{Range}
use plasma_rust_framework.Db.RangeDb.Ranges.{hit}
use plasma_rust_framework.Ovm.Types.{StateUpdate}
use plasma_rust_framework.Ovm.External.{External}
use plasma_rust_framework.Clients.Types
use plasma_rust_framework.Clients.Types.{
  answered, ErrorKind, invalid_transaction, NewTransactionEvent, Codecs, Call, returns, panics,
  out_of_fuel, or_panic, then_ok,
}
use plasma_rust_framework.Clients.StateDb.{get_verified_state_updates, decoded}
use plasma_rust_framework.Clients.BlockDb.{decode_values}
use plasma_rust_framework.Clients.StateDb.Contracts.{Verified, get_verified_lem}
use plasma_rust_framework.Clients.BlockManager
use plasma_rust_framework.Clients.BlockManager.{BlockManager}
use plasma_rust_framework.Clients.Aggregator.{
  PlasmaAggregator, new_event, put_transactions, store_signature, transitions, at_manager, ingest,
  ingest_transaction,
}
use plasma_rust_framework.Clients.Aggregator.Transitions.{
  then_ok_inv, or_panic_inv, event_inj, transitions_inv, Decided,
}

module _ {S : Type 0} (ext : External) (codecs : Codecs) (kvs : KeyValueStore S) (Inv : S → Type 0)
    (entries : S → BTreeMap) (laws : IsStore kvs Inv entries)
    (prefixed : HasPrefixIteration kvs Inv entries) where
  -- Over a store that keeps the contract and whose iterations with a prefix are those of its entries: where none of the
  -- verified state updates of the transaction's contract intersects the transaction's range, the transaction is refused
  -- as invalid, and the aggregator is as before.
  pub ingest_transaction_uncovered :
      (fuel : ℕ) (transaction : Transaction) (self : PlasmaAggregator S) (rs : List Range)
      → transaction.range.start < 2 ^ 64
      → Verified ext kvs Inv entries laws prefixed transaction.deposit_contract_address
          self.range_db rs
      → filter (hit transaction.range.start transaction.range.end) rs ≡ []
      → ingest_transaction ext codecs kvs fuel transaction self
        ≡ returns (err invalid_transaction, self)
  unfolding ingest_transaction decode_values
  ingest_transaction_uncovered fuel transaction self rs u v e =
      let read : get_verified_state_updates ext kvs transaction.deposit_contract_address
            transaction.range.start transaction.range.end self.range_db
          ≡ some (ok []) =
        get_verified_lem ext kvs Inv entries laws prefixed transaction.deposit_contract_address
          transaction.range.start transaction.range.end self.range_db rs u v
        ∙ ap (λ (l : List Range). decoded ext.state_update_from_abi (some (ok l))) e in
      rw (read, ingest_transaction) refl

module _ {S : Type 0} (ext : External) (codecs : Codecs) (kvs : KeyValueStore S) where
  ingest_inv :
      (fuel : ℕ) (transaction : Transaction) (us : List StateUpdate)
      (self self' : PlasmaAggregator S) (event : NewTransactionEvent)
      → ingest ext codecs kvs fuel transaction us self ≡ returns (ok event, self')
      → (s : S) × (store_signature ext codecs kvs transaction self.db ≡ some s)
        × All (Decided ext codecs kvs fuel s) us
        × (event ≡ new_event us transaction)
  unfolding ingest
  ingest_inv fuel transaction us self self' event h =
      let n = self.block_manager.current_block_number in
      let last : PlasmaAggregator S
          → Call (Result NewTransactionEvent ErrorKind × PlasmaAggregator S) =
        λ t.
          then_ok
            (at_manager ext codecs kvs t
              (BlockManager.enqueue_tx ext codecs kvs (new_event us transaction) t.block_manager))
            (λ _ u. returns (ok (new_event us transaction), u)) in
      let (r, e, h1) =
        or_panic_inv (put_transactions ext codecs kvs us transaction self.range_db)
          (λ r. Types.or_panic (store_signature ext codecs kvs transaction self.db) (λ s.
            then_ok
              (transitions ext codecs kvs fuel n transaction us
                (record self { range_db = r; db = s }))
              (λ _. last)))
          (ok event, self') h in
      let (s, e', h2) =
        or_panic_inv (store_signature ext codecs kvs transaction self.db)
          (λ s.
            then_ok
              (transitions ext codecs kvs fuel n transaction us
                (record self { range_db = r; db = s }))
              (λ _. last))
          (ok event, self') h1 in
      let (a, t, e3, h3) =
        then_ok_inv
          (transitions ext codecs kvs fuel n transaction us (record self { range_db = r; db = s }))
          (λ _. last) event self' h2 in
      let (b, u, e4, h4) =
        then_ok_inv
          (at_manager ext codecs kvs t
            (BlockManager.enqueue_tx ext codecs kvs (new_event us transaction) t.block_manager))
          (λ _ u. returns (ok (new_event us transaction), u)) event self' h3 in
      (
        s,
        e',
        transitions_inv ext codecs kvs fuel n transaction us (record self { range_db = r; db = s })
            t e3,
        sym (event_inj (new_event us transaction) event u self' h4).0,
      )

  -- What `ingest_transaction` does after the query.
  after_query :
      (fuel : ℕ) (transaction : Transaction) (self self' : PlasmaAggregator S)
      (event : NewTransactionEvent) (o : Option (Result (List StateUpdate) DbErrorKind))
      → (elim o as (λ _. Call (Result NewTransactionEvent ErrorKind × PlasmaAggregator S)) [
        | none ↦ panics
        | some (err e) ↦ panics
        | some (ok []) ↦ returns (err invalid_transaction, self)
        | some (ok (prev_state ∷ state_updates)) ↦
            ingest ext codecs kvs fuel transaction (prev_state ∷ state_updates) self
      ])
        ≡ returns (ok event, self')
      → (prev_state : StateUpdate) × (state_updates : List StateUpdate) × (o
          ≡ some (ok (prev_state ∷ state_updates)))
        × (ingest ext codecs kvs fuel transaction (prev_state ∷ state_updates) self
            ≡ returns (ok event, self'))
  after_query fuel transaction self self' event none h = cc
  after_query fuel transaction self self' event (some (err e)) h = cc
  after_query fuel transaction self self' event (some (ok [])) h = ground arith
  after_query fuel transaction self self' event (some (ok (prev_state ∷ state_updates))) h =
      (prev_state, state_updates, refl, h)

  -- A transaction that is ingested with success has verified state updates in its range, at least one; its signature can
  -- be stored, and over the store with the signature the executor has decided the state object of each of them, in some
  -- state of the range database. The event has the transaction and the block numbers of these state updates.
  pub ingest_transaction_accepted :
      (fuel : ℕ) (transaction : Transaction) (self self' : PlasmaAggregator S)
      (event : NewTransactionEvent)
      → ingest_transaction ext codecs kvs fuel transaction self ≡ returns (ok event, self')
      → (prev_state : StateUpdate) × (state_updates : List StateUpdate) × (s : S)
        × (get_verified_state_updates ext kvs transaction.deposit_contract_address
              transaction.range.start transaction.range.end self.range_db
            ≡ some (ok (prev_state ∷ state_updates)))
        × (store_signature ext codecs kvs transaction self.db ≡ some s)
        × All (Decided ext codecs kvs fuel s) (prev_state ∷ state_updates)
        × (event ≡ new_event (prev_state ∷ state_updates) transaction)
  unfolding ingest_transaction
  ingest_transaction_accepted fuel transaction self self' event h =
      let (prev_state, state_updates, e, k) =
        after_query fuel transaction self self' event
          (get_verified_state_updates ext kvs transaction.deposit_contract_address
            transaction.range.start transaction.range.end self.range_db)
          h in
      let (s, signed, all, same) =
        ingest_inv fuel transaction (prev_state ∷ state_updates) self self' event k in
      (prev_state, state_updates, s, e, signed, all, same)
