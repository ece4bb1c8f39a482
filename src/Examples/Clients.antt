-- ===== src/Examples/Clients.antt =====
-- Concrete state databases, transactions and balances (clients/src/plasma) over the memory store.
use plasma_rust_framework.Prelude.{
  ℕ, ◌+◌, ◌%◌, ◌^◌, ◌<◌, ◌≡◌, refl, Bool, true, false, ◌&&◌, Option, some, List, [], ◌∷◌, ◌++◌,
  arith, ltb, leb, ◌==◌, if◌then◌else◌, All,
}
use plasma_rust_framework.Prelude.Bytes.{Bytes, cmp, starts_with}
use plasma_rust_framework.Prelude.Words.{be_bytes, le_bytes, of_le}
use plasma_rust_framework.Prelude.Result.{ok, err}
use plasma_rust_framework.PlasmaCore.Range as Coins
use plasma_rust_framework.PlasmaCore.Transaction.{Transaction}
use plasma_rust_framework.Db.Key.{from_u64, remove_prefix}
use plasma_rust_framework.Db.BTreeMap
use plasma_rust_framework.Db.BTreeMap.{BTreeMap, IsSorted}
use plasma_rust_framework.Db.Memory.{memory, open_db, scan, run, apply}
use plasma_rust_framework.Db.Memory.Laws.{memory-IsStore, memory-HasPrefixIteration}
use plasma_rust_framework.Db.Bucket
use plasma_rust_framework.Db.Bucket.Laws.{strip}
use plasma_rust_framework.Db.Range
use plasma_rust_framework.Db.Range.{intersect}
use plasma_rust_framework.Db.RangeDb
use plasma_rust_framework.Db.RangeDb.Ranges.{value_at}
use plasma_rust_framework.Ovm.Types
use plasma_rust_framework.Ovm.Types.{StateUpdate, argument, get_variable, get_input, lookup}
use plasma_rust_framework.Ovm.SignedByDb
use plasma_rust_framework.Ovm.Manager.{property_of}
use plasma_rust_framework.Ovm.SignedByDb.{address_bytes}
use plasma_rust_framework.Ovm.Executor
use plasma_rust_framework.Ovm.Witnessed.{recover, bytes_to_signature}
use plasma_rust_framework.Clients.Types.{invalid_transaction, Call}
use plasma_rust_framework.Clients.BlockDb.{decode_values}
use plasma_rust_framework.Clients.BlockManager
use plasma_rust_framework.Clients.BlockDb
use plasma_rust_framework.Clients.StateTransition.{
  execute_state_transition, verify_state_transition,
}
use plasma_rust_framework.Ovm.TransactionDb
use plasma_rust_framework.Ovm.Stored
use plasma_rust_framework.Ovm.Deciders
use plasma_rust_framework.Clients.StateDb.{
  verified_state_updates, get_verified_state_updates, put_verified_state_update,
}
use plasma_rust_framework.Clients.StateDb.Contracts.{Verified, put_verified_state_update_lem}
use plasma_rust_framework.Clients.PlasmaClient.{
  PlasmaClient, is_owned, balance_of, balances, search_range, create_ownership_state_object,
}
use plasma_rust_framework.Clients.PlasmaClient.NewBlock.{update_state_updates}
use plasma_rust_framework.Clients.PlasmaClient.Updates.{
  Contracts, coin_after, update_state_updates_lem,
}
use plasma_rust_framework.Clients.PlasmaClient.Balance.{
  owned_coins, balances_lem, Found, search_range_lem,
}
use plasma_rust_framework.Clients.Aggregator.{
  PlasmaAggregator, ingest_transaction, ingest, put_transactions, transitions, store_next_state,
  store_signature, new_event,
}
use plasma_rust_framework.Clients.Aggregator.Transitions.{Decided}
use plasma_rust_framework.Clients.Aggregator.Ingest.{
  ingest_transaction_uncovered, ingest_transaction_accepted,
}
use plasma_rust_framework.Examples.External.{sample, plain_codecs, update_of, signature_of}
use plasma_rust_framework.Examples.Trees.{fill}

abbrev Holds : ℕ → BTreeMap → List Range.Range → Type 0
Holds = Verified sample memory IsSorted (λ m. m) memory-IsStore memory-HasPrefixIteration

Holds-nothing : (a : ℕ) → Holds a open_db []
unfolding strip
Holds-nothing a = record { inv = tt; same = refl; map = tt }

abbrev first : StateUpdate
first = update_of 1 0 0 10

abbrev of_first : Bytes
of_first = 1 ∷ 0 ∷ 0 ∷ 10 ∷ []

put_verified_state_update_lem_example :
    (s' : BTreeMap) × (put_verified_state_update sample memory first open_db ≡ some (ok tt, s'))
    × (rs' : List Range.Range) × Holds 0 s' rs'
    × ((x : ℕ) → value_at x rs' ≡ (if leb 0 x && ltb x 10 then some of_first else value_at x []))
    × Holds 1 s' []
    × ((start end : ℕ)
        → start < 2 ^ 64
        → get_verified_state_updates sample memory 1 start end s'
          ≡ get_verified_state_updates sample memory 1 start end open_db)
put_verified_state_update_lem_example =
    put_verified_state_update_lem sample memory IsSorted (λ m. m) memory-IsStore
      memory-HasPrefixIteration first 1 open_db [] [] (omega arith) (omega arith) (omega arith)
      (omega arith) (λ e. omega (arith, e)) (Holds-nothing 0) (Holds-nothing 1)

abbrev two_updates : List StateUpdate
two_updates = first ∷ update_of 2 0 5 8 ∷ []

update_state_updates_lem_example :
    (s' : BTreeMap) × (update_state_updates sample memory two_updates open_db ≡ some s')
    × (all : ℕ → List Range.Range) × Contracts sample memory IsSorted
        (λ m. m)
        memory-IsStore
        memory-HasPrefixIteration
        s'
        all
    × ((contract coin : ℕ)
        → value_at coin (all contract)
          ≡ coin_after sample.state_update_to_abi contract coin two_updates (value_at coin []))
update_state_updates_lem_example =
    update_state_updates_lem sample memory IsSorted (λ m. m) memory-IsStore
      memory-HasPrefixIteration two_updates open_db (λ a. [])
      ((omega arith, omega arith, omega arith), ((omega arith, omega arith, omega arith), tt))
      (λ a h. Holds-nothing a)

-- The contract 0 has the first state update.
abbrev with_first : BTreeMap
with_first =
    (
      (verified_state_updates ++ address_bytes 0) ++ from_u64 10,
      sample.rlp.encode (Range.new 0 10 of_first),
    )
    ∷ []

abbrev verified : List Range.Range
verified = Range.new 0 10 of_first ∷ []

Holds-first : Holds 0 with_first verified
unfolding strip starts_with address_bytes be_bytes
Holds-first = record { inv = (tt, tt); same = refl; map = (omega arith, omega arith, tt, tt) }

abbrev client : PlasmaClient BTreeMap
client = record { db = open_db; range_db = with_first; variables = [] }

first_decoded : decode_values sample.state_update_from_abi verified ≡ some (first ∷ [])
unfolding decode_values
first_decoded = refl

search_range_lem_example :
    (o : Option Coins.Range) × (search_range sample memory 0 7 client ≡ some o)
    × Found 7 (first ∷ []) o
search_range_lem_example =
    search_range_lem sample memory IsSorted (λ m. m) memory-IsStore memory-HasPrefixIteration 0 7
      client verified (first ∷ []) Holds-first first_decoded ((omega arith, omega arith), tt)

-- The address 5 owns the coins of the first, and not those of the second.
abbrev owned_by : ℕ → ℕ → ℕ → StateUpdate
owned_by owner start end =
    Types.state_update 1 0 (record { start = start; end = end })
      (create_ownership_state_object owner)

abbrev owns : StateUpdate → Bool
owns u = (Types.get_range u).start == 0

first_owned : is_owned 5 (owned_by 5 0 10) ≡ some true
unfolding is_owned get_input property_of
first_owned = refl

second_not_owned : is_owned 5 (owned_by 6 10 30) ≡ some false
unfolding is_owned get_input property_of
second_not_owned = refl

balances_lem_example :
    (bs : List (ℕ × ℕ)) × (balances 5 (owned_by 5 0 10 ∷ owned_by 6 10 30 ∷ []) [] ≡ some bs)
    × ((contract : ℕ)
        → balance_of contract bs
          ≡ (balance_of contract []
              + owned_coins owns contract (owned_by 5 0 10 ∷ owned_by 6 10 30 ∷ []))
            % 2 ^ 64)
unfolding balance_of
balances_lem_example =
    balances_lem 5 owns (owned_by 5 0 10 ∷ owned_by 6 10 30 ∷ []) []
      (
        (first_owned, (omega arith, omega arith)),
        ((second_not_owned, (omega arith, omega arith)), tt),
      )
      (λ contract. omega arith)

abbrev transaction : ℕ → ℕ → Transaction
transaction start end = record {
  deposit_contract_address = 0;
  range = Coins.new start end;
  parameters = 1 ∷ [];
  signature = signature_of 5;
  metadata = record { from = 5; to = 6 };
}

abbrev aggregator : PlasmaAggregator BTreeMap
aggregator = record {
  block_manager = BlockManager.new open_db;
  db = open_db;
  range_db = with_first;
  variables = [];
}

ingest_transaction_uncovered_example :
    ingest_transaction sample plain_codecs memory 5 (transaction 20 30) aggregator
    ≡ Call.returns (err invalid_transaction, aggregator)
unfolding intersect
ingest_transaction_uncovered_example =
    ingest_transaction_uncovered sample plain_codecs memory IsSorted (λ m. m) memory-IsStore
      memory-HasPrefixIteration 5 (transaction 20 30) aggregator verified (omega arith) Holds-first
      refl

accepted :
    (ingested : PlasmaAggregator BTreeMap) × (ingest_transaction sample plain_codecs memory 5
        (transaction 2 8)
        aggregator
      ≡ Call.returns (ok (new_event (first ∷ []) (transaction 2 8)), ingested))
unfolding ingest_transaction get_verified_state_updates decode_values ingest put_transactions
    TransactionDb.put_transaction TransactionDb.block_name TransactionDb.digits store_signature
    transitions execute_state_transition verify_state_transition store_next_state
    put_verified_state_update BlockManager.enqueue_state_update BlockDb.enqueue_state_update
    BlockManager.enqueue_tx BlockDb.enqueue_tx SignedByDb.store_witness RangeDb.get RangeDb.put
    RangeDb.del_batch RangeDb.put_batch RangeDb.output_ranges RangeDb.left_rest RangeDb.right_rest
    RangeDb.decode_all RangeDb.hits Bucket.iter_all Bucket.remove_prefixes scan run apply
    BTreeMap.insert BTreeMap.remove intersect cmp address_bytes be_bytes le_bytes of_le from_u64
    starts_with remove_prefix recover bytes_to_signature fill Executor.decide
    Executor.get_all_quantified property_of argument get_variable get_input lookup
    Stored.signed_by_quantified SignedByDb.get_all_signed_by SignedByDb.decode_records
    Deciders.for_all_such_that_decide Deciders.for_all_loop Deciders.for_all_get_decision
accepted = (_, refl)

ingest_transaction_accepted_example :
    (prev_state : StateUpdate) × (state_updates : List StateUpdate) × (s : BTreeMap)
    × (get_verified_state_updates sample memory 0 2 8 with_first
        ≡ some (ok (prev_state ∷ state_updates)))
    × (store_signature sample plain_codecs memory (transaction 2 8) open_db ≡ some s)
    × All (Decided sample plain_codecs memory 5 s) (prev_state ∷ state_updates)
    × (new_event (first ∷ []) (transaction 2 8)
        ≡ new_event (prev_state ∷ state_updates) (transaction 2 8))
ingest_transaction_accepted_example =
    ingest_transaction_accepted sample plain_codecs memory 5 (transaction 2 8) aggregator accepted.0
      (new_event (first ∷ []) (transaction 2 8)) accepted.1
