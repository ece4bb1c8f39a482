-- ===== src/Clients/PlasmaClient.antt =====
-- clients/src/plasma/plasma_client.rs: the state of a client, its accounts and what it reads. The network and the
-- deposit contract are left out. `none` is a panic.
pub mod NewBlock
pub mod Controller
pub mod Updates
pub mod Balance
use plasma_rust_framework.Prelude.{
  ℕ, ◌+◌, ◌-◌, ◌%◌, ◌^◌, Bool, true, false, Option, none, some, List, [], ◌∷◌, leb, ◌==◌,
  if◌then◌else◌, length, take,
}
use plasma_rust_framework.Prelude.Bytes.{Bytes}
use plasma_rust_framework.Prelude.Words.{of_le}
use plasma_rust_framework.Prelude.Result.{Result, ok, err}
use plasma_rust_framework.PlasmaCore.Range.{Range}
use plasma_rust_framework.PlasmaCore.Transaction.{
  Metadata, TransactionParams, Transaction, from_params,
}
use plasma_rust_framework.Db.Kvs.{KeyValueStore}
use plasma_rust_framework.Ovm.Types.{
  PropertyInput, placeholder, constant_address, constant_bytes, constant_property, PropertyInputs,
  none_left, Property, property, StateUpdate, state_update, Variables, get_input, get_property,
  get_range, get_deposit_contract_address,
}
use plasma_rust_framework.Ovm.Manager.{
  signed_by_decider, there_exists_such_that, q_tx, preimage_exists_decider,
}
use plasma_rust_framework.Ovm.Statements.{
  one, two, three, state_update_name, tx_name, create_channel_state_object,
}
use plasma_rust_framework.Ovm.External.{External}
use plasma_rust_framework.Ovm.Filter
use plasma_rust_framework.Ovm.Filter.{TransactionFilter}
use plasma_rust_framework.Ovm.TransactionDb.{query_transaction}
use plasma_rust_framework.Clients.Types.{min_range, max_range}
use plasma_rust_framework.Clients.StateDb
use plasma_rust_framework.Clients.WalletDb.{get_key}

-- The executor with its two stores and its variables.
pub record PlasmaClient (S : Type 0) : Type 0 where
  pub db : S
  pub range_db : S
  pub variables : Variables

-- `ethsign::SecretKey`: made of raw bytes, with the address of its public key, and signing.
pub record Keys (SecretKey : Type 0) : Type 0 where
  pub from_raw : Bytes → Option SecretKey
  pub address : SecretKey → ℕ
  pub sign : SecretKey → Bytes → Bytes

abbrev pub create_ownership_state_object : ℕ → Property
create_ownership_state_object to_address = there_exists_such_that (
    three (constant_property (q_tx (one (placeholder state_update_name)))) (constant_bytes tx_name)
      (constant_property
        (signed_by_decider (two (constant_address to_address) (placeholder tx_name)))))

-- A property that nobody is asked to decide stands in for the state update's own.
abbrev pub open_channel_state_object : ℕ → ℕ → ℕ → ℕ → Range → Property
open_channel_state_object my_address counter_party_address block_number deposit_contract_address r =
    create_channel_state_object my_address counter_party_address
      (state_update block_number deposit_contract_address r (preimage_exists_decider none_left))

-- `unwrap_or_else(|_| vec![])`
abbrev pub or_empty : {A E : Type 0} → Option (Result (List A) E) → Option (List A)
or_empty none = none
or_empty (some (err e)) = some []
or_empty (some (ok l)) = some l

abbrev pub inputs_of : Property → PropertyInputs
inputs_of (property decider inputs) = inputs

-- The test of `get_balance`: the third input is a property whose first input is the address.
abbrev pub signed_by_address : ℕ → Option PropertyInput → Option Bool
signed_by_address my_address none = none
signed_by_address my_address (some (constant_property signed_by)) =
    elim (get_input (inputs_of signed_by) 0) [
      | none ↦ none
      | some (constant_address address) ↦ some (address == my_address)
      | some _ ↦ some false
    ]
signed_by_address my_address (some _) = some false

unfoldable pub is_owned : ℕ → StateUpdate → Option Bool
unfolding get_input
is_owned my_address s = signed_by_address my_address (get_input (inputs_of (get_property s)) 2)

-- The balances, the latest entry of an address first; `unwrap_or(&0)`.
unfoldable pub balance_of : ℕ → List (ℕ × ℕ) → ℕ
balance_of address [] = 0
balance_of address ((a, b) ∷ balances) = if a == address then b else balance_of address balances

-- One step of the fold; the sum and the difference wrap.
abbrev pub credited : StateUpdate → List (ℕ × ℕ) → List (ℕ × ℕ)
credited s acc =
    (
      get_deposit_contract_address s,
      (balance_of (get_deposit_contract_address s) acc
            + (get_range s).end
            + 2 ^ 64
            - (get_range s).start)
          % 2 ^ 64,
    )
    ∷ acc

-- The filter and the fold of `get_balance`.
unfoldable pub balances : ℕ → List StateUpdate → List (ℕ × ℕ) → Option (List (ℕ × ℕ))
unfolding is_owned balance_of
balances my_address [] acc = some acc
balances my_address (s ∷ state_updates) acc = elim (is_owned my_address s) [
  | none ↦ none
  | some true ↦ balances my_address state_updates (credited s acc)
  | some false ↦ balances my_address state_updates acc
]

-- `find` of `search_range`; the difference wraps.
unfoldable pub find_range : ℕ → List StateUpdate → Option Range
find_range amount [] = none
find_range amount (s ∷ state_updates) =
    if leb amount (((get_range s).end + 2 ^ 64 - (get_range s).start) % 2 ^ 64)
    then some (get_range s)
    else find_range amount state_updates

-- "latest_block_number"
abbrev pub latest_block_number : Bytes
latest_block_number =
    108 ∷ 97 ∷ 116 ∷ 101 ∷ 115 ∷ 116 ∷ 95 ∷ 98 ∷ 108 ∷ 111 ∷ 99 ∷ 107 ∷ 95 ∷ 110 ∷ 117 ∷ 109 ∷ 98
    ∷ 101 ∷ 114 ∷ []

-- `Integer::from`, which panics on fewer than 8 bytes.
abbrev pub read_integer : Bytes → Option ℕ
read_integer bytes = if leb 8 (length bytes) then some (of_le (take 8 bytes)) else none

module _ {S : Type 0} (ext : External) (kvs : KeyValueStore S) where
  unfoldable pub get_all_state_updates : PlasmaClient S → Option (List StateUpdate)
  get_all_state_updates self = or_empty (StateDb.get_all_state_updates ext kvs self.range_db)

  unfoldable pub get_state_updates : ℕ → PlasmaClient S → Option (List StateUpdate)
  get_state_updates deposit_contract_address self = or_empty (
      StateDb.get_verified_state_updates ext kvs deposit_contract_address min_range max_range
        self.range_db)

  unfoldable pub search_range : ℕ → ℕ → PlasmaClient S → Option (Option Range)
  unfolding get_state_updates find_range
  search_range deposit_contract_address amount self =
      elim (get_state_updates deposit_contract_address self) [
        | none ↦ none
        | some state_updates ↦ some (find_range amount state_updates)
      ]

  -- Both calls of `unwrap`, and the conversion, panic.
  unfoldable pub get_latest_block_number : PlasmaClient S → Option ℕ
  get_latest_block_number self = elim (kvs.get latest_block_number self.db) [
    | err e ↦ none
    | ok none ↦ none
    | ok (some bytes) ↦ read_integer bytes
  ]

  module _ {SecretKey : Type 0} (keys : Keys SecretKey) where
    unfoldable pub get_my_address : Bytes → PlasmaClient S → Option (Option ℕ)
    get_my_address session self = elim (get_key kvs keys.from_raw session self.db) [
      | none ↦ none
      | some none ↦ some none
      | some (some secret_key) ↦ some (some (keys.address secret_key))
    ]

    -- `to_abi` encodes what the signature covers.
    unfoldable pub create_transaction :
        (TransactionParams → Bytes)
        → Bytes
        → ℕ
        → Range
        → Bytes
        → Metadata
        → PlasmaClient S
        → Option Transaction
    create_transaction to_abi session deposit_contract_address r parameters metadata self =
        let transaction_params : TransactionParams = record {
          deposit_contract_address = deposit_contract_address;
          range = r;
          parameters = parameters;
        } in
        elim (get_key kvs keys.from_raw session self.db) [
          | none ↦ none
          | some none ↦ none
          | some (some secret_key) ↦ some (
              from_params transaction_params (keys.sign secret_key (to_abi transaction_params))
                metadata)
        ]

    unfoldable pub get_balance : Bytes → PlasmaClient S → Option (List (ℕ × ℕ))
    unfolding get_my_address get_all_state_updates balances
    get_balance session self = elim (get_my_address session self) [
      | none ↦ none
      | some none ↦ none
      | some (some my_address) ↦ elim (get_all_state_updates self) [
        | none ↦ none
        | some state_updates ↦ balances my_address state_updates []
      ]
    ]

    abbrev pub related_filter : ℕ → ℕ → TransactionFilter
    related_filter address latest = record {
      from_block = 0;
      to_block = latest;
      from_address = some address;
      to_address = some address;
      range = record { start = 0; end = 1000 };
    }

    -- The last `unwrap` panics on the database's error.
    unfoldable pub get_related_transactions : Bytes → PlasmaClient S → Option (List Transaction)
    unfolding get_my_address get_latest_block_number
    get_related_transactions session self = elim (get_my_address session self) [
      | none ↦ none
      | some none ↦ none
      | some (some address) ↦ elim (get_latest_block_number self) [
        | none ↦ none
        | some latest ↦
            elim (query_transaction ext.transaction_abi ext.rlp kvs (related_filter address latest)
              self.range_db) [
                | none ↦ none
                | some none ↦ none
                | some (some transactions) ↦ some transactions
              ]
      ]
    ]
