-- ===== src/Clients/Types.antt =====
-- clients/src/plasma/command.rs and error.rs: the data that the clients exchange and store.
use plasma_rust_framework.Prelude.{ℕ, ◌-◌, ◌^◌, Option, none, some, List}
use plasma_rust_framework.Prelude.Bytes.{Bytes}
use plasma_rust_framework.Prelude.Result.{Result, ok, err}
use plasma_rust_framework.PlasmaCore.Transaction.{Transaction}
use plasma_rust_framework.MerkleTree.DoubleLayerTree.{DoubleLayerTree}
use plasma_rust_framework.Ovm.Types
use plasma_rust_framework.Ovm.Types.{StateUpdate, Property, Outcome, Variables}

pub data ErrorKind : Type 0 where
  io abi_decode abi_error plasma_core_error plasma_db_error contract_error : ErrorKind
  invalid_transaction merkelizing_error invalid_parameter : ErrorKind

pub record NewTransactionEvent : Type 0 where
  pub prev_state_block_numbers : List ℕ
  pub transaction : Transaction

-- plasma_block.rs
pub record PlasmaBlock : Type 0 where
  pub block_number : ℕ
  pub state_updates : List StateUpdate
  pub transactions : List NewTransactionEvent
  pub tree : Option DoubleLayerTree

-- The encodings of events, blocks and state objects; the errors of the decoders are `none`.
pub record Codecs : Type 0 where
  pub event_to_abi : NewTransactionEvent → Bytes
  pub event_from_abi : Bytes → Option NewTransactionEvent
  pub block_to_abi : PlasmaBlock → Bytes
  pub block_from_abi : Bytes → Option PlasmaBlock
  pub property_from_abi : Bytes → Option Property

-- `Error::from` of a database error.
abbrev pub into_error : {A E : Type 0} → Result A E → Result A ErrorKind
into_error (ok a) = ok a
into_error (err e) = err plasma_db_error

-- `MIN_RANGE` and `MAX_RANGE`
abbrev pub min_range : ℕ
min_range = 0

abbrev pub max_range : ℕ
max_range = 2 ^ 64 - 1

-- What a handler that calls the executor does: it returns, or panics; `out_of_fuel` where the executor needs more fuel
-- than given.
pub data Call (A : Type 0) : Type 0 where
  out_of_fuel : Call A
  panics : Call A
  returns : A → Call A

abbrev pub or_panic : {A B : Type 0} → Option A → (A → Call B) → Call B
or_panic none f = panics
or_panic (some a) f = f a

-- `none` is a panic.
abbrev pub of_option : {A : Type 0} → Option A → Call A
of_option none = panics
of_option (some a) = returns a

abbrev pub answered :
    {A B : Type 0} → Outcome A → (Result A Types.ErrorKind → Variables → Call B) → Call B
answered Outcome.out_of_fuel f = out_of_fuel
answered Outcome.panics f = panics
answered (Outcome.returns r variables) f = f r variables

-- One call behind another.
abbrev pub then_call : {A B : Type 0} → Call A → (A → Call B) → Call B
then_call out_of_fuel f = out_of_fuel
then_call panics f = panics
then_call (returns a) f = f a

-- The operator `?` on a call that changes a state.
abbrev pub then_ok :
    {A B E S : Type 0}
    → Call (Result A E × S)
    → (A → S → Call (Result B E × S))
    → Call (Result B E × S)
then_ok out_of_fuel f = out_of_fuel
then_ok panics f = panics
then_ok (returns (err e, s)) f = returns (err e, s)
then_ok (returns (ok a, s)) f = f a s

-- `assert!(….is_ok())`
abbrev pub asserted : {E S : Type 0} → Result (Unit {0}) E × S → Option S
asserted (ok _, s) = some s
asserted (err _, s) = none
