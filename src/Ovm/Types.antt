-- ===== src/Ovm/Types.antt =====
-- ovm/src/types (properties, their inputs, decisions, quantified results) and the error kinds. Addresses
-- are 160-bit numbers, an `Integer` is its `u64`.
use plasma_rust_framework.Prelude.{ℕ, zero, suc, Ordering, Bool, Option, none, some, List, [], ◌∷◌}
use plasma_rust_framework.Prelude.Bytes.{Bytes, cmp}
use plasma_rust_framework.Prelude.Result.{Result, ok, err}
use plasma_rust_framework.PlasmaCore.Range.{Range}

pub record Message : Type 0 where
  pub channel_id : Bytes
  pub nonce : ℕ
  pub message : Bytes

mutual
  pub data PropertyInput : Type 0 where
    placeholder : Bytes → PropertyInput
    constant_address : ℕ → PropertyInput
    constant_bytes : Bytes → PropertyInput
    constant_h256 : Bytes → PropertyInput
    constant_integer : ℕ → PropertyInput
    constant_range : Range → PropertyInput
    constant_property : Property → PropertyInput
    constant_state_update : StateUpdate → PropertyInput
    constant_message : Message → PropertyInput

  -- `Vec<PropertyInput>`
  pub data PropertyInputs : Type 0 where
    none_left : PropertyInputs
    and_input : PropertyInput → PropertyInputs → PropertyInputs

  -- The decider's address and the inputs.
  pub data Property : Type 0 where
    property : ℕ → PropertyInputs → Property

  -- Block number, deposit contract, range and property.
  pub data StateUpdate : Type 0 where
    state_update : ℕ → ℕ → Range → Property → StateUpdate

pub record PlasmaDataBlock : Type 0 where
  pub deposit_contract_address : ℕ
  pub updated_range : Range
  pub root : Bytes
  pub is_included : Bool
  pub block_number : ℕ
  pub data' : Bytes

pub data QuantifierResultItem : Type 0 where
  address_item : ℕ → QuantifierResultItem
  integer_item : ℕ → QuantifierResultItem
  bytes_item : Bytes → QuantifierResultItem
  message_item : Message → QuantifierResultItem
  property_item : Property → QuantifierResultItem
  plasma_data_block_item : PlasmaDataBlock → QuantifierResultItem
  state_update_item : StateUpdate → QuantifierResultItem
  range_item : Range → QuantifierResultItem
  h256_item : Bytes → QuantifierResultItem

-- The conversions, `none` where they panic.
abbrev pub to_bytes : QuantifierResultItem → Option Bytes
to_bytes (bytes_item bytes) = some bytes
to_bytes _ = none

abbrev pub to_integer : QuantifierResultItem → Option ℕ
to_integer (integer_item integer) = some integer
to_integer _ = none

abbrev pub to_address : QuantifierResultItem → Option ℕ
to_address (address_item address) = some address
to_address _ = none

abbrev pub to_h256 : QuantifierResultItem → Option Bytes
to_h256 (h256_item h256) = some h256
to_h256 _ = none

abbrev pub to_range : QuantifierResultItem → Option Range
to_range (range_item range) = some range
to_range _ = none

abbrev pub to_property : QuantifierResultItem → Option Property
to_property (property_item p) = some p
to_property _ = none

abbrev pub to_message : QuantifierResultItem → Option Message
to_message (message_item message) = some message
to_message _ = none

abbrev pub to_plasma_data_block : QuantifierResultItem → Option PlasmaDataBlock
to_plasma_data_block (plasma_data_block_item block) = some block
to_plasma_data_block _ = none

abbrev pub to_state_update : QuantifierResultItem → Option StateUpdate
to_state_update (state_update_item update) = some update
to_state_update _ = none

abbrev pub get_property : StateUpdate → Property
get_property (state_update block_number address range p) = p

abbrev pub get_block_number : StateUpdate → ℕ
get_block_number (state_update block_number address range p) = block_number

abbrev pub get_deposit_contract_address : StateUpdate → ℕ
get_deposit_contract_address (state_update block_number address range p) = address

abbrev pub get_range : StateUpdate → Range
get_range (state_update block_number address range p) = range

pub data ErrorKind : Type 0 where
  io abi_decode abi_error plasma_core_error plasma_db_error : ErrorKind
  invalid_preimage undecided cannot_decide : ErrorKind

pub record ImplicationProofElement : Type 0 where
  pub implication : Property
  pub implication_witness : Option Bytes

pub record Decision : Type 0 where
  pub outcome : Bool
  pub implication_proof : List ImplicationProofElement

pub record QuantifierResult : Type 0 where
  pub results : List QuantifierResultItem
  pub all_results_quantified : Bool

-- `variables`, the latest binding first.
abbrev pub Variables : Type 0
Variables = List (Bytes × QuantifierResultItem)

unfoldable pub lookup : Bytes → Variables → Option QuantifierResultItem
lookup name [] = none
lookup name ((k, item) ∷ variables) = elim (cmp name k) [
  | Ordering.eq ↦ some item
  | _ ↦ lookup name variables
]

abbrev pub set_variable : Bytes → QuantifierResultItem → Variables → Variables
set_variable name item variables = (name, item) ∷ variables

-- `none` is the panic on a placeholder without a value.
unfoldable pub get_variable : PropertyInput → Variables → Option QuantifierResultItem
unfolding lookup
get_variable (placeholder name) variables = lookup name variables
get_variable (constant_address constant) variables = some (address_item constant)
get_variable (constant_bytes constant) variables = some (bytes_item constant)
get_variable (constant_h256 constant) variables = some (h256_item constant)
get_variable (constant_integer constant) variables = some (integer_item constant)
get_variable (constant_range constant) variables = some (range_item constant)
get_variable (constant_property constant) variables = some (property_item constant)
get_variable (constant_state_update constant) variables = some (state_update_item constant)
get_variable (constant_message constant) variables = some (message_item constant)

-- What a call of the executor does: it returns, with the variables it leaves, or panics; a call
-- that needs more fuel than given is `out_of_fuel`.
pub data Outcome (A : Type 0) : Type 0 where
  out_of_fuel : Outcome A
  panics : Outcome A
  returns : Result A ErrorKind → Variables → Outcome A

-- A value, or a panic.
abbrev pub or_panic : {A B : Type 0} → Option A → (A → Outcome B) → Outcome B
or_panic none f = panics
or_panic (some a) f = f a

abbrev pub then_result :
    {A B : Type 0} → Outcome A → (Result A ErrorKind → Variables → Outcome B) → Outcome B
then_result out_of_fuel f = out_of_fuel
then_result panics f = panics
then_result (returns r variables) f = f r variables

-- The operator `?`.
abbrev pub then_ok : {A B : Type 0} → Outcome A → (A → Variables → Outcome B) → Outcome B
then_ok out_of_fuel f = out_of_fuel
then_ok panics f = panics
then_ok (returns (ok a) variables) f = f a variables
then_ok (returns (err e) variables) f = returns (err e) variables

-- `inputs[i]`
unfoldable pub get_input : PropertyInputs → ℕ → Option PropertyInput
get_input none_left i = none
get_input (and_input input inputs) zero = some input
get_input (and_input input inputs) (suc i) = get_input inputs i

-- `decider.get_variable(&inputs[i])`, converted.
unfoldable pub argument :
    {A : Type 0} → (QuantifierResultItem → Option A) → PropertyInputs → ℕ → Variables → Option A
unfolding get_input get_variable
argument convert inputs i variables = elim (get_input inputs i) [
  | none ↦ none
  | some input ↦ elim (get_variable input variables) [ none ↦ none | some item ↦ convert item ]
]
