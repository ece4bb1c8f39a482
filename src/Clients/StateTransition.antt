-- ===== src/Clients/StateTransition.antt =====
-- ovm/src/types/state_update.rs and ovm/src/deciders/ownership_decider.rs: the state update that a transaction leads to.
pub mod Ownership
use plasma_rust_framework.Prelude.{ℕ, Bool, true, false, Option}
use plasma_rust_framework.Prelude.Bytes.{Bytes}
use plasma_rust_framework.Prelude.Result.{Result, ok, err}
use plasma_rust_framework.PlasmaCore.Transaction.{Transaction}
use plasma_rust_framework.Db.Kvs.{KeyValueStore}
use plasma_rust_framework.Ovm.Types.{
  Property, StateUpdate, state_update, state_update_item, get_property, Decision, Variables,
  set_variable, Outcome,
}
use plasma_rust_framework.Ovm.External.{External}
use plasma_rust_framework.Ovm.Statements.{state_update_name}
use plasma_rust_framework.Ovm.PropertyExecutor.{decide}
use plasma_rust_framework.Clients.Types.{Call, returns, panics, out_of_fuel, or_panic, answered}

-- core/src/data_structure/error.rs
pub data CoreErrorKind : Type 0 where
  io abi_decode invalid_transaction : CoreErrorKind

abbrev pub is_ok : {A E : Type 0} → Result A E → Bool
is_ok (ok a) = true
is_ok (err e) = false

abbrev pub next_state : Transaction → ℕ → Property → StateUpdate
next_state transaction next_block_number p =
    state_update next_block_number transaction.deposit_contract_address transaction.range p

module _ {S : Type 0} (ext : External) (property_from_abi : Bytes → Option Property)
    (db range_db : KeyValueStore S) (s r : S) where
  -- The answer, and the executor's variables.
  unfoldable pub verify_state_transition : ℕ → StateUpdate → Variables → Call (Bool × Variables)
  verify_state_transition fuel self variables =
      answered
        (decide ext db range_db s r fuel (get_property self)
          (set_variable state_update_name (state_update_item self) variables))
        (λ decided variables'. returns (is_ok decided, variables'))

  -- What is returned once the transition has been verified.
  abbrev pub verified :
      StateUpdate → Call (Bool × Variables) → Call (Result StateUpdate CoreErrorKind × Variables)
  verified next out_of_fuel = out_of_fuel
  verified next panics = panics
  verified next (returns (true, variables)) = returns (ok next, variables)
  verified next (returns (false, variables)) = returns (err invalid_transaction, variables)

  -- `unwrap` panics on parameters that are no property.
  unfoldable pub execute_state_transition :
      ℕ
      → StateUpdate
      → Transaction
      → ℕ
      → Variables
      → Call (Result StateUpdate CoreErrorKind × Variables)
  unfolding verify_state_transition
  execute_state_transition fuel self transaction next_block_number variables =
      or_panic (property_from_abi transaction.parameters) (λ p.
        verified (next_state transaction next_block_number p)
          (verify_state_transition fuel self variables))
