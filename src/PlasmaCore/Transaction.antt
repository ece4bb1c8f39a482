-- ===== src/PlasmaCore/Transaction.antt =====
-- core/src/data_structure/transaction.rs and metadata.rs: the data of a transaction. Addresses are numbers.
use plasma_rust_framework.Prelude.{ℕ}
use plasma_rust_framework.Prelude.Bytes.{Bytes}
use plasma_rust_framework.PlasmaCore.Range.{Range}

pub record Metadata : Type 0 where
  pub from : ℕ
  pub to : ℕ

pub record TransactionParams : Type 0 where
  pub deposit_contract_address : ℕ
  pub range : Range
  pub parameters : Bytes

pub record Transaction : Type 0 where
  pub deposit_contract_address : ℕ
  pub range : Range
  pub parameters : Bytes
  pub signature : Bytes
  pub metadata : Metadata

abbrev pub from_params : TransactionParams → Bytes → Metadata → Transaction
from_params transaction_params signature metadata = record {
  deposit_contract_address = transaction_params.deposit_contract_address;
  range = transaction_params.range;
  parameters = transaction_params.parameters;
  signature = signature;
  metadata = metadata;
}
