-- ===== src/Ovm.antt =====
-- The crate `ovm`: properties, and the executor that decides them.
pub mod Types
pub mod Manager
pub mod Deciders
pub mod Quantifiers
pub mod Executor
pub mod Filter
pub mod MessageDb
pub mod TransactionDb
pub mod HashPreimageDb
pub mod SignedByDb
pub mod RangeAtBlockDb
pub mod ChannelDb
pub mod External
pub mod Statements
pub mod Witnessed
pub mod Stored
pub mod PropertyExecutor
