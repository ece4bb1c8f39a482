-- ===== src/Examples.antt =====
-- The theorems at concrete inputs.
mod Coins
mod Stores
mod Ranges
mod Trees
mod Properties
mod Messages
mod Transactions
mod External
mod AddressTrees
mod Executor
mod Claims
mod Blocks
mod Clients
pub mod Events
mod Transitions
