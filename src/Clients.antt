-- ===== src/Clients.antt =====
-- clients/src: the aggregator, the plasma client and the state channel, over the stores and the executor.
pub mod Types
pub mod BlockDb
pub mod StateDb
pub mod WalletDb
pub mod PlasmaBlock
pub mod BlockManager
pub mod StateChannel
pub mod PlasmaClient
pub mod StateTransition
pub mod Aggregator
