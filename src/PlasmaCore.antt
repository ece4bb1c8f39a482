-- ===== src/PlasmaCore.antt =====
-- core/src/data_structure: the data structures that the client shares.
pub mod Range
pub mod Transaction
