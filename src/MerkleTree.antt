-- ===== src/MerkleTree.antt =====
-- merkle-interval-tree/src: the trees whose roots commit to the states of a block. Keccak-256 of the
-- crate `crypto` is a parameter of all that hashes.
pub mod IntervalTree
pub mod AddressTree
pub mod DoubleLayerTree
