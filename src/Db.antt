-- ===== src/Db.antt =====
-- db/src: key-value stores and the range database on top of them.
pub mod Key
pub mod BTreeMap
pub mod Kvs
pub mod Bucket
pub mod Memory
pub mod Store
pub mod GlobalMemory
pub mod Range
pub mod RangeDb
