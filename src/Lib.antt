-- ===== src/Lib.antt =====
-- Verification of the Plasma client framework (Rust).
--
-- The parts and the files that model them:
--
-- - `PlasmaCore.Range`: core/src/data_structure/range.rs, ranges of coins. Each method is the function
--   of its name; `merge_ranges` is `merge_fold` over `merge_step`, whose inner loop is `merge_into`.
--   `Merge` and `Overlap` hold the theorems.
-- - `Db.Key`, `Db.Kvs`, `Db.Bucket`: db/src/traits/kvs.rs. The trait `KeyValueStore` is a record of
--   operations on a state that is passed on explicitly, where the code writes behind a shared
--   reference; `Bucket.as_store` is the trait's implementation for a bucket, over any store.
-- - `Db.Memory`, `Db.GlobalMemory`: db/src/impls/kvs/memory.rs and global_memory.rs. Both stand on
--   `Db.BTreeMap`, the standard library's ordered map as the list of its entries.
-- - `Db.Store`: the contract that a store owes to its clients, `IsStore`: seen through `entries`, the
--   operations are those of a sorted map. `Db.Memory.Laws` and `Db.Bucket.Laws` prove it;
--   `Db.Memory.Contents` looks at the memory store key by key.
-- - `Db.Range`, `Db.RangeDb`: db/src/range.rs and db/src/impls/rangedb.rs, values stored for ranges of
--   coins. The operations take any store, and their theorems any store that keeps the contract.
--   `Ranges` is the abstract view, a list of disjoint ranges; `Changes` and `Cut` are about that
--   list, `Represent` relates it to the entries, `Operations` has the refinement and `History` the
--   view of a client after a sequence of calls.
-- - `MerkleTree.IntervalTree`: merkle-interval-tree/src/interval_tree.rs, the sum tree over the
--   state updates of a contract, with its inclusion proofs. `Path`, `Perfect`, `Codec`,
--   `Siblings`, `Climb`, `Before`, `Order`, `Outcome` and `Complete` lead from the construction
--   to the accepted proof, `Collision` and `Binding` from accepted proofs back to the leaves;
--   `Lookup` is about `get_index`, `Defect` about three leaves.
-- - `MerkleTree.AddressTree`, `MerkleTree.DoubleLayerTree`: merkle-interval-tree/src/address_tree.rs
--   and double_layered_tree.rs, the tree over the contracts of a block, whose leaves are the roots
--   of the contracts' interval trees. `Binding` leads from accepted proofs back to the leaves,
--   `AddressTree.Single` is about a tree over one contract.
-- - `PlasmaCore.Transaction`: the data of core/src/data_structure/transaction.rs and metadata.rs.
-- - `Abi`: the traits of abi-utils, a codec as a parameter with its round trip.
-- - `Ovm.Types`: ovm/src/types, properties with their inputs, decisions, and the variables of
--   the executor. `Ovm.Deciders`: ovm/src/deciders, one function `…_decide` for each decider;
--   `Ovm.Witnessed` has those that read a database. `Ovm.Manager`: the addresses and
--   `DeciderManager`. `Ovm.Quantifiers`: ovm/src/quantifiers; `Ovm.Stored` has those that read a
--   database. `Ovm.Statements`: ovm/src/statements, the properties that clients claim.
-- - `Ovm.HashPreimageDb`, `Ovm.SignedByDb`, `Ovm.RangeAtBlockDb`, `Ovm.ChannelDb`, `Ovm.MessageDb`,
--   `Ovm.TransactionDb`, `Ovm.Filter`: ovm/src/db, each over any store, through buckets.
-- - `Ovm.Executor`: ovm/src/property_executor.rs, the dispatch on the address, with the deciders and
--   quantifiers that read databases as parameters; `Laws`, `Formula` and `Quantified` say what it
--   answers. `Ovm.PropertyExecutor` is the executor with its two stores: `Sound` is about what a
--   decision means, `Stores` about what has been stored, and `Swap`, `Channel` and `Blocks` about
--   claims that the code cannot decide as they mean.
-- - `Clients`: clients/src. `BlockDb` is the queue of the next block, `PlasmaBlock` a block with its
--   tree, `BlockManager` the submission (`Inversion` and `Queue` carry its proofs), `StateDb` the
--   verified state updates of each contract, `WalletDb` the keys, `StateChannel` one side of a
--   channel, `StateTransition` what a transaction does to a state update (it is in
--   ovm/src/types/state_update.rs), `Aggregator` the ingestion of transactions, and `PlasmaClient`
--   what a client keeps and reads. The state of each is a record; its stores are in explicit
--   states, and a handler returns the new record.
-- - `EventWatcher`: event-watcher/src. `EventDb` is the store of the last logged blocks, `Fetcher` a
--   poll of the node's logs, `Resume` and `Delivery` say what repeated polls deliver. The node's
--   answer is a function of the filter that is sent.
-- - `Examples`: the theorems at concrete inputs.
--
-- Results and panics. `Result` is the result type; `Option` around a result is `none` where the
-- code panics. What calls the executor returns an `Outcome`, or in the clients a `Call`, that tells
-- a panic from too little fuel. Byte strings are lists of numbers, addresses are numbers. `u64`
-- arithmetic is written with its wrap-around where it can leave the type, and `usize` is taken as
-- 64 bits.
--
-- Fuel. `generate_rounds` runs on the number of leaves, which at least halves, rounded up, in each
-- round. `Ovm.Executor.decide` takes fuel for the depth of properties inside properties; no bound
-- is enough for all, since a property may name a variable that holds the property itself.
-- `next_power` doubles at most 64 times, enough for the counts of a 64-bit machine. `digits` prints
-- at most 20 digits, all that a `u64` has. All other loops are recursion on a list or a number that
-- the code counts down.
--
-- Parameters. The crate `rlp` enters as `RlpCodec`, with the round trip of its encoding; the hash
-- function enters as `hash_leaf`, and where a proof is decoded, as one with 32 bytes of output;
-- nothing is assumed on its collisions. The ABI encodings enter as `Abi`, `MessageAbi`,
-- `TransactionAbi` and `Codecs`, with the round trips that a theorem uses. `Ovm.External` gathers
-- these for the executor, with `static_hash` and the recovery of a signer, which are functions of
-- any behaviour. `Keys` is `ethsign` in the wallet. The commitment contract is a function that
-- accepts, refuses or panics, and the map of a block's trees is iterated in an order that is a
-- function of any behaviour.
--
-- Not modelled: the LevelDB store; the ABI encodings and the macro that derives them; the HTTP and
-- websocket shell of the clients, the contract wrappers, the timer and the connection of the event
-- watcher, and printing. Sessions and keys that the wallet draws at random are arguments. In
-- `get_all_tokens`, `register_token` and the accessors nothing is decided.
pub mod Prelude
pub mod Abi
pub mod PlasmaCore
pub mod Db
pub mod MerkleTree
pub mod Ovm
pub mod Clients
pub mod EventWatcher
pub mod Examples
