-- ===== src/Ovm/PropertyExecutor.antt =====
-- ovm/src/property_executor.rs: the executor with its stores, `db` and `range_db`, in the states `s` and `r`.
-- The dispatch is that of `Ovm.Executor`, at the deciders and quantifiers that read the stores.
pub mod Sound
pub mod Swap
pub mod Stores
pub mod Channel
pub mod Blocks
use plasma_rust_framework.Prelude.{ℕ, Option, none, ◌==◌, if◌then◌else◌}
use plasma_rust_framework.Db.Kvs.{KeyValueStore}
use plasma_rust_framework.Ovm.Types.{
  PropertyInputs, Property, Decision, QuantifierResult, Variables, Outcome, panics,
}
use plasma_rust_framework.Ovm.Executor
use plasma_rust_framework.Ovm.External.{External}
use plasma_rust_framework.Ovm.Witnessed.{
  preimage_exists_decide, signed_by_decide, included_at_block_decide, ownership_decide,
}
use plasma_rust_framework.Ovm.Stored.{
  block_range_quantified, signed_by_quantified, tx_quantified, property_quantified,
}

module _ {S : Type 0} (ext : External) (db range_db : KeyValueStore S) (s r : S) where
  abbrev pub witnessed : ℕ → PropertyInputs → Variables → Outcome Decision
  witnessed i inputs variables =
      if i == 2
      then preimage_exists_decide ext db range_db s r inputs variables
      else if i == 5
      then signed_by_decide ext db range_db s r inputs variables
      else if i == 7
      then included_at_block_decide ext db range_db s r inputs variables
      else if i == 9
      then ownership_decide ext db range_db s r inputs variables
      else panics

  abbrev pub stored : ℕ → PropertyInputs → Variables → Option QuantifierResult
  stored i inputs variables =
      if i == 22
      then block_range_quantified ext db range_db s r inputs variables
      else if i == 23
      then signed_by_quantified ext db range_db s r inputs variables
      else if i == 25
      then tx_quantified ext db range_db s r inputs variables
      else if i == 26
      then property_quantified inputs variables
      else none

  abbrev pub get_all_quantified : Property → Variables → Option QuantifierResult
  get_all_quantified = Executor.get_all_quantified ext.static_hash witnessed stored

  abbrev pub decide : ℕ → Property → Variables → Outcome Decision
  decide = Executor.decide ext.static_hash witnessed stored
