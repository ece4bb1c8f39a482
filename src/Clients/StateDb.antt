-- ===== src/Clients/StateDb.antt =====
-- clients/src/plasma/state_db.rs: the verified state updates of each deposit contract, in a range database under a
-- bucket for the contract. `none` is a panic.
pub mod Contracts
use plasma_rust_framework.Prelude.{ℕ, Option, none, some, List, [], ◌∷◌, ◌++◌}
use plasma_rust_framework.Prelude.Bytes.{Bytes}
use plasma_rust_framework.Prelude.Result.{Result, ok, err}
use plasma_rust_framework.Db.Key.{ErrorKind}
use plasma_rust_framework.Db.Kvs.{KeyValueStore}
use plasma_rust_framework.Db.Bucket.{new, bucket, as_store}
use plasma_rust_framework.Db.RangeDb
use plasma_rust_framework.Db.Range.{Range}
use plasma_rust_framework.Ovm.Types.{StateUpdate, get_range, get_deposit_contract_address}
use plasma_rust_framework.Ovm.SignedByDb.{address_bytes}
use plasma_rust_framework.Ovm.External.{External}
use plasma_rust_framework.Clients.Types.{min_range, max_range}
use plasma_rust_framework.Clients.BlockDb.{decode_values}

-- b"verified_state_updates"
abbrev pub verified_state_updates : Bytes
verified_state_updates =
    118 ∷ 101 ∷ 114 ∷ 105 ∷ 102 ∷ 105 ∷ 101 ∷ 100 ∷ 95 ∷ 115 ∷ 116 ∷ 97 ∷ 116 ∷ 101 ∷ 95 ∷ 117 ∷ 112
    ∷ 100 ∷ 97 ∷ 116 ∷ 101 ∷ 115 ∷ []

-- The decoding of what the range database returns; its errors are passed on.
abbrev pub decoded :
    {A : Type 0}
    → (Bytes → Option A)
    → Option (Result (List Range) ErrorKind)
    → Option (Result (List A) ErrorKind)
decoded decode none = none
decoded decode (some (err e)) = some (err e)
decoded decode (some (ok ranges)) = elim (decode_values decode ranges) [
  | none ↦ none
  | some values ↦ some (ok values)
]

-- `result.append(…)` for the second contract.
abbrev pub appended :
    {A : Type 0}
    → Option (Result (List A) ErrorKind)
    → Option (Result (List A) ErrorKind)
    → Option (Result (List A) ErrorKind)
appended none second = none
appended (some (err e)) second = some (err e)
appended (some (ok as')) none = none
appended (some (ok as')) (some (err e)) = some (err e)
appended (some (ok as')) (some (ok bs)) = some (ok (as' ++ bs))

module _ {S : Type 0} (ext : External) (db : KeyValueStore S) where
  abbrev pub contract_bucket : ℕ → KeyValueStore S
  contract_bucket address =
      as_store (bucket (new verified_state_updates db) (address_bytes address))

  unfoldable pub get_verified_state_updates :
      ℕ → ℕ → ℕ → S → Option (Result (List StateUpdate) ErrorKind)
  unfolding decode_values
  get_verified_state_updates deposit_contract_address start end s =
      decoded ext.state_update_from_abi
        (RangeDb.get ext.rlp (contract_bucket deposit_contract_address) start end s)

  -- The contracts at the addresses 0 and 1.
  unfoldable pub get_all_state_updates : S → Option (Result (List StateUpdate) ErrorKind)
  unfolding get_verified_state_updates
  get_all_state_updates s =
      appended (get_verified_state_updates 0 min_range max_range s)
        (get_verified_state_updates 1 min_range max_range s)

  unfoldable pub put_verified_state_update :
      StateUpdate → S → Option (Result (Unit {0}) ErrorKind × S)
  put_verified_state_update update s =
      RangeDb.put ext.rlp (contract_bucket (get_deposit_contract_address update))
        (get_range update).start (get_range update).end (ext.state_update_to_abi update) s
