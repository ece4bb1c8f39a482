-- ===== src/Ovm/RangeAtBlockDb.antt =====
-- ovm/src/db/range_at_block_db.rs: the inclusion proofs of the ranges of each block, in a range database under a
-- bucket for the block.
use plasma_rust_framework.Prelude.{ℕ, ◌^◌, ◌<◌, Option, none, some, List, [], ◌∷◌}
use plasma_rust_framework.Prelude.Bytes.{Bytes}
use plasma_rust_framework.Prelude.Words.{le_bytes}
use plasma_rust_framework.Prelude.Result.{Result, ok, err}
use plasma_rust_framework.PlasmaCore.Range as Coins
use plasma_rust_framework.Db.Kvs.{KeyValueStore}
use plasma_rust_framework.Db.Bucket.{new, bucket, as_store}
use plasma_rust_framework.Db.Range.{Range, RlpCodec}
use plasma_rust_framework.Db.RangeDb
use plasma_rust_framework.Ovm.Types.{ErrorKind, plasma_db_error, abi_error, PlasmaDataBlock}
use plasma_rust_framework.Abi.{Abi}
use plasma_rust_framework.Ovm.HashPreimageDb.{into_error}

pub record RangeAtBlockRecord : Type 0 where
  pub root : Bytes
  pub inclusion_proof : Bytes
  pub plasma_data_block : PlasmaDataBlock

-- The numbers are `u64`, the address has 160 bits.
abbrev pub IsValid : RangeAtBlockRecord → Type 0
IsValid r =
    (r.plasma_data_block.deposit_contract_address < 2 ^ 160)
    × (r.plasma_data_block.updated_range.start < 2 ^ 64)
    × (r.plasma_data_block.updated_range.end < 2 ^ 64)
    × (r.plasma_data_block.block_number < 2 ^ 64)

-- b"range_at_block"
abbrev pub range_at_block_name : Bytes
range_at_block_name =
    114 ∷ 97 ∷ 110 ∷ 103 ∷ 101 ∷ 95 ∷ 97 ∷ 116 ∷ 95 ∷ 98 ∷ 108 ∷ 111 ∷ 99 ∷ 107 ∷ []

-- `result[0]`, which panics where there is none, and its decoding.
abbrev pub first_record :
    {A : Type 0} → (Bytes → Option A) → List Range → Option (Result A ErrorKind)
first_record decode [] = none
first_record decode (r ∷ rs) = elim (decode r.value) [
  | none ↦ some (err abi_error)
  | some a ↦ some (ok a)
]

module _ {S : Type 0} (abi : Abi RangeAtBlockRecord IsValid) (rlp : RlpCodec)
    (db : KeyValueStore S) where
  -- `self.db.bucket("range_at_block").bucket(block_number)`
  abbrev pub block_bucket : ℕ → KeyValueStore S
  block_bucket block_number =
      as_store (bucket (new range_at_block_name db) (le_bytes 8 block_number))

  -- `none` is a panic of the range database.
  unfoldable pub store_witness :
      Bytes → Bytes → PlasmaDataBlock → S → Option (Result (Unit {0}) ErrorKind × S)
  store_witness root inclusion_proof plasma_data_block s =
      elim (RangeDb.put rlp (block_bucket plasma_data_block.block_number)
        plasma_data_block.updated_range.start plasma_data_block.updated_range.end
        (abi.encode (record {
          root = root;
          inclusion_proof = inclusion_proof;
          plasma_data_block = plasma_data_block;
        }))
        s) [ none ↦ none | some (done, s') ↦ some (into_error done, s') ]

  unfoldable pub get_witness : ℕ → Coins.Range → S → Option (Result RangeAtBlockRecord ErrorKind)
  get_witness block_number coin_range s =
      elim (RangeDb.get rlp (block_bucket block_number) coin_range.start coin_range.end s) [
        | none ↦ none
        | some (err e) ↦ some (err plasma_db_error)
        | some (ok result) ↦ first_record abi.decode result
      ]
