-- ===== src/Ovm/SignedByDb.antt =====
-- ovm/src/db/signed_by_db.rs: the signed messages of each signer, the signer a bucket of a key-value store and
-- the key the hash of the message.
use plasma_rust_framework.Prelude.{ℕ, ◌^◌, ◌<◌, true, Option, none, some, List, [], ◌∷◌}
use plasma_rust_framework.Prelude.Bytes.{Bytes}
use plasma_rust_framework.Prelude.Words.{be_bytes}
use plasma_rust_framework.Prelude.Result.{Result}
use plasma_rust_framework.Db.Kvs.{KeyValue, KeyValueStore}
use plasma_rust_framework.Db.Bucket.{new, bucket, as_store}
use plasma_rust_framework.Ovm.Types.{ErrorKind}
use plasma_rust_framework.Abi.{Abi}
use plasma_rust_framework.Ovm.HashPreimageDb.{into_error, read_record}

pub record SignedByRecord : Type 0 where
  pub public_key : ℕ
  pub message : Bytes
  pub signature : Bytes

-- An address has 160 bits.
abbrev pub IsValid : SignedByRecord → Type 0
IsValid r = r.public_key < 2 ^ 160

-- b"signed_by_decider"
abbrev pub signed_by_name : Bytes
signed_by_name =
    115 ∷ 105 ∷ 103 ∷ 110 ∷ 101 ∷ 100 ∷ 95 ∷ 98 ∷ 121 ∷ 95 ∷ 100 ∷ 101 ∷ 99 ∷ 105 ∷ 100 ∷ 101 ∷ 114
    ∷ []

-- `Address::as_bytes`
unfoldable pub address_bytes : ℕ → Bytes
address_bytes address = be_bytes 20 address

-- `filter_map` of `get_all_signed_by`
unfoldable pub decode_records : Abi SignedByRecord IsValid → List KeyValue → List SignedByRecord
decode_records abi [] = []
decode_records abi (kv ∷ kvs) = elim (abi.decode kv.value) [
  | none ↦ decode_records abi kvs
  | some r ↦ r ∷ decode_records abi kvs
]

module _ {S : Type 0} (static_hash : Bytes → Bytes) (abi : Abi SignedByRecord IsValid)
    (db : KeyValueStore S) where
  -- `self.db.bucket("signed_by_decider").bucket(signer)`
  abbrev pub signer_bucket : ℕ → KeyValueStore S
  signer_bucket signer = as_store (bucket (new signed_by_name db) (address_bytes signer))

  unfoldable pub store_witness : ℕ → Bytes → Bytes → S → Result (Unit {0}) ErrorKind × S
  store_witness public_key message signature s =
      let (done, s') =
        (signer_bucket public_key).put (static_hash message)
          (abi.encode
            (record { public_key = public_key; message = message; signature = signature }))
          s in
      (into_error done, s')

  unfoldable pub get_witness : ℕ → Bytes → S → Option (Result SignedByRecord ErrorKind)
  get_witness public_key message s =
      read_record abi.decode ((signer_bucket public_key).get (static_hash message) s)

  -- `none` is a panic of the iteration.
  unfoldable pub get_all_signed_by : ℕ → S → Option (List SignedByRecord)
  unfolding decode_records
  get_all_signed_by signer s = elim ((signer_bucket signer).iter_all [] (λ _ _. some true) s) [
    | none ↦ none
    | some kvs ↦ some (decode_records abi kvs)
  ]
