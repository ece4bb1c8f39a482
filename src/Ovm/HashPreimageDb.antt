-- ===== src/Ovm/HashPreimageDb.antt =====
-- ovm/src/db/hash_preimage_db.rs: the preimages of hashes, in one bucket of a key-value store.
use plasma_rust_framework.Prelude.{◌≡◌, Option, none, some, [], ◌∷◌, length}
use plasma_rust_framework.Prelude.Bytes.{Bytes}
use plasma_rust_framework.Prelude.Result.{Result, ok, err}
use plasma_rust_framework.Db.Kvs.{KeyValueStore}
use plasma_rust_framework.Db.Bucket.{new, as_store}
use plasma_rust_framework.Ovm.Types.{ErrorKind, plasma_db_error, abi_error}
use plasma_rust_framework.Abi.{Abi}

pub record PreimageRecord : Type 0 where
  pub hash : Bytes
  pub preimage : Bytes

-- A hash has 32 bytes.
abbrev pub IsValid : PreimageRecord → Type 0
IsValid r = length r.hash ≡ 32

-- b"preimage_exists_decider"
abbrev pub preimage_exists_name : Bytes
preimage_exists_name =
    112 ∷ 114 ∷ 101 ∷ 105 ∷ 109 ∷ 97 ∷ 103 ∷ 101 ∷ 95 ∷ 101 ∷ 120 ∷ 105 ∷ 115 ∷ 116 ∷ 115 ∷ 95 ∷ 100
    ∷ 101 ∷ 99 ∷ 105 ∷ 100 ∷ 101 ∷ 114 ∷ []

-- `map_err(Into::into)` of a store's result.
abbrev pub into_error : {A E : Type 0} → Result A E → Result A ErrorKind
into_error (ok a) = ok a
into_error (err e) = err plasma_db_error

-- What the reads of the witness databases make of the bytes under a key: `none` is the panic on a key that is
-- missing.
abbrev pub read_record :
    {A E : Type 0} → (Bytes → Option A) → Result (Option Bytes) E → Option (Result A ErrorKind)
read_record decode (err e) = some (err plasma_db_error)
read_record decode (ok none) = none
read_record decode (ok (some b)) = elim (decode b) [
  | none ↦ some (err abi_error)
  | some a ↦ some (ok a)
]

module _ {S : Type 0} (abi : Abi PreimageRecord IsValid) (db : KeyValueStore S) where
  unfoldable pub store_witness : Bytes → Bytes → S → Result (Unit {0}) ErrorKind × S
  store_witness hash preimage s =
      let (done, s') =
        (as_store (new preimage_exists_name db)).put hash
          (abi.encode (record { hash = hash; preimage = preimage })) s in
      (into_error done, s')

  unfoldable pub get_witness : Bytes → S → Option (Result PreimageRecord ErrorKind)
  get_witness hash s = read_record abi.decode ((as_store (new preimage_exists_name db)).get hash s)
