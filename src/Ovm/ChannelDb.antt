-- ===== src/Ovm/ChannelDb.antt =====
-- ovm/src/db/channel_db.rs: which channels have been exited, in one bucket of a key-value store.
use plasma_rust_framework.Prelude.{ℕ, ◌^◌, ◌<◌, Option, [], ◌∷◌}
use plasma_rust_framework.Prelude.Bytes.{Bytes}
use plasma_rust_framework.Prelude.Result.{Result}
use plasma_rust_framework.Db.Kvs.{KeyValueStore}
use plasma_rust_framework.Db.Bucket.{new, as_store}
use plasma_rust_framework.Ovm.Types.{ErrorKind}
use plasma_rust_framework.Abi.{Abi}
use plasma_rust_framework.Ovm.HashPreimageDb.{into_error, read_record}

pub record Channel : Type 0 where
  pub channel_id : Bytes
  pub exitted : ℕ

abbrev pub IsValid : Channel → Type 0
IsValid c = c.exitted < 2 ^ 64

-- "channels"
abbrev pub channels_name : Bytes
channels_name = 99 ∷ 104 ∷ 97 ∷ 110 ∷ 110 ∷ 101 ∷ 108 ∷ 115 ∷ []

module _ {S : Type 0} (abi : Abi Channel IsValid) (db : KeyValueStore S) where
  unfoldable pub mark_exited : Bytes → S → Result (Unit {0}) ErrorKind × S
  mark_exited channel_id s =
      let (done, s') =
        (as_store (new channels_name db)).put channel_id
          (abi.encode (record { channel_id = channel_id; exitted = 1 })) s in
      (into_error done, s')

  -- `unwrap` panics on a channel that has not been marked.
  unfoldable pub get_exited : Bytes → S → Option (Result Channel ErrorKind)
  get_exited channel_id s =
      read_record abi.decode ((as_store (new channels_name db)).get channel_id s)
