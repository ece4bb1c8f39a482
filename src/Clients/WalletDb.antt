-- ===== src/Clients/WalletDb.antt =====
-- clients/src/plasma/wallet_db.rs and wallet_manager.rs: the raw keys of the sessions, in one bucket. The random
-- session and the key of `generate_key_session` are arguments; `ethsign` makes a secret key of raw bytes.
use plasma_rust_framework.Prelude.{Option, none, some, [], ◌∷◌}
use plasma_rust_framework.Prelude.Bytes.{Bytes}
use plasma_rust_framework.Prelude.Result.{Result, ok, err}
use plasma_rust_framework.Db.Kvs.{KeyValueStore}
use plasma_rust_framework.Db.Bucket.{new, as_store}
use plasma_rust_framework.Clients.Types.{ErrorKind, plasma_db_error, into_error}

-- "wallets"
abbrev pub wallets : Bytes
wallets = 119 ∷ 97 ∷ 108 ∷ 108 ∷ 101 ∷ 116 ∷ 115 ∷ []

-- `unwrap_or_else(|| vec![])`
abbrev pub or_empty : {E : Type 0} → Result (Option Bytes) E → Result Bytes ErrorKind
or_empty (err e) = err plasma_db_error
or_empty (ok none) = ok []
or_empty (ok (some raw_key)) = ok raw_key

module _ {S : Type 0} (db : KeyValueStore S) where
  unfoldable pub put_private_key : Bytes → Bytes → S → Result (Unit {0}) ErrorKind × S
  put_private_key key raw_key s =
      let (done, s') = (as_store (new wallets db)).put key raw_key s in (into_error done, s')

  unfoldable pub get_private_key : Bytes → S → Result Bytes ErrorKind
  get_private_key key s = or_empty ((as_store (new wallets db)).get key s)

  module _ {SecretKey : Type 0} (from_raw : Bytes → Option SecretKey) where
    -- `generate_key_session` and `import_key`, with the session and the raw key; the result of the write is
    -- dropped, and `none` is the panic on bytes that are no key.
    unfoldable pub import_key : Bytes → Bytes → S → Option ((Bytes × SecretKey) × S)
    unfolding put_private_key
    import_key session secret_key_raw s =
        let (done, s') = put_private_key session secret_key_raw s in
        elim (from_raw secret_key_raw) [
          | none ↦ none
          | some secret_key ↦ some ((session, secret_key), s')
        ]

    -- `none` is the panic on bytes that are no key, `some none` the store's error.
    unfoldable pub get_key : Bytes → S → Option (Option SecretKey)
    unfolding get_private_key
    get_key session s = elim (get_private_key session s) [
      | err e ↦ some none
      | ok k ↦ elim (from_raw k) [ none ↦ none | some secret_key ↦ some (some secret_key) ]
    ]
