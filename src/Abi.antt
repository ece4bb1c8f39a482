-- ===== src/Abi.antt =====
-- abi-utils/src/abi.rs: the traits `Encodable` and `Decodable` at a type. The bytes are the matter of the crate
-- `ethabi`, so a codec is a parameter; what it keeps is stated for the values that fit the machine types.
use plasma_rust_framework.Prelude.{◌≡◌, Option, some}
use plasma_rust_framework.Prelude.Bytes.{Bytes}

-- `to_abi` and `from_abi`; every error of the latter is `none`.
pub record Abi (A : Type 0) (IsValid : A → Type 0) : Type 0 where
  pub encode : A → Bytes
  pub decode : Bytes → Option A
  pub decode-encode : (a : A) → IsValid a → decode (encode a) ≡ some a
