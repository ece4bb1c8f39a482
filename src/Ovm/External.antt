-- ===== src/Ovm/External.antt =====
-- What the executor's deciders and quantifiers take from other crates: the hash functions, the recovery of a
-- signer (`ethsign`), and the encodings (`rlp`, `ethabi`).
use plasma_rust_framework.Prelude.{ℕ, Option}
use plasma_rust_framework.Prelude.Bytes.{Bytes}
use plasma_rust_framework.Abi.{Abi}
use plasma_rust_framework.PlasmaCore.Transaction.{Transaction}
use plasma_rust_framework.Db.Range.{RlpCodec}
use plasma_rust_framework.MerkleTree.DoubleLayerTree
use plasma_rust_framework.MerkleTree.DoubleLayerTree.{InclusionProof}
use plasma_rust_framework.Ovm.Types.{StateUpdate}
use plasma_rust_framework.Ovm.HashPreimageDb
use plasma_rust_framework.Ovm.HashPreimageDb.{PreimageRecord}
use plasma_rust_framework.Ovm.SignedByDb
use plasma_rust_framework.Ovm.SignedByDb.{SignedByRecord}
use plasma_rust_framework.Ovm.RangeAtBlockDb
use plasma_rust_framework.Ovm.RangeAtBlockDb.{RangeAtBlockRecord}
use plasma_rust_framework.Ovm.TransactionDb.{TransactionAbi}

-- `ethsign::Signature`
pub record Signature : Type 0 where
  pub v : ℕ
  pub r : Bytes
  pub s : Bytes

-- `recover` takes the signature and the hash of the message, and is `none` where the crate reports an error.
-- `to_body_abi` encodes what a transaction's signature covers.
pub record External : Type 0 where
  pub static_hash : Bytes → Bytes
  pub hash_leaf : Bytes → Bytes
  pub recover : Signature → Bytes → Option ℕ
  pub rlp : RlpCodec
  pub preimage_abi : Abi PreimageRecord HashPreimageDb.IsValid
  pub signed_by_abi : Abi SignedByRecord SignedByDb.IsValid
  pub range_at_block_abi : Abi RangeAtBlockRecord RangeAtBlockDb.IsValid
  pub inclusion_proof_abi : Abi InclusionProof DoubleLayerTree.IsValid
  pub transaction_abi : TransactionAbi
  pub to_body_abi : Transaction → Bytes
  pub state_update_to_abi : StateUpdate → Bytes
  pub state_update_from_abi : Bytes → Option StateUpdate
