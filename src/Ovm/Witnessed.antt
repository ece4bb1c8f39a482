-- ===== src/Ovm/Witnessed.antt =====
-- ovm/src/deciders: the deciders that read the witness databases of the executor. `db` and `range_db` are the
-- executor's stores, in the states `s` and `r`; the deciders write to neither.
use plasma_rust_framework.Prelude.{
  ℕ, Bool, true, false, Option, none, some, List, [], ◌∷◌, ◌++◌, leb, ◌==◌, if◌then◌else◌, length,
}
use plasma_rust_framework.Prelude.Bytes.{Bytes}
use plasma_rust_framework.Prelude.Result.{Result, ok, err}
use plasma_rust_framework.PlasmaCore.Transaction.{Transaction}
use plasma_rust_framework.Db.Kvs.{KeyValueStore}
use plasma_rust_framework.MerkleTree.AddressTree.{eq_bytes}
use plasma_rust_framework.MerkleTree.IntervalTree.{slice}
use plasma_rust_framework.MerkleTree.DoubleLayerTree
use plasma_rust_framework.MerkleTree.DoubleLayerTree.{DoubleLayerTreeLeaf}
use plasma_rust_framework.Ovm.Types.{
  PropertyInputs, StateUpdate, ErrorKind, invalid_preimage, cannot_decide, abi_error, Decision,
  Variables, Outcome, panics, returns, or_panic, argument, to_h256, to_address, to_bytes,
  to_integer, to_state_update, get_block_number, get_deposit_contract_address, get_range,
}
use plasma_rust_framework.Ovm.Manager.{
  property_of, preimage_exists_decider, signed_by_decider, included_at_block_decider,
}
use plasma_rust_framework.Ovm.Deciders.{element_of, decision}
use plasma_rust_framework.Ovm.External.{Signature, External}
use plasma_rust_framework.Ovm.HashPreimageDb
use plasma_rust_framework.Ovm.HashPreimageDb.{PreimageRecord}
use plasma_rust_framework.Ovm.SignedByDb
use plasma_rust_framework.Ovm.SignedByDb.{SignedByRecord}
use plasma_rust_framework.Ovm.RangeAtBlockDb
use plasma_rust_framework.Ovm.RangeAtBlockDb.{RangeAtBlockRecord}
use plasma_rust_framework.Ovm.TransactionDb

abbrev pub signature_to_bytes : Signature → Bytes
signature_to_bytes signature = signature.v ∷ (signature.r ++ signature.s)

-- The index and the slices panic on fewer than 65 bytes.
unfoldable pub bytes_to_signature : Bytes → Option Signature
bytes_to_signature [] = none
bytes_to_signature (v ∷ bytes) =
    if leb 64 (length bytes)
    then some (record { v = v; r = slice (v ∷ bytes) 1 33; s = slice (v ∷ bytes) 33 65 })
    else none

-- `Verifier::recover`; `none` is a panic.
unfoldable pub recover : External → Bytes → Bytes → Option ℕ
unfolding bytes_to_signature
recover ext sig_bytes message = elim (bytes_to_signature sig_bytes) [
  | none ↦ none
  | some signature ↦ ext.recover signature (ext.static_hash message)
]

-- The operator `?` on what a database returns.
abbrev pub witness_or :
    {A : Type 0}
    → Option (Result A ErrorKind)
    → Variables
    → (A → Outcome Decision)
    → Outcome Decision
witness_or none variables f = panics
witness_or (some (err e)) variables f = returns (err e) variables
witness_or (some (ok a)) variables f = f a

-- The test of the preimage, and the decision.
abbrev pub preimage_decision :
    External → PropertyInputs → Bytes → PreimageRecord → Result Decision ErrorKind
preimage_decision ext inputs hash preimage_record =
    if eq_bytes (ext.static_hash preimage_record.preimage) hash
    then ok (
        decision true
          (element_of (preimage_exists_decider inputs) (some preimage_record.preimage) ∷ []))
    else err invalid_preimage

abbrev pub signed_by_decision : PropertyInputs → ℕ → SignedByRecord → ℕ → Result Decision ErrorKind
signed_by_decision inputs public_key signed_by_message signer =
    if signer == public_key
    then ok (
        decision true
          (element_of (signed_by_decider inputs) (some signed_by_message.signature) ∷ []))
    else err invalid_preimage

abbrev pub included_decision :
    PropertyInputs → RangeAtBlockRecord → Bool → Result Decision ErrorKind
included_decision inputs range_at_block_record inclusion_bounds_result =
    if inclusion_bounds_result
    then ok (
        decision true (
          element_of (included_at_block_decider inputs) (some range_at_block_record.inclusion_proof)
          ∷ []))
    else err cannot_decide

-- The leaf that `IncludedAtBlockDecider` looks for.
abbrev pub leaf_of : External → StateUpdate → DoubleLayerTreeLeaf
leaf_of ext update = record {
  data' = ext.state_update_to_abi update;
  end = (get_range update).end;
  address = get_deposit_contract_address update;
}

-- The loop of `OwnershipDecider`; `none` is a panic of `recover`.
unfoldable pub any_signed : External → ℕ → List Transaction → Option Bool
unfolding recover
any_signed ext owner [] = some false
any_signed ext owner (tx ∷ txs) = elim (recover ext tx.signature (ext.to_body_abi tx)) [
  | none ↦ none
  | some signer ↦ elim (signer == owner) [ true ↦ some true | false ↦ any_signed ext owner txs ]
]

-- `OwnershipDecider` once the transactions have been read.
unfoldable pub ownership_decision :
    External → ℕ → Option (Option (List Transaction)) → Variables → Outcome Decision
unfolding any_signed
ownership_decision ext owner none variables = panics
ownership_decision ext owner (some none) variables = returns (err abi_error) variables
ownership_decision ext owner (some (some [])) variables = returns (err cannot_decide) variables
ownership_decision ext owner (some (some (tx ∷ txs))) variables =
    or_panic (any_signed ext owner (tx ∷ txs)) (λ found. returns (ok (decision found [])) variables)

module _ {S : Type 0} (ext : External) (db range_db : KeyValueStore S) (s r : S) where
  unfoldable pub preimage_exists_decide : PropertyInputs → Variables → Outcome Decision
  unfolding property_of
  preimage_exists_decide inputs variables = or_panic (argument to_h256 inputs 0 variables) (λ hash.
      witness_or (HashPreimageDb.get_witness ext.preimage_abi db hash s) variables
        (λ preimage_record. returns (preimage_decision ext inputs hash preimage_record) variables))

  unfoldable pub signed_by_decide : PropertyInputs → Variables → Outcome Decision
  unfolding property_of recover
  signed_by_decide inputs variables =
      or_panic (argument to_address inputs 0 variables) (λ public_key.
        or_panic (argument to_bytes inputs 1 variables) (λ message.
          witness_or
            (SignedByDb.get_witness ext.static_hash ext.signed_by_abi db public_key message s)
            variables
            (λ signed_by_message.
              or_panic (recover ext signed_by_message.signature message) (λ signer.
                returns (signed_by_decision inputs public_key signed_by_message signer)
                  variables))))

  unfoldable pub included_at_block_decide : PropertyInputs → Variables → Outcome Decision
  unfolding property_of
  included_at_block_decide inputs variables =
      or_panic (argument to_integer inputs 0 variables) (λ block_number.
        or_panic (argument to_state_update inputs 1 variables) (λ update.
          witness_or
            (RangeAtBlockDb.get_witness ext.range_at_block_abi ext.rlp range_db block_number
              (get_range update) r)
            variables
            (λ range_at_block_record.
              or_panic
                (DoubleLayerTree.verify ext.hash_leaf ext.inclusion_proof_abi (leaf_of ext update)
                  range_at_block_record.inclusion_proof range_at_block_record.root)
                (λ inclusion_bounds_result.
                  returns (included_decision inputs range_at_block_record inclusion_bounds_result)
                    variables))))

  unfoldable pub ownership_decide : PropertyInputs → Variables → Outcome Decision
  unfolding ownership_decision
  ownership_decide inputs variables =
      or_panic (argument to_state_update inputs 0 variables) (λ update.
        or_panic (argument to_address inputs 1 variables) (λ owner.
          ownership_decision ext owner
            (TransactionDb.get_transactions ext.transaction_abi ext.rlp range_db
              (get_block_number update) (get_range update) r)
            variables))
