-- ===== src/Ovm/PropertyExecutor/Stores.antt =====
-- A stored witness decides its property: the witness databases (ovm/src/db) and the deciders that read them,
-- over any store that keeps the contract.
use plasma_rust_framework.Prelude.{
  ℕ, suc, ◌^◌, ◌<◌, ◌≡◌, refl, ap, ◌∙◌, true, some, [], ◌∷◌, ◌++◌, ==_refl, length,
}
use plasma_rust_framework.Prelude.Bytes.{Bytes, cmp_refl}
use plasma_rust_framework.Prelude.Result.{ok}
use plasma_rust_framework.Db.BTreeMap
use plasma_rust_framework.Db.BTreeMap.{BTreeMap}
use plasma_rust_framework.Db.BTreeMap.Laws.{get-insert, at}
use plasma_rust_framework.Db.Kvs.{KeyValueStore}
use plasma_rust_framework.Db.Store.{IsStore}
use plasma_rust_framework.MerkleTree.AddressTree.{eq_bytes_refl}
use plasma_rust_framework.Ovm.Types.{
  PropertyInputs, Variables, returns, argument, to_h256, to_address, to_bytes,
}
use plasma_rust_framework.Ovm.Manager.{preimage_exists_decider, signed_by_decider}
use plasma_rust_framework.Ovm.Deciders.{element_of, decision}
use plasma_rust_framework.Ovm.External.{External}
use plasma_rust_framework.Ovm.HashPreimageDb
use plasma_rust_framework.Ovm.HashPreimageDb.{into_error, read_record, preimage_exists_name}
use plasma_rust_framework.Ovm.SignedByDb
use plasma_rust_framework.Ovm.SignedByDb.{SignedByRecord, signed_by_name, address_bytes}
use plasma_rust_framework.Ovm.Witnessed.{recover, preimage_decision}
use plasma_rust_framework.Ovm.PropertyExecutor.{decide}
use plasma_rust_framework.Ovm.PropertyExecutor.Sound.{
  decide_preimage, preimage_read, decide_signed_by, signed_by_read,
}

module _ {S : Type 0} (ext : External) (db range_db : KeyValueStore S) (Inv : S → Type 0)
    (entries : S → BTreeMap) (laws : IsStore db Inv entries) where
  -- What is put under a key is read under it.
  get-put : (k b : Bytes) (s : S) → Inv s → db.get k (db.put k b s).1 ≡ ok (some b)
  get-put k b s i =
      let (done, inv, same) = laws.put_lem k b s i in
      laws.get_lem k (db.put k b s).1 inv
      ∙ ap ok (
          ap (BTreeMap.get k) same
          ∙ get-insert k b k (entries s)
          ∙ ap (λ o. at o (some b) (BTreeMap.get k (entries s))) (cmp_refl k))

  preimage_stored :
      (hash preimage : Bytes) (s : S)
      → length hash ≡ 32
      → Inv s
      → HashPreimageDb.get_witness ext.preimage_abi db hash
          (HashPreimageDb.store_witness ext.preimage_abi db hash preimage s).1
        ≡ some (ok (record { hash = hash; preimage = preimage }))
  unfolding HashPreimageDb.get_witness HashPreimageDb.store_witness
  preimage_stored hash preimage s h i =
      let rec = ext.preimage_abi.encode (record { hash = hash; preimage = preimage }) in
      ap (read_record ext.preimage_abi.decode) (get-put (preimage_exists_name ++ hash) rec s i)
      ∙ rw
          (
            ext.preimage_abi.decode-encode (record { hash = hash; preimage = preimage }) h,
            read_record,
          )
          refl

  -- Over a store that keeps the contract: after a preimage of a hash with 32 bytes has been stored, the property
  -- that the hash has a preimage is decided with yes, and the proof holds the preimage.
  pub preimage_exists_complete :
      (fuel : ℕ) (inputs : PropertyInputs) (v : Variables) (preimage : Bytes) (s r : S)
      → length (ext.static_hash preimage) ≡ 32
      → Inv s
      → argument to_h256 inputs 0 v ≡ some (ext.static_hash preimage)
      → (s' : S) × (HashPreimageDb.store_witness ext.preimage_abi db
            (ext.static_hash preimage)
            preimage
            s
          ≡ (ok tt, s'))
        × Inv s'
        × (decide ext db range_db s' r (suc fuel) (preimage_exists_decider inputs) v
            ≡ returns
                (ok (
                  decision true (element_of (preimage_exists_decider inputs) (some preimage) ∷ [])))
                v)
  unfolding HashPreimageDb.store_witness
  preimage_exists_complete fuel inputs v preimage s r h i a =
      let hash = ext.static_hash preimage in
      let b = ext.preimage_abi.encode (record { hash = hash; preimage = preimage }) in
      let s' = (db.put (preimage_exists_name ++ hash) b s).1 in
      let (done, inv, same) = laws.put_lem (preimage_exists_name ++ hash) b s i in
      (
        s',
        rw done refl,
        inv,
        decide_preimage ext db range_db s' r fuel inputs v
            ∙ preimage_read ext db range_db s' r inputs v hash a
            ∙ rw (preimage_stored hash preimage s h i)
                (rw (eq_bytes_refl hash, preimage_decision) refl),
      )

  signed_by_stored :
      (public_key : ℕ) (message signature : Bytes) (s : S)
      → public_key < 2 ^ 160
      → Inv s
      → SignedByDb.get_witness ext.static_hash ext.signed_by_abi db public_key message
          (SignedByDb.store_witness ext.static_hash ext.signed_by_abi db public_key message
            signature s).1
        ≡ some (ok (record { public_key = public_key; message = message; signature = signature }))
  unfolding SignedByDb.get_witness SignedByDb.store_witness
  signed_by_stored public_key message signature s h i =
      let rec : SignedByRecord = record {
        public_key = public_key;
        message = message;
        signature = signature;
      } in
      ap (read_record ext.signed_by_abi.decode) (
        get-put ((signed_by_name ++ address_bytes public_key) ++ ext.static_hash message)
          (ext.signed_by_abi.encode rec) s i)
      ∙ rw (ext.signed_by_abi.decode-encode rec h, read_record) refl

  -- Over a store that keeps the contract: after a message has been stored with a signature from which a signer of 160
  -- bits is recovered, the property that the signer has signed the message is decided with yes, and the proof holds
  -- the signature.
  pub signed_by_complete :
      (fuel : ℕ) (inputs : PropertyInputs) (v : Variables) (public_key : ℕ)
      (message signature : Bytes) (s r : S)
      → public_key < 2 ^ 160
      → Inv s
      → argument to_address inputs 0 v ≡ some public_key
      → argument to_bytes inputs 1 v ≡ some message
      → recover ext signature message ≡ some public_key
      → (s' : S) × (SignedByDb.store_witness ext.static_hash ext.signed_by_abi db public_key message
            signature s
          ≡ (ok tt, s'))
        × Inv s'
        × (decide ext db range_db s' r (suc fuel) (signed_by_decider inputs) v
            ≡ returns
                (ok (decision true (element_of (signed_by_decider inputs) (some signature) ∷ [])))
                v)
  unfolding SignedByDb.store_witness
  signed_by_complete fuel inputs v public_key message signature s r h i a b c =
      let rec : SignedByRecord = record {
        public_key = public_key;
        message = message;
        signature = signature;
      } in
      let key = (signed_by_name ++ address_bytes public_key) ++ ext.static_hash message in
      let s' = (db.put key (ext.signed_by_abi.encode rec) s).1 in
      let (done, inv, same) = laws.put_lem key (ext.signed_by_abi.encode rec) s i in
      (
        s',
        rw done refl,
        inv,
        decide_signed_by ext db range_db s' r fuel inputs v
            ∙ signed_by_read ext db range_db s' r inputs v public_key message a b
            ∙ rw (signed_by_stored public_key message signature s h i)
                (rw c (rw (==_refl public_key) refl)),
      )
