-- ===== src/Ovm/PropertyExecutor/Sound.antt =====
-- What a decision over the witness databases means, whatever the stores hold.
use plasma_rust_framework.Prelude.{
  ℕ, zero, suc, ◌≡◌, refl, sym, ap, ◌∙◌, inl, inr, Bool, true, false, Option, none, some, [], ◌∷◌,
  arith, ◌==◌, Bool-cases,
}
use plasma_rust_framework.Prelude.Bytes.{Bytes}
use plasma_rust_framework.Prelude.Result.{Result, ok, err}
use plasma_rust_framework.Db.Kvs.{KeyValueStore}
use plasma_rust_framework.MerkleTree.AddressTree.{eq_bytes, eq_bytes_lem}
use plasma_rust_framework.MerkleTree.DoubleLayerTree
use plasma_rust_framework.Ovm.Types.{
  PropertyInputs, StateUpdate, ErrorKind, Decision, Variables, Outcome, out_of_fuel, returns,
  or_panic, argument, to_h256, to_address, to_bytes, to_integer, to_state_update, get_range,
}
use plasma_rust_framework.Ovm.Manager.{
  property_of, preimage_exists_decider, signed_by_decider, included_at_block_decider,
}
use plasma_rust_framework.Ovm.Deciders.{element_of}
use plasma_rust_framework.Ovm.Executor
use plasma_rust_framework.Ovm.External.{External}
use plasma_rust_framework.Ovm.HashPreimageDb
use plasma_rust_framework.Ovm.HashPreimageDb.{PreimageRecord}
use plasma_rust_framework.Ovm.SignedByDb
use plasma_rust_framework.Ovm.SignedByDb.{SignedByRecord}
use plasma_rust_framework.Ovm.RangeAtBlockDb
use plasma_rust_framework.Ovm.RangeAtBlockDb.{RangeAtBlockRecord}
use plasma_rust_framework.Ovm.Witnessed.{
  recover, witness_or, preimage_decision, signed_by_decision, included_decision, leaf_of,
  preimage_exists_decide, signed_by_decide, included_at_block_decide,
}
use plasma_rust_framework.Ovm.PropertyExecutor.{decide}

-- A decision comes through the three ways to panic or to fail.
or_panic_returns :
    {A : Type 0} (o : Option A) (f : A → Outcome Decision) (d : Decision) (v : Variables)
    → or_panic o f ≡ returns (ok d) v
    → (a : A) × (o ≡ some a) × (f a ≡ returns (ok d) v)
or_panic_returns none f d v h = cc
or_panic_returns (some a) f d v h = (a, refl, h)

witness_or_returns :
    {A : Type 0} (o : Option (Result A ErrorKind)) (f : A → Outcome Decision) (d : Decision)
    (v v' : Variables)
    → witness_or o v f ≡ returns (ok d) v'
    → (a : A) × (o ≡ some (ok a)) × (f a ≡ returns (ok d) v')
witness_or_returns none f d v v' h = cc
witness_or_returns (some (err e)) f d v v' h = cc
witness_or_returns (some (ok a)) f d v v' h = (a, refl, h)

returns_inj :
    (a b : Result Decision ErrorKind) (v v' : Variables) → returns a v ≡ returns b v' → a ≡ b
returns_inj a b v v' h = cc

pub out_of_fuel_returns :
    (a : Result Decision ErrorKind) (v : Variables) → ¬ (out_of_fuel ≡ returns a v)
out_of_fuel_returns a v h = ground arith

module _ {S : Type 0} (ext : External) (db range_db : KeyValueStore S) (s r : S) where
  pub decide_preimage :
      (fuel : ℕ) (inputs : PropertyInputs) (v : Variables)
      → decide ext db range_db s r (suc fuel) (preimage_exists_decider inputs) v
        ≡ preimage_exists_decide ext db range_db s r inputs v
  unfolding Executor.decide property_of
  decide_preimage fuel inputs v = refl

  pub decide_signed_by :
      (fuel : ℕ) (inputs : PropertyInputs) (v : Variables)
      → decide ext db range_db s r (suc fuel) (signed_by_decider inputs) v
        ≡ signed_by_decide ext db range_db s r inputs v
  unfolding Executor.decide property_of
  decide_signed_by fuel inputs v = refl

  pub decide_included :
      (fuel : ℕ) (inputs : PropertyInputs) (v : Variables)
      → decide ext db range_db s r (suc fuel) (included_at_block_decider inputs) v
        ≡ included_at_block_decide ext db range_db s r inputs v
  unfolding Executor.decide property_of
  decide_included fuel inputs v = refl

  pub preimage_read :
      (inputs : PropertyInputs) (v : Variables) (hash : Bytes)
      → argument to_h256 inputs 0 v ≡ some hash
      → preimage_exists_decide ext db range_db s r inputs v
        ≡ witness_or
            (HashPreimageDb.get_witness ext.preimage_abi db hash s)
            v
            (λ rec. returns (preimage_decision ext inputs hash rec) v)
  unfolding preimage_exists_decide
  preimage_read inputs v hash a = rw (a, preimage_exists_decide) refl

  preimage_decision_lem :
      (inputs : PropertyInputs) (hash : Bytes) (rec : PreimageRecord) (d : Decision)
      → preimage_decision ext inputs hash rec ≡ ok d
      → (ext.static_hash rec.preimage ≡ hash)
        × (d.outcome ≡ true)
        × (d.implication_proof
            ≡ element_of (preimage_exists_decider inputs) (some rec.preimage) ∷ [])
  preimage_decision_lem inputs hash rec d h =
      elim (Bool-cases (eq_bytes (ext.static_hash rec.preimage) hash)) [
        | inl t ↦ (eq_bytes_lem _ _ t, ground (arith, t), ground (arith, t))
        | inr f ↦ absurd (ground (arith, f))
      ]

  -- A decision that a hash has a preimage has the outcome yes, and its proof holds a byte string with that hash,
  -- whatever the stores hold.
  pub preimage_exists_sound :
      (fuel : ℕ) (inputs : PropertyInputs) (v v' : Variables) (hash : Bytes) (d : Decision)
      → argument to_h256 inputs 0 v ≡ some hash
      → decide ext db range_db s r (suc fuel) (preimage_exists_decider inputs) v ≡ returns (ok d) v'
      → (preimage : Bytes) × (ext.static_hash preimage ≡ hash)
        × (d.outcome ≡ true)
        × (d.implication_proof ≡ element_of (preimage_exists_decider inputs) (some preimage) ∷ [])
  preimage_exists_sound fuel inputs v v' hash d a h =
      let (rec, e, k) =
        witness_or_returns (HashPreimageDb.get_witness ext.preimage_abi db hash s)
          (λ rec. returns (preimage_decision ext inputs hash rec) v) d v v'
          (sym (preimage_read inputs v hash a) ∙ sym (decide_preimage fuel inputs v) ∙ h) in
      let (p, q, t) = preimage_decision_lem inputs hash rec d (returns_inj _ _ v v' k) in
      (rec.preimage, p, q, t)

  signed_by_decision_lem :
      (inputs : PropertyInputs) (public_key signer : ℕ) (rec : SignedByRecord) (d : Decision)
      → signed_by_decision inputs public_key rec signer ≡ ok d
      → (signer ≡ public_key)
        × (d.outcome ≡ true)
        × (d.implication_proof ≡ element_of (signed_by_decider inputs) (some rec.signature) ∷ [])
  signed_by_decision_lem inputs public_key signer rec d h =
      elim (Bool-cases (signer == public_key)) [
        | inl t ↦ (ground (arith, t), ground (arith, t), ground (arith, t))
        | inr f ↦ absurd (ground (arith, f))
      ]

  pub signed_by_read :
      (inputs : PropertyInputs) (v : Variables) (public_key : ℕ) (message : Bytes)
      → argument to_address inputs 0 v ≡ some public_key
      → argument to_bytes inputs 1 v ≡ some message
      → signed_by_decide ext db range_db s r inputs v
        ≡ witness_or
            (SignedByDb.get_witness ext.static_hash ext.signed_by_abi db public_key message s)
            v
            (λ rec.
              or_panic
                (recover ext rec.signature message)
                (λ signer. returns (signed_by_decision inputs public_key rec signer) v))
  unfolding signed_by_decide
  signed_by_read inputs v public_key message a b = rw (a, b, signed_by_decide) refl

  -- A decision that an address has signed a message has the outcome yes, and its proof holds a signature from which
  -- that address is recovered for that message, whatever the stores hold.
  pub signed_by_sound :
      (fuel : ℕ) (inputs : PropertyInputs) (v v' : Variables) (public_key : ℕ) (message : Bytes)
      (d : Decision)
      → argument to_address inputs 0 v ≡ some public_key
      → argument to_bytes inputs 1 v ≡ some message
      → decide ext db range_db s r (suc fuel) (signed_by_decider inputs) v ≡ returns (ok d) v'
      → (signature : Bytes) × (recover ext signature message ≡ some public_key)
        × (d.outcome ≡ true)
        × (d.implication_proof ≡ element_of (signed_by_decider inputs) (some signature) ∷ [])
  signed_by_sound fuel inputs v v' public_key message d a b h =
      let (rec, e, k) =
        witness_or_returns
          (SignedByDb.get_witness ext.static_hash ext.signed_by_abi db public_key message s)
          (λ rec.
            or_panic (recover ext rec.signature message)
              (λ signer. returns (signed_by_decision inputs public_key rec signer) v))
          d v v'
          (sym (signed_by_read inputs v public_key message a b)
            ∙ sym (decide_signed_by fuel inputs v)
            ∙ h) in
      let (signer, f, l) =
        or_panic_returns (recover ext rec.signature message)
          (λ signer. returns (signed_by_decision inputs public_key rec signer) v) d v' k in
      let (p, q, t) =
        signed_by_decision_lem inputs public_key signer rec d (returns_inj _ _ v v' l) in
      (rec.signature, f ∙ ap some p, q, t)

  included_decision_lem :
      (inputs : PropertyInputs) (rec : RangeAtBlockRecord) (b : Bool) (d : Decision)
      → included_decision inputs rec b ≡ ok d
      → (b ≡ true)
        × (d.outcome ≡ true)
        × (d.implication_proof
            ≡ element_of (included_at_block_decider inputs) (some rec.inclusion_proof) ∷ [])
  included_decision_lem inputs rec true d h = ground arith
  included_decision_lem inputs rec false d h = cc

  included_read :
      (inputs : PropertyInputs) (v : Variables) (block_number : ℕ) (update : StateUpdate)
      → argument to_integer inputs 0 v ≡ some block_number
      → argument to_state_update inputs 1 v ≡ some update
      → included_at_block_decide ext db range_db s r inputs v
        ≡ witness_or
            (RangeAtBlockDb.get_witness ext.range_at_block_abi ext.rlp range_db block_number
              (get_range update)
              r)
            v
            (λ rec.
              or_panic
                (DoubleLayerTree.verify ext.hash_leaf ext.inclusion_proof_abi
                  (leaf_of ext update)
                  rec.inclusion_proof
                  rec.root)
                (λ b. returns (included_decision inputs rec b) v))
  unfolding included_at_block_decide
  included_read inputs v block_number update a b = rw (a, b, included_at_block_decide) refl

  -- A decision that a state update is included at a block has the outcome yes, and comes from a record that the
  -- database returns for the block and the range of the update: its proof is the proof of the decision, and
  -- `DoubleLayerTree::verify` accepts it for the update against the record's root.
  pub included_at_block_sound :
      (fuel : ℕ) (inputs : PropertyInputs) (v v' : Variables) (block_number : ℕ)
      (update : StateUpdate) (d : Decision)
      → argument to_integer inputs 0 v ≡ some block_number
      → argument to_state_update inputs 1 v ≡ some update
      → decide ext db range_db s r (suc fuel) (included_at_block_decider inputs) v
        ≡ returns (ok d) v'
      → (rec : RangeAtBlockRecord) × (RangeAtBlockDb.get_witness ext.range_at_block_abi ext.rlp
            range_db block_number
            (get_range update)
            r
          ≡ some (ok rec))
        × (DoubleLayerTree.verify ext.hash_leaf ext.inclusion_proof_abi
              (leaf_of ext update)
              rec.inclusion_proof
              rec.root
            ≡ some true)
        × (d.outcome ≡ true)
        × (d.implication_proof
            ≡ element_of (included_at_block_decider inputs) (some rec.inclusion_proof) ∷ [])
  included_at_block_sound fuel inputs v v' block_number update d a b h =
      let verified : RangeAtBlockRecord → Option Bool = λ rec.
        DoubleLayerTree.verify ext.hash_leaf ext.inclusion_proof_abi (leaf_of ext update)
          rec.inclusion_proof rec.root in
      let (rec, e, k) =
        witness_or_returns
          (RangeAtBlockDb.get_witness ext.range_at_block_abi ext.rlp range_db block_number
            (get_range update) r)
          (λ rec. or_panic (verified rec) (λ b. returns (included_decision inputs rec b) v)) d v v'
          (sym (included_read inputs v block_number update a b)
            ∙ sym (decide_included fuel inputs v)
            ∙ h) in
      let (b', f, l) =
        or_panic_returns (verified rec) (λ b. returns (included_decision inputs rec b) v) d v' k in
      let (p, q, t) = included_decision_lem inputs rec b' d (returns_inj _ _ v v' l) in
      (rec, e, f ∙ ap some p, q, t)

  -- Whatever the inputs, the decision can only be a yes.
  pub included_yes :
      (fuel : ℕ) (inputs : PropertyInputs) (v v' : Variables) (d : Decision)
      → decide ext db range_db s r fuel (included_at_block_decider inputs) v ≡ returns (ok d) v'
      → d.outcome ≡ true
  unfolding Executor.decide included_at_block_decide property_of
  included_yes zero inputs v v' d h = absurd (out_of_fuel_returns (ok d) v' h)
  included_yes (suc fuel) inputs v v' d h =
      let (block_number, a, h') = or_panic_returns (argument to_integer inputs 0 v) _ d v' h in
      let (update, b, h'') = or_panic_returns (argument to_state_update inputs 1 v) _ d v' h' in
      (included_at_block_sound fuel inputs v v' block_number update d a b h).3
