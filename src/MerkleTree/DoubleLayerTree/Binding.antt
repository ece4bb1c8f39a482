-- ===== src/MerkleTree/DoubleLayerTree/Binding.antt =====
-- An accepted proof of merkle-interval-tree/src/double_layered_tree.rs binds the leaf through both layers.
use plasma_rust_framework.Prelude.{
  ℕ, ◌^◌, ◌≤◌, ◌<◌, ◌≡◌, refl, sym, ◌∙◌, subst, ◌⊎◌, inl, inr, Bool, true, false, some, List, [],
  ◌∷◌, arith, length,
}
use plasma_rust_framework.Prelude.Bytes.{Bytes}
use plasma_rust_framework.Prelude.Result.{Result, ok, err}
use plasma_rust_framework.Abi.{Abi}
use plasma_rust_framework.MerkleTree.IntervalTree.{
  MerkleIntervalNode, Error, ImplicitBounds, climb, hash, compute_root,
}
use plasma_rust_framework.MerkleTree.IntervalTree.Collision.{Collision}
use plasma_rust_framework.MerkleTree.IntervalTree.Binding.{
  AreBytes, parent_at, climb_step, climb_done, compute_root-inv, compute_root_binding,
}
use plasma_rust_framework.MerkleTree.AddressTree
use plasma_rust_framework.MerkleTree.AddressTree.Binding
use plasma_rust_framework.MerkleTree.DoubleLayerTree.{
  InclusionProof, IsValid, DoubleLayerTreeLeaf, interval_leaf, in_address_tree, verify,
}

in_address_tree_inv :
    (hash_leaf : Bytes → Bytes) (address : ℕ) (proof : InclusionProof) (root : Bytes)
    (r : Result (Bytes × ImplicitBounds) Error)
    → in_address_tree hash_leaf address proof root r ≡ true
    → (computed_root : Bytes) × (bounds : ImplicitBounds) × (r ≡ ok (computed_root, bounds))
      × (AddressTree.verify hash_leaf
            (AddressTree.leaf computed_root address)
            proof.address_idx
            proof.address_tree_inclusion_proof
            root
          ≡ true)
in_address_tree_inv hash_leaf address proof root (err e) h = absurd (ground arith)
in_address_tree_inv hash_leaf address proof root (ok (computed_root, bounds)) h =
    (computed_root, bounds, refl, ground arith)

some_inj : {A : Type 0} (a b : A) → some a ≡ some b → a ≡ b
some_inj a b h = cc

module _ (hash_leaf : Bytes → Bytes)
    (length-hash_leaf : (bytes : Bytes) → length (hash_leaf bytes) ≡ 32) where
  abbrev HashedTo32 : MerkleIntervalNode → Type 0
  HashedTo32 n = length (hash hash_leaf n) ≡ 32

  parent_at-HashedTo32 : (p : Bool) (i c : MerkleIntervalNode) → HashedTo32 (parent_at p i c)
  unfolding hash
  parent_at-HashedTo32 true i c = length-hash_leaf _
  parent_at-HashedTo32 false i c = length-hash_leaf _

  climb-HashedTo32 :
      (path : List Bool) (proof : List MerkleIntervalNode) (c n : MerkleIntervalNode)
      → HashedTo32 c
      → climb path proof c ≡ ok n
      → HashedTo32 n
  climb-HashedTo32 [] proof c n f h = rw (← climb_done proof c n h) f
  climb-HashedTo32 (p ∷ path) [] c n f h = let e : c ≡ n = unfold climb in cc in rw (← e) f
  climb-HashedTo32 (p ∷ path) (i ∷ proof) c n f h =
      climb-HashedTo32 path proof (parent_at p i c) n (parent_at-HashedTo32 p i c)
        (climb_step p path i c n proof h)

  verify_lem :
      (abi : Abi InclusionProof IsValid) (lf : DoubleLayerTreeLeaf) (proof : InclusionProof)
      (bytes root : Bytes)
      → abi.decode bytes ≡ some proof
      → verify hash_leaf abi lf bytes root
        ≡ some (
            in_address_tree hash_leaf lf.address proof root (
              compute_root hash_leaf
                (interval_leaf lf)
                proof.interval_idx
                proof.interval_tree_inclusion_proof))
  unfolding verify
  verify_lem abi lf proof bytes root d = rw (d, verify) refl

  -- What stands behind an accepted proof.
  layers :
      (abi : Abi InclusionProof IsValid) (lf : DoubleLayerTreeLeaf) (proof : InclusionProof)
      (bytes root : Bytes)
      → abi.decode bytes ≡ some proof
      → verify hash_leaf abi lf bytes root ≡ some true
      → (computed_root : Bytes) × (bounds : ImplicitBounds) × (compute_root hash_leaf
            (interval_leaf lf)
            proof.interval_idx
            proof.interval_tree_inclusion_proof
          ≡ ok (computed_root, bounds))
        × (AddressTree.verify hash_leaf
              (AddressTree.leaf computed_root lf.address)
              proof.address_idx
              proof.address_tree_inclusion_proof
              root
            ≡ true)
  layers abi lf proof bytes root d h =
      in_address_tree_inv hash_leaf lf.address proof root
        (compute_root hash_leaf (interval_leaf lf) proof.interval_idx
          proof.interval_tree_inclusion_proof)
        (some_inj _ true (sym (verify_lem abi lf proof bytes root d) ∙ h))

  computed_root-length :
      (lf : DoubleLayerTreeLeaf) (idx : ℕ) (bytes root : Bytes) (bounds : ImplicitBounds)
      → compute_root hash_leaf (interval_leaf lf) idx bytes ≡ ok (root, bounds)
      → length root ≡ 32
  computed_root-length lf idx bytes root bounds h =
      let (n, c, e) =
        compute_root-inv hash_leaf length-hash_leaf (interval_leaf lf) idx bytes root bounds h in
      rw (← e)
        (climb-HashedTo32 _ _ (interval_leaf lf) n (unfold hash in length-hash_leaf lf.data') c)

  -- Where the hash function has 32 bytes of output: if `verify` accepts two leaves with `u64` ends and addresses of 160 bits
  -- against the same root, with proofs that have the same two indices, and whose parts are byte strings of the same
  -- lengths, then the leaves have the same data, the same address if the address tree's part has 52 bytes or more,
  -- and the same end if the interval tree's part has 40 bytes or more; or there are two byte strings that differ and
  -- have the same hash.
  pub verify_leaf_binding :
      (abi : Abi InclusionProof IsValid) (lf lf' : DoubleLayerTreeLeaf)
      (proof proof' : InclusionProof) (bytes bytes' root : Bytes)
      → abi.decode bytes ≡ some proof
      → abi.decode bytes' ≡ some proof'
      → proof.address_idx ≡ proof'.address_idx
      → proof.interval_idx ≡ proof'.interval_idx
      → length proof.address_tree_inclusion_proof ≡ length proof'.address_tree_inclusion_proof
      → length proof.interval_tree_inclusion_proof ≡ length proof'.interval_tree_inclusion_proof
      → AreBytes proof.interval_tree_inclusion_proof
      → AreBytes proof'.interval_tree_inclusion_proof
      → lf.end < 2 ^ 64
      → lf'.end < 2 ^ 64
      → lf.address < 2 ^ 160
      → lf'.address < 2 ^ 160
      → verify hash_leaf abi lf bytes root ≡ some true
      → verify hash_leaf abi lf' bytes' root ≡ some true
      → ((lf.data' ≡ lf'.data')
          × (52 ≤ length proof.address_tree_inclusion_proof → lf.address ≡ lf'.address)
          × (40 ≤ length proof.interval_tree_inclusion_proof → lf.end ≡ lf'.end))
        ⊎ Collision hash_leaf
  verify_leaf_binding abi lf lf' proof proof' bytes bytes' root d d' i j k l a a' e e' f f' v v' =
      let (r, b, c, t) = layers abi lf proof bytes root d v in
      let (r', b', c', t') = layers abi lf' proof' bytes' root d' v' in
      let t'' =
        subst
          (λ (idx : ℕ).
            AddressTree.verify hash_leaf (AddressTree.leaf r' lf'.address) idx
              proof'.address_tree_inclusion_proof root
            ≡ true)
          (sym i) t' in
      elim (Binding.verify_address_binding hash_leaf length-hash_leaf proof.address_idx lf.address
        lf'.address r r' proof.address_tree_inclusion_proof proof'.address_tree_inclusion_proof root
        (computed_root-length lf proof.interval_idx proof.interval_tree_inclusion_proof r b c)
        (computed_root-length lf' proof'.interval_idx proof'.interval_tree_inclusion_proof r' b' c')
        f f' k t t'') [
          | inr x ↦ inr x
          | inl s ↦
              let c'' =
                subst
                  (λ (x : ℕ × Bytes).
                    compute_root hash_leaf (interval_leaf lf') x.0
                      proof'.interval_tree_inclusion_proof
                    ≡ ok (x.1, b'))
                  (λ i'. (sym j i', sym s.0 i')) c' in
              elim (compute_root_binding hash_leaf length-hash_leaf proof.interval_idx lf.end
                lf'.end lf.data' lf'.data' proof.interval_tree_inclusion_proof
                proof'.interval_tree_inclusion_proof r b b' a a' l e e' c c'') [
                  | inr x ↦ inr x
                  | inl u ↦ inl (u.0, s.1, u.1)
                ]
        ]
