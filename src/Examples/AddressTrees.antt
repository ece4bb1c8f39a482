-- ===== src/Examples/AddressTrees.antt =====
-- Concrete leaves of the double layered tree (merkle-interval-tree/src/double_layered_tree.rs).
use plasma_rust_framework.Prelude.{ℕ, ◌≤◌, ◌≡◌, refl, ◌⊎◌, true, some, [], ◌∷◌, ◌++◌, arith, length}
use plasma_rust_framework.Prelude.Bytes.{Bytes, cmp}
use plasma_rust_framework.Prelude.Words.{of_le, of_be, le_bytes, be_bytes}
use plasma_rust_framework.MerkleTree.IntervalTree
use plasma_rust_framework.MerkleTree.IntervalTree.Collision.{Collision}
use plasma_rust_framework.MerkleTree.AddressTree
use plasma_rust_framework.MerkleTree.DoubleLayerTree.{InclusionProof, DoubleLayerTreeLeaf, verify}
use plasma_rust_framework.MerkleTree.DoubleLayerTree.Binding.{verify_leaf_binding}
use plasma_rust_framework.Examples.External.{inclusion_proof_abi}
use plasma_rust_framework.Examples.Trees.{fill, length-fill, twin, side, side-AreBytes, pair_root}

-- A tree over two contracts, of which the one at 7 has two leaves.
abbrev beside : InclusionProof
beside = record {
  address_idx = 0;
  interval_idx = 0;
  address_tree_inclusion_proof = fill 32 (2 ∷ []) ++ be_bytes 20 8;
  interval_tree_inclusion_proof = side;
}

abbrev proof : Bytes
proof = inclusion_proof_abi.encode beside

abbrev leaf : Bytes → DoubleLayerTreeLeaf
leaf bytes = record { data' = bytes; end = 10; address = 7 }

abbrev root : Bytes
root =
    AddressTree.parent_hash (fill 32) (AddressTree.leaf pair_root 7)
      (AddressTree.leaf (fill 32 (2 ∷ [])) 8)

proof_decoded : inclusion_proof_abi.decode proof ≡ some beside
proof_decoded = inclusion_proof_abi.decode-encode beside (omega arith, omega arith)

first_accepted : verify (fill 32) inclusion_proof_abi (leaf (1 ∷ [])) proof root ≡ some true
unfolding verify IntervalTree.compute_root IntervalTree.decode_proof IntervalTree.decode_nodes
    IntervalTree.hash IntervalTree.get_path IntervalTree.rotate_right
    IntervalTree.verify_and_get_parent of_le of_be le_bytes be_bytes AddressTree.compute_parent
    IntervalTree.first_left IntervalTree.climb AddressTree.verify AddressTree.decode_proof
    AddressTree.decode_nodes AddressTree.climb fill cmp
first_accepted = refl

second_accepted : verify (fill 32) inclusion_proof_abi (leaf twin) proof root ≡ some true
unfolding verify IntervalTree.compute_root IntervalTree.decode_proof IntervalTree.decode_nodes
    IntervalTree.hash IntervalTree.get_path IntervalTree.rotate_right
    IntervalTree.verify_and_get_parent of_le of_be le_bytes be_bytes AddressTree.compute_parent
    IntervalTree.first_left IntervalTree.climb AddressTree.verify AddressTree.decode_proof
    AddressTree.decode_nodes AddressTree.climb fill cmp
second_accepted = refl

verify_leaf_binding_example :
    (((1 ∷ []) ≡ twin)
      × (52 ≤ length beside.address_tree_inclusion_proof → ◌≡◌ {A = ℕ} 7 7)
      × (40 ≤ length side → ◌≡◌ {A = ℕ} 10 10))
    ⊎ Collision (fill 32)
verify_leaf_binding_example =
    verify_leaf_binding (fill 32) (length-fill 32) inclusion_proof_abi (leaf (1 ∷ [])) (leaf twin)
      beside beside proof proof root proof_decoded proof_decoded refl refl refl refl side-AreBytes
      side-AreBytes (omega arith) (omega arith) (omega arith) (omega arith) first_accepted
      second_accepted
