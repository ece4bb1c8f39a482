-- ===== src/MerkleTree/IntervalTree/Defect.antt =====
-- The inclusion proof for the last leaf of a tree over three leaves.
use plasma_rust_framework.Prelude.{◌≡◌, refl, some, [], ◌∷◌}
use plasma_rust_framework.MerkleTree.IntervalTree.{
  MerkleIntervalNode, MerkleIntervalTree, compute_parent, create_empty, create_proof_node, generate,
  generate_rounds, parents, generate_part, get_inclusion_proof_of_tree, next_power_of_two,
  next_power,
}
use plasma_rust_framework.Prelude.Bytes.{Bytes}

module _ (hash_leaf : Bytes → Bytes) where
  -- The tree that is made of any three nodes has an empty leaf beside the third one, but the
  -- inclusion proof for index 2 of 3 holds the proof nodes of the third node itself and of the
  -- parent of the first two.
  pub get_inclusion_proof_of_third :
      (a b c : MerkleIntervalNode)
      → (t : MerkleIntervalTree) × (generate hash_leaf (a ∷ b ∷ c ∷ []) ≡ some t)
        × (t.tree ≡ compute_parent (compute_parent a b) (compute_parent c (create_empty hash_leaf)))
        × (get_inclusion_proof_of_tree hash_leaf t.tree 2 3
            ≡ create_proof_node hash_leaf c ∷ create_proof_node hash_leaf (compute_parent a b) ∷ [])
  unfolding get_inclusion_proof_of_tree generate generate_part generate_rounds parents
      next_power_of_two next_power create_empty
  get_inclusion_proof_of_third a b c = (_, refl, refl, refl)
