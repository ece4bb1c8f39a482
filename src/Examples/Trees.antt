-- ===== src/Examples/Trees.antt =====
-- Concrete interval trees (merkle-interval-tree/src/interval_tree.rs), with a function of 32 bytes
-- in the place of the hash.
use plasma_rust_framework.Prelude.{
  ℕ, zero, suc, ◌≤◌, ◌≡◌, refl, ◌⊎◌, some, List, [], ◌∷◌, ◌++◌, arith, length,
}
use plasma_rust_framework.Prelude.Bytes.{Bytes, cmp}
use plasma_rust_framework.Prelude.Result.{ok}
use plasma_rust_framework.MerkleTree.IntervalTree.{
  MerkleIntervalNode, MerkleIntervalTree, leaf, proof_node, compute_parent, create_empty,
  create_proof_node, decode_proof, generate_part, generate, ImplicitBounds, hash, compute_root,
  decode_nodes, rotate_right, first_left, climb, verify_and_get_parent, get_inclusion_proof,
  get_inclusion_proof_of_tree, get_root, verify, get_path,
}
use plasma_rust_framework.MerkleTree.IntervalTree.Collision.{Collision}
use plasma_rust_framework.MerkleTree.IntervalTree.Binding.{AreBytes, verify_binding}
use plasma_rust_framework.Prelude.Words.{le_bytes, of_le}
use plasma_rust_framework.MerkleTree.IntervalTree.Perfect.{Perfect, tip, fork, generate_part_total}
use plasma_rust_framework.MerkleTree.IntervalTree.Complete.{bounds_of, verify-get_inclusion_proof}
use plasma_rust_framework.MerkleTree.IntervalTree.Defect.{get_inclusion_proof_of_third}

unfoldable pub fill : ℕ → Bytes → Bytes
fill zero bytes = []
fill (suc n) [] = n ∷ fill n []
fill (suc n) (b ∷ bytes) = b ∷ fill n bytes

pub length-fill : (n : ℕ) (bytes : Bytes) → length (fill n bytes) ≡ n
unfolding fill
length-fill zero bytes = refl
length-fill (suc n) [] = omega (arith, length-fill n [])
length-fill (suc n) (b ∷ bytes) = omega (arith, length-fill n bytes)

abbrev a : MerkleIntervalNode
a = leaf 10 (1 ∷ [])

abbrev b : MerkleIntervalNode
b = leaf 20 (2 ∷ [])

abbrev c : MerkleIntervalNode
c = leaf 30 (3 ∷ [])

abbrev d : MerkleIntervalNode
d = leaf 40 (4 ∷ [])

abbrev four : List MerkleIntervalNode
four = a ∷ b ∷ c ∷ d ∷ []

verify-get_inclusion_proof_example :
    (t : MerkleIntervalTree) × (bytes : Bytes) × (generate (fill 32) four ≡ some t)
    × (get_inclusion_proof (fill 32) t 2 ≡ some bytes)
    × (verify (fill 32) c 2 bytes (get_root (fill 32) t) ≡ ok (bounds_of four 2 c))
verify-get_inclusion_proof_example =
    verify-get_inclusion_proof (fill 32) (length-fill 32) 2 2 four c (omega arith) (omega arith)
      (omega arith, (omega arith, (omega arith, (omega arith, tt))))
      (
        (omega arith, (omega arith, (omega arith, tt))),
        ((omega arith, (omega arith, tt)), ((omega arith, tt), (tt, tt))),
      )
      refl

abbrev proof : List MerkleIntervalNode
proof = proof_node 10 (fill 32 []) ∷ proof_node 300 (fill 32 (1 ∷ [])) ∷ []

generate_part_total_example :
    (t : MerkleIntervalNode) × (generate_part (fill 32) (a ∷ b ∷ c ∷ []) ≡ some t)
generate_part_total_example = generate_part_total (fill 32) (a ∷ b ∷ c ∷ []) (omega arith)

abbrev perfect : Perfect 1
perfect = fork (tip a) (tip b)

get_inclusion_proof_of_third_example :
    (t : MerkleIntervalTree) × (generate (fill 32) (a ∷ b ∷ c ∷ []) ≡ some t)
    × (t.tree ≡ compute_parent (compute_parent a b) (compute_parent c (create_empty (fill 32))))
    × (get_inclusion_proof_of_tree (fill 32) t.tree 2 3
        ≡ create_proof_node (fill 32) c ∷ create_proof_node (fill 32) (compute_parent a b) ∷ [])
get_inclusion_proof_of_third_example = get_inclusion_proof_of_third (fill 32) a b c

abbrev tree_of_four : MerkleIntervalTree
tree_of_four = record { tree = a; leaves = four }

-- The second leaf has other data with the same hash under `fill 32`.
abbrev pub twin : Bytes
twin = 1 ∷ 30 ∷ []

abbrev pub side : Bytes
side = le_bytes 8 20 ++ fill 32 (2 ∷ [])

abbrev pub pair_root : Bytes
pair_root = hash (fill 32) (compute_parent a b)

abbrev up_to_ten : ImplicitBounds
up_to_ten = record { implicit_start = 0; implicit_end = 10 }

first_accepted : verify (fill 32) (leaf 10 (1 ∷ [])) 0 side pair_root ≡ ok up_to_ten
unfolding verify compute_root decode_proof decode_nodes get_path rotate_right first_left climb
    verify_and_get_parent hash of_le le_bytes cmp fill
first_accepted = refl

second_accepted : verify (fill 32) (leaf 10 twin) 0 side pair_root ≡ ok up_to_ten
unfolding verify compute_root decode_proof decode_nodes get_path rotate_right first_left climb
    verify_and_get_parent hash of_le le_bytes cmp fill
second_accepted = refl

pub side-AreBytes : AreBytes side
unfolding fill le_bytes
side-AreBytes = omega arith

verify_binding_example :
    (((1 ∷ []) ≡ twin) × (40 ≤ length side → ◌≡◌ {A = ℕ} 10 10)) ⊎ Collision (fill 32)
verify_binding_example =
    verify_binding (fill 32) (length-fill 32) 0 10 10 (1 ∷ []) twin side side pair_root up_to_ten
      up_to_ten side-AreBytes side-AreBytes refl (omega arith) (omega arith) first_accepted
      second_accepted
