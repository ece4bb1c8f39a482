-- ===== src/MerkleTree/AddressTree/Single.antt =====
-- The address tree of merkle-interval-tree/src/address_tree.rs over one contract.
use plasma_rust_framework.Prelude.{ℕ, ◌≡◌, refl, true, some, [], ◌∷◌, ==_refl}
use plasma_rust_framework.Prelude.Bytes.{Bytes}
use plasma_rust_framework.MerkleTree.IntervalTree
use plasma_rust_framework.MerkleTree.AddressTree.{
  AddressTree, leaf, position, get_index, get_inclusion_proof_of_tree, get_inclusion_proof,
  get_root, encode_proof, decode_nodes, decode_proof, eq_bytes_refl, generate_rounds, generate_part,
  generate, climb, verify,
}

-- Over one leaf, the tree has the leaf's hash as its root and the empty string as the inclusion proof, and `verify` accepts
-- this proof for the hash with every other address, at every index.
pub verify_any_address :
    (hash_leaf : Bytes → Bytes) (hash : Bytes) (address other idx : ℕ)
    → (t : AddressTree) × (generate hash_leaf (leaf hash address ∷ []) ≡ some t)
      × (get_inclusion_proof t address ≡ some [])
      × (verify hash_leaf (leaf hash other) idx [] (get_root t) ≡ true)
unfolding generate generate_part generate_rounds get_inclusion_proof get_index position
    get_inclusion_proof_of_tree encode_proof verify decode_proof decode_nodes climb
    IntervalTree.get_path
verify_any_address hash_leaf hash address other idx = (
  record { tree = leaf hash address; leaves = leaf hash address ∷ [] },
  refl,
  rw (==_refl address, get_inclusion_proof) refl,
  eq_bytes_refl hash,
)
