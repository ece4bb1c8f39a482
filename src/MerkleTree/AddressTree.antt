-- ===== src/MerkleTree/AddressTree.antt =====
-- merkle-interval-tree/src/address_tree.rs: the tree over the deposit contracts, each leaf the root of a
-- contract's interval tree. `hash_leaf` (hash.rs) is the parameter, addresses are 160-bit numbers.
pub mod Binding
pub mod Single
use plasma_rust_framework.Prelude.{
  ℕ, zero, suc, ◌+◌, ◌-◌, ◌*◌, ◌/◌, Ordering, ◌≡◌, refl, inl, inr, Bool, true, false, Option, none,
  some, List, [], ◌∷◌, ◌++◌, arith, ltb, ◌==◌, if◌then◌else◌, Ordering-cases, length,
}
use plasma_rust_framework.Prelude.Bytes.{Bytes, cmp, eq_of_cmp, cmp_refl}
use plasma_rust_framework.Prelude.Words.{be_bytes, of_be}
use plasma_rust_framework.MerkleTree.IntervalTree
use plasma_rust_framework.MerkleTree.IntervalTree.{next_power_of_two, slice}

pub data AddressTreeNode : Type 0 where
  leaf : Bytes → ℕ → AddressTreeNode
  node : Bytes → ℕ → AddressTreeNode → AddressTreeNode → AddressTreeNode
  proof_node : Bytes → ℕ → AddressTreeNode

abbrev pub get_hash : AddressTreeNode → Bytes
get_hash (leaf hash address) = hash
get_hash (node hash address left right) = hash
get_hash (proof_node hash address) = hash

abbrev pub get_address : AddressTreeNode → ℕ
get_address (leaf hash address) = address
get_address (node hash address left right) = address
get_address (proof_node hash address) = address

abbrev pub create_proof_node : AddressTreeNode → AddressTreeNode
create_proof_node n = proof_node (get_hash n) (get_address n)

-- `none` is the panic for leaves and inner nodes.
unfoldable pub encode : AddressTreeNode → Option Bytes
encode (proof_node hash address) = some (hash ++ be_bytes 20 address)
encode _ = none

unfoldable pub encode_proof : List AddressTreeNode → Option Bytes
unfolding encode
encode_proof [] = some []
encode_proof (n ∷ nodes) = elim (encode n) [
  | none ↦ none
  | some bytes ↦ elim (encode_proof nodes) [ none ↦ none | some rest ↦ some (bytes ++ rest) ]
]

-- The loop of `decode_proof`, whose slices stay within the bytes.
unfoldable pub decode_nodes : ℕ → ℕ → Bytes → List AddressTreeNode
decode_nodes zero i bytes = []
decode_nodes (suc n) i bytes =
    let index = i * 52 in
    proof_node (slice bytes index (index + 32)) (of_be (slice bytes (index + 32) (index + 52)))
    ∷ decode_nodes n (i + 1) bytes

unfoldable pub decode_proof : Bytes → List AddressTreeNode
unfolding decode_nodes
decode_proof inclusion_proof = decode_nodes (length inclusion_proof / 52) 0 inclusion_proof

-- The code of `get_path` is that of the interval tree.
abbrev pub get_path : ℕ → ℕ → List Bool
get_path = IntervalTree.get_path

pub record AddressTree : Type 0 where
  pub tree : AddressTreeNode
  pub leaves : List AddressTreeNode

-- `iter().position(…)` on the addresses of the leaves.
unfoldable pub position : ℕ → List AddressTreeNode → Option ℕ
position address [] = none
position address (s ∷ leaves) =
    let next = position address leaves in
    if get_address s == address then some 0 else elim next [ none ↦ none | some i ↦ some (suc i) ]

-- `none` is the panic on an address that is not found.
unfoldable pub get_index : AddressTree → ℕ → Option ℕ
unfolding position
get_index self address = position address self.leaves

unfoldable pub get_inclusion_proof_of_tree : AddressTreeNode → ℕ → ℕ → List AddressTreeNode
unfolding next_power_of_two
get_inclusion_proof_of_tree (leaf hash address) idx count = []
get_inclusion_proof_of_tree (node hash address left right) idx count =
    let left_count = next_power_of_two count / 2 in
    elim (ltb idx left_count) [
      | true ↦ get_inclusion_proof_of_tree left idx left_count ++ create_proof_node right ∷ []
      | false ↦
          get_inclusion_proof_of_tree right (idx - left_count) (count - left_count)
          ++ create_proof_node left ∷ []
    ]
get_inclusion_proof_of_tree (proof_node hash address) idx count = []

unfoldable pub get_inclusion_proof : AddressTree → ℕ → Option Bytes
unfolding get_index get_inclusion_proof_of_tree encode_proof
get_inclusion_proof self address = elim (get_index self address) [
  | none ↦ none
  | some index ↦ encode_proof (get_inclusion_proof_of_tree self.tree index (length self.leaves))
]

abbrev pub get_root : AddressTree → Bytes
get_root self = get_hash self.tree

-- `==` on byte strings
abbrev pub eq_bytes : Bytes → Bytes → Bool
eq_bytes a b = elim (cmp a b) [ Ordering.eq ↦ true | _ ↦ false ]

pub eq_bytes_lem : (a b : Bytes) → eq_bytes a b ≡ true → a ≡ b
eq_bytes_lem a b h = elim (Ordering-cases (cmp a b)) [
  | inl lt ↦ ground (arith, lt)
  | inr (inl e) ↦ eq_of_cmp a b e
  | inr (inr gt) ↦ ground (arith, gt)
]

pub eq_bytes_refl : (a : Bytes) → eq_bytes a a ≡ true
eq_bytes_refl a = rw (cmp_refl a, eq_bytes) refl

module _ (hash_leaf : Bytes → Bytes) where
  abbrev pub create_empty : AddressTreeNode
  create_empty = leaf (hash_leaf (0 ∷ [])) 0

  abbrev pub compute_node : Bytes → ℕ → Bytes
  compute_node hash address = hash_leaf (hash ++ be_bytes 20 address)

  abbrev pub parent_hash : AddressTreeNode → AddressTreeNode → Bytes
  parent_hash left right = hash_leaf (
      compute_node (get_hash left) (get_address left)
      ++ compute_node (get_hash right) (get_address right))

  unfoldable pub compute_parent : AddressTreeNode → AddressTreeNode → AddressTreeNode
  compute_parent left right = node (parent_hash left right) (get_address left) left right

  -- One round of `generate_part`: the parents of the chunks of two.
  unfoldable pub parents : List AddressTreeNode → List AddressTreeNode
  unfolding compute_parent
  parents [] = []
  parents (a ∷ []) = compute_parent a create_empty ∷ []
  parents (a ∷ b ∷ leaves) = compute_parent a b ∷ parents leaves

  -- `none` for the empty list, at which the index panics; the fuel bounds the rounds.
  unfoldable pub generate_rounds : ℕ → List AddressTreeNode → Option AddressTreeNode
  unfolding parents
  generate_rounds fuel [] = none
  generate_rounds fuel (a ∷ []) = some a
  generate_rounds zero (a ∷ b ∷ leaves) = none
  generate_rounds (suc fuel) (a ∷ b ∷ leaves) = generate_rounds fuel (parents (a ∷ b ∷ leaves))

  -- The number of leaves at least halves, rounded up, in each round.
  unfoldable pub generate_part : List AddressTreeNode → Option AddressTreeNode
  unfolding generate_rounds
  generate_part leaves = generate_rounds (length leaves) leaves

  unfoldable pub generate : List AddressTreeNode → Option AddressTree
  unfolding generate_part
  generate leaves = elim (generate_part leaves) [
    | none ↦ none
    | some tree ↦ some (record { tree = tree; leaves = leaves })
  ]

  abbrev pub parent_at : Bool → AddressTreeNode → AddressTreeNode → AddressTreeNode
  parent_at p item computed =
      if p then compute_parent item computed else compute_parent computed item

  -- The loop of `verify`.
  unfoldable pub climb : List Bool → List AddressTreeNode → AddressTreeNode → AddressTreeNode
  unfolding compute_parent
  climb [] proof computed = computed
  climb (p ∷ path) [] computed = computed
  climb (p ∷ path) (item ∷ proof) computed = climb path proof (parent_at p item computed)

  unfoldable pub verify : AddressTreeNode → ℕ → Bytes → Bytes → Bool
  unfolding decode_proof climb
  verify lf idx inclusion_proof_bytes root =
      let inclusion_proof = decode_proof inclusion_proof_bytes in
      eq_bytes (get_hash (climb (get_path idx (length inclusion_proof)) inclusion_proof lf)) root
