-- ===== src/MerkleTree/DoubleLayerTree.antt =====
-- merkle-interval-tree/src/double_layered_tree.rs: an interval tree for each deposit contract under one address
-- tree. The hash function and the ABI of a proof are parameters, and so is the order in which the iteration
-- over a `HashMap` meets its entries.
pub mod Binding
use plasma_rust_framework.Prelude.{
  ℕ, ◌^◌, ◌<◌, Bool, false, Option, none, some, List, [], ◌∷◌, ◌++◌, ◌==◌, if◌then◌else◌,
}
use plasma_rust_framework.Prelude.Bytes.{Bytes}
use plasma_rust_framework.Prelude.Result.{Result, ok, err}
use plasma_rust_framework.MerkleTree.IntervalTree
use plasma_rust_framework.MerkleTree.IntervalTree.{MerkleIntervalNode, MerkleIntervalTree}
use plasma_rust_framework.MerkleTree.AddressTree
use plasma_rust_framework.MerkleTree.AddressTree.{AddressTreeNode, AddressTree}
use plasma_rust_framework.Abi.{Abi}

pub record InclusionProof : Type 0 where
  pub address_idx : ℕ
  pub interval_idx : ℕ
  pub address_tree_inclusion_proof : Bytes
  pub interval_tree_inclusion_proof : Bytes

-- Both indices are `u64`.
abbrev pub IsValid : InclusionProof → Type 0
IsValid p = (p.address_idx < 2 ^ 64) × (p.interval_idx < 2 ^ 64)

pub record DoubleLayerTreeLeaf : Type 0 where
  pub data' : Bytes
  pub end : ℕ
  pub address : ℕ

-- `From<&DoubleLayerTreeLeaf>`
abbrev pub interval_leaf : DoubleLayerTreeLeaf → MerkleIntervalNode
interval_leaf l = IntervalTree.leaf l.end l.data'

-- A `HashMap` from addresses, as the list of its entries.
module _ {V : Type 0} where
  unfoldable pub find : ℕ → List (ℕ × V) → Option V
  find address [] = none
  find address ((a, v) ∷ entries) = if a == address then some v else find address entries

-- The push to the leaves of an address, which starts a new entry where there is none.
unfoldable pub push_leaf :
    ℕ → MerkleIntervalNode → List (ℕ × List MerkleIntervalNode) → List (ℕ × List MerkleIntervalNode)
push_leaf address lf [] = (address, lf ∷ []) ∷ []
push_leaf address lf ((a, leaves) ∷ entries) =
    if a == address
    then (a, leaves ++ lf ∷ []) ∷ entries
    else (a, leaves) ∷ push_leaf address lf entries

-- The fold of `generate`.
unfoldable pub leaves_set :
    List DoubleLayerTreeLeaf
    → List (ℕ × List MerkleIntervalNode)
    → List (ℕ × List MerkleIntervalNode)
unfolding push_leaf
leaves_set [] acc = acc
leaves_set (l ∷ leaves) acc = leaves_set leaves (push_leaf l.address (interval_leaf l) acc)

pub record DoubleLayerTree : Type 0 where
  pub tree : AddressTree
  pub interval_trees : List (ℕ × MerkleIntervalTree)

abbrev pub get_root : DoubleLayerTree → Bytes
get_root self = AddressTree.get_root self.tree

abbrev pub get_address_index : DoubleLayerTree → ℕ → Option ℕ
get_address_index self address = AddressTree.get_index self.tree address

unfoldable pub get_index : DoubleLayerTree → ℕ → Bytes → Option ℕ
unfolding find
get_index self address data' = elim (find address self.interval_trees) [
  | none ↦ none
  | some tree ↦ IntervalTree.get_index tree data'
]

module _ (hash_leaf : Bytes → Bytes) where
  -- The loop of `generate`; `none` is the panic of the interval tree for no leaves.
  unfoldable pub interval_trees_of :
      List (ℕ × List MerkleIntervalNode)
      → Option (List (ℕ × MerkleIntervalTree) × List AddressTreeNode)
  interval_trees_of [] = some ([], [])
  interval_trees_of ((address, leaves) ∷ entries) = elim (IntervalTree.generate hash_leaf leaves) [
    | none ↦ none
    | some tree ↦ elim (interval_trees_of entries) [
      | none ↦ none
      | some (trees, nodes) ↦ some (
        (address, tree) ∷ trees,
        AddressTree.leaf (IntervalTree.get_root hash_leaf tree) address ∷ nodes,
      )
    ]
  ]

  unfoldable pub generate :
      (List (ℕ × List MerkleIntervalNode) → List (ℕ × List MerkleIntervalNode))
      → List DoubleLayerTreeLeaf
      → Option DoubleLayerTree
  unfolding leaves_set interval_trees_of
  generate order leaves = elim (interval_trees_of (order (leaves_set leaves []))) [
    | none ↦ none
    | some (trees, nodes) ↦ elim (AddressTree.generate hash_leaf nodes) [
      | none ↦ none
      | some tree ↦ some (record { tree = tree; interval_trees = trees })
    ]
  ]

  -- What `verify` does with the result of the interval tree.
  abbrev pub in_address_tree :
      ℕ
      → InclusionProof
      → Bytes
      → Result (Bytes × IntervalTree.ImplicitBounds) IntervalTree.Error
      → Bool
  in_address_tree address proof root (err e) = false
  in_address_tree address proof root (ok (computed_root, bounds)) =
      AddressTree.verify hash_leaf (AddressTree.leaf computed_root address) proof.address_idx
        proof.address_tree_inclusion_proof root

  module _ (abi : Abi InclusionProof IsValid) where
    unfoldable pub get_inclusion_proof : DoubleLayerTree → ℕ → ℕ → Option Bytes
    unfolding find
    get_inclusion_proof self address idx =
        elim (AddressTree.get_inclusion_proof self.tree address) [
          | none ↦ none
          | some address_proof ↦ elim (find address self.interval_trees) [
            | none ↦ none
            | some tree ↦ elim (IntervalTree.get_inclusion_proof hash_leaf tree idx) [
              | none ↦ none
              | some interval_proof ↦ elim (AddressTree.get_index self.tree address) [
                | none ↦ none
                | some address_idx ↦ some (
                    abi.encode (record {
                      address_idx = address_idx;
                      interval_idx = idx;
                      address_tree_inclusion_proof = address_proof;
                      interval_tree_inclusion_proof = interval_proof;
                    }))
              ]
            ]
          ]
        ]

    -- `none` is the panic on bytes that are no proof.
    unfoldable pub verify : DoubleLayerTreeLeaf → Bytes → Bytes → Option Bool
    verify lf inclusion_proof_bytes root = elim (abi.decode inclusion_proof_bytes) [
      | none ↦ none
      | some proof ↦ some (
          in_address_tree lf.address proof root (
            IntervalTree.compute_root hash_leaf (interval_leaf lf) proof.interval_idx
              proof.interval_tree_inclusion_proof))
    ]
