-- ===== src/MerkleTree/IntervalTree/Lookup.antt =====
-- `get_index` of an interval tree.
use plasma_rust_framework.Prelude.{
  ℕ, zero, suc, ◌≡◌, refl, ◌⊎◌, inl, inr, some, List, [], ◌∷◌, Ordering-cases, All, Any,
}
use plasma_rust_framework.Prelude.Bytes.{Bytes, cmp, differ_of_lt, differ_of_gt, eq_of_cmp}
use plasma_rust_framework.MerkleTree.IntervalTree.{
  MerkleIntervalNode, leaf, node, proof_node, MerkleIntervalTree, position, get_index,
}
use plasma_rust_framework.MerkleTree.IntervalTree.Siblings.{IsLeaf}

-- The data of a leaf.
abbrev pub HasData : Bytes → MerkleIntervalNode → Type 0
HasData data' (leaf end d) = d ≡ data'
HasData data' (node end l r) = ⊥
HasData data' (proof_node end d) = ⊥

-- The node at the index is a leaf with the data, and no node before it is.
abbrev pub IsFirst : Bytes → ℕ → List MerkleIntervalNode → Type 0
IsFirst data' i [] = ⊥
IsFirst data' zero (n ∷ leaves) = HasData data' n
IsFirst data' (suc i) (n ∷ leaves) = (¬ HasData data' n) × IsFirst data' i leaves

behind : {A B : Type 0} → ¬ A → A ⊎ B → B
behind h (inl a) = absurd (h a)
behind h (inr b) = b

position-IsFirst :
    (data' : Bytes) (leaves : List MerkleIntervalNode)
    → All IsLeaf leaves
    → Any (HasData data') leaves
    → (i : ℕ) × (position data' leaves ≡ some i) × IsFirst data' i leaves
unfolding position
position-IsFirst data' [] a h = absurd h
position-IsFirst data' (node end l r ∷ leaves) a h = absurd a.0
position-IsFirst data' (proof_node end d ∷ leaves) a h = absurd a.0
position-IsFirst data' (leaf end d ∷ leaves) a h = elim (Ordering-cases (cmp d data')) [
  | inr (inl e) ↦ (0, rw (e, position) refl, eq_of_cmp d data' e)
  | inl lt ↦
      let differ = differ_of_lt d data' lt in
      let (i, p, q) = position-IsFirst data' leaves a.1 (behind differ h) in
      (suc i, rw (lt, p, position) refl, (differ, q))
  | inr (inr gt) ↦
      let differ = differ_of_gt d data' gt in
      let (i, p, q) = position-IsFirst data' leaves a.1 (behind differ h) in
      (suc i, rw (gt, p, position) refl, (differ, q))
]

-- Where all leaves of a tree are leaves and one has the data, `get_index` returns the index of the first
-- one that has it.
pub get_index-IsFirst :
    (t : MerkleIntervalTree) (data' : Bytes)
    → All IsLeaf t.leaves
    → Any (HasData data') t.leaves
    → (i : ℕ) × (get_index t data' ≡ some i) × IsFirst data' i t.leaves
unfolding get_index
get_index-IsFirst t data' a h = position-IsFirst data' t.leaves a h
