-- ===== src/MerkleTree/IntervalTree/Siblings.antt =====
-- The inclusion proof in a perfect tree: the nodes beside the way from a leaf to the root, and what
-- climbing along them computes.
use plasma_rust_framework.Prelude.{
  ℕ, suc, ◌+◌, ◌-◌, ◌/◌, ◌^◌, ◌≤◌, ◌<◌, ◌≡◌, refl, sym, ap, ◌∙◌, ◌⊎◌, inl, inr, true, false, List,
  [], ◌∷◌, ◌++◌, arith, ltb, lt_or_ge, length, length-append, All, All-append_left,
  All-append_right,
}
use native.Mathlib.Nat.{pow-suc}
use plasma_rust_framework.Prelude.Bytes.{Bytes}
use plasma_rust_framework.MerkleTree.IntervalTree.{
  MerkleIntervalNode, leaf, node, proof_node, get_end, create_proof_node,
  get_inclusion_proof_of_tree, next_power_of_two,
}
use plasma_rust_framework.MerkleTree.IntervalTree.Path.{next_power_of_two_pow}
use plasma_rust_framework.MerkleTree.IntervalTree.Perfect.{Perfect, tip, fork, leaves_of, node_of}

abbrev pub IsLeaf : MerkleIntervalNode → Type 0
IsLeaf (leaf end d) = end < 2 ^ 64
IsLeaf (node end l r) = ⊥
IsLeaf (proof_node end d) = ⊥

-- The ends of the parts rise.
abbrev pub IsOrdered : {d : ℕ} → Perfect d → Type 0
IsOrdered (tip n) = Unit
IsOrdered (fork l r) = (get_end (node_of l) ≤ get_end (node_of r)) × IsOrdered l × IsOrdered r

-- An index is on the left, or a right index behind the left half.
pub split : (d idx : ℕ) → (idx < 2 ^ d) ⊎ ((j : ℕ) × (idx ≡ j + 2 ^ d))
split d idx = elim (lt_or_ge idx (2 ^ d)) [ inl h ↦ inl h | inr h ↦ inr (idx - 2 ^ d, omega arith) ]

module _ (hash_leaf : Bytes → Bytes) where
  unfoldable pub siblings : {d : ℕ} → Perfect d → ℕ → List MerkleIntervalNode
  siblings (tip n) idx = []
  siblings (fork {d} l r) idx = elim (ltb idx (2 ^ d)) [
    | true ↦ siblings l idx ++ create_proof_node hash_leaf (node_of r) ∷ []
    | false ↦ siblings r (idx - 2 ^ d) ++ create_proof_node hash_leaf (node_of l) ∷ []
  ]

  pub siblings_left :
      {d : ℕ} (l r : Perfect d) (idx : ℕ)
      → idx < 2 ^ d
      → siblings (fork l r) idx ≡ siblings l idx ++ create_proof_node hash_leaf (node_of r) ∷ []
  unfolding siblings
  siblings_left l r idx h = ground arith

  siblings_behind :
      {d : ℕ} (l r : Perfect d) (idx : ℕ)
      → 2 ^ d ≤ idx
      → siblings (fork l r) idx
        ≡ siblings r (idx - 2 ^ d) ++ create_proof_node hash_leaf (node_of l) ∷ []
  unfolding siblings
  siblings_behind l r idx h = ground arith

  pub siblings_right :
      {d : ℕ} (l r : Perfect d) (j : ℕ)
      → siblings (fork l r) (j + 2 ^ d)
        ≡ siblings r j ++ create_proof_node hash_leaf (node_of l) ∷ []
  siblings_right {d} l r j =
      siblings_behind l r (j + 2 ^ d) (omega arith)
      ∙ ap (λ (k : ℕ). siblings r k ++ create_proof_node hash_leaf (node_of l) ∷ []) (omega arith)

  pub length-siblings : {d : ℕ} (p : Perfect d) (idx : ℕ) → length (siblings p idx) ≡ d
  unfolding siblings
  length-siblings (tip n) idx = refl
  length-siblings (fork {d} l r) idx = ground (
    arith,
    length-append (siblings l idx) (create_proof_node hash_leaf (node_of r) ∷ []),
    length-append (siblings r (idx - 2 ^ d)) (create_proof_node hash_leaf (node_of l) ∷ []),
    length-siblings l idx,
    length-siblings r (idx - 2 ^ d),
  )

  proof_leaf :
      (n : MerkleIntervalNode) (idx count : ℕ)
      → IsLeaf n
      → get_inclusion_proof_of_tree hash_leaf n idx count ≡ []
  unfolding get_inclusion_proof_of_tree
  proof_leaf (leaf end d) idx count h = refl
  proof_leaf (node end l r) idx count h = absurd h
  proof_leaf (proof_node end d) idx count h = refl

  -- The recursion at a node, with the two counts given.
  proof_cases :
      (end : ℕ) (l r : MerkleIntervalNode) (idx count half other : ℕ)
      → next_power_of_two count / 2 ≡ half
      → count - half ≡ other
      → (idx < half
          → get_inclusion_proof_of_tree hash_leaf (node end l r) idx count
            ≡ get_inclusion_proof_of_tree hash_leaf l idx half
              ++ create_proof_node hash_leaf r ∷ [])
        × (half ≤ idx
            → get_inclusion_proof_of_tree hash_leaf (node end l r) idx count
              ≡ get_inclusion_proof_of_tree hash_leaf r (idx - half) other
                ++ create_proof_node hash_leaf l ∷ [])
  unfolding get_inclusion_proof_of_tree
  proof_cases end l r idx count half other h k = (λ o. ground arith, λ o. ground arith)

  -- The recursion of the code over a perfect tree collects these nodes.
  pub proof-siblings :
      {d : ℕ} (p : Perfect d) (idx : ℕ)
      → d < 64
      → All IsLeaf (leaves_of p)
      → get_inclusion_proof_of_tree hash_leaf (node_of p) idx (2 ^ d) ≡ siblings p idx
  unfolding siblings node_of leaves_of
  proof-siblings (tip n) idx h a = proof_leaf n idx (2 ^ 0) a.0
  proof-siblings (fork {d} l r) idx h a =
      let (left, right) =
        proof_cases (get_end (node_of r)) (node_of l) (node_of r) idx (2 ^ suc d) (2 ^ d) (2 ^ d)
          (omega (arith, next_power_of_two_pow (suc d) h, pow-suc 2 d))
          (omega (arith, pow-suc 2 d)) in
      let in_left =
        proof-siblings l idx (omega arith) (All-append_left IsLeaf (leaves_of l) (leaves_of r) a) in
      let in_right =
        proof-siblings r (idx - 2 ^ d) (omega arith)
          (All-append_right IsLeaf (leaves_of l) (leaves_of r) a) in
      elim (lt_or_ge idx (2 ^ d)) [
        | inl o ↦
            left o
            ∙ ap
                (λ (t : List MerkleIntervalNode). t ++ create_proof_node hash_leaf (node_of r) ∷ [])
                in_left
            ∙ sym (siblings_left l r idx o)
        | inr o ↦
            right o
            ∙ ap
                (λ (t : List MerkleIntervalNode). t ++ create_proof_node hash_leaf (node_of l) ∷ [])
                in_right
            ∙ sym (siblings_behind l r idx o)
      ]
