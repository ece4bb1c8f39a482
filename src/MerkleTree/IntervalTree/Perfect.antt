-- ===== src/MerkleTree/IntervalTree/Perfect.antt =====
-- Trees over 2 ^ d leaves: `generate_part` builds the perfect tree.
use plasma_rust_framework.Prelude.{
  ℕ, zero, suc, ◌+◌, ◌*◌, ◌^◌, ◌≤◌, ◌<◌, ◌≡◌, refl, sym, ap, ap₂, ◌∙◌, some, List, [], ◌∷◌, ◌++◌,
  append_assoc, arith, length, take, drop, length-append, take-append-drop, length-take,
  length-drop,
}
use native.Mathlib.Nat.{pow-suc}
use plasma_rust_framework.Prelude.Bytes.{Bytes}
use plasma_rust_framework.MerkleTree.IntervalTree.{
  MerkleIntervalNode, compute_parent, parents, generate_rounds, generate_part,
}
use plasma_rust_framework.MerkleTree.IntervalTree.Path.{pow_pos}

-- The shape of a tree over 2 ^ d nodes.
pub data Perfect : ℕ → Type 0 where
  tip : MerkleIntervalNode → Perfect zero
  fork : {d : ℕ} → Perfect d → Perfect d → Perfect (suc d)

unfoldable pub leaves_of : {d : ℕ} → Perfect d → List MerkleIntervalNode
leaves_of (tip n) = n ∷ []
leaves_of (fork l r) = leaves_of l ++ leaves_of r

unfoldable pub node_of : {d : ℕ} → Perfect d → MerkleIntervalNode
node_of (tip n) = n
node_of (fork l r) = compute_parent (node_of l) (node_of r)

pub length-leaves_of : {d : ℕ} (p : Perfect d) → length (leaves_of p) ≡ 2 ^ d
unfolding leaves_of
length-leaves_of (tip n) = omega arith
length-leaves_of (fork {d} l r) = omega (
  arith,
  length-append (leaves_of l) (leaves_of r),
  length-leaves_of l,
  length-leaves_of r,
  pow-suc 2 d,
)

le-pow : (d : ℕ) → d ≤ 2 ^ d
le-pow zero = omega arith
le-pow (suc d) = omega (arith, pow-suc 2 d, pow_pos d, le-pow d)

-- A list of 2 ^ d nodes has such a shape.
pub shape :
    (d : ℕ) (ls : List MerkleIntervalNode)
    → length ls ≡ 2 ^ d
    → (p : Perfect d) × (leaves_of p ≡ ls)
unfolding leaves_of
shape zero [] h = absurd (omega arith)
shape zero (n ∷ []) h = (tip n, refl)
shape zero (n ∷ m ∷ ls) h = absurd (omega arith)
shape (suc d) ls h =
    let (l, el) = shape d (take (2 ^ d) ls) (omega (arith, length-take (2 ^ d) ls, pow-suc 2 d)) in
    let (r, er) = shape d (drop (2 ^ d) ls) (omega (arith, length-drop (2 ^ d) ls, pow-suc 2 d)) in
    (fork l r, ap₂ (λ (a b : List MerkleIntervalNode). a ++ b) el er ∙ take-append-drop (2 ^ d) ls)

-- The parents of the lowest level.
contract : {d : ℕ} → Perfect (suc d) → Perfect d
contract (fork (tip a) (tip b)) = tip (compute_parent a b)
contract (fork (fork l r) (fork l' r')) = fork (contract (fork l r)) (contract (fork l' r'))

node_of-contract : {d : ℕ} (p : Perfect (suc d)) → node_of (contract p) ≡ node_of p
unfolding node_of contract
node_of-contract (fork (tip a) (tip b)) = refl
node_of-contract (fork (fork l r) (fork l' r')) =
    ap₂ compute_parent (node_of-contract (fork l r)) (node_of-contract (fork l' r'))

module _ (hash_leaf : Bytes → Bytes) where
  -- Chunks of two do not straddle the border between two lists if the first has an even length.
  parents-append :
      {d : ℕ} (p : Perfect (suc d)) (ls : List MerkleIntervalNode)
      → parents hash_leaf (leaves_of p ++ ls)
        ≡ parents hash_leaf (leaves_of p) ++ parents hash_leaf ls
  unfolding parents leaves_of
  parents-append (fork (tip a) (tip b)) ls = refl
  parents-append (fork (fork l r) (fork l' r')) ls =
      let xs = leaves_of (fork l r) in
      let ys = leaves_of (fork l' r') in
      ap (parents hash_leaf) (append_assoc xs ys ls)
      ∙ parents-append (fork l r) (ys ++ ls)
      ∙ ap (λ (t : List MerkleIntervalNode). parents hash_leaf xs ++ t)
          (parents-append (fork l' r') ls)
      ∙ sym (append_assoc (parents hash_leaf xs) (parents hash_leaf ys) (parents hash_leaf ls))
      ∙ ap (λ (t : List MerkleIntervalNode). t ++ parents hash_leaf ls)
          (sym (parents-append (fork l r) ys))

  parents-leaves_of :
      {d : ℕ} (p : Perfect (suc d)) → parents hash_leaf (leaves_of p) ≡ leaves_of (contract p)
  unfolding parents leaves_of contract
  parents-leaves_of (fork (tip a) (tip b)) = refl
  parents-leaves_of (fork (fork l r) (fork l' r')) =
      parents-append (fork l r) (leaves_of (fork l' r'))
      ∙ ap₂ (λ (a b : List MerkleIntervalNode). a ++ b) (parents-leaves_of (fork l r))
          (parents-leaves_of (fork l' r'))

  -- One round on a list that is known to have two elements.
  round :
      (fuel : ℕ) (ls : List MerkleIntervalNode)
      → 1 < length ls
      → generate_rounds hash_leaf (suc fuel) ls
        ≡ generate_rounds hash_leaf fuel (parents hash_leaf ls)
  unfolding generate_rounds
  round fuel [] h = absurd (omega arith)
  round fuel (a ∷ []) h = absurd (omega arith)
  round fuel (a ∷ b ∷ ls) h = refl

  rounds_tip :
      (fuel : ℕ) (p : Perfect zero)
      → generate_rounds hash_leaf fuel (leaves_of p) ≡ some (node_of p)
  unfolding generate_rounds leaves_of node_of
  rounds_tip fuel (tip n) = refl

  rounds :
      (d fuel : ℕ) (p : Perfect d)
      → d ≤ fuel
      → generate_rounds hash_leaf fuel (leaves_of p) ≡ some (node_of p)
  rounds zero fuel p h = rounds_tip fuel p
  rounds (suc d) zero p h = absurd (omega arith)
  rounds (suc d) (suc fuel) p h =
      round fuel (leaves_of p) (omega (arith, length-leaves_of p, pow-suc 2 d, pow_pos d))
      ∙ ap (generate_rounds hash_leaf fuel) (parents-leaves_of p)
      ∙ rounds d fuel (contract p) (omega arith)
      ∙ ap some (node_of-contract p)

  -- Over the leaves of a perfect tree `generate_part`, which joins neighbours round by round, returns
  -- the node of that tree.
  pub generate_part-leaves_of :
      (d : ℕ) (p : Perfect d) → generate_part hash_leaf (leaves_of p) ≡ some (node_of p)
  unfolding generate_part
  generate_part-leaves_of d p =
      rounds d (length (leaves_of p)) p (omega (arith, length-leaves_of p, le-pow d))

  length-parents :
      (ls : List MerkleIntervalNode) → length (parents hash_leaf ls) * 2 ≤ length ls + 1
  unfolding parents
  length-parents [] = omega arith
  length-parents (a ∷ []) = omega arith
  length-parents (a ∷ b ∷ ls) = omega (arith, length-parents ls)

  parents_some :
      (a b : MerkleIntervalNode) (ls : List MerkleIntervalNode)
      → 0 < length (parents hash_leaf (a ∷ b ∷ ls))
  unfolding parents
  parents_some a b ls = omega arith

  rounds_enough :
      (fuel : ℕ) (ls : List MerkleIntervalNode)
      → 0 < length ls
      → length ls ≤ fuel + 1
      → (t : MerkleIntervalNode) × (generate_rounds hash_leaf fuel ls ≡ some t)
  unfolding generate_rounds
  rounds_enough fuel [] h f = absurd (omega arith)
  rounds_enough fuel (a ∷ []) h f = (a, refl)
  rounds_enough zero (a ∷ b ∷ ls) h f = absurd (omega arith)
  rounds_enough (suc fuel) (a ∷ b ∷ ls) h f =
      rounds_enough fuel (parents hash_leaf (a ∷ b ∷ ls)) (parents_some a b ls)
        (omega (arith, length-parents (a ∷ b ∷ ls)))

  -- The recursion of `generate_part` ends, with a tree, for every list but the empty one.
  pub generate_part_total :
      (ls : List MerkleIntervalNode)
      → 0 < length ls
      → (t : MerkleIntervalNode) × (generate_part hash_leaf ls ≡ some t)
  unfolding generate_part
  generate_part_total ls h = rounds_enough (length ls) ls h (omega arith)
