-- ===== src/MerkleTree/IntervalTree/Complete.antt =====
-- From the leaves of a tree to the accepted inclusion proof.
use plasma_rust_framework.Prelude.{
  ℕ, zero, suc, ◌+◌, ◌-◌, ◌%◌, ◌^◌, ◌≤◌, ◌<◌, ◌≡◌, refl, sym, ap, ◌∙◌, subst, inl, inr, Bool, none,
  some, List, [], ◌∷◌, arith, ◌==◌, if◌then◌else◌, length, get_elem?, All, All-append,
  All-append_left, All-append_right, All-imp,
}
use plasma_rust_framework.MerkleTree.IntervalTree.{
  MerkleIntervalNode, leaf, node, proof_node, ImplicitBounds, MerkleIntervalTree, max_value,
  get_end, hash, create_proof_node, generate, get_root, get_inclusion_proof, verify, decode_proof,
  get_path, encode_proof, get_inclusion_proof_of_tree,
}
use plasma_rust_framework.MerkleTree.IntervalTree.Path.{bits, get_path-eq-bits, pow_pos}
use plasma_rust_framework.MerkleTree.IntervalTree.Perfect.{
  Perfect, tip, fork, leaves_of, node_of, length-leaves_of, shape, generate_part-leaves_of,
}
use plasma_rust_framework.MerkleTree.IntervalTree.Codec.{IsProof, decode-encode_proof}
use plasma_rust_framework.MerkleTree.IntervalTree.Siblings.{
  IsLeaf, split, siblings_left, siblings_right, siblings, length-siblings, proof-siblings,
}
use plasma_rust_framework.MerkleTree.IntervalTree.Before.{previous, first_left-previous}
use plasma_rust_framework.MerkleTree.IntervalTree.Climb.{climb-root}
use plasma_rust_framework.Prelude.Bytes.{Bytes}
use plasma_rust_framework.Prelude.Result.{ok}
use native.Mathlib.Nat.{pow-le-pow_right}
use plasma_rust_framework.MerkleTree.IntervalTree.Order.{Ascending, end_all, Ascending-IsOrdered}
use plasma_rust_framework.MerkleTree.IntervalTree.Outcome.{compute_root-climb, verify_root}

-- The interval that a leaf stands for: from the end of the leaf before it, or 0, up to its own end,
-- or the largest index for the last leaf.
abbrev pub bounds_of : List MerkleIntervalNode → ℕ → MerkleIntervalNode → ImplicitBounds
bounds_of ls idx lf = record {
  implicit_start = elim (previous ls idx) as (λ _. ℕ) [ none ↦ 0 | some end ↦ end ];
  implicit_end = if idx + 1 == length ls then max_value else get_end lf;
}

pow_le : (d : ℕ) → d < 64 → 2 ^ d ≤ 2 ^ 63
pow_le d h = pow-le-pow_right (omega arith) {i = d} {j = 63} (omega arith)

is_last :
    (d idx : ℕ)
    → d < 64
    → idx < 2 ^ d
    → ((2 ^ d + (2 ^ 64 - 1)) % 2 ^ 64 == idx) ≡ (idx + 1 == 2 ^ d)
is_last d idx h o =
    let p : 2 ^ d ≤ 2 ^ 63 = pow_le d h in
    let e : (2 ^ d + (2 ^ 64 - 1)) % 2 ^ 64 ≡ 2 ^ d - 1 = omega (arith, pow_pos d) in
    rw e (ground (arith, pow_pos d))

get_elem?_within :
    (ls : List MerkleIntervalNode) (i : ℕ) (n : MerkleIntervalNode)
    → get_elem? ls i ≡ some n
    → i < length ls
get_elem?_within [] i n h = cc
get_elem?_within (x ∷ ls) zero n h = omega arith
get_elem?_within (x ∷ ls) (suc i) n h = omega (arith, get_elem?_within ls i n h)

module _ (hash_leaf : Bytes → Bytes) where
  module _ (length-hash_leaf : (bytes : Bytes) → length (hash_leaf bytes) ≡ 32) where
    length-hash :
        {d : ℕ} (p : Perfect d)
        → All IsLeaf (leaves_of p)
        → length (hash hash_leaf (node_of p)) ≡ 32
    unfolding hash leaves_of node_of
    length-hash (tip (leaf end d)) a = length-hash_leaf d
    length-hash (tip (node end l r)) a = absurd a.0
    length-hash (tip (proof_node end d)) a = absurd a.0
    length-hash (fork l r) a = length-hash_leaf _

    end_fits : (n : MerkleIntervalNode) → IsLeaf n → get_end n < 2 ^ 64
    end_fits (leaf end d) h = h
    end_fits (node end l r) h = absurd h
    end_fits (proof_node end d) h = absurd h

    create_proof_node-IsProof :
        {d : ℕ} (p : Perfect d)
        → All IsLeaf (leaves_of p)
        → IsProof (create_proof_node hash_leaf (node_of p))
    unfolding create_proof_node
    create_proof_node-IsProof p a =
        (end_all (λ (e : ℕ). e < 2 ^ 64) p (All-imp end_fits (leaves_of p) a), length-hash p a)

    siblings-IsProof :
        {d : ℕ} (p : Perfect d) (idx : ℕ)
        → All IsLeaf (leaves_of p)
        → All IsProof (siblings hash_leaf p idx)
    unfolding leaves_of
    siblings-IsProof (tip n) idx a = unfold siblings in tt
    siblings-IsProof (fork {d} l r) idx a =
        let left = All-append_left IsLeaf (leaves_of l) (leaves_of r) a in
        let right = All-append_right IsLeaf (leaves_of l) (leaves_of r) a in
        elim (split d idx) [
          | inl o ↦ rw (siblings_left hash_leaf l r idx o) (
              All-append IsProof (siblings hash_leaf l idx) _ (siblings-IsProof l idx left)
                (create_proof_node-IsProof r right, tt))
          | inr (j, e) ↦
              rw (e, siblings_right hash_leaf l r j)
                (All-append IsProof (siblings hash_leaf r j) _ (siblings-IsProof r j right)
                  (create_proof_node-IsProof l left, tt))
        ]

    generate_perfect :
        {d : ℕ} (p : Perfect d)
        → generate hash_leaf (leaves_of p)
          ≡ some (record { tree = node_of p; leaves = leaves_of p })
    unfolding generate
    generate_perfect {d} p = rw (generate_part-leaves_of hash_leaf d p, generate) refl

    proof_perfect :
        {d : ℕ} (p : Perfect d) (idx : ℕ) (bytes : Bytes)
        → d < 64
        → All IsLeaf (leaves_of p)
        → encode_proof (siblings hash_leaf p idx) ≡ some bytes
        → get_inclusion_proof hash_leaf (record { tree = node_of p; leaves = leaves_of p }) idx
          ≡ some bytes
    unfolding get_inclusion_proof
    proof_perfect p idx bytes h a e =
        ap encode_proof (
          ap (get_inclusion_proof_of_tree hash_leaf (node_of p) idx) (length-leaves_of p)
          ∙ proof-siblings hash_leaf p idx h a)
        ∙ e

    verify_perfect :
        {d : ℕ} (p : Perfect d) (idx : ℕ) (lf : MerkleIntervalNode) (bytes : Bytes)
        → d < 64
        → Ascending (leaves_of p)
        → get_elem? (leaves_of p) idx ≡ some lf
        → decode_proof bytes ≡ siblings hash_leaf p idx
        → verify hash_leaf lf idx bytes
            (get_root hash_leaf (record { tree = node_of p; leaves = leaves_of p }))
          ≡ ok (bounds_of (leaves_of p) idx lf)
    unfolding get_root
    verify_perfect {d} p idx lf bytes h o g e =
        let within : idx < 2 ^ d =
          omega (arith, get_elem?_within (leaves_of p) idx lf g, length-leaves_of p) in
        let (m, c, (same_hash, same_end)) =
          climb-root hash_leaf p idx lf within (Ascending-IsOrdered p o) g in
        let nodes = siblings hash_leaf p idx in
        let len = length-siblings hash_leaf p idx in
        verify_root hash_leaf lf idx bytes (hash hash_leaf (node_of p)) (hash hash_leaf m) _
          (compute_root-climb hash_leaf lf m idx bytes nodes (bits d idx)
            (previous (leaves_of p) idx) e
            (ap (get_path idx) len ∙ get_path-eq-bits d idx (omega arith))
            (first_left-previous hash_leaf p idx within) c)
          same_hash
        ∙ ap
            (λ (last : Bool). ok (record {
              implicit_start = elim (previous (leaves_of p) idx) as (λ _. ℕ) [
                | none ↦ 0
                | some end ↦ end
              ];
              implicit_end = if last then max_value else get_end lf;
            }))
            (ap (λ (k : ℕ). (2 ^ k + (2 ^ 64 - 1)) % 2 ^ 64 == idx) len
              ∙ is_last d idx h within
              ∙ ap (λ (k : ℕ). idx + 1 == k) (sym (length-leaves_of p)))

    complete :
        {d : ℕ} (p : Perfect d) (idx : ℕ) (ls : List MerkleIntervalNode) (lf : MerkleIntervalNode)
        → leaves_of p ≡ ls
        → d < 64
        → All IsLeaf ls
        → Ascending ls
        → get_elem? ls idx ≡ some lf
        → (t : MerkleIntervalTree) × (bytes : Bytes) × (generate hash_leaf ls ≡ some t)
          × (get_inclusion_proof hash_leaf t idx ≡ some bytes)
          × (verify hash_leaf lf idx bytes (get_root hash_leaf t) ≡ ok (bounds_of ls idx lf))
    complete p idx ls lf e h =
        subst
          (λ (ls : List MerkleIntervalNode).
            All IsLeaf ls
            → Ascending ls
            → get_elem? ls idx ≡ some lf
            → (t : MerkleIntervalTree) × (bytes : Bytes) × (generate hash_leaf ls ≡ some t)
              × (get_inclusion_proof hash_leaf t idx ≡ some bytes)
              × (verify hash_leaf lf idx bytes (get_root hash_leaf t) ≡ ok (bounds_of ls idx lf)))
          e
          (λ a o g.
            let (bytes, encoded, len, decoded) =
              decode-encode_proof (siblings hash_leaf p idx) (siblings-IsProof p idx a) in
            (
              record { tree = node_of p; leaves = leaves_of p },
              bytes,
              generate_perfect p,
              proof_perfect p idx bytes h a encoded,
              verify_perfect p idx lf bytes h o g decoded,
            ))

    -- Where the hash function has 32 bytes of output: of 2 ^ d leaves, d below 64, whose ends are
    -- `u64` and do not fall, `generate` makes a tree, `get_inclusion_proof` makes a proof for each
    -- index, and `verify` accepts the leaf at the index with that proof and the root, and returns
    -- the interval from the end of the leaf before (0 for the first leaf) to the leaf's own end (the
    -- largest index for the last leaf).
    pub verify-get_inclusion_proof :
        (d idx : ℕ) (ls : List MerkleIntervalNode) (lf : MerkleIntervalNode)
        → d < 64
        → length ls ≡ 2 ^ d
        → All IsLeaf ls
        → Ascending ls
        → get_elem? ls idx ≡ some lf
        → (t : MerkleIntervalTree) × (bytes : Bytes) × (generate hash_leaf ls ≡ some t)
          × (get_inclusion_proof hash_leaf t idx ≡ some bytes)
          × (verify hash_leaf lf idx bytes (get_root hash_leaf t) ≡ ok (bounds_of ls idx lf))
    verify-get_inclusion_proof d idx ls lf h n a o g =
        let (p, e) = shape d ls n in complete p idx ls lf e h a o g
