-- ===== src/MerkleTree/IntervalTree/Climb.antt =====
-- What `compute_root` finds on the way from a leaf of a perfect tree to its root.
use plasma_rust_framework.Prelude.{
  ℕ, zero, suc, ◌/◌, ◌^◌, ◌≤◌, ◌<◌, ◌≡◌, refl, sym, ap, ap₂, ◌∙◌, inl, inr, Bool, true, false, some,
  List, [], ◌∷◌, ◌++◌, arith, if◌then◌else◌, length, get_elem?, get_elem?-append_left,
  get_elem?-append_right,
}
use native.Mathlib.Nat.{pow-suc}
use plasma_rust_framework.Prelude.Bytes.{Bytes}
use plasma_rust_framework.Prelude.Result.{Result, ok, err}
use plasma_rust_framework.MerkleTree.IntervalTree.{
  MerkleIntervalNode, Error, get_end, compute_parent, hash, create_proof_node,
  verify_and_get_parent, climb,
}
use plasma_rust_framework.MerkleTree.IntervalTree.Path.{bits, bits_low, bits_high}
use plasma_rust_framework.MerkleTree.IntervalTree.Perfect.{
  Perfect, tip, fork, leaves_of, node_of, length-leaves_of,
}
use plasma_rust_framework.MerkleTree.IntervalTree.Siblings.{
  IsOrdered, split, siblings, siblings_left, siblings_right, length-siblings,
}

pub length-bits : (d n : ℕ) → length (bits d n) ≡ d
unfolding bits
length-bits zero n = refl
length-bits (suc d) n = omega (arith, length-bits d (n / 2))

-- The step of the loop.
abbrev up : Bool → MerkleIntervalNode → MerkleIntervalNode → Result MerkleIntervalNode Error
up p item computed =
    if p then verify_and_get_parent item computed else verify_and_get_parent computed item

through :
    (r : Result MerkleIntervalNode Error)
    (f g : MerkleIntervalNode → Result MerkleIntervalNode Error) (n : MerkleIntervalNode)
    (target : Result MerkleIntervalNode Error)
    → ((m : MerkleIntervalNode) → f m ≡ ok n → g m ≡ target)
    → (elim r as (λ _. Result MerkleIntervalNode Error) [ ok m ↦ f m | err e ↦ err e ]) ≡ ok n
    → (elim r as (λ _. Result MerkleIntervalNode Error) [ ok m ↦ g m | err e ↦ err e ]) ≡ target
through (ok m) f g n target k h = k m h
through (err e) f g n target k h = cc

climb-append :
    (path : List Bool) (proof : List MerkleIntervalNode) (p : Bool)
    (item computed n : MerkleIntervalNode)
    → length path ≡ length proof
    → climb path proof computed ≡ ok n
    → climb (path ++ p ∷ []) (proof ++ item ∷ []) computed ≡ up p item n
unfolding climb
climb-append [] [] p item c n h e = ground arith
climb-append [] (i ∷ proof) p item c n h e = absurd (omega arith)
climb-append (q ∷ path) [] p item c n h e = absurd (omega arith)
climb-append (q ∷ path) (i ∷ proof) p item c n h e =
    through (up q i c) (climb path proof) (climb (path ++ p ∷ []) (proof ++ item ∷ [])) n
      (up p item n) (λ m e'. climb-append path proof p item m n (omega arith) e') e

module _ (hash_leaf : Bytes → Bytes) where
  pub get_end-create_proof_node :
      (n : MerkleIntervalNode) → get_end (create_proof_node hash_leaf n) ≡ get_end n
  unfolding create_proof_node
  get_end-create_proof_node n = refl

  hash-compute_parent :
      (a b a' b' : MerkleIntervalNode)
      → get_end a ≡ get_end a'
      → get_end b ≡ get_end b'
      → hash hash_leaf a ≡ hash hash_leaf a'
      → hash hash_leaf b ≡ hash hash_leaf b'
      → hash hash_leaf (compute_parent a b) ≡ hash hash_leaf (compute_parent a' b')
  unfolding hash
  hash-compute_parent a b a' b' h k m n = cc

  hash-create_proof_node :
      (n : MerkleIntervalNode) → hash hash_leaf (create_proof_node hash_leaf n) ≡ hash hash_leaf n
  unfolding create_proof_node hash
  hash-create_proof_node n = refl

  -- A computed node stands for another one if it has its end and its hash.
  abbrev pub Stands : MerkleIntervalNode → MerkleIntervalNode → Type 0
  Stands m n = (hash hash_leaf m ≡ hash hash_leaf n) × (get_end m ≡ get_end n)

  verify-Stands :
      (m n a b : MerkleIntervalNode)
      → Stands m a
      → Stands n b
      → get_end a ≤ get_end b
      → (verify_and_get_parent m n ≡ ok (compute_parent m n))
        × Stands (compute_parent m n) (compute_parent a b)
  unfolding verify_and_get_parent
  verify-Stands m n a b (h, e) (k, f) o =
      (ground (arith, e, f), (hash-compute_parent m n a b e f h k, f))

  create_proof_node-Stands : (n : MerkleIntervalNode) → Stands (create_proof_node hash_leaf n) n
  create_proof_node-Stands n = (hash-create_proof_node n, get_end-create_proof_node n)

  -- The climb from a leaf of an ordered tree finds no fault and ends at a node with the end and the
  -- hash of the root.
  pub climb-root :
      {d : ℕ} (p : Perfect d) (idx : ℕ) (lf : MerkleIntervalNode)
      → idx < 2 ^ d
      → IsOrdered p
      → get_elem? (leaves_of p) idx ≡ some lf
      → (n : MerkleIntervalNode) × (climb (bits d idx) (siblings hash_leaf p idx) lf ≡ ok n)
        × Stands n (node_of p)
  unfolding node_of leaves_of
  climb-root (tip n) zero lf h o g =
      let e : n ≡ lf = cc in
      (lf, unfold climb bits siblings in refl, (ap (hash hash_leaf) (sym e), ap get_end (sym e)))
  climb-root (tip n) (suc i) lf h o g = absurd (omega arith)
  climb-root (fork {d} l r) idx lf h (e, o, o') g = elim (split d idx) [
    | inl k ↦
        let item = create_proof_node hash_leaf (node_of r) in
        let (m, c, s) = climb-root l idx lf k o (
          sym (
            get_elem?-append_left (leaves_of l) (leaves_of r) idx
              (omega (arith, length-leaves_of l)))
          ∙ g) in
        let (v, w) =
          verify-Stands m item (node_of l) (node_of r) s (create_proof_node-Stands (node_of r)) e in
        (
          compute_parent m item,
          ap₂ (λ (a : List Bool) (b : List MerkleIntervalNode). climb a b lf) (bits_low d idx k)
                (siblings_left hash_leaf l r idx k)
              ∙ climb-append (bits d idx) (siblings hash_leaf l idx) false item lf m
                  (length-bits d idx ∙ sym (length-siblings hash_leaf l idx)) c
              ∙ v,
          w,
        )
    | inr (j, k) ↦
        let item = create_proof_node hash_leaf (node_of l) in
        let (m, c, s) = climb-root r j lf (omega (arith, pow-suc 2 d)) o' (
          sym (
            get_elem?-append_right (leaves_of l) (leaves_of r) idx j
              (omega (arith, length-leaves_of l)))
          ∙ g) in
        let (v, w) =
          verify-Stands item m (node_of l) (node_of r) (create_proof_node-Stands (node_of l)) s e in
        (
          compute_parent item m,
          ap (λ (i : ℕ). climb (bits (suc d) i) (siblings hash_leaf (fork l r) i) lf) k
              ∙ ap₂ (λ (a : List Bool) (b : List MerkleIntervalNode). climb a b lf)
                  (bits_high d j (omega (arith, pow-suc 2 d))) (siblings_right hash_leaf l r j)
              ∙ climb-append (bits d j) (siblings hash_leaf r j) true item lf m
                  (length-bits d j ∙ sym (length-siblings hash_leaf r j)) c
              ∙ v,
          w,
        )
  ]
