-- ===== src/MerkleTree/IntervalTree/Before.antt =====
-- The node that `compute_root` takes the implicit start from: the first one on the left of the way.
use plasma_rust_framework.Prelude.{
  ℕ, zero, suc, ◌+◌, ◌-◌, ◌^◌, ◌<◌, ◌≡◌, refl, sym, ap, ap₂, ◌∙◌, inl, inr, Bool, true, false,
  Option, none, some, List, [], ◌∷◌, ◌++◌, arith, if◌then◌else◌, length, get_elem?,
  get_elem?-append_left, get_elem?-append_right,
}
use native.Mathlib.Nat.{pow-suc}
use mathlib.Core.Option
use plasma_rust_framework.Prelude.Bytes.{Bytes}
use plasma_rust_framework.MerkleTree.IntervalTree.{
  MerkleIntervalNode, get_end, create_proof_node, first_left,
}
use plasma_rust_framework.MerkleTree.IntervalTree.Path.{bits, bits_low, bits_high, pow_pos}
use plasma_rust_framework.MerkleTree.IntervalTree.Perfect.{
  Perfect, tip, fork, leaves_of, node_of, length-leaves_of,
}
use plasma_rust_framework.MerkleTree.IntervalTree.Siblings.{
  split, siblings, siblings_left, siblings_right, length-siblings,
}
use plasma_rust_framework.MerkleTree.IntervalTree.Climb.{length-bits, get_end-create_proof_node}

first_left-append :
    (path : List Bool) (proof : List MerkleIntervalNode) (p : Bool) (item : MerkleIntervalNode)
    → length path ≡ length proof
    → first_left (path ++ p ∷ []) (proof ++ item ∷ [])
      ≡ (elim (first_left path proof) as (λ _. Option ℕ) [
        | some end ↦ some end
        | none ↦ if p then some (get_end item) else none
      ])
unfolding first_left
first_left-append [] [] p item h = refl
first_left-append [] (i ∷ proof) p item h = absurd (omega arith)
first_left-append (q ∷ path) [] p item h = absurd (omega arith)
first_left-append (true ∷ path) (i ∷ proof) p item h = refl
first_left-append (false ∷ path) (i ∷ proof) p item h =
    first_left-append path proof p item (omega arith)

-- The end of the node before the one at the index.
abbrev pub previous : List MerkleIntervalNode → ℕ → Option ℕ
previous ls zero = none
previous ls (suc i) = Option.map get_end (get_elem? ls i)

last_end :
    {d : ℕ} (p : Perfect d) (i : ℕ)
    → i + 1 ≡ 2 ^ d
    → Option.map get_end (get_elem? (leaves_of p) i) ≡ some (get_end (node_of p))
unfolding leaves_of node_of
last_end (tip n) zero h = refl
last_end (tip n) (suc i) h = absurd (omega arith)
last_end (fork {d} l r) i h =
    let j = i - 2 ^ d in
    ap (Option.map get_end) (
      get_elem?-append_right (leaves_of l) (leaves_of r) i j
        (omega (arith, length-leaves_of l, pow-suc 2 d, pow_pos d)))
    ∙ last_end r j (omega (arith, pow-suc 2 d, pow_pos d))

previous_left :
    (ls rs : List MerkleIntervalNode) (i : ℕ)
    → i < length ls
    → previous (ls ++ rs) i ≡ previous ls i
previous_left ls rs zero h = refl
previous_left ls rs (suc i) h =
    ap (Option.map get_end) (get_elem?-append_left ls rs i (omega arith))

same : (x : Option ℕ) → (elim x as (λ _. Option ℕ) [ some end ↦ some end | none ↦ none ]) ≡ x
same none = refl
same (some e) = refl

abbrev or_else : Option ℕ → ℕ → Option ℕ
or_else x e = elim x as (λ _. Option ℕ) [ some end ↦ some end | none ↦ some e ]

or_else-get_elem? :
    (ls : List MerkleIntervalNode) (i e : ℕ)
    → i < length ls
    → or_else (Option.map get_end (get_elem? ls i)) e ≡ Option.map get_end (get_elem? ls i)
or_else-get_elem? [] i e h = absurd (omega arith)
or_else-get_elem? (x ∷ ls) zero e h = refl
or_else-get_elem? (x ∷ ls) (suc i) e h = or_else-get_elem? ls i e (omega arith)

previous_suc :
    (ls : List MerkleIntervalNode) (k i : ℕ)
    → k ≡ i + 1
    → previous ls k ≡ Option.map get_end (get_elem? ls i)
previous_suc ls zero i h = absurd (omega arith)
previous_suc ls (suc k) i h = ap (λ (n : ℕ). Option.map get_end (get_elem? ls n)) (omega (arith, h))

first : (d : ℕ) → 0 + 2 ^ d ≡ 2 ^ d
first d = omega arith

previous_right :
    {d : ℕ} (l : Perfect d) (rs : List MerkleIntervalNode) (j : ℕ)
    → j < length rs
    → previous (leaves_of l ++ rs) (j + 2 ^ d) ≡ or_else (previous rs j) (get_end (node_of l))
previous_right {d} l rs zero h =
    ap (previous (leaves_of l ++ rs)) (first d)
    ∙ previous_suc (leaves_of l ++ rs) (2 ^ d) (2 ^ d - 1) (omega (arith, pow_pos d))
    ∙ ap (Option.map get_end) (
        get_elem?-append_left (leaves_of l) rs (2 ^ d - 1)
          (omega (arith, pow_pos d, length-leaves_of l)))
    ∙ last_end l (2 ^ d - 1) (omega (arith, pow_pos d))
previous_right {d} l rs (suc i) h =
    previous_suc (leaves_of l ++ rs) (suc i + 2 ^ d) (i + 2 ^ d) (omega arith)
    ∙ ap (Option.map get_end)
        (get_elem?-append_right (leaves_of l) rs (i + 2 ^ d) i (omega (arith, length-leaves_of l)))
    ∙ sym (or_else-get_elem? rs i (get_end (node_of l)) (omega arith))

leaves_of_fork : {d : ℕ} (l r : Perfect d) → leaves_of (fork l r) ≡ leaves_of l ++ leaves_of r
unfolding leaves_of
leaves_of_fork l r = refl

module _ (hash_leaf : Bytes → Bytes) where
  -- The first node on the left of the way ends where the leaf before ends.
  pub first_left-previous :
      {d : ℕ} (p : Perfect d) (idx : ℕ)
      → idx < 2 ^ d
      → first_left (bits d idx) (siblings hash_leaf p idx) ≡ previous (leaves_of p) idx
  first_left-previous (tip n) zero h = unfold first_left bits in refl
  first_left-previous (tip n) (suc i) h = absurd (omega arith)
  first_left-previous (fork {d} l r) idx h = elim (split d idx) [
    | inl o ↦
        ap₂ first_left (bits_low d idx o) (siblings_left hash_leaf l r idx o)
        ∙ first_left-append (bits d idx) (siblings hash_leaf l idx) false
            (create_proof_node hash_leaf (node_of r))
            (length-bits d idx ∙ sym (length-siblings hash_leaf l idx))
        ∙ same (first_left (bits d idx) (siblings hash_leaf l idx))
        ∙ first_left-previous l idx o
        ∙ sym (previous_left (leaves_of l) (leaves_of r) idx (omega (arith, length-leaves_of l)))
        ∙ ap (λ (ls : List MerkleIntervalNode). previous ls idx) (sym (leaves_of_fork l r))
    | inr (j, e) ↦
        ap (λ (k : ℕ). first_left (bits (suc d) k) (siblings hash_leaf (fork l r) k)) e
        ∙ ap₂ first_left (bits_high d j (omega (arith, pow-suc 2 d)))
            (siblings_right hash_leaf l r j)
        ∙ first_left-append (bits d j) (siblings hash_leaf r j) true
            (create_proof_node hash_leaf (node_of l))
            (length-bits d j ∙ sym (length-siblings hash_leaf r j))
        ∙ ap₂ or_else (first_left-previous r j (omega (arith, pow-suc 2 d)))
            (get_end-create_proof_node hash_leaf (node_of l))
        ∙ sym (previous_right l (leaves_of r) j (omega (arith, length-leaves_of r, pow-suc 2 d)))
        ∙ ap₂ previous (sym (leaves_of_fork l r)) (sym e)
  ]
