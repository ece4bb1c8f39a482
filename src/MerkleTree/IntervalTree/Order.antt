-- ===== src/MerkleTree/IntervalTree/Order.antt =====
-- Leaves whose ends do not fall, and the ends of the parts of a tree over them.
use plasma_rust_framework.Prelude.{
  ℕ, ◌≤◌, List, [], ◌∷◌, ◌++◌, All, All-append_left, All-append_right,
}
use plasma_rust_framework.MerkleTree.IntervalTree.{MerkleIntervalNode, get_end}
use plasma_rust_framework.MerkleTree.IntervalTree.Perfect.{Perfect, tip, fork, leaves_of, node_of}
use plasma_rust_framework.MerkleTree.IntervalTree.Siblings.{IsOrdered}

-- The ends of the leaves do not fall.
abbrev pub Ascending : List MerkleIntervalNode → Type 0
Ascending [] = Unit
Ascending (a ∷ ls) = All (λ (b : MerkleIntervalNode). get_end a ≤ get_end b) ls × Ascending ls

Ascending-append :
    (xs ys : List MerkleIntervalNode)
    → Ascending (xs ++ ys)
    → Ascending xs
      × Ascending ys
      × All
          (λ (a : MerkleIntervalNode). All (λ (b : MerkleIntervalNode). get_end a ≤ get_end b) ys)
          xs
Ascending-append [] ys h = (tt, h, tt)
Ascending-append (a ∷ xs) ys (h, t) =
    let AtMost : MerkleIntervalNode → Type 0 = λ b. get_end a ≤ get_end b in
    let (x, y, z) = Ascending-append xs ys t in
    ((All-append_left AtMost xs ys h, x), y, (All-append_right AtMost xs ys h, z))

-- The end of a tree is the end of one of its leaves.
pub end_all :
    (P : ℕ → Type 0) {d : ℕ} (p : Perfect d)
    → All (λ (n : MerkleIntervalNode). P (get_end n)) (leaves_of p)
    → P (get_end (node_of p))
unfolding leaves_of node_of
end_all P (tip n) a = a.0
end_all P (fork l r) a =
    end_all P r
      (All-append_right (λ (n : MerkleIntervalNode). P (get_end n)) (leaves_of l) (leaves_of r) a)

All-end :
    (P : ℕ → MerkleIntervalNode → Type 0) {d : ℕ} (p : Perfect d) (ls : List MerkleIntervalNode)
    → All (λ (n : MerkleIntervalNode). All (P (get_end n)) ls) (leaves_of p)
    → All (P (get_end (node_of p))) ls
All-end P p ls a = end_all (λ e. All (P e) ls) p a

pub Ascending-IsOrdered : {d : ℕ} (p : Perfect d) → Ascending (leaves_of p) → IsOrdered p
unfolding leaves_of
Ascending-IsOrdered (tip n) h = tt
Ascending-IsOrdered (fork l r) h =
    let (x, y, z) = Ascending-append (leaves_of l) (leaves_of r) h in
    let le : get_end (node_of l) ≤ get_end (node_of r) =
      end_all (λ e. get_end (node_of l) ≤ e) r (All-end (λ e n. e ≤ get_end n) l (leaves_of r) z) in
    (le, Ascending-IsOrdered l x, Ascending-IsOrdered r y)
