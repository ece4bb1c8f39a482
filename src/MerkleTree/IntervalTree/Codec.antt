-- ===== src/MerkleTree/IntervalTree/Codec.antt =====
-- The byte form of an inclusion proof.
use plasma_rust_framework.Prelude.{
  ℕ, suc, ◌+◌, ◌-◌, ◌*◌, ◌/◌, ◌^◌, ◌<◌, ◌≡◌, refl, sym, ap, ap₂, ◌∙◌, some, List, [], ◌∷◌, ◌++◌,
  append_assoc, arith, length, take, length-append, take-append, drop-append_eq, All,
}
use plasma_rust_framework.Prelude.Bytes.{Bytes}
use plasma_rust_framework.Prelude.Words.{le_bytes, of_le, length-le_bytes, of_le-le_bytes, Fits-u64}
use plasma_rust_framework.MerkleTree.IntervalTree.{
  MerkleIntervalNode, leaf, node, proof_node, encode_proof, decode_proof, decode_nodes, slice,
}

-- A proof node with a `u64` end and a 32-byte hash.
abbrev pub IsProof : MerkleIntervalNode → Type 0
IsProof (proof_node end bytes) = (end < 2 ^ 64) × (length bytes ≡ 32)
IsProof (leaf end bytes) = ⊥
IsProof (node end left right) = ⊥

slice_middle :
    (n m : ℕ) (pre a rest : Bytes)
    → length pre ≡ n
    → n + length a ≡ m
    → slice (pre ++ (a ++ rest)) n m ≡ a
slice_middle n m pre a rest h k =
    ap (take (m - n)) (drop-append_eq n pre (a ++ rest) h)
    ∙ take-append (m - n) a rest (omega arith)

decode_step :
    (n i : ℕ) (pre a b rest : Bytes)
    → length pre ≡ i * 40
    → length a ≡ 8
    → length b ≡ 32
    → decode_nodes (suc n) i (pre ++ (a ++ (b ++ rest)))
      ≡ proof_node (of_le a) b ∷ decode_nodes n (i + 1) ((pre ++ (a ++ b)) ++ rest)
unfolding decode_nodes
decode_step n i pre a b rest h ha hb =
    let whole = pre ++ (a ++ (b ++ rest)) in
    let first : slice whole (i * 40) (i * 40 + 8) ≡ a =
      slice_middle (i * 40) (i * 40 + 8) pre a (b ++ rest) h (omega arith) in
    let regroup : whole ≡ (pre ++ a) ++ (b ++ rest) = sym (append_assoc pre a (b ++ rest)) in
    let second : slice whole (i * 40 + 8) (i * 40 + 40) ≡ b =
      ap (λ (l : Bytes). slice l (i * 40 + 8) (i * 40 + 40)) regroup
      ∙ slice_middle (i * 40 + 8) (i * 40 + 40) (pre ++ a) b rest
          (omega (arith, length-append pre a)) (omega arith) in
    let all : whole ≡ (pre ++ (a ++ b)) ++ rest =
      ap (λ (l : Bytes). pre ++ l) (sym (append_assoc a b rest))
      ∙ sym (append_assoc pre (a ++ b) rest) in
    ap₂ (λ (x : MerkleIntervalNode) (l : List MerkleIntervalNode). x ∷ l)
      (ap₂ proof_node (ap of_le first) second) (ap (decode_nodes n (i + 1)) all)

-- The bytes of a proof.
unfoldable pub bytes_of : List MerkleIntervalNode → Bytes
bytes_of [] = []
bytes_of (proof_node end d ∷ nodes) = le_bytes 8 end ++ (d ++ bytes_of nodes)
bytes_of (n ∷ nodes) = bytes_of nodes

pub encode_proof-bytes_of :
    (nodes : List MerkleIntervalNode)
    → All IsProof nodes
    → encode_proof nodes ≡ some (bytes_of nodes)
unfolding encode_proof bytes_of
encode_proof-bytes_of [] a = refl
encode_proof-bytes_of (proof_node end d ∷ nodes) a =
    rw (encode_proof-bytes_of nodes a.1, encode_proof)
      (ap some (append_assoc (le_bytes 8 end) d (bytes_of nodes)))
encode_proof-bytes_of (leaf end d ∷ nodes) a = absurd a.0
encode_proof-bytes_of (node end l r ∷ nodes) a = absurd a.0

length-bytes_of :
    (nodes : List MerkleIntervalNode)
    → All IsProof nodes
    → length (bytes_of nodes) ≡ length nodes * 40
unfolding bytes_of
length-bytes_of [] a = omega arith
length-bytes_of (proof_node end d ∷ nodes) a = omega (
  arith,
  length-append (le_bytes 8 end) (d ++ bytes_of nodes),
  length-append d (bytes_of nodes),
  length-le_bytes 8 end,
  length-bytes_of nodes a.1,
)
length-bytes_of (leaf end d ∷ nodes) a = absurd a.0
length-bytes_of (node end l r ∷ nodes) a = absurd a.0

decode_nodes-bytes_of :
    (nodes : List MerkleIntervalNode) (i : ℕ) (pre : Bytes)
    → All IsProof nodes
    → length pre ≡ i * 40
    → decode_nodes (length nodes) i (pre ++ bytes_of nodes) ≡ nodes
unfolding bytes_of
decode_nodes-bytes_of [] i pre a h = unfold decode_nodes in refl
decode_nodes-bytes_of (proof_node end d ∷ nodes) i pre a h =
    let le = le_bytes 8 end in
    decode_step (length nodes) i pre le d (bytes_of nodes) h (length-le_bytes 8 end) a.0.1
    ∙ ap₂ (λ (x : MerkleIntervalNode) (l : List MerkleIntervalNode). x ∷ l)
        (ap (λ (e : ℕ). proof_node e d) (of_le-le_bytes 8 end (Fits-u64 end a.0.0)))
        (decode_nodes-bytes_of nodes (i + 1) (pre ++ (le ++ d)) a.1 (
          omega
            (arith, length-append pre (le ++ d), length-append le d, length-le_bytes 8 end, a.0.1)))
decode_nodes-bytes_of (leaf end d ∷ nodes) i pre a h = absurd a.0
decode_nodes-bytes_of (node end l r ∷ nodes) i pre a h = absurd a.0

-- Proof nodes with `u64` ends and 32-byte hashes can be encoded, 40 bytes each, and decoding the
-- bytes gives the same nodes in the same order.
pub decode-encode_proof :
    (nodes : List MerkleIntervalNode)
    → All IsProof nodes
    → (bytes : Bytes) × (encode_proof nodes ≡ some bytes)
      × (length bytes ≡ length nodes * 40)
      × (decode_proof bytes ≡ nodes)
unfolding decode_proof
decode-encode_proof nodes a = (
  bytes_of nodes,
  encode_proof-bytes_of nodes a,
  length-bytes_of nodes a,
  ap (λ (n : ℕ). decode_nodes n 0 (bytes_of nodes))
        (rounds (length (bytes_of nodes)) (length nodes) (length-bytes_of nodes a))
      ∙ decode_nodes-bytes_of nodes 0 [] a (omega arith),
)
  where
    rounds : (m n : ℕ) → m ≡ n * 40 → m / 40 ≡ n
    rounds m n h = omega arith
