-- ===== src/MerkleTree/AddressTree/Binding.antt =====
-- An accepted proof of merkle-interval-tree/src/address_tree.rs binds the leaf, and its address where the proof
-- has a node.
use plasma_rust_framework.Prelude.{
  ℕ, zero, suc, ◌+◌, ◌-◌, ◌*◌, ◌/◌, ◌^◌, ◌≤◌, ◌<◌, ◌≡◌, refl, sym, ap, ◌∙◌, ◌⊎◌, inl, inr, Bool,
  true, false, List, [], ◌∷◌, ◌++◌, arith, length, drop, length-take, length-drop, All,
}
use plasma_rust_framework.Prelude.Bytes.{Bytes, append_inj}
use plasma_rust_framework.Prelude.Words.{be_bytes, of_be, of_be-be_bytes, Fits}
use plasma_rust_framework.MerkleTree.IntervalTree
use plasma_rust_framework.MerkleTree.IntervalTree.{slice, rotate_right}
use plasma_rust_framework.MerkleTree.IntervalTree.Collision.{Collision, eq_or_Collision}
use plasma_rust_framework.MerkleTree.AddressTree.{
  AddressTreeNode, leaf, get_hash, get_address, get_path, decode_nodes, decode_proof, eq_bytes_lem,
  compute_node, parent_hash, compute_parent, parent_at, climb, verify,
}

-- The hash has 32 bytes.
abbrev IsHashed : AddressTreeNode → Type 0
IsHashed n = length (get_hash n) ≡ 32

length-decode_nodes : (n i : ℕ) (bytes : Bytes) → length (decode_nodes n i bytes) ≡ n
unfolding decode_nodes
length-decode_nodes zero i bytes = refl
length-decode_nodes (suc n) i bytes = omega (arith, length-decode_nodes n (i + 1) bytes)

decode_nodes-IsHashed :
    (n i : ℕ) (bytes : Bytes) → (i + n) * 52 ≤ length bytes → All IsHashed (decode_nodes n i bytes)
unfolding decode_nodes
decode_nodes-IsHashed zero i bytes h = tt
decode_nodes-IsHashed (suc n) i bytes h =
    let size = i * 52 + 32 - i * 52 in
    (
      omega (arith, length-take size (drop (i * 52) bytes), length-drop (i * 52) bytes),
      decode_nodes-IsHashed n (i + 1) bytes (omega arith),
    )

length-get_path : (depth idx : ℕ) → length (get_path idx depth) ≡ depth
unfolding IntervalTree.get_path
length-get_path zero idx = refl
length-get_path (suc depth) idx = omega (arith, length-get_path depth (rotate_right idx))

address_inj : (a b : ℕ) → Fits 20 a → Fits 20 b → be_bytes 20 a ≡ be_bytes 20 b → a ≡ b
address_inj a b f g h = sym (of_be-be_bytes 20 a f) ∙ ap of_be h ∙ of_be-be_bytes 20 b g

module _ (hash_leaf : Bytes → Bytes)
    (length-hash_leaf : (bytes : Bytes) → length (hash_leaf bytes) ≡ 32) where
  -- The same hash, and the same bytes of the address.
  abbrev Same : AddressTreeNode → AddressTreeNode → Type 0
  Same a b = (get_hash a ≡ get_hash b) × (be_bytes 20 (get_address a) ≡ be_bytes 20 (get_address b))

  compute_node_binding :
      (a b : AddressTreeNode)
      → IsHashed a
      → IsHashed b
      → compute_node hash_leaf (get_hash a) (get_address a)
        ≡ compute_node hash_leaf (get_hash b) (get_address b)
      → Same a b ⊎ Collision hash_leaf
  compute_node_binding a b f g h =
      elim (eq_or_Collision hash_leaf (get_hash a ++ be_bytes 20 (get_address a))
        (get_hash b ++ be_bytes 20 (get_address b)) h) [
          | inr c ↦ inr c
          | inl k ↦ inl (
              append_inj (get_hash a) (be_bytes 20 (get_address a)) (get_hash b)
                (be_bytes 20 (get_address b)) (f ∙ sym g) k)
        ]

  parent_binding :
      (a b a' b' : AddressTreeNode)
      → IsHashed a
      → IsHashed b
      → IsHashed a'
      → IsHashed b'
      → parent_hash hash_leaf a b ≡ parent_hash hash_leaf a' b'
      → (Same a a' × Same b b') ⊎ Collision hash_leaf
  parent_binding a b a' b' fa fb fa' fb' h =
      let node_of : AddressTreeNode → Bytes =
        λ n. compute_node hash_leaf (get_hash n) (get_address n) in
      elim (eq_or_Collision hash_leaf (node_of a ++ node_of b) (node_of a' ++ node_of b') h) [
        | inr c ↦ inr c
        | inl k ↦
            let (p, q) =
              append_inj (node_of a) (node_of b) (node_of a') (node_of b')
                (length-hash_leaf _ ∙ sym (length-hash_leaf _)) k in
            elim (compute_node_binding a a' fa fa' p) [
              | inr c ↦ inr c
              | inl s ↦ elim (compute_node_binding b b' fb fb' q) [
                | inr c ↦ inr c
                | inl t ↦ inl (s, t)
              ]
            ]
      ]

  parent_at-IsHashed : (p : Bool) (i c : AddressTreeNode) → IsHashed (parent_at hash_leaf p i c)
  unfolding compute_parent
  parent_at-IsHashed true i c = length-hash_leaf _
  parent_at-IsHashed false i c = length-hash_leaf _

  parent_at_binding :
      (p : Bool) (i c j d : AddressTreeNode)
      → IsHashed i
      → IsHashed c
      → IsHashed j
      → IsHashed d
      → get_hash (parent_at hash_leaf p i c) ≡ get_hash (parent_at hash_leaf p j d)
      → Same c d ⊎ Collision hash_leaf
  unfolding compute_parent
  parent_at_binding true i c j d fi fc fj fd h = elim (parent_binding i c j d fi fc fj fd h) [
    | inl s ↦ inl s.1
    | inr k ↦ inr k
  ]
  parent_at_binding false i c j d fi fc fj fd h = elim (parent_binding c i d j fc fi fd fj h) [
    | inl s ↦ inl s.0
    | inr k ↦ inr k
  ]

  climb_binding :
      (path : List Bool) (proof proof' : List AddressTreeNode) (c d : AddressTreeNode)
      → length proof ≡ length path
      → length proof' ≡ length path
      → All IsHashed proof
      → All IsHashed proof'
      → IsHashed c
      → IsHashed d
      → get_hash (climb hash_leaf path proof c) ≡ get_hash (climb hash_leaf path proof' d)
      → ((get_hash c ≡ get_hash d)
          × (0 < length path → be_bytes 20 (get_address c) ≡ be_bytes 20 (get_address d)))
        ⊎ Collision hash_leaf
  unfolding climb
  climb_binding [] proof proof' c d h k a b f g s = inl (s, λ (o : 0 < 0). absurd (omega arith))
  climb_binding (p ∷ path) [] proof' c d h k a b f g s = absurd (omega arith)
  climb_binding (p ∷ path) (i ∷ proof) [] c d h k a b f g s = absurd (omega arith)
  climb_binding (p ∷ path) (i ∷ proof) (j ∷ proof') c d h k a b f g s =
      elim (climb_binding path proof proof' (parent_at hash_leaf p i c) (parent_at hash_leaf p j d)
        (omega arith) (omega arith) a.1 b.1 (parent_at-IsHashed p i c) (parent_at-IsHashed p j d)
        s) [
          | inr x ↦ inr x
          | inl t ↦ elim (parent_at_binding p i c j d a.0 f b.0 g t.0) [
            | inr x ↦ inr x
            | inl u ↦ inl (u.0, λ _. u.1)
          ]
        ]

  -- Where the hash function has 32 bytes of output: if `verify` accepts two leaves with hashes of 32 bytes and addresses
  -- of 160 bits at the same index against the same root, with proofs of the same length, then the leaves have the
  -- same hash, and the same address if the proofs have 52 bytes or more, or there are two byte strings that differ
  -- and have the same hash.
  pub verify_address_binding :
      (idx address address' : ℕ) (h h' proof proof' root : Bytes)
      → length h ≡ 32
      → length h' ≡ 32
      → address < 2 ^ 160
      → address' < 2 ^ 160
      → length proof ≡ length proof'
      → verify hash_leaf (leaf h address) idx proof root ≡ true
      → verify hash_leaf (leaf h' address') idx proof' root ≡ true
      → ((h ≡ h') × (52 ≤ length proof → address ≡ address')) ⊎ Collision hash_leaf
  unfolding verify decode_proof
  verify_address_binding idx address address' h h' proof proof' root f f' fits fits' same v v' =
      let count = length proof / 52 in
      let nodes = decode_nodes count 0 proof in
      let nodes' = decode_nodes (length proof' / 52) 0 proof' in
      let len : length nodes ≡ count = length-decode_nodes count 0 proof in
      let len' : length nodes' ≡ count =
        length-decode_nodes (length proof' / 52) 0 proof' ∙ ap (λ (k : ℕ). k / 52) (sym same) in
      let steps : length (get_path idx count) ≡ count = length-get_path count idx in
      let root_is : get_hash (climb hash_leaf (get_path idx count) nodes (leaf h address)) ≡ root =
        ap (λ (k : ℕ). get_hash (climb hash_leaf (get_path idx k) nodes (leaf h address))) (sym len)
        ∙ eq_bytes_lem _ root v in
      let root_is' : get_hash (climb hash_leaf (get_path idx count) nodes' (leaf h' address'))
          ≡ root =
        ap (λ (k : ℕ). get_hash (climb hash_leaf (get_path idx k) nodes' (leaf h' address')))
          (sym len')
        ∙ eq_bytes_lem _ root v' in
      elim (climb_binding (get_path idx count) nodes nodes' (leaf h address) (leaf h' address')
        (len ∙ sym steps) (len' ∙ sym steps) (decode_nodes-IsHashed count 0 proof (omega arith))
        (decode_nodes-IsHashed (length proof' / 52) 0 proof' (omega arith)) f f'
        (root_is ∙ sym root_is')) [
          | inr x ↦ inr x
          | inl t ↦ inl (
            t.0,
            λ (o : 52 ≤ length proof).
                address_inj address address' (omega arith) (omega arith)
                  (t.1 (omega (arith, steps))),
          )
        ]
