-- ===== src/MerkleTree/IntervalTree/Collision.antt =====
-- Two nodes with the same hash are the same, or they give away a collision of the hash function.
use plasma_rust_framework.Prelude.{
  ℕ, ◌^◌, ◌<◌, ◌≡◌, sym, ap, ◌∙◌, ◌≢◌, ◌⊎◌, inl, inr, ◌++◌, Ordering-cases, length,
}
use plasma_rust_framework.Prelude.Bytes.{
  append_inj, Bytes, cmp, differ_of_lt, differ_of_gt, eq_of_cmp,
}
use plasma_rust_framework.Prelude.Words.{le_bytes, of_le, length-le_bytes, of_le-le_bytes, Fits-u64}
use plasma_rust_framework.MerkleTree.IntervalTree.{
  MerkleIntervalNode, get_end, compute_parent, compute_node, hash,
}

abbrev pub Collision : (Bytes → Bytes) → Type 0
Collision hash_leaf = (x : Bytes) × (y : Bytes) × (x ≢ y) × (hash_leaf x ≡ hash_leaf y)

pub eq_or_Collision :
    (hash_leaf : Bytes → Bytes) (x y : Bytes)
    → hash_leaf x ≡ hash_leaf y
    → (x ≡ y) ⊎ Collision hash_leaf
eq_or_Collision hash_leaf x y h = elim (Ordering-cases (cmp x y)) [
  | inl lt ↦ inr (x, y, differ_of_lt x y lt, h)
  | inr (inl e) ↦ inl (eq_of_cmp x y e)
  | inr (inr gt) ↦ inr (x, y, differ_of_gt x y gt, h)
]

module _ (hash_leaf : Bytes → Bytes)
    (length-hash_leaf : (bytes : Bytes) → length (hash_leaf bytes) ≡ 32) where
  -- The same end and the same hash.
  abbrev pub Same : MerkleIntervalNode → MerkleIntervalNode → Type 0
  Same a b = (get_end a ≡ get_end b) × (hash hash_leaf a ≡ hash hash_leaf b)

  compute_node_binding :
      (e e' : ℕ) (h h' : Bytes)
      → e < 2 ^ 64
      → e' < 2 ^ 64
      → compute_node hash_leaf e h ≡ compute_node hash_leaf e' h'
      → ((e ≡ e') × (h ≡ h')) ⊎ Collision hash_leaf
  compute_node_binding e e' h h' f f' same =
      elim (eq_or_Collision hash_leaf (le_bytes 8 e ++ h) (le_bytes 8 e' ++ h') same) [
        | inr c ↦ inr c
        | inl k ↦
            let (p, q) =
              append_inj (le_bytes 8 e) h (le_bytes 8 e') h'
                (length-le_bytes 8 e ∙ sym (length-le_bytes 8 e')) k in
            inl (
              sym (of_le-le_bytes 8 e (Fits-u64 e f))
                  ∙ ap of_le p
                  ∙ of_le-le_bytes 8 e' (Fits-u64 e' f'),
              q,
            )
      ]

  pub parent_binding :
      (a b a' b' : MerkleIntervalNode)
      → get_end a < 2 ^ 64
      → get_end b < 2 ^ 64
      → get_end a' < 2 ^ 64
      → get_end b' < 2 ^ 64
      → hash hash_leaf (compute_parent a b) ≡ hash hash_leaf (compute_parent a' b')
      → (Same a a' × Same b b') ⊎ Collision hash_leaf
  unfolding hash
  parent_binding a b a' b' f g f' g' same =
      let ha = hash hash_leaf a in
      let hb = hash hash_leaf b in
      let ha' = hash hash_leaf a' in
      let hb' = hash hash_leaf b' in
      let na = compute_node hash_leaf (get_end a) ha in
      let nb = compute_node hash_leaf (get_end b) hb in
      let na' = compute_node hash_leaf (get_end a') ha' in
      let nb' = compute_node hash_leaf (get_end b') hb' in
      elim (eq_or_Collision hash_leaf (na ++ nb) (na' ++ nb') same) [
        | inr c ↦ inr c
        | inl k ↦
            let (p, q) =
              append_inj na nb na' nb' (length-hash_leaf _ ∙ sym (length-hash_leaf _)) k in
            elim (compute_node_binding (get_end a) (get_end a') ha ha' f f' p) [
              | inr c ↦ inr c
              | inl s ↦ elim (compute_node_binding (get_end b) (get_end b') hb hb' g g' q) [
                | inr c ↦ inr c
                | inl t ↦ inl (s, t)
              ]
            ]
      ]
