-- ===== src/MerkleTree/IntervalTree/Binding.antt =====
-- An accepted inclusion proof binds the leaf: a second leaf under the same root gives away a
-- collision of the hash function.
use plasma_rust_framework.Prelude.{
  ℕ, zero, suc, ◌+◌, ◌-◌, ◌*◌, ◌/◌, ◌^◌, ◌≤◌, ◌<◌, Ordering, ◌≡◌, refl, sym, ap, ◌∙◌, ◌⊎◌, inl, inr,
  Bool, true, false, Option, List, [], ◌∷◌, arith, ltb, if◌then◌else◌, Bool-cases, Ordering-cases,
  length, take, drop, All,
}
use plasma_rust_framework.Prelude.Bytes.{Bytes, cmp, eq_of_cmp}
use plasma_rust_framework.Prelude.Words.{of_le}
use plasma_rust_framework.Prelude.Result.{Result, ok, err}
use plasma_rust_framework.MerkleTree.IntervalTree.{
  MerkleIntervalNode, leaf, Error, verify_error, ImplicitBounds, get_end, compute_parent, hash,
  verify_and_get_parent, climb, slice, decode_nodes, decode_proof, get_path, rotate_right,
  first_left, compute_root, verify,
}
use native.Mathlib.Nat.{pow-suc}
use plasma_rust_framework.MerkleTree.IntervalTree.Outcome.{outcome, outcome_lem}
use plasma_rust_framework.MerkleTree.IntervalTree.Collision.{
  Collision, Same, parent_binding, eq_or_Collision,
}

abbrev EndFits : MerkleIntervalNode → Type 0
EndFits n = get_end n < 2 ^ 64

abbrev pub parent_at : Bool → MerkleIntervalNode → MerkleIntervalNode → MerkleIntervalNode
parent_at p item computed = if p then compute_parent item computed else compute_parent computed item

pub climb_step :
    (p : Bool) (path : List Bool) (i c n : MerkleIntervalNode) (proof : List MerkleIntervalNode)
    → climb (p ∷ path) (i ∷ proof) c ≡ ok n
    → climb path proof (parent_at p i c) ≡ ok n
unfolding climb verify_and_get_parent
climb_step true path i c n proof h = elim (Bool-cases (ltb (get_end c) (get_end i))) [
  | inl t ↦ cc
  | inr f ↦ rw (f, climb) at h
]
climb_step false path i c n proof h = elim (Bool-cases (ltb (get_end i) (get_end c))) [
  | inl t ↦ cc
  | inr f ↦ rw (f, climb) at h
]

pub climb_done :
    (proof : List MerkleIntervalNode) (c n : MerkleIntervalNode) → climb [] proof c ≡ ok n → c ≡ n
unfolding climb
climb_done proof c n h = cc

parent_at-EndFits :
    (p : Bool) (i c : MerkleIntervalNode) → EndFits i → EndFits c → EndFits (parent_at p i c)
parent_at-EndFits true i c h k = k
parent_at-EndFits false i c h k = h

err_not_ok : {A E : Type 0} {e : E} {a : A} → ¬ (err e ≡ ok a)
err_not_ok h = cc

ok_first :
    {root root' : Bytes} {c c' : ImplicitBounds} (r : Result (Bytes × ImplicitBounds) Error)
    → r ≡ ok (root, c)
    → r ≡ ok (root', c')
    → root ≡ root'
ok_first r h k = cc

length-get_path : (depth idx : ℕ) → length (get_path idx depth) ≡ depth
unfolding get_path
length-get_path zero idx = refl
length-get_path (suc depth) idx = omega (arith, length-get_path depth (rotate_right idx))

length-decode_nodes : (n i : ℕ) (bytes : Bytes) → length (decode_nodes n i bytes) ≡ n
unfolding decode_nodes
length-decode_nodes zero i bytes = refl
length-decode_nodes (suc n) i bytes = omega (arith, length-decode_nodes n (i + 1) bytes)

-- Byte strings in the proper sense.
abbrev pub AreBytes : Bytes → Type 0
AreBytes bytes = All (λ (b : ℕ). b < 256) bytes

take-AreBytes : (n : ℕ) (bytes : Bytes) → AreBytes bytes → AreBytes (take n bytes)
take-AreBytes zero bytes a = tt
take-AreBytes (suc n) [] a = tt
take-AreBytes (suc n) (b ∷ bytes) a = (a.0, take-AreBytes n bytes a.1)

drop-AreBytes : (n : ℕ) (bytes : Bytes) → AreBytes bytes → AreBytes (drop n bytes)
drop-AreBytes zero bytes a = a
drop-AreBytes (suc n) [] a = tt
drop-AreBytes (suc n) (b ∷ bytes) a = drop-AreBytes n bytes a.1

length-take_le : (n : ℕ) (bytes : Bytes) → length (take n bytes) ≤ n
length-take_le zero bytes = omega arith
length-take_le (suc n) [] = omega arith
length-take_le (suc n) (b ∷ bytes) = omega (arith, length-take_le n bytes)

of_le_bound : (k : ℕ) (bytes : Bytes) → length bytes ≤ k → AreBytes bytes → of_le bytes < 256 ^ k
unfolding of_le
of_le_bound zero [] h a = omega arith
of_le_bound zero (b ∷ bytes) h a = absurd (omega arith)
of_le_bound (suc k) [] h a = omega (arith, of_le_bound k [] (omega arith) tt, pow-suc 256 k)
of_le_bound (suc k) (b ∷ bytes) h a =
    omega (arith, of_le_bound k bytes (omega arith) a.1, a.0, pow-suc 256 k)

decode_nodes-EndFits :
    (n i : ℕ) (bytes : Bytes) → AreBytes bytes → All EndFits (decode_nodes n i bytes)
unfolding decode_nodes
decode_nodes-EndFits zero i bytes a = tt
decode_nodes-EndFits (suc n) i bytes a =
    let size = i * 40 + 8 - i * 40 in
    (
      omega (
        arith,
        of_le_bound 8 (slice bytes (i * 40) (i * 40 + 8))
            (omega (arith, length-take_le size (drop (i * 40) bytes)))
            (take-AreBytes size (drop (i * 40) bytes) (drop-AreBytes (i * 40) bytes a)),
      ),
      decode_nodes-EndFits n (i + 1) bytes a,
    )

module _ (hash_leaf : Bytes → Bytes)
    (length-hash_leaf : (bytes : Bytes) → length (hash_leaf bytes) ≡ 32) where
  parent_at_binding :
      (p : Bool) (i c j d : MerkleIntervalNode)
      → EndFits i
      → EndFits c
      → EndFits j
      → EndFits d
      → hash hash_leaf (parent_at p i c) ≡ hash hash_leaf (parent_at p j d)
      → Same hash_leaf length-hash_leaf c d ⊎ Collision hash_leaf
  parent_at_binding true i c j d fi fc fj fd h =
      elim (parent_binding hash_leaf length-hash_leaf i c j d fi fc fj fd h) [
        | inl s ↦ inl s.1
        | inr k ↦ inr k
      ]
  parent_at_binding false i c j d fi fc fj fd h =
      elim (parent_binding hash_leaf length-hash_leaf c i d j fc fi fd fj h) [
        | inl s ↦ inl s.0
        | inr k ↦ inr k
      ]

  climb_binding :
      (path : List Bool) (proof proof' : List MerkleIntervalNode) (c d n m : MerkleIntervalNode)
      → length proof ≡ length path
      → length proof' ≡ length path
      → All EndFits proof
      → All EndFits proof'
      → EndFits c
      → EndFits d
      → climb path proof c ≡ ok n
      → climb path proof' d ≡ ok m
      → hash hash_leaf n ≡ hash hash_leaf m
      → ((hash hash_leaf c ≡ hash hash_leaf d) × (0 < length path → get_end c ≡ get_end d))
        ⊎ Collision hash_leaf
  climb_binding [] proof proof' c d n m h k a b f g e e' s =
      let p = climb_done proof c n e in
      let q = climb_done proof' d m e' in
      inl (
        ap (hash hash_leaf) p ∙ s ∙ ap (hash hash_leaf) (sym q),
        λ (o : 0 < 0). absurd (omega arith),
      )
  climb_binding (p ∷ path) [] proof' c d n m h k a b f g e e' s = absurd (omega arith)
  climb_binding (p ∷ path) (i ∷ proof) [] c d n m h k a b f g e e' s = absurd (omega arith)
  climb_binding (p ∷ path) (i ∷ proof) (j ∷ proof') c d n m h k a b f g e e' s =
      elim (climb_binding path proof proof' (parent_at p i c) (parent_at p j d) n m (omega arith)
        (omega arith) a.1 b.1 (parent_at-EndFits p i c a.0 f) (parent_at-EndFits p j d b.0 g)
        (climb_step p path i c n proof e) (climb_step p path j d m proof' e') s) [
          | inr x ↦ inr x
          | inl t ↦ elim (parent_at_binding p i c j d a.0 f b.0 g t.0) [
            | inr x ↦ inr x
            | inl u ↦ inl (u.1, λ _. u.0)
          ]
        ]

  verified :
      (r : Result (Bytes × ImplicitBounds) Error) (root : Bytes) (b : ImplicitBounds)
      → (elim r as (λ _. Result ImplicitBounds Error) [
        | err e ↦ err verify_error
        | ok (computed_root, bounds) ↦ elim (cmp computed_root root) [
          | Ordering.eq ↦ ok bounds
          | _ ↦ err verify_error
        ]
      ])
        ≡ ok b
      → (c : ImplicitBounds) × (r ≡ ok (root, c))
  verified (err e) root b h = cc
  verified (ok (computed, c)) root b h = elim (Ordering-cases (cmp computed root)) [
    | inl lt ↦ absurd (err_not_ok (rw lt at h))
    | inr (inl e) ↦ (c, ap (λ (x : Bytes). ok (x, c)) (eq_of_cmp computed root e))
    | inr (inr gt) ↦ absurd (err_not_ok (rw gt at h))
  ]

  climbed :
      (lf : MerkleIntervalNode) (idx : ℕ) (ns : List MerkleIntervalNode) (before : Option ℕ)
      (r : Result MerkleIntervalNode Error) (root : Bytes) (c : ImplicitBounds)
      → outcome hash_leaf lf idx ns before r ≡ ok (root, c)
      → (n : MerkleIntervalNode) × (r ≡ ok n) × (hash hash_leaf n ≡ root)
  climbed lf idx ns before (ok n) root c h =
      (n, refl, ok_first (outcome hash_leaf lf idx ns before (ok n)) refl h)
  climbed lf idx ns before (err e) root c h = cc

  -- What stands behind a computed root.
  pub compute_root-inv :
      (lf : MerkleIntervalNode) (idx : ℕ) (bytes root : Bytes) (c : ImplicitBounds)
      → compute_root hash_leaf lf idx bytes ≡ ok (root, c)
      → (n : MerkleIntervalNode) × (climb
            (get_path idx (length (decode_proof bytes)))
            (decode_proof bytes)
            lf
          ≡ ok n)
        × (hash hash_leaf n ≡ root)
  compute_root-inv lf idx bytes root c e =
      climbed lf idx (decode_proof bytes)
        (first_left (get_path idx (length (decode_proof bytes))) (decode_proof bytes))
        (climb (get_path idx (length (decode_proof bytes))) (decode_proof bytes) lf) root c
        (sym (outcome_lem hash_leaf lf idx bytes) ∙ e)

  -- The leaves behind one computed root.
  pub compute_root_binding :
      (idx e e' : ℕ) (d d' proof proof' root : Bytes) (b b' : ImplicitBounds)
      → AreBytes proof
      → AreBytes proof'
      → length proof ≡ length proof'
      → e < 2 ^ 64
      → e' < 2 ^ 64
      → compute_root hash_leaf (leaf e d) idx proof ≡ ok (root, b)
      → compute_root hash_leaf (leaf e' d') idx proof' ≡ ok (root, b')
      → ((d ≡ d') × (40 ≤ length proof → e ≡ e')) ⊎ Collision hash_leaf
  unfolding decode_proof hash
  compute_root_binding idx e e' d d' proof proof' root b b' a a' same f f' h h' =
      let (n, c, r) = compute_root-inv (leaf e d) idx proof root b h in
      let (n', c', r') = compute_root-inv (leaf e' d') idx proof' root b' h' in
      let count = length proof / 40 in
      let nodes = decode_nodes count 0 proof in
      let nodes' = decode_nodes (length proof' / 40) 0 proof' in
      let len : length nodes ≡ count = length-decode_nodes count 0 proof in
      let len' : length nodes' ≡ count =
        length-decode_nodes (length proof' / 40) 0 proof' ∙ ap (λ (k : ℕ). k / 40) (sym same) in
      let steps : length (get_path idx count) ≡ count = length-get_path count idx in
      elim (climb_binding (get_path idx count) nodes nodes' (leaf e d) (leaf e' d') n n'
        (len ∙ sym steps) (len' ∙ sym steps) (decode_nodes-EndFits count 0 proof a)
        (decode_nodes-EndFits (length proof' / 40) 0 proof' a') f f'
        (ap (λ (k : ℕ). climb (get_path idx k) nodes (leaf e d)) (sym len) ∙ c)
        (ap (λ (k : ℕ). climb (get_path idx k) nodes' (leaf e' d')) (sym len') ∙ c') (r ∙ sym r')) [
          | inr x ↦ inr x
          | inl t ↦ elim (eq_or_Collision hash_leaf d d' t.0) [
            | inr x ↦ inr x
            | inl q ↦ inl (q, λ (o : 40 ≤ length proof). t.1 (omega (arith, steps)))
          ]
        ]

  -- Where the hash function has 32 bytes of output: if `verify` accepts two leaves with `u64` ends
  -- at the same index against the same root, with proofs that are byte strings of the same length,
  -- then the leaves have the same data, and the same end if the proofs have 40 bytes or more, or
  -- there are two byte strings that differ and have the same hash.
  pub verify_binding :
      (idx e e' : ℕ) (d d' proof proof' root : Bytes) (b b' : ImplicitBounds)
      → AreBytes proof
      → AreBytes proof'
      → length proof ≡ length proof'
      → e < 2 ^ 64
      → e' < 2 ^ 64
      → verify hash_leaf (leaf e d) idx proof root ≡ ok b
      → verify hash_leaf (leaf e' d') idx proof' root ≡ ok b'
      → ((d ≡ d') × (40 ≤ length proof → e ≡ e')) ⊎ Collision hash_leaf
  unfolding verify
  verify_binding idx e e' d d' proof proof' root b b' a a' same f f' h h' =
      let (c, k) = verified (compute_root hash_leaf (leaf e d) idx proof) root b h in
      let (c', k') = verified (compute_root hash_leaf (leaf e' d') idx proof') root b' h' in
      compute_root_binding idx e e' d d' proof proof' root c c' a a' same f f' k k'
