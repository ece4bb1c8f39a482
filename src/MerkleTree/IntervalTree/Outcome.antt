-- ===== src/MerkleTree/IntervalTree/Outcome.antt =====
-- `compute_root` and `verify`, from the climb and the node on the left.
use plasma_rust_framework.Prelude.{
  ℕ, ◌+◌, ◌-◌, ◌%◌, ◌^◌, ◌≡◌, refl, ap, ap₂, ◌∙◌, Bool, Option, none, some, List, ◌==◌,
  if◌then◌else◌, length,
}
use plasma_rust_framework.MerkleTree.IntervalTree.{
  MerkleIntervalNode, Error, ImplicitBounds, max_value, get_end, hash, verify, compute_root,
  first_left, climb, decode_proof, get_path,
}
use plasma_rust_framework.Prelude.Bytes.{Bytes, cmp_refl}
use plasma_rust_framework.Prelude.Result.{Result, ok, err}

module _ (hash_leaf : Bytes → Bytes) where
  -- The result of `compute_root` from the proof, the node on the left and the climb.
  abbrev pub outcome :
      MerkleIntervalNode
      → ℕ
      → List MerkleIntervalNode
      → Option ℕ
      → Result MerkleIntervalNode Error
      → Result (Bytes × ImplicitBounds) Error
  outcome lf idx nodes before (err e) = err e
  outcome lf idx nodes before (ok m) = ok (
    hash hash_leaf m,
    record {
      implicit_start = elim before as (λ _. ℕ) [ none ↦ 0 | some end ↦ end ];
      implicit_end =
          if (2 ^ length nodes + (2 ^ 64 - 1)) % 2 ^ 64 == idx then max_value else get_end lf;
    },
  )

  pub outcome_lem :
      (lf : MerkleIntervalNode) (idx : ℕ) (bytes : Bytes)
      → compute_root hash_leaf lf idx bytes
        ≡ outcome lf idx
            (decode_proof bytes)
            (first_left (get_path idx (length (decode_proof bytes))) (decode_proof bytes))
            (climb (get_path idx (length (decode_proof bytes))) (decode_proof bytes) lf)
  unfolding compute_root
  outcome_lem lf idx bytes =
      elim (climb (get_path idx (length (decode_proof bytes))) (decode_proof bytes) lf)
        as (λ r.
          (elim r as (λ _. Result (Bytes × ImplicitBounds) Error) [
            | err e ↦ err e
            | ok computed ↦
                outcome lf idx (decode_proof bytes)
                  (first_left (get_path idx (length (decode_proof bytes))) (decode_proof bytes))
                  (ok computed)
          ])
          ≡ outcome lf idx (decode_proof bytes)
              (first_left (get_path idx (length (decode_proof bytes))) (decode_proof bytes)) r) [
                | ok m ↦ refl
                | err e ↦ refl
              ]

  pub compute_root-climb :
      (lf m : MerkleIntervalNode) (idx : ℕ) (bytes : Bytes) (nodes : List MerkleIntervalNode)
      (path : List Bool) (before : Option ℕ)
      → decode_proof bytes ≡ nodes
      → get_path idx (length nodes) ≡ path
      → first_left path nodes ≡ before
      → climb path nodes lf ≡ ok m
      → compute_root hash_leaf lf idx bytes ≡ outcome lf idx nodes before (ok m)
  compute_root-climb lf m idx bytes nodes path before h k e c =
      outcome_lem lf idx bytes
      ∙ ap
          (λ (ns : List MerkleIntervalNode).
            outcome lf idx ns (first_left (get_path idx (length ns)) ns)
              (climb (get_path idx (length ns)) ns lf))
          h
      ∙ ap (λ (p : List Bool). outcome lf idx nodes (first_left p nodes) (climb p nodes lf)) k
      ∙ ap₂ (outcome lf idx nodes) e c

  pub verify_root :
      (lf : MerkleIntervalNode) (idx : ℕ) (bytes root root' : Bytes) (bounds : ImplicitBounds)
      → compute_root hash_leaf lf idx bytes ≡ ok (root', bounds)
      → root' ≡ root
      → verify hash_leaf lf idx bytes root ≡ ok bounds
  unfolding verify
  verify_root lf idx bytes root root' bounds h e = rw (h, e, cmp_refl root, verify) refl
