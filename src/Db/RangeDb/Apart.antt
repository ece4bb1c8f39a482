-- ===== src/Db/RangeDb/Apart.antt =====
-- A range database in a bucket (db/src/impls/rangedb.rs) does not touch the buckets that are apart from it.
use plasma_rust_framework.Prelude.{
  ℕ, ◌≡◌, refl, ◌∙◌, subst, inl, inr, Option, none, some, List, [], map, ltb, Bool-cases,
  Option-cases,
}
use plasma_rust_framework.Prelude.Bytes.{Bytes}
use plasma_rust_framework.Prelude.Result.{Result, ok, err}
use plasma_rust_framework.Db.Key.{BaseDbKey, ErrorKind, level_db}
use plasma_rust_framework.Db.BTreeMap.{BTreeMap}
use plasma_rust_framework.Db.Kvs.{Batch, KeyValueStore}
use plasma_rust_framework.Db.Store.{IsStore}
use plasma_rust_framework.Db.Bucket.{new, prefix_op, as_store}
use plasma_rust_framework.Db.Bucket.Laws.{strip}
use plasma_rust_framework.Db.Bucket.Apart.{Apart, bucket_apart}
use plasma_rust_framework.Db.Range.{Range, RlpCodec}
use plasma_rust_framework.Db.RangeDb.{
  get, del_ops, put_ops, del_batch, put_batch, put, output_ranges,
}

pub state_inj :
    {A S : Type 0} {r r' : A} {s s' : S}
    → ◌≡◌ {A = Option (A × S)} (some (r, s)) (some (r', s'))
    → s ≡ s'
state_inj h = cc

pub none-some : {A : Type 0} {a : A} → ¬ (none ≡ some a)
none-some h = cc

module _ {S : Type 0} (rlp : RlpCodec) (db : KeyValueStore S) (Inv : S → Type 0)
    (entries : S → BTreeMap) (laws : IsStore db Inv entries) (p q : BaseDbKey)
    (apart : Apart p q) where
  -- The state keeps the invariant, and the bucket `q` its entries.
  pub record Keeps (s s' : S) : Type 0 where
    pub inv : Inv s'
    pub same : strip q (entries s') ≡ strip q (entries s)

  pub Keeps-refl : (s : S) → Inv s → Keeps s s
  Keeps-refl s i = record { inv = i; same = refl }

  pub Keeps-trans : {s t u : S} → Keeps s t → Keeps t u → Keeps s u
  Keeps-trans a b = record { inv = b.inv; same = b.same ∙ a.same }

  Keeps-batch :
      (ops : List Batch) (s : S)
      → Inv s
      → (((as_store (new p db)).batch ops s).0 ≡ ok tt)
        × Keeps s ((as_store (new p db)).batch ops s).1
  Keeps-batch ops s i =
      let (a, b, c, d, e, f) = bucket_apart db Inv entries laws p q apart [] [] ops s i in
      (e, record { inv = (laws.batch_lem (map (prefix_op p) ops) s i).1; same = f })

  Keeps-put_batch :
      (ranges : List Range) (s : S)
      → Inv s
      → ((put_batch rlp (as_store (new p db)) ranges s).0 ≡ ok tt)
        × Keeps s (put_batch rlp (as_store (new p db)) ranges s).1
  unfolding put_batch
  Keeps-put_batch ranges s i =
      let (done, kept) = Keeps-batch (put_ops rlp (as_store (new p db)) ranges) s i in
      (rw (done, put_batch) refl, rw (done, put_batch) kept)

  Keeps-del_cases :
      (o : Option (Result (List Range) ErrorKind)) (s s' : S) (r : Result (List Range) ErrorKind)
      → Inv s
      → (elim o as (λ _. Option (Result (List Range) ErrorKind × S)) [
        | none ↦ none
        | some (err e) ↦ some (err e, s)
        | some (ok ranges) ↦
            let (done, s'') =
              (as_store (new p db)).batch (del_ops rlp (as_store (new p db)) ranges) s in
            some (elim done [ ok _ ↦ (ok ranges, s'') | err _ ↦ (err level_db, s'') ])
      ])
        ≡ some (r, s')
      → Keeps s s'
  Keeps-del_cases none s s' r i h = cc
  Keeps-del_cases (some (err e)) s s' r i h = subst (Keeps s) (state_inj h) (Keeps-refl s i)
  Keeps-del_cases (some (ok ranges)) s s' r i h =
      let (done, kept) = Keeps-batch (del_ops rlp (as_store (new p db)) ranges) s i in
      subst (Keeps s) (state_inj (rw done at h)) kept

  pub Keeps-del_batch :
      (start end : ℕ) (s s' : S) (r : Result (List Range) ErrorKind)
      → Inv s
      → del_batch rlp (as_store (new p db)) start end s ≡ some (r, s')
      → Keeps s s'
  unfolding del_batch
  Keeps-del_batch start end s s' r i h =
      Keeps-del_cases (get rlp (as_store (new p db)) start end s) s s' r i h

  pub Keeps-put :
      (start end : ℕ) (value : Bytes) (s s' : S) (r : Result (Unit {0}) ErrorKind)
      → Inv s
      → put rlp (as_store (new p db)) start end value s ≡ some (r, s')
      → Keeps s s'
  unfolding put
  Keeps-put start end value s s' r i h =
      elim (Option-cases (del_batch rlp (as_store (new p db)) start end s)) [
        | inl n ↦ absurd (none-some (rw (n, put) at h))
        | inr ((err e, t), k) ↦
            subst (Keeps s) (state_inj (rw (k, put) at h))
              (Keeps-del_batch start end s t (err e) i k)
        | inr ((ok ranges, t), k) ↦
            let cleared = Keeps-del_batch start end s t (ok ranges) i k in
            let (done, kept) =
              Keeps-put_batch (output_ranges start end value ranges) t cleared.inv in
            elim (Bool-cases (ltb start end)) [
              | inl yes' ↦
                  subst (Keeps s) (state_inj (rw (done) at (rw (yes') at (rw (k, put) at h))))
                    (Keeps-trans cleared kept)
              | inr no' ↦ subst (Keeps s) (state_inj (rw no' at (rw (k, put) at h))) cleared
            ]
      ]
