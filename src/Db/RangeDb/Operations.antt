-- ===== src/Db/RangeDb/Operations.antt =====
-- The range database (db/src/impls/rangedb.rs) over any store that keeps its contract: its state
-- stands for a list of ranges in order, and `get`, `del` and `put` are operations on that list.
use plasma_rust_framework.Prelude.{
  ℕ, ◌^◌, ◌≤◌, ◌<◌, ◌≡◌, refl, ap, ◌∙◌, ◌&&◌, some, List, arith, ltb, leb, if◌then◌else◌, filter,
}
use plasma_rust_framework.Prelude.Bytes.{Bytes}
use plasma_rust_framework.Prelude.Result.{ok, err}
use plasma_rust_framework.Db.Key.{dammy, from_u64}
use plasma_rust_framework.Db.BTreeMap.{BTreeMap}
use plasma_rust_framework.Db.Kvs.{KeyValueStore}
use plasma_rust_framework.Db.Memory.{scan, run}
use plasma_rust_framework.Db.Store.{IsStore}
use plasma_rust_framework.Db.Range.{Range, RlpCodec}
use plasma_rust_framework.Db.RangeDb.{hits, get, del_ops, put_ops, del_batch, put, output_ranges}
use plasma_rust_framework.Db.RangeDb.Ranges.{
  insert_all, remove_all, collect, value_at, hit, miss, IsRangeMap, collect-eq-filter,
  collect_empty, collect_any,
}
use plasma_rust_framework.Db.RangeDb.Changes.{
  insert_all-IsRangeMap, value_at-insert_all, remove_all-hits, filter-IsRangeMap,
}
use plasma_rust_framework.Db.RangeDb.Cut.{Fresh-output, value_at-output}
use plasma_rust_framework.Db.RangeDb.Represent.{
  entries_of, IsRangeMap-AllU64, Fresh-AllU64, decoded-scan, of_decoded, run-del_ops, run-put_ops,
  collect-AllU64,
}

module _ {S : Type 0} (rlp : RlpCodec) (db : KeyValueStore S) (Inv : S → Type 0)
    (entries : S → BTreeMap) (laws : IsStore db Inv entries) where
  -- The state `s` of the store stands for the ranges `rs`.
  pub record Represents (s : S) (rs : List Range) : Type 0 where
    pub inv : Inv s
    pub same : entries s ≡ entries_of rlp rs
    pub map : IsRangeMap rs

  get_collect :
      (start end : ℕ) (s : S) (rs : List Range)
      → start < 2 ^ 64
      → Represents s rs
      → get rlp db start end s ≡ some (ok (collect start end rs))
  unfolding get
  get_collect start end s rs u h =
      rw (laws.iter_all_lem (from_u64 start) (hits rlp start end) s h.inv, get)
        (rw h.same (
          of_decoded rlp (scan (from_u64 start) (λ _ v. hits rlp start end v) (entries_of rlp rs))
            (decoded-scan rlp start end rs u (IsRangeMap-AllU64 rs h.map))))

  -- Over a store that keeps the contract and stands for ranges in order, `get` with a `u64` start
  -- returns exactly those of the ranges that intersect the query, in order; it neither fails nor
  -- panics.
  pub get_lem :
      (start end : ℕ) (s : S) (rs : List Range)
      → start < 2 ^ 64
      → Represents s rs
      → get rlp db start end s ≡ some (ok (filter (hit start end) rs))
  get_lem start end s rs u h =
      get_collect start end s rs u h
      ∙ ap (λ (l : List Range). some (ok l)) (collect_any start end rs h.map)

  del_batch_any :
      (start end : ℕ) (s : S) (rs : List Range)
      → start < 2 ^ 64
      → Represents s rs
      → (s' : S) × (del_batch rlp db start end s ≡ some (ok (collect start end rs), s'))
        × Inv s'
        × (entries s' ≡ entries_of rlp (remove_all (collect start end rs) rs))
  unfolding del_batch
  del_batch_any start end s rs u h =
      let old = collect start end rs in
      let small = IsRangeMap-AllU64 rs h.map in
      let (done, kept, same) = laws.batch_lem (del_ops rlp db old) s h.inv in
      (
        (db.batch (del_ops rlp db old) s).1,
        rw (get_collect start end s rs u h, del_batch) (rw done),
        kept,
        same
            ∙ ap (run (del_ops rlp db old)) h.same
            ∙ run-del_ops rlp db old rs (collect-AllU64 rlp db start end rs small) small,
      )

  -- Over a store that keeps the contract and stands for ranges in order, `del` with a query that
  -- is not empty and has a `u64` start returns those of the ranges that intersect the query, in
  -- order, and the store then stands for the others.
  pub del_lem :
      (start end : ℕ) (s : S) (rs : List Range)
      → start < end
      → start < 2 ^ 64
      → Represents s rs
      → (s' : S) × (del_batch rlp db start end s ≡ some (ok (filter (hit start end) rs), s'))
        × Represents s' (filter (miss start end) rs)
  del_lem start end s rs o u h =
      let (s', done, kept, same) = del_batch_any start end s rs u h in
      let e = collect-eq-filter start end rs o h.map in
      (
        s',
        rw e at done,
        record {
          inv = kept;
          same = rw (e, remove_all-hits start end rs h.map) at same;
          map = filter-IsRangeMap (miss start end) rs h.map;
        },
      )

  -- Over a store that keeps the contract and stands for ranges in order, `put` with an empty range
  -- and a `u64` start fails with `Dammy`, and the store stands for the same ranges as before.
  pub put_empty :
      (start end : ℕ) (value : Bytes) (s : S) (rs : List Range)
      → end ≤ start
      → start < 2 ^ 64
      → Represents s rs
      → (s' : S) × (put rlp db start end value s ≡ some (err dammy, s')) × Represents s' rs
  unfolding put
  put_empty start end value s rs o u h =
      let (s', done, kept, same) = del_batch_any start end s rs u h in
      (
        s',
        rw (done, put) (ground arith),
        record {
          inv = kept;
          same = rw (collect_empty start end rs o) at same ∙ (unfold remove_all in refl);
          map = h.map;
        },
      )

  -- Over a store that keeps the contract and stands for ranges in order, `put` with a range that
  -- is not empty and ends at a `u64` succeeds, and the store then stands for ranges in order that
  -- give the new value to each coin of the new range and to every other coin the value that it
  -- had.
  pub put_lem :
      (start end : ℕ) (value : Bytes) (s : S) (rs : List Range)
      → start < end
      → end < 2 ^ 64
      → Represents s rs
      → (s' : S) × (put rlp db start end value s ≡ some (ok tt, s'))
        × (rs' : List Range) × Represents s' rs'
        × ((x : ℕ)
            → value_at x rs' ≡ (if leb start x && ltb x end then some value else value_at x rs))
  unfolding put
  put_lem start end value s rs o u h =
      let (s', done, old) = del_lem start end s rs o (omega arith) h in
      let cuts = filter (hit start end) rs in
      let kept = filter (miss start end) rs in
      let out = output_ranges start end value cuts in
      let fresh = Fresh-output start end value rs o u h.map in
      let (wrote, inv, same) = laws.batch_lem (put_ops rlp db out) s' old.inv in
      (
        (db.batch (put_ops rlp db out) s').1,
        rw (done, put) (ground (arith, wrote)),
        insert_all out kept,
        record {
          inv = inv;
          same =
              same
              ∙ ap (run (put_ops rlp db out)) old.same
              ∙ run-put_ops rlp db out kept (Fresh-AllU64 out kept fresh)
                  (IsRangeMap-AllU64 kept old.map);
          map = insert_all-IsRangeMap out kept fresh old.map;
        },
        λ x.
            value_at-insert_all x out kept fresh old.map
            ∙ value_at-output x start end value rs o h.map,
      )
