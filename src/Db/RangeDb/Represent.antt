-- ===== src/Db/RangeDb/Represent.antt =====
-- The entries that stand for a list of ranges, and what the batches and the iteration of the range
-- database (db/src/impls/rangedb.rs) do to them.
use plasma_rust_framework.Prelude.{
  ℕ, ◌^◌, ◌<◌, compare, ◌≡◌, refl, Option, none, some, List, [], ◌∷◌, arith, All,
}
use plasma_rust_framework.Prelude.Bytes.{cmp}
use plasma_rust_framework.Prelude.Words.{cmp-be_bytes, Fits-u64}
use plasma_rust_framework.Prelude.Result.{Result, ok}
use plasma_rust_framework.Db.Key.{BaseDbKey, ErrorKind, from_u64}
use plasma_rust_framework.Db.BTreeMap
use plasma_rust_framework.Db.BTreeMap.{BTreeMap}
use plasma_rust_framework.Db.Kvs.{KeyValue, KeyValueStore}
use plasma_rust_framework.Db.Memory.{scan, pushed, run, apply}
use plasma_rust_framework.Db.Range.{Range, RlpCodec, IsU64}
use plasma_rust_framework.Db.RangeDb.{decode_all, hits, del_ops, put_ops}
use plasma_rust_framework.Db.RangeDb.Ranges.{
  insert, remove, insert_all, remove_all, collect, IsRangeMap,
}
use plasma_rust_framework.Db.RangeDb.Changes.{Fresh}

pub from_u64-cmp : (a b : ℕ) → a < 2 ^ 64 → b < 2 ^ 64 → cmp (from_u64 a) (from_u64 b) ≡ compare a b
unfolding from_u64
from_u64-cmp a b h i = cmp-be_bytes 8 a b (Fits-u64 a h) (Fits-u64 b i)

abbrev pub AllU64 : List Range → Type 0
AllU64 rs = All IsU64 rs

pub IsRangeMap-AllU64 : (rs : List Range) → IsRangeMap rs → AllU64 rs
IsRangeMap-AllU64 [] w = tt
IsRangeMap-AllU64 (r ∷ rs) w = ((omega arith, omega arith), IsRangeMap-AllU64 rs w.3)

pub Fresh-AllU64 : (new rs : List Range) → Fresh new rs → AllU64 new
Fresh-AllU64 [] rs f = tt
Fresh-AllU64 (r ∷ new) rs f = ((omega arith, f.1), Fresh-AllU64 new rs f.4)

module _ (rlp : RlpCodec) where
  -- The entries of a store that stands for the ranges.
  abbrev pub entries_of : List Range → BTreeMap
  entries_of [] = []
  entries_of (r ∷ rs) = (from_u64 r.end, rlp.encode r) ∷ entries_of rs

  pub insert-entries_of :
      (r : Range) (rs : List Range)
      → IsU64 r
      → AllU64 rs
      → BTreeMap.insert (from_u64 r.end) (rlp.encode r) (entries_of rs) ≡ entries_of (insert r rs)
  unfolding BTreeMap.insert insert
  insert-entries_of r [] u a = refl
  insert-entries_of r (q ∷ rs) u a =
      ground (arith, from_u64-cmp r.end q.end u.1 a.0.1, insert-entries_of r rs u a.1)

  pub remove-entries_of :
      (e : ℕ) (rs : List Range)
      → e < 2 ^ 64
      → AllU64 rs
      → BTreeMap.remove (from_u64 e) (entries_of rs) ≡ entries_of (remove e rs)
  unfolding BTreeMap.remove remove
  remove-entries_of e [] u a = refl
  remove-entries_of e (q ∷ rs) u a =
      ground (arith, from_u64-cmp e q.end u a.0.1, remove-entries_of e rs u a.1)

  abbrev pub decoded : Option (List KeyValue) → Option (List Range)
  decoded none = none
  decoded (some kvs) = some (decode_all rlp kvs)

  pub decoded-pushed :
      (k : BaseDbKey) (r : Range) (next : Option (List KeyValue)) (rs : List Range)
      → IsU64 r
      → decoded next ≡ some rs
      → decoded (pushed (record { key = k; value = rlp.encode r }) next) ≡ some (r ∷ rs)
  unfolding decode_all
  decoded-pushed k r none rs u h = cc
  decoded-pushed k r (some kvs) rs u h = ground (arith, rlp.decode-encode r u)

  decoded_nil : decoded (some []) ≡ some []
  unfolding decode_all
  decoded_nil = refl

  pub decoded-scan :
      (start end : ℕ) (rs : List Range)
      → start < 2 ^ 64
      → AllU64 rs
      → decoded (scan (from_u64 start) (λ _ v. hits rlp start end v) (entries_of rs))
        ≡ some (collect start end rs)
  unfolding scan collect hits
  decoded-scan start end [] u a = decoded_nil
  decoded-scan start end (r ∷ rs) u a = ground (
    arith,
    from_u64-cmp r.end start a.0.1 u,
    rlp.decode-encode r a.0,
    decoded-scan start end rs u a.1,
    decoded-pushed (from_u64 r.end) r
        (scan (from_u64 start) (λ _ v. hits rlp start end v) (entries_of rs)) (collect start end rs)
        a.0,
    decoded_nil,
  )

remove-AllU64 : (e : ℕ) (rs : List Range) → AllU64 rs → AllU64 (remove e rs)
unfolding remove
remove-AllU64 e [] a = tt
remove-AllU64 e (q ∷ rs) a = ground (arith, remove-AllU64 e rs a.1)

insert-AllU64 : (r : Range) (rs : List Range) → IsU64 r → AllU64 rs → AllU64 (insert r rs)
unfolding insert
insert-AllU64 r [] u a = (u, tt)
insert-AllU64 r (q ∷ rs) u a = ground (arith, insert-AllU64 r rs u a.1)

pub of_decoded :
    (rlp : RlpCodec) (o : Option (List KeyValue)) {rs : List Range}
    → decoded rlp o ≡ some rs
    → (elim o as (λ _. Option (Result (List Range) ErrorKind)) [
      | none ↦ none
      | some kvs ↦ some (ok (decode_all rlp kvs))
    ])
      ≡ some (ok rs)
of_decoded rlp none h = cc
of_decoded rlp (some kvs) h = ground (arith, h)

module _ {S : Type 0} (rlp : RlpCodec) (db : KeyValueStore S) where
  pub run-del_ops :
      (old rs : List Range)
      → AllU64 old
      → AllU64 rs
      → run (del_ops rlp db old) (entries_of rlp rs) ≡ entries_of rlp (remove_all old rs)
  unfolding run apply remove_all
  run-del_ops [] rs o a = refl
  run-del_ops (r ∷ old) rs o a =
      rw (remove-entries_of rlp r.end rs o.0.1 a, run, apply)
        (run-del_ops old (remove r.end rs) o.1 (remove-AllU64 r.end rs a))

  pub run-put_ops :
      (new rs : List Range)
      → AllU64 new
      → AllU64 rs
      → run (put_ops rlp db new) (entries_of rlp rs) ≡ entries_of rlp (insert_all new rs)
  unfolding run apply insert_all
  run-put_ops [] rs n a = refl
  run-put_ops (r ∷ new) rs n a =
      rw (insert-entries_of rlp r rs n.0 a, run, apply)
        (run-put_ops new (insert r rs) n.1 (insert-AllU64 r rs n.0 a))

  pub collect-AllU64 : (start end : ℕ) (rs : List Range) → AllU64 rs → AllU64 (collect start end rs)
  unfolding collect
  collect-AllU64 start end [] a = tt
  collect-AllU64 start end (r ∷ rs) a = ground (arith, collect-AllU64 start end rs a.1)
