-- ===== src/Db/RangeDb.antt =====
-- db/src/impls/rangedb.rs: values stored for ranges of coins, in a key-value store whose keys are
-- the ends of the ranges. `rlp` enters as a codec.
pub mod Ranges
pub mod Changes
pub mod Cut
pub mod Represent
pub mod Operations
pub mod History
pub mod Apart
use plasma_rust_framework.Prelude.{
  ℕ, Bool, Option, none, some, List, [], ◌∷◌, ◌++◌, map, ltb, if◌then◌else◌,
}
use plasma_rust_framework.Prelude.Bytes.{Bytes}
use plasma_rust_framework.Prelude.Result.{Result, ok, err}
use plasma_rust_framework.Db.Key.{BaseDbKey, ErrorKind, io, dammy, level_db, from_u64}
use plasma_rust_framework.Db.Kvs.{Batch, KeyValue, KeyValueStore}
use plasma_rust_framework.Db.Kvs
use plasma_rust_framework.Db.Range
use plasma_rust_framework.Db.Range.{Range, RlpCodec, intersect}

-- `result.iter().filter_map(|kv| rlp::decode(kv.get_value()).ok())`
unfoldable pub decode_all : RlpCodec → List KeyValue → List Range
decode_all rlp [] = []
decode_all rlp (kv ∷ kvs) = elim (rlp.decode kv.value) [
  | none ↦ decode_all rlp kvs
  | some range ↦ range ∷ decode_all rlp kvs
]

-- The test of `get`; `unwrap` panics on a value that is no range.
unfoldable pub hits : RlpCodec → ℕ → ℕ → Bytes → Option Bool
hits rlp start end v = elim (rlp.decode v) [
  | none ↦ none
  | some range ↦ some (intersect range start end)
]

abbrev pub first? : List Range → Option Range
first? [] = none
first? (r ∷ rs) = some r

abbrev pub last? : List Range → Option Range
last? [] = none
last? (r ∷ []) = some r
last? (r ∷ q ∷ rs) = last? (q ∷ rs)

-- The two pushes of `put` that keep the parts of the first and the last range outside the new one.
unfoldable pub left_rest : ℕ → List Range → List Range
left_rest start input_ranges = elim (first? input_ranges) [
  | none ↦ []
  | some r ↦ if ltb r.start start then Range.new r.start start r.value ∷ [] else []
]

unfoldable pub right_rest : ℕ → List Range → List Range
right_rest end input_ranges = elim (last? input_ranges) [
  | none ↦ []
  | some r ↦ if ltb end r.end then Range.new end r.end r.value ∷ [] else []
]

unfoldable pub output_ranges : ℕ → ℕ → Bytes → List Range → List Range
unfolding left_rest right_rest
output_ranges start end value input_ranges =
    left_rest start input_ranges ++ (right_rest end input_ranges ++ Range.new start end value ∷ [])

module _ {S : Type 0} (rlp : RlpCodec) (db : KeyValueStore S) where
  -- `none` is a panic of the iteration.
  unfoldable pub get : ℕ → ℕ → S → Option (Result (List Range) ErrorKind)
  get start end s = elim (db.iter_all (from_u64 start) (λ _ v. hits rlp start end v) s) [
    | none ↦ none
    | some kvs ↦ some (ok (decode_all rlp kvs))
  ]

  abbrev pub del_ops : List Range → List Batch
  del_ops ranges = map (λ (range : Range). Kvs.del (from_u64 range.end)) ranges

  abbrev pub put_ops : List Range → List Batch
  put_ops ranges = map (λ (range : Range). Kvs.put (from_u64 range.end) (rlp.encode range)) ranges

  unfoldable pub del_batch : ℕ → ℕ → S → Option (Result (List Range) ErrorKind × S)
  unfolding get
  del_batch start end s = elim (get start end s) [
    | none ↦ none
    | some (err e) ↦ some (err e, s)
    | some (ok ranges) ↦
        let (done, s') = db.batch (del_ops ranges) s in
        some (elim done [ ok _ ↦ (ok ranges, s') | err _ ↦ (err level_db, s') ])
  ]

  unfoldable pub put_batch : List Range → S → Result (Unit {0}) ErrorKind × S
  put_batch ranges s =
      let (done, s') = db.batch (put_ops ranges) s in
      elim done [ ok _ ↦ (ok tt, s') | err _ ↦ (err level_db, s') ]

  abbrev pub del : ℕ → ℕ → S → Option (Result (List Range) ErrorKind × S)
  del = del_batch

  unfoldable pub put : ℕ → ℕ → Bytes → S → Option (Result (Unit {0}) ErrorKind × S)
  unfolding del_batch put_batch output_ranges
  put start end value s = elim (del_batch start end s) [
    | none ↦ none
    | some (err e, s') ↦ some (err e, s')
    | some (ok input_ranges, s') ↦
        if ltb start end
        then (let (done, s'') = put_batch (output_ranges start end value input_ranges) s' in
            some (elim done [ ok _ ↦ (ok tt, s'') | err _ ↦ (err dammy, s'') ]))
        else some (err dammy, s')
  ]
