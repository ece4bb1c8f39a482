-- ===== src/Examples/Ranges.antt =====
-- A concrete range database (db/src/impls/rangedb.rs), with a codec in the place of `rlp`.
use plasma_rust_framework.Prelude.{
  ℕ, ◌≡◌, refl, ap, ap₂, ◌∙◌, ◌&&◌, Option, some, List, [], ◌∷◌, ◌++◌, arith, ltb, leb,
  if◌then◌else◌, filter, take, drop, take-append, drop-append_eq,
}
use plasma_rust_framework.Prelude.Bytes.{Bytes, cmp}
use plasma_rust_framework.Prelude.Words.{
  le_bytes, of_le, length-le_bytes, of_le-le_bytes, Fits-u64, be_bytes,
}
use plasma_rust_framework.Prelude.Result.{ok}
use plasma_rust_framework.Db.Key.{from_u64}
use plasma_rust_framework.Db.BTreeMap.{BTreeMap, IsSorted}
use plasma_rust_framework.Db.Memory.{memory}
use plasma_rust_framework.Db.Memory.Laws.{memory-IsStore}
use plasma_rust_framework.Db.Range.{Range, new, IsU64, RlpCodec}
use plasma_rust_framework.Db.RangeDb.{get, put}
use plasma_rust_framework.Db.RangeDb.Ranges.{value_at, hit}
use plasma_rust_framework.Db.RangeDb.Represent.{entries_of}
use plasma_rust_framework.Db.RangeDb.Operations.{Represents, get_lem, put_lem}
use plasma_rust_framework.Db.RangeDb.History.{puts, latest, puts_lem}

abbrev encode : Range → Bytes
encode r = le_bytes 8 r.start ++ (le_bytes 8 r.end ++ r.value)

abbrev decode : Bytes → Option Range
decode bytes =
    some (new (of_le (take 8 bytes)) (of_le (take 8 (drop 8 bytes))) (drop 8 (drop 8 bytes)))

pub decode-encode : (r : Range) → IsU64 r → decode (encode r) ≡ some r
decode-encode r u =
    let tail : drop 8 (encode r) ≡ le_bytes 8 r.end ++ r.value =
      drop-append_eq 8 (le_bytes 8 r.start) (le_bytes 8 r.end ++ r.value)
        (length-le_bytes 8 r.start) in
    let start : of_le (take 8 (encode r)) ≡ r.start =
      ap of_le (
        take-append 8 (le_bytes 8 r.start) (le_bytes 8 r.end ++ r.value)
          (length-le_bytes 8 r.start))
      ∙ of_le-le_bytes 8 r.start (Fits-u64 r.start u.0) in
    let end : of_le (take 8 (drop 8 (encode r))) ≡ r.end =
      ap (λ (b : Bytes). of_le (take 8 b)) tail
      ∙ ap of_le (take-append 8 (le_bytes 8 r.end) r.value (length-le_bytes 8 r.end))
      ∙ of_le-le_bytes 8 r.end (Fits-u64 r.end u.1) in
    let value : drop 8 (drop 8 (encode r)) ≡ r.value =
      ap (drop 8) tail ∙ drop-append_eq 8 (le_bytes 8 r.end) r.value (length-le_bytes 8 r.end) in
    ap some (
      ap₂ (λ (s e : ℕ). new s e (drop 8 (drop 8 (encode r)))) start end
      ∙ ap (new r.start r.end) value)

abbrev pub plain : RlpCodec
plain = record { encode = encode; decode = decode; decode-encode = decode-encode }

abbrev two : List Range
two = new 0 100 (1 ∷ []) ∷ new 100 200 (2 ∷ []) ∷ []

abbrev state : BTreeMap
state = entries_of plain two

abbrev Shows : BTreeMap → List Range → Type 0
Shows = Represents plain memory IsSorted (λ m. m) memory-IsStore

shown : Shows state two
unfolding cmp from_u64 be_bytes
shown = record {
  inv = ((refl, tt), (tt, tt));
  same = refl;
  map = (omega arith, omega arith, (omega arith, tt), (omega arith, omega arith, tt, tt));
}

get_lem_example : get plain memory 20 120 state ≡ some (ok (filter (hit 20 120) two))
get_lem_example =
    get_lem plain memory IsSorted (λ m. m) memory-IsStore 20 120 state two (omega arith) shown

put_lem_example :
    (s' : BTreeMap) × (put plain memory 50 150 (3 ∷ []) state ≡ some (ok tt, s'))
    × (rs' : List Range) × Shows s' rs'
    × ((x : ℕ) → value_at x rs' ≡ (if leb 50 x && ltb x 150 then some (3 ∷ []) else value_at x two))
put_lem_example =
    put_lem plain memory IsSorted (λ m. m) memory-IsStore 50 150 (3 ∷ []) state two (omega arith)
      (omega arith) shown

abbrev calls : List Range
calls = new 50 150 (3 ∷ []) ∷ new 7 7 (4 ∷ []) ∷ new 140 160 (5 ∷ []) ∷ []

puts_lem_example :
    (s' : BTreeMap) × (puts plain memory calls state ≡ some s')
    × (rs' : List Range) × Shows s' rs'
    × ((x : ℕ) → value_at x rs' ≡ latest x calls (value_at x two))
puts_lem_example =
    puts_lem plain memory IsSorted (λ m. m) memory-IsStore calls state two
      ((omega arith, omega arith), ((omega arith, omega arith), ((omega arith, omega arith), tt)))
      shown
