-- ===== src/Db/Range.antt =====
-- db/src/range.rs: a range with the value that is stored for it. Its RLP form is the matter of the
-- crate `rlp`, so the codec is a parameter, `RlpCodec`.
use plasma_rust_framework.Prelude.{
  ℕ, ◌^◌, ◌<◌, ◌≡◌, min, max, Bool, Option, none, some, ltb, if◌then◌else◌, compare, Ordering,
}
use plasma_rust_framework.Prelude.Bytes.{Bytes}

pub record Range : Type 0 where
  pub start : ℕ
  pub end : ℕ
  pub value : Bytes

abbrev pub new : ℕ → ℕ → Bytes → Range
new start end value = record { start = start; end = end; value = value }

-- `Ord for Range`
unfoldable pub cmp : Range → Range → Ordering
cmp self other = compare self.end other.end

unfoldable pub validate : Range → Bool
validate self = ltb self.start self.end

unfoldable pub intersect : Range → ℕ → ℕ → Bool
intersect self start end = ltb (max self.start start) (min self.end end)

unfoldable pub get_intersection : Range → ℕ → ℕ → Option Range
get_intersection self start end =
    let intersection_start = max self.start start in
    let intersection_end = min self.end end in
    if ltb intersection_start intersection_end
    then some (new intersection_start intersection_end self.value)
    else none

-- Both bounds are `u64`.
abbrev pub IsU64 : Range → Type 0
IsU64 r = (r.start < 2 ^ 64) × (r.end < 2 ^ 64)

-- `rlp::encode` and `rlp::decode` at `Range`: the list of the start, the end and the value.
pub record RlpCodec : Type 0 where
  pub encode : Range → Bytes
  pub decode : Bytes → Option Range
  pub decode-encode : (r : Range) → IsU64 r → decode (encode r) ≡ some r
