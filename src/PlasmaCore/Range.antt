-- ===== src/PlasmaCore/Range.antt =====
-- core/src/data_structure/range.rs: a range of coins, from `start` up to but not including `end`.
-- The bounds are `u64`; only `get_amount` can leave that type, and wraps as a release build does.
pub mod Merge
pub mod Overlap
use plasma_rust_framework.Prelude.{
  ℕ, ◌+◌, ◌-◌, ◌%◌, ◌^◌, ◌<◌, ◌≤◌, min, max, Bool, true, false, ◌&&◌, ◌||◌, Option, none, some,
  List, [], ◌∷◌, ◌++◌, ltb, leb, if◌then◌else◌, any,
}

pub record Range : Type 0 where
  pub start : ℕ
  pub end : ℕ

abbrev pub new : ℕ → ℕ → Range
new start end = record { start = start; end = end }

pub get_amount : Range → ℕ
get_amount r = (r.end + 2 ^ 64 - r.start) % 2 ^ 64

pub get_overlapping_range : Range → Range → Range
get_overlapping_range r b =
    if ltb r.start b.start && leb b.start r.end
    then new b.start r.end
    else if ltb b.start r.start && leb r.start b.end
    then new r.start b.end
    else new 0 0

unfoldable pub overlap : Range → Range → Bool
overlap r range =
    let over1 = leb r.start range.start && leb range.start r.end in
    let over2 = ltb range.start r.start && leb r.start range.end in over1 || over2

unfoldable pub is_subrange : Range → Range → Bool
is_subrange r b = leb r.start b.start && leb b.end r.end

unfoldable pub merge_range : Range → Range → Option Range
unfolding overlap
merge_range range1 range2 =
    if overlap range1 range2
    then some (new (min range1.start range2.start) (max range1.end range2.end))
    else none

-- The inner loop of `merge_ranges`: `res` with its pushes in order, and the final `merged`.
merge_into : Range → List Range → List Range × Bool
merge_into range [] = ([], false)
merge_into range (r ∷ vec) =
    let (res, merged) = merge_into range vec in
    elim (merge_range r range) [
      | some merged_range ↦ (merged_range ∷ res, true)
      | none ↦ (r ∷ res, merged)
    ]

-- The closure of the fold.
merge_step : List Range → Range → List Range
merge_step [] range = range ∷ []
merge_step (v ∷ vec) range =
    let (res, merged) = merge_into range (v ∷ vec) in if merged then res else res ++ range ∷ []

merge_fold : List Range → List Range → List Range
merge_fold vec [] = vec
merge_fold vec (range ∷ ranges) = merge_fold (merge_step vec range) ranges

pub merge_ranges : List Range → List Range
unfolding merge_fold merge_step merge_into merge_range
merge_ranges ranges = merge_fold [] ranges

unfoldable pub is_covered_with : Range → List Range → Bool
unfolding merge_ranges is_subrange
is_covered_with r ranges = any (λ range. is_subrange range r) (merge_ranges ranges)

-- A coin of the range.
abbrev pub Holds : ℕ → Range → Type 0
Holds x r = (r.start ≤ x) × (x < r.end)

abbrev pub IsValid : Range → Type 0
IsValid r = r.start < r.end
