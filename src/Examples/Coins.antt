-- ===== src/Examples/Coins.antt =====
-- Concrete ranges of coins (core/src/data_structure/range.rs).
use plasma_rust_framework.Prelude.{refl, ◌↔◌, [], ◌∷◌, arith, All, Any}
use plasma_rust_framework.PlasmaCore.Range.{
  Range, new, Holds, IsValid, merge_ranges, is_covered_with,
}
use plasma_rust_framework.PlasmaCore.Range.Merge.{merge_ranges-same_coins, is_covered_with_sound}

abbrev low : Range
low = new 0 10

abbrev mid : Range
mid = new 5 20

abbrev high : Range
high = new 20 30

merge_ranges-same_coins_example :
    All IsValid (merge_ranges (low ∷ mid ∷ high ∷ []))
    × (Any (Holds 25) (merge_ranges (low ∷ mid ∷ high ∷ []))
        ↔ Any (Holds 25) (low ∷ mid ∷ high ∷ []))
merge_ranges-same_coins_example =
    merge_ranges-same_coins (low ∷ mid ∷ high ∷ []) 25
      (omega arith, (omega arith, (omega arith, tt)))

is_covered_with_sound_example : Any (Holds 15) (low ∷ mid ∷ high ∷ [])
unfolding is_covered_with
is_covered_with_sound_example =
    is_covered_with_sound (new 3 25) (low ∷ mid ∷ high ∷ []) 15
      (omega arith, (omega arith, (omega arith, tt))) refl (omega arith, omega arith)
