-- ===== src/PlasmaCore/Range/Overlap.antt =====
-- `get_overlapping_range`, `overlap` and `get_amount` of core/src/data_structure/range.rs.
use plasma_rust_framework.Prelude.{ℕ, ◌+◌, ◌-◌, ◌^◌, ◌≤◌, ◌<◌, ◌≡◌, ◌↔◌, true, arith}
use plasma_rust_framework.PlasmaCore.Range.{
  Range, new, Holds, IsValid, get_amount, get_overlapping_range, overlap, is_subrange,
}

-- Of two ranges of which one starts and ends before the other and that overlap, the overlapping
-- range holds exactly the coins that both hold, and it is the same in either order of the arguments.
pub get_overlapping_range_exact :
    (r b : Range) (x : ℕ)
    → r.start < b.start
    → r.end ≤ b.end
    → b.start ≤ r.end
    → (Holds x (get_overlapping_range r b) ↔ (Holds x r × Holds x b))
      × (get_overlapping_range r b ≡ get_overlapping_range b r)
unfolding get_overlapping_range
get_overlapping_range_exact r b x p q o = ground arith

-- Two valid ranges with the same start always overlap, and `get_overlapping_range` returns the empty
-- range 0 to 0 for them.
pub get_overlapping_range_same_start :
    (r b : Range)
    → IsValid r
    → IsValid b
    → r.start ≡ b.start
    → (overlap r b ≡ true) × (get_overlapping_range r b ≡ new 0 0)
unfolding get_overlapping_range overlap
get_overlapping_range_same_start r b v w e = ground arith

-- Where a valid range starts behind the start of another and ends before its end, the overlapping
-- range runs on to the end of the outer one, and holds the end of the inner one, a coin that the
-- inner one does not hold.
pub get_overlapping_range_nested :
    (r b : Range)
    → r.start < b.start
    → IsValid b
    → b.end < r.end
    → (get_overlapping_range r b ≡ new b.start r.end)
      × Holds b.end (get_overlapping_range r b)
      × ¬ Holds b.end b
unfolding get_overlapping_range
get_overlapping_range_nested r b p v q = ground arith

-- `is_subrange` answers yes exactly when each coin of the valid range is a coin of the other.
pub is_subrange_iff :
    (r b : Range) → IsValid b → (is_subrange r b ≡ true) ↔ ((x : ℕ) → Holds x b → Holds x r)
unfolding is_subrange
is_subrange_iff r b v = (
  λ h x p. ground arith,
  λ f. let low = f b.start (omega arith) in let high = f (b.end - 1) (omega arith) in ground arith,
)

-- For a range whose start is not above its end, a `u64`, the start and the amount sum up to the
-- end.
pub get_amount_lem : (r : Range) → r.start ≤ r.end → r.end < 2 ^ 64 → r.start + get_amount r ≡ r.end
unfolding get_amount
get_amount_lem r v h = omega arith
