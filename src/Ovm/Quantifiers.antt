-- ===== src/Ovm/Quantifiers.antt =====
-- ovm/src/quantifiers: the quantifiers that need no database. `none` is a panic.
use plasma_rust_framework.Prelude.{
  ℕ, zero, suc, ◌+◌, ◌-◌, ◌≤◌, ◌<◌, ◌≡◌, ap, ◌↔◌, inl, inr, Bool, true, Option, none, some, List,
  [], ◌∷◌, arith, ltb, if◌then◌else◌, lt_or_ge, Any,
}
use plasma_rust_framework.Prelude.Bytes.{Bytes}
use plasma_rust_framework.Prelude.Words.{le_bytes}
use plasma_rust_framework.PlasmaCore.Range.{Range}
use plasma_rust_framework.Ovm.Types.{
  PropertyInputs, state_update, QuantifierResultItem, integer_item, h256_item, state_update_item,
  to_integer, to_address, to_range, to_property, QuantifierResult, Variables, argument,
}

unfoldable pub count_up : ℕ → ℕ → List QuantifierResultItem
count_up zero start = []
count_up (suc n) start = integer_item start ∷ count_up n (start + 1)

unfoldable pub get_range : ℕ → ℕ → List QuantifierResultItem
unfolding count_up
get_range start end = count_up (end - start) start

abbrev pub quantified : List QuantifierResultItem → Bool → QuantifierResult
quantified results all = record { results = results; all_results_quantified = all }

abbrev pub range_quantified : Range → Option QuantifierResult
range_quantified range =
    if ltb range.end range.start
    then none
    else some (quantified (get_range range.start range.end) true)

-- `IntegerRangeQuantifier`
unfoldable pub integer_range_quantified : PropertyInputs → Variables → Option QuantifierResult
unfolding get_range
integer_range_quantified inputs variables = elim (argument to_range inputs 0 variables) [
  | none ↦ none
  | some range ↦ range_quantified range
]

-- `NonnegativeIntegerLessThanQuantifier`; a `u64` is never below 0.
unfoldable pub less_than_quantified : PropertyInputs → Variables → Option QuantifierResult
unfolding get_range
less_than_quantified inputs variables = elim (argument to_integer inputs 0 variables) [
  | none ↦ none
  | some upper_bound ↦ some (quantified (get_range 0 upper_bound) true)
]

-- `StateUpdateQuantifier`
unfoldable pub state_update_quantified : PropertyInputs → Variables → Option QuantifierResult
state_update_quantified inputs variables = elim (argument to_integer inputs 0 variables) [
  | none ↦ none
  | some block_number ↦ elim (argument to_address inputs 1 variables) [
    | none ↦ none
    | some address ↦ elim (argument to_range inputs 2 variables) [
      | none ↦ none
      | some range ↦ elim (argument to_property inputs 3 variables) [
        | none ↦ none
        | some p ↦
            some
              (quantified (state_update_item (state_update block_number address range p) ∷ []) true)
      ]
    ]
  ]
]

-- `HashQuantifier`, with the hash function as a parameter.
unfoldable pub hash_quantified :
    (Bytes → Bytes) → PropertyInputs → Variables → Option QuantifierResult
hash_quantified static_hash inputs variables = elim (argument to_integer inputs 0 variables) [
  | none ↦ none
  | some preimage ↦ some (quantified (h256_item (static_hash (le_bytes 8 preimage)) ∷ []) true)
]

count_up_exact :
    (n start m : ℕ)
    → Any (λ (item : QuantifierResultItem). to_integer item ≡ some m) (count_up n start)
      ↔ ((start ≤ m) × (m < start + n))
unfolding count_up
count_up_exact zero start m = ground arith
count_up_exact (suc n) start m =
    let rest = count_up_exact n (start + 1) m in
    (
      λ h. elim h [
        | inl e ↦ (let same : start ≡ m = cc in (omega arith, omega arith))
        | inr k ↦ (let (a, b) = rest.0 k in (omega arith, omega arith))
      ],
      λ (a, b). elim (lt_or_ge start m) [
        | inl o ↦ inr (rest.1 (omega arith, omega arith))
        | inr o ↦ inl (ap some (omega arith))
      ],
    )

-- The integers that a quantified range holds are those from the start up to but not including the end.
pub get_range_exact :
    (start end n : ℕ)
    → Any (λ (item : QuantifierResultItem). to_integer item ≡ some n) (get_range start end)
      ↔ ((start ≤ n) × (n < end))
unfolding get_range
get_range_exact start end n =
    let (a, b) = count_up_exact (end - start) start n in
    (λ h. (let (p, q) = a h in (p, omega arith)), λ h. b (h.0, omega (arith, h.0, h.1)))
