-- ===== src/PlasmaCore/Range/Merge.antt =====
-- `merge_range`, `merge_ranges` and `is_covered_with` of core/src/data_structure/range.rs, against
-- the sets of coins that the ranges stand for.
use plasma_rust_framework.Prelude.{
  ℕ, ◌<◌, ◌≡◌, ◌↔◌, ◌⊎◌, inl, inr, Bool, true, false, some, List, [], ◌∷◌, arith, any, All, Any,
  Bool-cases, Option-cases, Any-append_left, Any-append_right, Any-append_inv, All-append,
}
use plasma_rust_framework.PlasmaCore.Range.{
  Range, new, Holds, IsValid, is_subrange, merge_range, merge_into, merge_step, merge_fold,
  merge_ranges, is_covered_with,
}

-- Two valid ranges that `merge_range` accepts become one valid range with exactly their coins.
pub merge_range_exact :
    (a b : Range) {m : Range} (x : ℕ)
    → IsValid a
    → IsValid b
    → merge_range a b ≡ some m
    → IsValid m × (Holds x m ↔ (Holds x a ⊎ Holds x b))
unfolding merge_range
merge_range_exact a b x va vb h = ground arith

-- What one round of the inner loop has to keep.
record Merges (range : Range) (vec res : List Range) (merged : Bool) : Type 0 where
  valid : All IsValid res
  sound : (x : ℕ) → Any (Holds x) res → Any (Holds x) vec ⊎ Holds x range
  kept : (x : ℕ) → Any (Holds x) vec → Any (Holds x) res
  took : (x : ℕ) → merged ≡ true → Holds x range → Any (Holds x) res

-- Regroupings of the three places where a coin can be.
past_head : {A B C : Type 0} → B ⊎ C → (A ⊎ B) ⊎ C
past_head (inl b) = inl (inr b)
past_head (inr c) = inr c

at_head : {A B C : Type 0} → A ⊎ C → (A ⊎ B) ⊎ C
at_head (inl a) = inl (inl a)
at_head (inr c) = inr c

merge_into_lem :
    (range : Range) (vec : List Range)
    → IsValid range
    → All IsValid vec
    → Merges range vec (merge_into range vec).0 (merge_into range vec).1
unfolding merge_into
merge_into_lem range [] v a = record {
  valid = tt;
  sound = λ x h. inl h;
  kept = λ x h. h;
  took = λ x h. cc;
}
merge_into_lem range (r ∷ vec) v a = elim (Option-cases (merge_range r range)) [
  | inl e ↦
      let rest = merge_into_lem range vec v a.1 in
      rw (e, merge_into)
        (record {
          valid = (a.0, rest.valid);
          sound = λ x h. elim h [ inl p ↦ inl (inl p) | inr q ↦ past_head (rest.sound x q) ];
          kept = λ x h. elim h [ inl p ↦ inl p | inr q ↦ inr (rest.kept x q) ];
          took = λ x m h. inr (rest.took x m h);
        })
  | inr (m, e) ↦
      let rest = merge_into_lem range vec v a.1 in
      rw (e, merge_into)
        (record {
          valid = ((merge_range_exact r range 0 a.0 v e).0, rest.valid);
          sound = λ x h. elim h [
            | inl p ↦ at_head ((merge_range_exact r range x a.0 v e).1.0 p)
            | inr q ↦ past_head (rest.sound x q)
          ];
          kept = λ x h. elim h [
            | inl p ↦ inl ((merge_range_exact r range x a.0 v e).1.1 (inl p))
            | inr q ↦ inr (rest.kept x q)
          ];
          took = λ x _ h. inl ((merge_range_exact r range x a.0 v e).1.1 (inr h));
        })
]

singleton : {A : Type 0} → ⊥ ⊎ A → A ⊎ ⊥
singleton (inl b) = absurd b
singleton (inr a) = inl a

singleton_inv : {A : Type 0} → A ⊎ ⊥ → ⊥ ⊎ A
singleton_inv (inl a) = inr a
singleton_inv (inr b) = absurd b

of_singleton : {A : Type 0} → A ⊎ ⊥ → A
of_singleton (inl a) = a
of_singleton (inr b) = absurd b

regroup : {A B C : Type 0} → A ⊎ B → A ⊎ (B ⊎ C)
regroup (inl a) = inl a
regroup (inr b) = inr (inl b)

merge_step_lem :
    (vec : List Range) (range : Range)
    → All IsValid vec
    → IsValid range
    → All IsValid (merge_step vec range)
      × ((x : ℕ) → Any (Holds x) (merge_step vec range) ↔ (Any (Holds x) vec ⊎ Holds x range))
unfolding merge_step
merge_step_lem [] range a v = ((v, tt), λ x. (singleton_inv, singleton))
merge_step_lem (v ∷ vec) range a w =
    let m = merge_into_lem range (v ∷ vec) w a in
    let (res, merged) = merge_into range (v ∷ vec) in
    elim (Bool-cases (merge_into range (v ∷ vec)).1) [
      | inl t ↦
          rw (t, merge_step)
            (m.valid, λ x. (m.sound x, λ h. elim h [ inl p ↦ m.kept x p | inr q ↦ m.took x t q ]))
      | inr f ↦
          rw (f, merge_step)
            (
              All-append IsValid res (range ∷ []) m.valid (w, tt),
              λ x. (
                λ h. elim (Any-append_inv (Holds x) res (range ∷ []) h) [
                  | inl p ↦ m.sound x p
                  | inr q ↦ inr (of_singleton q)
                ],
                λ h. elim h [
                  | inl p ↦ Any-append_left (Holds x) res (range ∷ []) (m.kept x p)
                  | inr q ↦ Any-append_right (Holds x) res (range ∷ []) (inl q)
                ],
              ),
            )
    ]

merge_fold_lem :
    (vec ranges : List Range)
    → All IsValid vec
    → All IsValid ranges
    → All IsValid (merge_fold vec ranges)
      × ((x : ℕ)
          → Any (Holds x) (merge_fold vec ranges) ↔ (Any (Holds x) vec ⊎ Any (Holds x) ranges))
unfolding merge_fold
merge_fold_lem vec [] a b = (a, λ x. (λ h. inl h, λ h. elim h [ inl p ↦ p | inr q ↦ absurd q ]))
merge_fold_lem vec (range ∷ ranges) a b =
    let (valid, step) = merge_step_lem vec range a b.0 in
    let (rest_valid, rest) = merge_fold_lem (merge_step vec range) ranges valid b.1 in
    (
      rest_valid,
      λ x. (
        λ h. elim ((rest x).0 h) [ inl p ↦ regroup ((step x).0 p) | inr q ↦ inr (inr q) ],
        λ h. elim h [
          | inl p ↦ (rest x).1 (inl ((step x).1 (inl p)))
          | inr (inl q) ↦ (rest x).1 (inl ((step x).1 (inr q)))
          | inr (inr q) ↦ (rest x).1 (inr q)
        ],
      ),
    )

-- Of valid ranges, `merge_ranges` returns valid ranges that hold exactly the same coins.
pub merge_ranges-same_coins :
    (ranges : List Range) (x : ℕ)
    → All IsValid ranges
    → All IsValid (merge_ranges ranges)
      × (Any (Holds x) (merge_ranges ranges) ↔ Any (Holds x) ranges)
unfolding merge_ranges
merge_ranges-same_coins ranges x a =
    let (valid, same) = merge_fold_lem [] ranges tt a in
    (valid, (λ h. elim ((same x).0 h) [ inl p ↦ absurd p | inr q ↦ q ], λ h. (same x).1 (inr h)))

covering :
    (r : Range) (x : ℕ) (rs : List Range)
    → any (λ range. is_subrange range r) rs ≡ true
    → Holds x r
    → Any (Holds x) rs
unfolding is_subrange
covering r x [] h p = cc
covering r x (s ∷ rs) h p = elim (Bool-cases (is_subrange s r)) [
  | inl t ↦ inl (ground arith)
  | inr f ↦ inr (covering r x rs (rw f at h) p)
]

-- Where `is_covered_with` answers yes for valid ranges, each coin of the range lies in one of
-- them.
pub is_covered_with_sound :
    (r : Range) (ranges : List Range) (x : ℕ)
    → All IsValid ranges
    → is_covered_with r ranges ≡ true
    → Holds x r
    → Any (Holds x) ranges
unfolding is_covered_with
is_covered_with_sound r ranges x a h p =
    (merge_ranges-same_coins ranges x a).1.0 (covering r x (merge_ranges ranges) h p)

-- For a < b < c < d, the range from a to d is reported as covered by the ranges a to b, b to c, c
-- to d in this order, and as not covered by the same ranges when b to c comes last.
pub is_covered_with_order :
    (a b c d : ℕ)
    → a < b
    → b < c
    → c < d
    → (is_covered_with (new a d) (new a b ∷ new c d ∷ new b c ∷ []) ≡ false)
      × (is_covered_with (new a d) (new a b ∷ new b c ∷ new c d ∷ []) ≡ true)
unfolding is_covered_with
is_covered_with_order a b c d p q r = ground arith
