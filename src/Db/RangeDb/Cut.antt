-- ===== src/Db/RangeDb/Cut.antt =====
-- What `put` writes back: the rests of the ranges that it cuts are apart from all else, and together
-- with what it left they give every coin outside the new range its old value.
use plasma_rust_framework.Prelude.{
  ℕ, ◌^◌, ◌≤◌, ◌<◌, ◌≡◌, refl, ap, ◌∙◌, ◌⊎◌, inl, inr, Bool, true, false, ◌&&◌, Option, none, some,
  List, [], ◌∷◌, ◌++◌, arith, ltb, leb, if◌then◌else◌, Bool-cases, filter, All, All-filter, All-imp,
}
use plasma_rust_framework.Prelude.Bytes.{Bytes}
use plasma_rust_framework.Db.Range
use plasma_rust_framework.Db.Range.{Range, intersect}
use plasma_rust_framework.Db.RangeDb.{last?, left_rest, right_rest, output_ranges}
use plasma_rust_framework.Db.RangeDb.Ranges.{value_at, hit, miss, Behind, IsRangeMap, AllApart}
use plasma_rust_framework.Db.RangeDb.Changes.{Fresh, or_else}

-- What is known of a range that the new one cuts, beside the ranges that stay.
abbrev IsCut : ℕ → ℕ → List Range → Range → Type 0
IsCut start end kept m =
    (m.start < m.end) × (m.end < 2 ^ 64) × (m.start < end) × (start < m.end) × AllApart m kept

intersect_lem :
    (r : Range) (start end : ℕ) → intersect r start end ≡ true → (r.start < end) × (start < r.end)
unfolding intersect
intersect_lem r start end h = ground arith

Cut-skip :
    (start end : ℕ) (r : Range) (kept ms : List Range)
    → Behind r.end ms
    → All (IsCut start end kept) ms
    → All (IsCut start end (r ∷ kept)) ms
Cut-skip start end r kept [] b c = tt
Cut-skip start end r kept (m ∷ ms) b c =
    ((c.0.0, c.0.1, c.0.2, c.0.3, (inl b.0, c.0.4)), Cut-skip start end r kept ms b.1 c.1)

Behind-AllApart : (r : Range) (rs : List Range) → Behind r.end rs → AllApart r rs
Behind-AllApart r rs b = All-imp (λ q p. inr p) rs b

Cut-hits :
    (start end : ℕ) (rs : List Range)
    → IsRangeMap rs
    → All (IsCut start end (filter (miss start end) rs)) (filter (hit start end) rs)
Cut-hits start end [] w = tt
Cut-hits start end (r ∷ rs) w = elim (Bool-cases (intersect r start end)) [
  | inl t ↦ rw t (
    (
      w.0,
      w.1,
      (intersect_lem r start end t).0,
      (intersect_lem r start end t).1,
      Behind-AllApart r (filter (miss start end) rs)
          (All-filter (λ (q : Range). r.end ≤ q.start) (miss start end) rs w.2),
    ),
    Cut-hits start end rs w.3,
  )
  | inr f ↦ rw f (
      Cut-skip start end r (filter (miss start end) rs) (filter (hit start end) rs)
        (All-filter (λ (q : Range). r.end ≤ q.start) (hit start end) rs w.2)
        (Cut-hits start end rs w.3))
]

AllApart-shrink :
    (r r' : Range) (rs : List Range)
    → r.start ≤ r'.start
    → r'.end ≤ r.end
    → AllApart r rs
    → AllApart r' rs
AllApart-shrink r r' rs p q a =
    All-imp (λ s h. elim h [ inl i ↦ inl (omega arith) | inr i ↦ inr (omega arith) ]) rs a

pub last?-All {κ} :
    (P : Range → Type κ) (m : Range) (ms : List Range)
    → All P (m ∷ ms)
    → (l : Range) × (last? (m ∷ ms) ≡ some l) × P l
last?-All P m [] a = (m, refl, a.0)
last?-All P m (n ∷ ms) a = last?-All P n ms a.1

misses-AllApart :
    (start end : ℕ) (value : Bytes) (rs : List Range)
    → start < end
    → IsRangeMap rs
    → AllApart (Range.new start end value) (filter (miss start end) rs)
unfolding intersect
misses-AllApart start end value [] h w = tt
misses-AllApart start end value (r ∷ rs) h w =
    ground (arith, misses-AllApart start end value rs h w.3)

Fresh-output_cuts :
    (start end : ℕ) (value : Bytes) (kept cuts : List Range)
    → start < end
    → end < 2 ^ 64
    → AllApart (Range.new start end value) kept
    → All (IsCut start end kept) cuts
    → Fresh (output_ranges start end value cuts) kept
unfolding output_ranges
Fresh-output_cuts start end value kept [] h u a c = (h, u, a, tt, tt)
Fresh-output_cuts start end value kept (m ∷ ms) h u a c =
    let (l, e, d) = last?-All (IsCut start end kept) m ms c in
    rw (e, right_rest)
      (ground (
        arith,
        AllApart-shrink m (Range.new m.start start m.value) kept,
        AllApart-shrink l (Range.new end l.end l.value) kept,
      ))

-- The ranges that `put` writes can be inserted into what the deletion left.
pub Fresh-output :
    (start end : ℕ) (value : Bytes) (rs : List Range)
    → start < end
    → end < 2 ^ 64
    → IsRangeMap rs
    → Fresh (output_ranges start end value (filter (hit start end) rs)) (filter (miss start end) rs)
Fresh-output start end value rs h u w =
    Fresh-output_cuts start end value (filter (miss start end) rs) (filter (hit start end) rs) h u
      (misses-AllApart start end value rs h w) (Cut-hits start end rs w)

abbrev rests : ℕ → ℕ → ℕ → List Range → Option Bytes
rests x start end cuts =
    or_else (value_at x (left_rest start cuts)) (value_at x (right_rest end cuts))

abbrev CutBehind : ℕ → ℕ → List Range → Type 0
CutBehind e end cuts = All (λ m. (e ≤ m.start) × (m.start < end)) cuts

-- A coin of a range that stays lies in no rest.
rests-none :
    (x start end e : ℕ) (cuts : List Range)
    → x < e
    → CutBehind e end cuts
    → rests x start end cuts ≡ none
unfolding left_rest right_rest value_at
rests-none x start end e [] h b = refl
rests-none x start end e (m ∷ ms) h b =
    let (l, last, d) = last?-All (λ (m : Range). (e ≤ m.start) × (m.start < end)) m ms b in
    rw (last, right_rest) (ground arith)

-- One more range that is cut, at a coin outside the new range.
rests-cons :
    (x start end : ℕ) (r : Range) (cuts : List Range) (v : Option Bytes)
    → (x < start) ⊎ (end ≤ x)
    → r.start < end
    → start < r.end
    → CutBehind r.end end cuts
    → or_else (rests x start end (r ∷ cuts)) v
      ≡ (if leb r.start x && ltb x r.end then some r.value else or_else (rests x start end cuts) v)
unfolding left_rest right_rest value_at
rests-cons x start end r [] v o p q b = ground arith
rests-cons x start end r (m ∷ ms) v o p q b =
    let (l, last, d) = last?-All (λ (m : Range). (r.end ≤ m.start) × (m.start < end)) m ms b in
    rw (last, right_rest) (ground arith)

CutBehind-hits :
    (start end e : ℕ) (rs : List Range) → Behind e rs → CutBehind e end (filter (hit start end) rs)
unfolding intersect
CutBehind-hits start end e [] b = tt
CutBehind-hits start end e (r ∷ rs) b = ground (arith, CutBehind-hits start end e rs b.1)

-- Outside the new range the rests and the ranges that stay give a coin its old value.
rests-misses :
    (x start end : ℕ) (rs : List Range)
    → (x < start) ⊎ (end ≤ x)
    → IsRangeMap rs
    → or_else
        (rests x start end (filter (hit start end) rs))
        (value_at x (filter (miss start end) rs))
      ≡ value_at x rs
unfolding value_at
rests-misses x start end [] o w = unfold left_rest right_rest in refl
rests-misses x start end (r ∷ rs) o w = elim (Bool-cases (intersect r start end)) [
  | inl t ↦
      let (low, high) = intersect_lem r start end t in
      rw t (
        rests-cons x start end r (filter (hit start end) rs)
          (value_at x (filter (miss start end) rs)) o low high
          (CutBehind-hits start end r.end rs w.2)
        ∙ ap (λ (v : Option Bytes). if leb r.start x && ltb x r.end then some r.value else v)
            (rests-misses x start end rs o w.3))
  | inr f ↦ rw f (
      ground (
        arith,
        rests-none x start end r.end (filter (hit start end) rs),
        CutBehind-hits start end r.end rs w.2,
        rests-misses x start end rs o w.3,
      ))
]

value_at-append :
    (x : ℕ) (rs qs : List Range) → value_at x (rs ++ qs) ≡ or_else (value_at x rs) (value_at x qs)
unfolding value_at
value_at-append x [] qs = refl
value_at-append x (r ∷ rs) qs = ground (arith, value_at-append x rs qs)

All-trivial : (rs : List Range) → All (λ _. Unit {0}) rs
All-trivial [] = tt
All-trivial (r ∷ rs) = (tt, All-trivial rs)

rests_inside :
    (x start end : ℕ) (cuts : List Range) → start ≤ x → x < end → rests x start end cuts ≡ none
unfolding left_rest right_rest value_at
rests_inside x start end [] p q = refl
rests_inside x start end (m ∷ ms) p q =
    let (l, last, d) = last?-All (λ (m : Range). Unit {0}) m ms (All-trivial (m ∷ ms)) in
    rw (last, right_rest) (ground arith)

combine :
    (a b c old : Option Bytes) (v : Bytes) (t : Bool)
    → (t ≡ true → or_else a b ≡ none)
    → (t ≡ false → or_else (or_else a b) c ≡ old)
    → or_else (or_else a (or_else b (if t then some v else none))) c ≡ (if t then some v else old)
combine a b c old v true p q = ground (arith, p refl)
combine a b c old v false p q = ground (arith, q refl)

-- The value that `put` leaves at a coin.
pub value_at-output :
    (x start end : ℕ) (value : Bytes) (rs : List Range)
    → start < end
    → IsRangeMap rs
    → or_else
        (value_at x (output_ranges start end value (filter (hit start end) rs)))
        (value_at x (filter (miss start end) rs))
      ≡ (if leb start x && ltb x end then some value else value_at x rs)
unfolding output_ranges
value_at-output x start end value rs h w =
    let cuts = filter (hit start end) rs in
    rw
      (value_at-append x (left_rest start cuts)
        (right_rest end cuts ++ Range.new start end value ∷ []))
      (rw (value_at-append x (right_rest end cuts) (Range.new start end value ∷ [])) (
        unfold value_at in
        combine (value_at x (left_rest start cuts)) (value_at x (right_rest end cuts))
          (value_at x (filter (miss start end) rs)) (value_at x rs) value (leb start x && ltb x end)
          (λ t. rests_inside x start end cuts (ground arith) (ground arith))
          (λ f. rests-misses x start end rs (ground arith) w)))
