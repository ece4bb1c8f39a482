-- ===== src/Prelude/Bytes.antt =====
-- Byte strings (`Vec<u8>`, `&[u8]`, `Bytes`) and their order.
use Prim.Native.Nat.{ℕ, compare, Ordering}
use mathlib.Core.Path.{◌≡◌, refl, sym, ap, ◌∙◌}
use mathlib.Core.Bool.{Bool, true, false, ◌&&◌}
use mathlib.Core.List.{List, [], ◌∷◌, ◌++◌}
use native.Mathlib.Omega.{arith}
use plasma_rust_framework.Prelude.Tests.{◌==◌}
use plasma_rust_framework.Prelude.Lists.{length, take, drop, take-append, drop-append_eq}

abbrev pub Bytes : Type 0
Bytes = List ℕ

-- `Ord for Vec<u8>`: lexicographic, a proper prefix comes first.
unfoldable pub cmp : Bytes → Bytes → Ordering
cmp [] [] = Ordering.eq
cmp [] (y ∷ ys) = Ordering.lt
cmp (x ∷ xs) [] = Ordering.gt
cmp (x ∷ xs) (y ∷ ys) = elim (compare x y) [
  | Ordering.lt ↦ Ordering.lt
  | Ordering.eq ↦ cmp xs ys
  | Ordering.gt ↦ Ordering.gt
]

pub cmp_refl : (xs : Bytes) → cmp xs xs ≡ Ordering.eq
unfolding cmp
cmp_refl [] = refl
cmp_refl (x ∷ xs) = ground (arith, cmp_refl xs)

pub eq_of_cmp : (xs ys : Bytes) → cmp xs ys ≡ Ordering.eq → xs ≡ ys
unfolding cmp
eq_of_cmp [] [] h = refl
eq_of_cmp [] (y ∷ ys) h = cc
eq_of_cmp (x ∷ xs) [] h = cc
eq_of_cmp (x ∷ xs) (y ∷ ys) h = ground (arith, eq_of_cmp xs ys)

pub differ_of_lt : (xs ys : Bytes) → cmp xs ys ≡ Ordering.lt → ¬ (xs ≡ ys)
differ_of_lt xs ys h e = lt_not_eq (sym h ∙ ap (cmp xs) (sym e) ∙ cmp_refl xs)
  where
    lt_not_eq : ¬ (Ordering.lt ≡ Ordering.eq)
    lt_not_eq k = cc

pub differ_of_gt : (xs ys : Bytes) → cmp xs ys ≡ Ordering.gt → ¬ (xs ≡ ys)
differ_of_gt xs ys h e = gt_not_eq (sym h ∙ ap (cmp xs) (sym e) ∙ cmp_refl xs)
  where
    gt_not_eq : ¬ (Ordering.gt ≡ Ordering.eq)
    gt_not_eq k = cc

pub lt_of_gt : (xs ys : Bytes) → cmp xs ys ≡ Ordering.gt → cmp ys xs ≡ Ordering.lt
unfolding cmp
lt_of_gt [] [] h = cc
lt_of_gt [] (y ∷ ys) h = cc
lt_of_gt (x ∷ xs) [] h = refl
lt_of_gt (x ∷ xs) (y ∷ ys) h = ground (arith, lt_of_gt xs ys)

pub gt_of_lt : (xs ys : Bytes) → cmp xs ys ≡ Ordering.lt → cmp ys xs ≡ Ordering.gt
unfolding cmp
gt_of_lt [] [] h = cc
gt_of_lt [] (y ∷ ys) h = refl
gt_of_lt (x ∷ xs) [] h = cc
gt_of_lt (x ∷ xs) (y ∷ ys) h = ground (arith, gt_of_lt xs ys)

pub lt_trans :
    (xs ys zs : Bytes) → cmp xs ys ≡ Ordering.lt → cmp ys zs ≡ Ordering.lt → cmp xs zs ≡ Ordering.lt
unfolding cmp
lt_trans [] [] zs h k = cc
lt_trans [] (y ∷ ys) [] h k = cc
lt_trans [] (y ∷ ys) (z ∷ zs) h k = refl
lt_trans (x ∷ xs) [] zs h k = cc
lt_trans (x ∷ xs) (y ∷ ys) [] h k = cc
lt_trans (x ∷ xs) (y ∷ ys) (z ∷ zs) h k =
    ground (arith, lt_trans xs ys zs, eq_of_cmp xs ys, eq_of_cmp ys zs)

-- A common prefix does not matter.
pub cmp-append : (p xs ys : Bytes) → cmp (p ++ xs) (p ++ ys) ≡ cmp xs ys
unfolding cmp
cmp-append [] xs ys = refl
cmp-append (c ∷ p) xs ys = ground (arith, cmp-append p xs ys)

-- `slice::starts_with`
unfoldable pub starts_with : Bytes → Bytes → Bool
starts_with xs [] = true
starts_with [] (c ∷ p) = false
starts_with (x ∷ xs) (c ∷ p) = x == c && starts_with xs p

pub starts_with-append : (p xs : Bytes) → starts_with (p ++ xs) p ≡ true
unfolding starts_with
starts_with-append [] xs = refl
starts_with-append (c ∷ p) xs = ground (arith, starts_with-append p xs)

pub starts_with-drop : (xs p : Bytes) → starts_with xs p ≡ true → p ++ drop (length p) xs ≡ xs
unfolding starts_with
starts_with-drop xs [] h = refl
starts_with-drop [] (c ∷ p) h = cc
starts_with-drop (x ∷ xs) (c ∷ p) h = ground (arith, starts_with-drop xs p)

-- Once the keys have passed those with the prefix `p`, none with it follows.
pub starts_with_past :
    (p xs ys zs : Bytes)
    → cmp (p ++ xs) ys ≡ Ordering.lt
    → starts_with ys p ≡ false
    → cmp ys zs ≡ Ordering.lt
    → starts_with zs p ≡ false
unfolding cmp starts_with
starts_with_past [] xs ys zs h n k = cc
starts_with_past (c ∷ p) xs [] zs h n k = cc
starts_with_past (c ∷ p) xs (y ∷ ys) [] h n k = refl
starts_with_past (c ∷ p) xs (y ∷ ys) (z ∷ zs) h n k = ground (arith, starts_with_past p xs ys zs)

pub drop-append : (p xs : Bytes) → drop (length p) (p ++ xs) ≡ xs
drop-append [] xs = refl
drop-append (c ∷ p) xs = drop-append p xs

-- A split at a known length is unique.
pub append_inj : (a b c d : Bytes) → length a ≡ length c → a ++ b ≡ c ++ d → (a ≡ c) × (b ≡ d)
append_inj a b c d h e = (
  sym (take-append (length a) a b refl)
      ∙ ap (take (length a)) e
      ∙ take-append (length a) c d (sym h),
  sym (drop-append_eq (length a) a b refl)
      ∙ ap (drop (length a)) e
      ∙ drop-append_eq (length a) c d (sym h),
)
