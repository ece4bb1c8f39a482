-- ===== src/Prelude/Words.antt =====
-- Unsigned integers as bytes: `put_u64_be` and `put_u64_le` of the crate `bytes`, `write_u64` and
-- `read_u64` of `byteorder`, written out from their documentation.
use plasma_rust_framework.Prelude.Bytes.{Bytes, cmp}
use Prim.Native.Nat.{ℕ, zero, suc, ◌+◌, ◌*◌, ◌/◌, ◌%◌, ◌<◌, ◌^◌, compare, Ordering}
use mathlib.Core.Path.{◌≡◌, refl}
use mathlib.Core.List.{[], ◌∷◌, ◌++◌}
use native.Mathlib.Omega.{arith}
use plasma_rust_framework.Prelude.Lists.{length, length-append}

-- `n` has at most `k` bytes.
abbrev pub Fits : ℕ → ℕ → Type 0
Fits zero n = n ≡ 0
Fits (suc k) n = Fits k (n / 256)

-- The `k` low bytes, the most significant first.
unfoldable pub be_bytes : ℕ → ℕ → Bytes
be_bytes zero n = []
be_bytes (suc k) n = be_bytes k (n / 256) ++ (n % 256) ∷ []

-- The `k` low bytes, the least significant first.
unfoldable pub le_bytes : ℕ → ℕ → Bytes
le_bytes zero n = []
le_bytes (suc k) n = n % 256 ∷ le_bytes k (n / 256)

-- The number that bytes stand for, the least significant first.
unfoldable pub of_le : Bytes → ℕ
of_le [] = 0
of_le (b ∷ bs) = b + 256 * of_le bs

pub length-be_bytes : (k n : ℕ) → length (be_bytes k n) ≡ k
unfolding be_bytes
length-be_bytes zero n = refl
length-be_bytes (suc k) n =
    omega
      (arith, length-append (be_bytes k (n / 256)) ((n % 256) ∷ []), length-be_bytes k (n / 256))

pub length-le_bytes : (k n : ℕ) → length (le_bytes k n) ≡ k
unfolding le_bytes
length-le_bytes zero n = refl
length-le_bytes (suc k) n = omega (arith, length-le_bytes k (n / 256))

pub of_le-le_bytes : (k n : ℕ) → Fits k n → of_le (le_bytes k n) ≡ n
unfolding of_le le_bytes
of_le-le_bytes zero n h = omega arith
of_le-le_bytes (suc k) n h = omega (arith, of_le-le_bytes k (n / 256) h)

abbrev then : Ordering → Ordering → Ordering
then Ordering.eq second = second
then first _ = first

cmp-append_last :
    (xs ys : Bytes) (a b : ℕ)
    → length xs ≡ length ys
    → cmp (xs ++ a ∷ []) (ys ++ b ∷ []) ≡ then (cmp xs ys) (compare a b)
unfolding cmp
cmp-append_last [] [] a b h = ground arith
cmp-append_last [] (y ∷ ys) a b h = absurd (omega arith)
cmp-append_last (x ∷ xs) [] a b h = absurd (omega arith)
cmp-append_last (x ∷ xs) (y ∷ ys) a b h = ground (arith, cmp-append_last xs ys a b)

compare_digits :
    (a b : ℕ) → compare a b ≡ then (compare (a / 256) (b / 256)) (compare (a % 256) (b % 256))
compare_digits a b = ground arith

-- The big-endian bytes are ordered as the numbers are.
pub cmp-be_bytes :
    (k a b : ℕ) → Fits k a → Fits k b → cmp (be_bytes k a) (be_bytes k b) ≡ compare a b
unfolding be_bytes
cmp-be_bytes zero a b h i = unfold cmp in ground arith
cmp-be_bytes (suc k) a b h i = ground (
  arith,
  compare_digits a b,
  cmp-be_bytes k (a / 256) (b / 256) h i,
  cmp-append_last (be_bytes k (a / 256)) (be_bytes k (b / 256)) (a % 256) (b % 256),
  length-be_bytes k (a / 256),
  length-be_bytes k (b / 256),
)

pub Fits-u64 : (n : ℕ) → n < 2 ^ 64 → Fits 8 n
Fits-u64 n h = omega arith

-- The number with these bytes, the highest first, behind the digits of `acc`.
of_be_from : ℕ → Bytes → ℕ
of_be_from acc [] = acc
of_be_from acc (b ∷ bs) = of_be_from (acc * 256 + b) bs

unfoldable pub of_be : Bytes → ℕ
unfolding of_be_from
of_be bs = of_be_from 0 bs

of_be_from-append :
    (acc b : ℕ) (bs : Bytes) → of_be_from acc (bs ++ b ∷ []) ≡ of_be_from acc bs * 256 + b
unfolding of_be_from
of_be_from-append acc b [] = refl
of_be_from-append acc b (c ∷ bs) = of_be_from-append (acc * 256 + c) b bs

pub of_be-be_bytes : (k n : ℕ) → Fits k n → of_be (be_bytes k n) ≡ n
unfolding of_be be_bytes
of_be-be_bytes zero n h = unfold of_be_from in omega arith
of_be-be_bytes (suc k) n h =
    omega
      (arith, of_be_from-append 0 (n % 256) (be_bytes k (n / 256)), of_be-be_bytes k (n / 256) h)
