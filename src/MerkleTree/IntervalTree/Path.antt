-- ===== src/MerkleTree/IntervalTree/Path.antt =====
-- `get_path` rotates the index, and reads its low bits all the same; `next_power_of_two` at powers.
use plasma_rust_framework.Prelude.{
  ℕ, zero, suc, ◌+◌, ◌*◌, ◌/◌, ◌%◌, ◌^◌, ◌≤◌, ◌<◌, ◌≡◌, refl, ap, ◌∙◌, Bool, true, false, List, [],
  ◌∷◌, ◌++◌, arith, ◌==◌,
}
use native.Mathlib.Nat.{pow-suc}
use plasma_rust_framework.MerkleTree.IntervalTree.{
  get_path, rotate_right, next_power, next_power_of_two,
}

-- The `d` low bits, the lowest first.
unfoldable pub bits : ℕ → ℕ → List Bool
bits zero n = []
bits (suc d) n = (n % 2 == 1) ∷ bits d (n / 2)

-- Two numbers with the same `d` low bits.
abbrev SameBits : ℕ → ℕ → ℕ → Type 0
SameBits zero a b = Unit
SameBits (suc d) a b = (a % 2 ≡ b % 2) × SameBits d (a / 2) (b / 2)

SameBits-high : (d k x c : ℕ) → d ≤ k → SameBits d (x + c * 2 ^ k) x
SameBits-high zero k x c h = tt
SameBits-high (suc d) zero x c h = absurd (omega arith)
SameBits-high (suc d) (suc k) x c h =
    let e : c * 2 ^ suc k ≡ c * (2 ^ k * 2) = ap (λ (t : ℕ). c * t) (pow-suc 2 k) in
    let half : (x + c * 2 ^ suc k) / 2 ≡ x / 2 + c * 2 ^ k = omega (arith, e) in
    (omega (arith, e), rw half (SameBits-high d k (x / 2) c (omega arith)))

bits_same : (d a b : ℕ) → SameBits d a b → bits d a ≡ bits d b
unfolding bits
bits_same zero a b h = refl
bits_same (suc d) a b h = ground (arith, bits_same d (a / 2) (b / 2) h.1)

-- Up to a depth of 64, the width of the index, `get_path` lists the binary digits of the index, the lowest
-- first, in spite of the rotation.
pub get_path-eq-bits : (d idx : ℕ) → d ≤ 64 → get_path idx d ≡ bits d idx
unfolding get_path bits
get_path-eq-bits zero idx h = refl
get_path-eq-bits (suc d) idx h =
    ap (λ (l : List Bool). (idx % 2 == 1) ∷ l)
      (get_path-eq-bits d (rotate_right idx) (omega arith)
        ∙ bits_same d (rotate_right idx) (idx / 2)
            (unfold rotate_right in SameBits-high d 63 (idx / 2) (idx % 2) (omega arith)))

-- The highest of one more bit.
pub bits_low : (d n : ℕ) → n < 2 ^ d → bits (suc d) n ≡ bits d n ++ false ∷ []
unfolding bits
bits_low zero n h = ground arith
bits_low (suc d) n h =
    ap (λ (l : List Bool). (n % 2 == 1) ∷ l) (bits_low d (n / 2) (omega (arith, pow-suc 2 d)))

pub bits_high : (d n : ℕ) → n < 2 ^ d → bits (suc d) (n + 2 ^ d) ≡ bits d n ++ true ∷ []
unfolding bits
bits_high zero n h = ground arith
bits_high (suc d) n h =
    let half : (n + 2 ^ suc d) / 2 ≡ n / 2 + 2 ^ d = omega (arith, pow-suc 2 d) in
    let low : (n + 2 ^ suc d) % 2 ≡ n % 2 = omega (arith, pow-suc 2 d) in
    rw (low, half)
      (ap (λ (l : List Bool). (n % 2 == 1) ∷ l) (bits_high d (n / 2) (omega (arith, pow-suc 2 d))))

pub pow_pos : (e : ℕ) → 0 < 2 ^ e
pow_pos zero = omega arith
pow_pos (suc e) = omega (arith, pow-suc 2 e, pow_pos e)

le-mul : (p m : ℕ) → 0 < m → p ≤ p * m
le-mul p m h = grind arith

next_power_reach : (e fuel p n : ℕ) → n ≡ p * 2 ^ e → e < fuel → 0 < p → next_power fuel p n ≡ n
unfolding next_power
next_power_reach e zero p n h f pos = absurd (omega arith)
next_power_reach zero (suc fuel) p n h f pos = ground (arith, h)
next_power_reach (suc e) (suc fuel) p n h f pos =
    let step : p * 2 ^ suc e ≡ p * 2 * 2 ^ e = omega (arith, ap (λ (t : ℕ). p * t) (pow-suc 2 e)) in
    let more : p < n = omega (arith, step, le-mul p (2 ^ e) (pow_pos e)) in
    ground (arith, next_power_reach e fuel (p * 2) n (h ∙ step) (omega arith) (omega arith))

pub next_power_of_two_pow : (d : ℕ) → d < 64 → next_power_of_two (2 ^ d) ≡ 2 ^ d
unfolding next_power_of_two
next_power_of_two_pow d h = next_power_reach d 64 1 (2 ^ d) (omega arith) h (omega arith)
