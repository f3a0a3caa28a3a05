-- ===== src/Base/Join.antt =====
-- `|` of numbers that share no binary digit, as a sum.
use Prim.Native.Nat.{
  ℕ, zero, suc, ◌+◌, ◌*◌, ◌/◌, ◌%◌, ◌^◌, ◌≤◌, ◌<◌, max, bit_or, digits, bit_or-bitwise,
}
use mathlib.Core.Path.{◌≡◌, refl, sym, ap, ◌∙◌}
use native.Mathlib.Nat.{pow-suc, mul_assoc}
use native.Mathlib.Omega.{arith}
use orion_os.Base.Bits.{settled}

-- The lowest binary digit of `x | y`, and the digits above it.
bit_or-digit : (x y : ℕ) → bit_or x y ≡ max (x % 2) (y % 2) + 2 * bit_or (x / 2) (y / 2)
bit_or-digit zero y = rw (bit_or-bitwise 0 y, bit_or-bitwise 0 (y / 2)) (omega arith)
bit_or-digit (suc x) y =
    let above : digits (λ y. y) max x (suc x / 2) (y / 2) ≡ bit_or (suc x / 2) (y / 2) =
      settled (λ y. y) max x (suc x / 2) (y / 2) (omega arith)
      ∙ sym (bit_or-bitwise (suc x / 2) (y / 2)) in
    omega (arith, bit_or-bitwise (suc x) y, above)

bit_or-zero : (n x : ℕ) → x ≤ n → bit_or x 0 ≡ x
bit_or-zero n zero h = refl
bit_or-zero zero (suc x) h = absurd (omega arith)
bit_or-zero (suc n) (suc x) h =
    omega (arith, bit_or-digit (suc x) 0, bit_or-zero n (suc x / 2) (omega arith))

-- Digits below `2 ^ k` and a multiple of it.
pub bit_or_apart : (k x f : ℕ) → f < 2 ^ k → bit_or (x * 2 ^ k) f ≡ x * 2 ^ k + f
bit_or_apart zero x f h =
    let e : f ≡ 0 = omega arith in
    rw e (omega (arith, bit_or-zero (x * 2 ^ 0) (x * 2 ^ 0) (omega arith)))
bit_or_apart (suc k) x f h =
    let twice : x * 2 ^ suc k ≡ x * 2 ^ k * 2 =
      ap (◌*◌ x) (pow-suc 2 k) ∙ sym (mul_assoc x (2 ^ k) 2) in
    let half : x * 2 ^ suc k / 2 ≡ x * 2 ^ k = omega arith in
    omega (
      arith,
      bit_or-digit (x * 2 ^ suc k) f,
      ap (λ (t : ℕ). bit_or t (f / 2)) half,
      bit_or_apart k x (f / 2) (omega (arith, pow-suc 2 k)),
    )

-- `x | 1`, `x | 2` and `x | 4`.
pub bit_or_one : (x : ℕ) → bit_or x 1 ≡ x / 2 * 2 + 1
bit_or_one x = omega (arith, bit_or-digit x 1, bit_or-zero (x / 2) (x / 2) (omega arith))

pub bit_or_two : (x : ℕ) → bit_or x 2 ≡ x / 4 * 4 + 2 + x % 2
bit_or_two x = omega (arith, bit_or-digit x 2, bit_or_one (x / 2))

pub bit_or_four : (x : ℕ) → bit_or x 4 ≡ x / 8 * 8 + 4 + x % 4
bit_or_four x = omega (arith, bit_or-digit x 4, bit_or_two (x / 2))
