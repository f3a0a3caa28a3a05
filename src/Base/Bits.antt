-- ===== src/Base/Bits.antt =====
-- `&` with a mask of low ones, and with a mask that clears low digits, as arithmetic.
use Prim.Native.Nat.{
  ℕ, zero, suc, ◌+◌, ◌-◌, ◌*◌, ◌/◌, ◌%◌, ◌^◌, ◌≤◌, ◌<◌, min, bit_and, digits, bit_and-bitwise,
}
use mathlib.Core.Path.{◌≡◌, refl, sym, ap, ◌∙◌}
use native.Mathlib.Nat.{
  pow-suc, one-le-pow, div-div-eq-div-mul, mod-lt, mod-add-div, add-mul-mod_self_left, mod-eq_of_lt,
}
use native.Mathlib.Decide.{dec_le}
use native.Mathlib.Omega.{arith}

-- The native operations recur on the binary digits of their first number, a unit of fuel to a digit.
module _ (rest : ℕ → ℕ) (digit : ℕ → ℕ → ℕ) where
  more_fuel : (n x y : ℕ) → x ≤ n → digits rest digit (suc n) x y ≡ digits rest digit n x y
  more_fuel zero zero y h = refl
  more_fuel zero (suc x) y h = absurd (omega arith)
  more_fuel (suc n) zero y h = refl
  more_fuel (suc n) (suc x) y h =
      ap (λ (t : ℕ). t * 2 + digit (suc x % 2) (y % 2))
        (more_fuel n (suc x / 2) (y / 2) (omega arith))

  -- Fuel beyond the number itself is never used.
  pub settled : (n x y : ℕ) → x ≤ n → digits rest digit n x y ≡ digits rest digit x x y
  settled zero x y h = let e : x ≡ 0 = omega arith in rw e refl
  settled (suc n) x y h = elim (dec_le x n) [
    | yes fits ↦ more_fuel n x y fits ∙ settled n x y fits
    | no past ↦ let e : x ≡ suc n = omega arith in rw e refl
  ]

-- The lowest binary digit of `x & y`, and the digits above it.
pub bit_and-digit : (x y : ℕ) → bit_and x y ≡ min (x % 2) (y % 2) + 2 * bit_and (x / 2) (y / 2)
bit_and-digit zero y = rw (bit_and-bitwise 0 y, bit_and-bitwise 0 (y / 2)) (omega arith)
bit_and-digit (suc x) y =
    let above : digits (λ y. 0) min x (suc x / 2) (y / 2) ≡ bit_and (suc x / 2) (y / 2) =
      settled (λ y. 0) min x (suc x / 2) (y / 2) (omega arith)
      ∙ sym (bit_and-bitwise (suc x / 2) (y / 2)) in
    omega (arith, bit_and-bitwise (suc x) y, above)

bit_and-zero : (a : ℕ) → bit_and a 0 ≡ 0
bit_and-zero a = simp bit_and-bitwise (none_below a a)
  where
    none_below : (n x : ℕ) → digits (λ y. 0) min n x 0 ≡ 0
    none_below zero zero = refl
    none_below zero (suc x) = refl
    none_below (suc n) zero = refl
    none_below (suc n) (suc x) = omega (arith, none_below n (suc x / 2))

-- `a & m` where `m` has a zero, or a one, for its lowest digit.
bit_and-even : (a m : ℕ) → bit_and a (2 * m) ≡ 2 * bit_and (a / 2) m
bit_and-even a m =
    let e : 2 * m / 2 ≡ m = omega arith in
    omega (arith, bit_and-digit a (2 * m), ap (λ (t : ℕ). bit_and (a / 2) t) e)

bit_and-odd : (a m : ℕ) → bit_and a (2 * m + 1) ≡ 2 * bit_and (a / 2) m + a % 2
bit_and-odd a m =
    let e : (2 * m + 1) / 2 ≡ m = omega arith in
    omega (arith, bit_and-digit a (2 * m + 1), ap (λ (t : ℕ). bit_and (a / 2) t) e)

div-two-pow : (a k : ℕ) → a / 2 / 2 ^ k ≡ a / 2 ^ suc k
div-two-pow a k = rw (div-div-eq-div-mul a 2 (2 ^ k)) (ap (λ (t : ℕ). a / t) (two-pow-suc k))
  where
    two-pow-suc : (k : ℕ) → 2 * 2 ^ k ≡ 2 ^ suc k
    two-pow-suc k = omega (arith, pow-suc 2 k)

-- The remainder by `2 * t` has the remainder of the half by `t` above its lowest digit.
mod-twice : (a t : ℕ) → 0 < t → a % (2 * t) ≡ 2 * (a / 2 % t) + a % 2
mod-twice a t h =
    let r : ℕ = 2 * (a / 2 % t) + a % 2 in
    let e : a ≡ r + 2 * t * (a / 2 / t) = omega (arith, mod-add-div (a / 2) t) in
    let small : r < 2 * t = omega (arith, mod-lt (a / 2) h) in
    ap (λ (x : ℕ). x % (2 * t)) e ∙ add-mul-mod_self_left r (2 * t) (a / 2 / t) ∙ mod-eq_of_lt small

-- A mask of `k` low ones is the remainder by `2 ^ k`.
pub bit_and_low : (k a : ℕ) → bit_and a (2 ^ k - 1) ≡ a % 2 ^ k
bit_and_low zero a = omega (arith, bit_and-zero a)
bit_and_low (suc k) a =
    let mask : 2 ^ suc k - 1 ≡ 2 * (2 ^ k - 1) + 1 = omega (arith, pow-suc 2 k, one-le-pow k 2) in
    let width : 2 ^ suc k ≡ 2 * 2 ^ k = omega (arith, pow-suc 2 k) in
    rw (mask, width)
      (omega (
        arith,
        bit_and-odd a (2 ^ k - 1),
        bit_and_low k (a / 2),
        mod-twice a (2 ^ k) (one-le-pow k 2 (omega arith)),
      ))

-- A mask of `w` ones above `k` zeros clears the `k` low digits.
pub bit_and_high : (k w a : ℕ) → bit_and a ((2 ^ w - 1) * 2 ^ k) ≡ (a / 2 ^ k % 2 ^ w) * 2 ^ k
bit_and_high zero w a =
    let one : (2 ^ w - 1) * 2 ^ 0 ≡ 2 ^ w - 1 = omega arith in
    let same : a / 2 ^ 0 ≡ a = omega arith in rw (one, same) (omega (arith, bit_and_low w a))
bit_and_high (suc k) w a =
    let mask : (2 ^ w - 1) * 2 ^ suc k ≡ 2 * ((2 ^ w - 1) * 2 ^ k) =
      omega (arith, ap (λ (t : ℕ). (2 ^ w - 1) * t) (pow-suc 2 k)) in
    rw (mask, ← div-two-pow a k)
      (omega (
        arith,
        bit_and-even a ((2 ^ w - 1) * 2 ^ k),
        bit_and_high k w (a / 2),
        ap (λ (t : ℕ). (a / 2 / 2 ^ k % 2 ^ w) * t) (pow-suc 2 k),
      ))

-- A number's digits in common with itself are its own.
pub bit_and_self : (n x : ℕ) → x ≤ n → bit_and x x ≡ x
bit_and_self zero x h = let e : x ≡ 0 = omega arith in rw e (bit_and-zero 0)
bit_and_self (suc n) x h = elim (dec_le x 0) [
  | yes none ↦ let e : x ≡ 0 = omega arith in rw e (bit_and-zero 0)
  | no more ↦ omega (arith, bit_and-digit x x, bit_and_self n (x / 2) (omega arith))
]
