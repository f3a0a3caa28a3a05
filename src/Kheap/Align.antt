-- ===== src/Kheap/Align.antt =====
-- The alignments of mm/mem.c as arithmetic: ALIGN_UP to a power of two, and normalize_align.
use Prim.Native.Nat.{bit_and}
use native.Mathlib.Decide.{dec_le}
use native.Mathlib.Nat.{
  pow-suc, one-le-pow, mod-lt, div-add-mod', mul-mod_left, div-lt_iff_lt-mul, mod-eq_of_lt,
  mul_assoc, mul_comm, mul-sub, pow-le-pow_right,
}
use orion_os.Base.{
  ℕ, zero, suc, ◌+◌, ◌-◌, ◌*◌, ◌/◌, ◌%◌, ◌^◌, ◌≤◌, ◌<◌, ◌≡◌, refl, sym, ap, ◌∙◌, ◌⊎◌, inl, inr,
  true, false, some, arith, ltb, ◌==◌, ◌!=◌, if◌then◌else◌, Bool-cases, ltb→lt,
}
use orion_os.Base.Bits.{bit_and_high, bit_and-digit, bit_and_self}
use orion_os.Kheap.{align_to, align_up, add32, sub32, power_from, normalize_align}

two-pow-add : (k j : ℕ) → 2 ^ j * 2 ^ k ≡ 2 ^ (k + j)
two-pow-add k zero = let e : k + 0 ≡ k = omega arith in rw e (omega arith)
two-pow-add k (suc j) =
    let e : k + suc j ≡ suc (k + j) = omega arith in
    rw (e, pow-suc 2 j, pow-suc 2 (k + j), ← two-pow-add k j)
      (mul_assoc (2 ^ j) 2 (2 ^ k)
        ∙ ap (◌*◌ (2 ^ j)) (mul_comm 2 (2 ^ k))
        ∙ sym (mul_assoc (2 ^ j) (2 ^ k) 2))

-- Rounding up to a multiple of `2 ^ k`, where the sum does not wrap.
align_to-pow :
    (k j x : ℕ)
    → k + j ≡ 32
    → x + 2 ^ k ≤ 2 ^ 32
    → align_to x (2 ^ k) ≡ (x + 2 ^ k - 1) / 2 ^ k * 2 ^ k
unfolding align_to
align_to-pow k j x sum h =
    let t = 2 ^ k in
    let one = one-le-pow k 2 (omega arith) in
    let whole : 2 ^ j * t ≡ 2 ^ 32 = two-pow-add k j ∙ ap (λ (n : ℕ). 2 ^ n) sum in
    let y : add32 x (sub32 t 1) ≡ x + t - 1 = omega arith in
    let mask : 2 ^ 32 - 1 - sub32 t 1 ≡ (2 ^ j - 1) * t =
      omega (arith, mul-sub t (2 ^ j) 1, mul_comm t (2 ^ j), mul_comm t (2 ^ j - 1)) in
    let small : (x + t - 1) / t < 2 ^ j = (div-lt_iff_lt-mul one).1 (omega arith) in
    rw (y, mask, bit_and_high k j (x + t - 1), mod-eq_of_lt small) refl

-- The result is the next multiple of the power.
pub align_to_lem :
    (k x : ℕ)
    → k ≤ 31
    → x + 2 ^ k ≤ 2 ^ 32
    → let r = align_to x (2 ^ k) in (x ≤ r) × (r < x + 2 ^ k) × (r % 2 ^ k ≡ 0)
align_to_lem k x le h =
    let t = 2 ^ k in
    let e = align_to-pow k (32 - k) x (omega arith) h in
    let one = one-le-pow k 2 (omega arith) in
    let rest = mod-lt (x + t - 1) one in
    let sum = div-add-mod' (x + t - 1) t in
    rw e (omega arith, omega arith, mul-mod_left ((x + t - 1) / t) t)

abbrev pub Alignment : ℕ → Type 0
Alignment a = (k : ℕ) × (2 ≤ k) × (k ≤ 31) × (a ≡ 2 ^ k)

-- A number that shares no binary digit with the number before it is a power of two.
no_shared_digit : (n x : ℕ) → x ≤ n → 0 < x → bit_and x (x - 1) ≡ 0 → (k : ℕ) × (x ≡ 2 ^ k)
no_shared_digit zero x le pos h = absurd (omega arith)
no_shared_digit (suc n) x le pos h =
    let digits = bit_and-digit x (x - 1) in
    elim (dec_le (x % 2) 0) [
      | yes even ↦
          let half : (x - 1) / 2 ≡ x / 2 - 1 = omega arith in
          let above : bit_and (x / 2) (x / 2 - 1) ≡ 0 =
            ap (bit_and (x / 2)) (sym half) ∙ omega arith in
          let (k, e) = no_shared_digit n (x / 2) (omega arith) (omega arith) above in
          (suc k, omega (arith, e, pow-suc 2 k))
      | no odd ↦
          let half : (x - 1) / 2 ≡ x / 2 = omega arith in
          let self : bit_and (x / 2) (x / 2) ≡ 0 = ap (bit_and (x / 2)) (sym half) ∙ omega arith in
          (0, omega (arith, self, bit_and_self (x / 2) (x / 2) (omega arith)))
    ]

two_pos : 0 < 2
two_pos = omega arith

below_top : (j align : ℕ) → j ≤ 31 → align ≤ 2 ^ 31 → 2 ^ j < align → j < 31
below_top j align le h less = elim (dec_le 31 j) [
  | yes top ↦
      let e : j ≡ 31 = omega arith in
      let f : 2 ^ j ≡ 2 ^ 31 = ap (λ (n : ℕ). 2 ^ n) e in absurd (omega arith)
  | no under ↦ omega arith
]

doubled : (j align : ℕ) → 2 ^ j < align → 2 ^ suc j < 2 * align
doubled j align less = omega (arith, pow-suc 2 j)

power_from_lem :
    (fuel j align : ℕ)
    → j ≤ 31
    → 32 ≤ j + fuel
    → align ≤ 2 ^ 31
    → 2 ^ j < 2 * align
    → (k : ℕ) × (k ≤ 31)
      × (align ≤ 2 ^ k)
      × (2 ^ k < 2 * align)
      × (power_from fuel (2 ^ j) align ≡ some (2 ^ k))
unfolding power_from
power_from_lem zero j align le enough h near = absurd (omega arith)
power_from_lem (suc fuel) j align le enough h near = elim (Bool-cases (ltb (2 ^ j) align)) [
  | inl less ↦
      let below : j < 31 = below_top j align le h (ltb→lt (2 ^ j) align less) in
      let near' : 2 ^ suc j < 2 * align = doubled j align (ltb→lt (2 ^ j) align less) in
      let twice : 2 ^ j * 2 % 2 ^ 32 ≡ 2 ^ suc j =
        omega (arith, pow-suc 2 j, pow-le-pow_right two_pos below) in
      let (k, le', fits, least, e) =
        power_from_lem fuel (suc j) align (omega arith) (omega arith) h near' in
      (k, le', fits, least, rw (less, twice) e)
  | inr done ↦ (j, le, ground arith, near, rw done refl)
]

within : (k align : ℕ) → align ≤ 2 ^ 31 → align ≡ 2 ^ k → k ≤ 31
within k align h e = elim (dec_le k 31) [
  | yes le ↦ le
  | no above ↦ absurd (omega (arith, pow-le-pow_right two_pos {i = 32} {j = k} (omega arith)))
]

rounded :
    (align : ℕ)
    → align ≤ 2 ^ 31
    → 2 ≤ align
    → (k : ℕ) × (k ≤ 31)
      × (align ≤ 2 ^ k)
      × (2 ^ k < 2 * align)
      × ((if bit_and align (sub32 align 1) != 0 then power_from 33 1 align else some align)
          ≡ some (2 ^ k))
rounded align h two = elim (Bool-cases (bit_and align (sub32 align 1) != 0)) [
  | inl mixed ↦
      let (k, le, fits, least, e) =
        power_from_lem 33 0 align (omega arith) (omega arith) h (omega arith) in
      (k, le, fits, least, rw mixed e)
  | inr pure ↦
      let less : sub32 align 1 ≡ align - 1 = omega arith in
      let none : bit_and align (align - 1) ≡ 0 = ap (bit_and align) (sym less) ∙ ground arith in
      let (k, e) = no_shared_digit align align (omega arith) (omega arith) none in
      (k, within k align h e, omega arith, omega arith, rw pure (ap some e))
]

-- normalize_align ends for every alignment up to `2 ^ 31`: it is 0 for an alignment below 2, and for
-- any other the least power of two from 4 on that is not below it.
pub normalize_align_lem :
    (align : ℕ)
    → align ≤ 2 ^ 31
    → (a : ℕ) × (normalize_align align ≡ some a)
      × (((align < 2) × (a ≡ 0))
          ⊎ ((2 ≤ align) × Alignment a × (align ≤ a) × ((a ≡ 4) ⊎ (a < 2 * align))))
unfolding normalize_align
normalize_align_lem align h = elim (Bool-cases (ltb align 2)) [
  | inl small ↦ (0, rw small refl, inl (ltb→lt align 2 small, refl))
  | inr large ↦
      let two_on : 2 ≤ align = ground arith in
      let (k, le, fits, least, e) = rounded align h two_on in
      elim (dec_le 2 k) [
        | yes two ↦
            let four : ltb (2 ^ k) 4 ≡ false = ground (arith, pow-le-pow_right two_pos two) in
            (2 ^ k, rw (large, e, four) refl, inr (two_on, (k, two, le, refl), fits, inr least))
        | no less ↦
            let few : ltb (2 ^ k) 4 ≡ true =
              ground (arith, pow-le-pow_right two_pos {i = k} {j = 1} (omega arith)) in
            (
              4,
              rw (large, e, few) refl,
              inr (two_on, (2, omega arith, omega arith, refl), ground arith, inl refl),
            )
      ]
]

-- What an allocation uses of it.
pub normalize_align-Alignment :
    (align : ℕ)
    → align ≤ 2 ^ 31
    → (a : ℕ) × (normalize_align align ≡ some a)
      × ((a ≡ 0) ⊎ Alignment a)
      × ((align < 2) ⊎ (align ≤ a))
normalize_align-Alignment align h =
    let (a, e, which) = normalize_align_lem align h in
    elim which [
      | inl (below, null) ↦ (a, e, inl null, inl below)
      | inr (two, power, covers, least) ↦ (a, e, inr power, inr covers)
    ]

-- What is asked of an address: any multiple of 4, or one of the alignment.
abbrev pub Aligned : ℕ → ℕ → Type 0
Aligned a r = (r % 4 ≡ 0) × ((a ≡ 0) ⊎ (r % a ≡ 0))

multiple_of_four : (k r : ℕ) → 2 ≤ k → r % 2 ^ k ≡ 0 → r % 4 ≡ 0
multiple_of_four k r le h =
    let e : 2 + (k - 2) ≡ k = omega arith in
    let whole : 2 ^ (k - 2) * 2 ^ 2 ≡ 2 ^ k = two-pow-add 2 (k - 2) ∙ ap (λ (n : ℕ). 2 ^ n) e in
    let parts : r / 2 ^ k * 2 ^ k ≡ r / 2 ^ k * 2 ^ (k - 2) * 4 =
      ap (◌*◌ (r / 2 ^ k)) (sym whole) ∙ sym (mul_assoc (r / 2 ^ k) (2 ^ (k - 2)) 4) in
    omega (arith, div-add-mod' r (2 ^ k))

pub align_up_lem :
    (a x : ℕ)
    → (a ≡ 0) ⊎ Alignment a
    → x % 4 ≡ 0
    → x + a ≤ 2 ^ 32
    → let r = align_up x a in (x ≤ r) × (r ≤ x + a) × Aligned a r
unfolding align_up
align_up_lem a x (inl e) four h = rw e (omega arith, omega arith, (four, inl refl))
align_up_lem a x (inr (k, two, le, e)) four h =
    let some_a : (a == 0) ≡ false = ground (arith, one-le-pow k 2) in
    let (ge, lt, whole) = align_to_lem k x le (omega arith) in
    rw (some_a, e) (ge, omega arith, (multiple_of_four k (align_to x (2 ^ k)) two whole, inr whole))

-- ALIGN4 of a size that does not wrap.
pub align_to-four : (x : ℕ) → x + 4 ≤ 2 ^ 32 → align_to x 4 ≡ (x + 3) / 4 * 4
align_to-four x h = omega (arith, align_to-pow 2 30 x refl h)

pub align_to-page : (x : ℕ) → x + 4096 ≤ 2 ^ 32 → align_to x 4096 ≡ (x + 4095) / 4096 * 4096
align_to-page x h = omega (arith, align_to-pow 12 20 x refl h)
