-- ===== src/CString/Number/RoundTrip.antt =====
-- atoi reads back what int_to_ascii writes.
use orion_os.Base.{
  ℕ, zero, suc, ◌+◌, ◌-◌, ◌*◌, ◌/◌, ◌%◌, ◌^◌, ◌≤◌, ◌<◌, ◌≡◌, refl, ap, ◌∙◌, Bool, true, false,
  Option, none, some, List, [], ◌∷◌, ◌++◌, arith, ltb, if◌then◌else◌, Bool-cases, inl, inr,
}
use orion_os.CString.{ℤ, pos, negsuc, minus, isdigit}
use orion_os.CString.Number.{digits_from, int_to_ascii, atoi, atoi_digits, skip_space, read_sign}
use orion_os.CString.Number.Reverse.{reversed, reverse_lem}

-- The number that a string of digits denotes behind `acc`, the most significant first.
value : ℕ → List ℕ → ℕ
value acc [] = acc
value acc (c ∷ s) = value (acc * 10 + (c - b'0')) s

AreDigits : List ℕ → Type 0
AreDigits [] = Unit {0}
AreDigits (c ∷ s) = (b'0' ≤ c) × (c ≤ b'9') × AreDigits s

value-grows : (acc : ℕ) (s : List ℕ) → acc ≤ value acc s
unfolding value
value-grows acc [] = omega arith
value-grows acc (c ∷ s) = omega (arith, value-grows (acc * 10 + (c - b'0')) s)

atoi_digits-value :
    (acc : ℕ) (s : List ℕ)
    → AreDigits s
    → value acc s < 2 ^ 31
    → atoi_digits acc s ≡ some (value acc s)
unfolding atoi_digits value AreDigits isdigit
atoi_digits-value acc [] ok h = refl
atoi_digits-value acc (c ∷ s) (lo, hi, ok) h =
    let next : ℕ = acc * 10 + (c - b'0') in
    ground (arith, value-grows next s, atoi_digits-value next s ok h)

value-append : (acc c : ℕ) (s : List ℕ) → value acc (s ++ (c ∷ [])) ≡ value acc s * 10 + (c - b'0')
unfolding value
value-append acc c [] = refl
value-append acc c (d ∷ s) = value-append (acc * 10 + (d - b'0')) c s

AreDigits-append :
    (c : ℕ) (s : List ℕ) → AreDigits s → b'0' ≤ c → c ≤ b'9' → AreDigits (s ++ (c ∷ []))
unfolding AreDigits
AreDigits-append c [] ok lo hi = (lo, hi, tt)
AreDigits-append c (d ∷ s) (lo', hi', ok) lo hi = (lo', hi', AreDigits-append c s ok lo hi)

-- The numbers of at most `n` digits are those below this bound.
abbrev bound : ℕ → ℕ
bound zero = 1
bound (suc n) = 10 * bound n

-- Enough fuel writes all digits.
digits-value :
    (fuel n : ℕ)
    → n < bound (suc fuel)
    → (value 0 (reversed (digits_from (suc fuel) n)) ≡ n)
      × AreDigits (reversed (digits_from (suc fuel) n))
unfolding digits_from reversed value AreDigits
digits-value zero n h =
    let no_more : ltb 0 (n / 10) ≡ false = ground arith in
    rw no_more (omega arith, (omega arith, omega arith, tt))
digits-value (suc fuel) n h = elim (Bool-cases (ltb 0 (n / 10))) [
  | inl more ↦
      let (v, ok) = digits-value fuel (n / 10) (omega arith) in
      rw more (
        value-append 0 (n % 10 + b'0') (reversed (digits_from (suc fuel) (n / 10)))
            ∙ rw v (omega arith),
        AreDigits-append (n % 10 + b'0') (reversed (digits_from (suc fuel) (n / 10))) ok
            (omega arith) (omega arith),
      )
  | inr no_more ↦
      let small : n < 10 = ground arith in rw no_more (omega arith, (omega arith, omega arith, tt))
]

-- Digits are neither blanks nor signs.
AreDigits-start : (s : List ℕ) → AreDigits s → read_sign (skip_space s) ≡ (false, s)
unfolding AreDigits read_sign skip_space
AreDigits-start [] ok = refl
AreDigits-start (c ∷ s) (lo, hi, ok) = ground arith

reversed-append : (s : List ℕ) (c : ℕ) → reversed (s ++ (c ∷ [])) ≡ c ∷ reversed s
unfolding reversed
reversed-append [] c = refl
reversed-append (x ∷ s) c = ap (λ (t : List ℕ). t ++ (x ∷ [])) (reversed-append s c)

minus-start : (s : List ℕ) → read_sign (skip_space (b'-' ∷ s)) ≡ (true, s)
unfolding read_sign skip_space
minus-start s = refl

-- What atoi answers where the digits behind the sign do not overflow.
finish : Bool × List ℕ → Option ℕ → Option ℤ
finish p none = none
finish p (some result) = some (if p.0 then minus 0 result else pos result)

atoi-read :
    (s : List ℕ) (p : Bool × List ℕ) (result : ℕ)
    → read_sign (skip_space s) ≡ p
    → AreDigits p.1
    → value 0 p.1 ≡ result
    → result < 2 ^ 31
    → atoi s ≡ some (if p.0 then minus 0 result else pos result)
unfolding atoi finish
atoi-read s p result e ok v h =
    let read : atoi s
        ≡ finish (read_sign (skip_space s)) (atoi_digits 0 (read_sign (skip_space s)).1) =
      refl in
    read
    ∙ ap (λ (q : Bool × List ℕ). finish q (atoi_digits 0 q.1)) e
    ∙ ap (finish p) (atoi_digits-value 0 p.1 ok (omega (arith, v)) ∙ ap some v)

-- For every int but the least, reading what int_to_ascii writes gives the number back.
pub atoi-int_to_ascii :
    (n : ℕ)
    → n < 2 ^ 31
    → (atoi (int_to_ascii (pos n)) ≡ some (pos n))
      × (n + 1 < 2 ^ 31 → atoi (int_to_ascii (negsuc n)) ≡ some (negsuc n))
unfolding int_to_ascii
atoi-int_to_ascii n h = (
  (let (v, ok) = digits-value 9 n (omega arith) in
      rw (reverse_lem (digits_from 10 n)) (
        atoi-read (reversed (digits_from 10 n)) (false, reversed (digits_from 10 n)) n
          (AreDigits-start _ ok) ok v h)),
  λ h'.
      (let (v, ok) = digits-value 9 (n + 1) (omega arith) in
        let plus : n + 1 ≡ suc n = omega arith in
        rw
          (
            reverse_lem (digits_from 10 (n + 1) ++ (b'-' ∷ [])),
            reversed-append (digits_from 10 (n + 1)) b'-',
          )
          (atoi-read (b'-' ∷ reversed (digits_from 10 (n + 1)))
              (true, reversed (digits_from 10 (n + 1))) (n + 1) (minus-start _) ok v h'
            ∙ ground arith)),
)
