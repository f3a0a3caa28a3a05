-- ===== src/CString/Number.antt =====
-- libc/string.c: reverse, int_to_ascii, atoi and strtoul.
pub mod Reverse
pub mod RoundTrip
use orion_os.Base.{
  ℕ, zero, suc, ◌+◌, ◌-◌, ◌*◌, ◌/◌, ◌%◌, ◌^◌, Bool, true, false, Option, none, some, List, [], ◌∷◌,
  ◌++◌, ltb, leb, ◌==◌, ◌!=◌, ◌&&◌, ◌||◌, not, if◌then◌else◌, get_or, set, length,
}
use orion_os.CString.{ℤ, pos, negsuc, minus, first, isdigit}

-- The loop of reverse on a string, with `fuel` rounds at most.
pub swap_from : ℕ → ℕ → ℕ → List ℕ → List ℕ
swap_from zero i j s = s
swap_from (suc fuel) i j s =
    let rest = swap_from fuel (i + 1) (j - 1) (set (set s i (get_or s j 0)) j (get_or s i 0)) in
    if ltb i j then rest else s

-- `s` is the string without its terminator; each round brings two ends nearer, so its length is
-- fuel enough.
pub reverse : List ℕ → List ℕ
reverse s = swap_from (length s) 0 (length s - 1) s

-- The digits, the last one first. A number below 10 ^ fuel gets all of its digits.
pub digits_from : ℕ → ℕ → List ℕ
digits_from zero n = []
digits_from (suc fuel) n =
    let rest = digits_from fuel (n / 10) in (n % 10 + b'0') ∷ (if ltb 0 (n / 10) then rest else [])

-- The string that int_to_ascii writes. Ten digits are enough for 32 bits; the one number that has
-- no negative, -2 ^ 31, is left to the caller.
pub int_to_ascii : ℤ → List ℕ
int_to_ascii (pos n) = reverse (digits_from 10 n)
int_to_ascii (negsuc n) = reverse (digits_from 10 (n + 1) ++ (b'-' ∷ []))

abbrev pub is_space : ℕ → Bool
is_space c = c == 32 || c == 9 || c == 10 || c == 13 || c == 11 || c == 12

pub skip_space : List ℕ → List ℕ
skip_space [] = []
skip_space (c ∷ s) = let rest = skip_space s in if is_space c then rest else c ∷ s

-- Whether a minus sign stands there, and what is behind the sign.
pub read_sign : List ℕ → Bool × List ℕ
read_sign [] = (false, [])
read_sign (c ∷ s) =
    if c == b'-' then (true, s) else (if c == b'+' then (false, s) else (false, c ∷ s))

-- The digits of atoi; `none` where the int overflows, which C does not define.
pub atoi_digits : ℕ → List ℕ → Option ℕ
atoi_digits acc [] = some acc
atoi_digits acc (c ∷ s) =
    let next = acc * 10 + (c - b'0') in
    let rest = atoi_digits next s in
    if isdigit c then (if leb (2 ^ 31) next then none else rest) else some acc

pub atoi : List ℕ → Option ℤ
atoi s =
    let (neg, digits) = read_sign (skip_space s) in
    elim (atoi_digits 0 digits) [
      | none ↦ none
      | some result ↦ some (if neg then minus 0 result else pos result)
    ]

-- The value of a digit in any base up to 36.
pub digit_value : ℕ → Option ℕ
digit_value c =
    if leb b'0' c && leb c b'9'
    then some (c - b'0')
    else (if leb b'a' c && leb c b'z'
        then some (c - b'a' + 10)
        else (if leb b'A' c && leb c b'Z' then some (c - b'A' + 10) else none))

abbrev pub at_hex : List ℕ → Bool
at_hex [] = false
at_hex (c ∷ s) = c == b'0' && (first s == b'x' || first s == b'X')

abbrev pub behind : List ℕ → List ℕ
behind [] = []
behind (c ∷ s) = s

-- The base to use, and the string behind its prefix.
pub detect_base : ℕ → List ℕ → ℕ × List ℕ
detect_base base s =
    if base == 0
    then (if first s == b'0'
        then (if at_hex s then (16, behind (behind s)) else (8, behind s))
        else (10, s))
    else (if base == 16 && at_hex s then (16, behind (behind s)) else (base, s))

-- The value modulo 2 ^ 32, and the string behind the digits.
pub strtoul_digits : ℕ → ℕ → List ℕ → ℕ × List ℕ
strtoul_digits base result [] = (result, [])
strtoul_digits base result (c ∷ s) = elim (digit_value c) [
  | none ↦ (result, c ∷ s)
  | some digit ↦
      let rest = strtoul_digits base ((result * base + digit) % 2 ^ 32) s in
      if leb base digit then (result, c ∷ s) else rest
]

pub strtoul : List ℕ → ℕ → ℕ × List ℕ
strtoul nptr base =
    let (neg, s) = read_sign (skip_space nptr) in
    let (base', s') = detect_base base s in
    let (result, end_of) = strtoul_digits base' 0 s' in
    (if neg then (2 ^ 32 - result) % 2 ^ 32 else result, end_of)

abbrev pub is_space_of_strtol : ℕ → Bool
is_space_of_strtol c = c == 32 || c == 9 || c == 10

pub skip_space_of_strtol : List ℕ → List ℕ
skip_space_of_strtol [] = []
skip_space_of_strtol (c ∷ s) =
    let rest = skip_space_of_strtol s in if is_space_of_strtol c then rest else c ∷ s

-- strtol reads letters up to f alone.
pub hex_value : ℕ → Option ℕ
hex_value c =
    if leb b'0' c && leb c b'9'
    then some (c - b'0')
    else (if leb b'a' c && leb c b'f'
        then some (c - b'a' + 10)
        else (if leb b'A' c && leb c b'F' then some (c - b'A' + 10) else none))

-- `none` where the long overflows, which C does not define.
pub strtol_digits : ℕ → ℕ → List ℕ → Option (ℕ × List ℕ)
strtol_digits base acc [] = some (acc, [])
strtol_digits base acc (c ∷ s) = if c == 0 then some (acc, c ∷ s) else (elim (hex_value c) [
  | none ↦ some (acc, c ∷ s)
  | some digit ↦
      let next = acc * base + digit in
      let rest = strtol_digits base next s in
      if leb base digit then some (acc, c ∷ s) else (if leb (2 ^ 31) next then none else rest)
])

pub strtol : List ℕ → ℕ → Option (ℤ × List ℕ)
strtol nptr base =
    let (neg, s) = read_sign (skip_space_of_strtol nptr) in
    let (base', s') = detect_base base s in
    elim (strtol_digits base' 0 s') [
      | none ↦ none
      | some r ↦ some (if neg then minus 0 r.0 else pos r.0, r.1)
    ]
