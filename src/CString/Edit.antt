-- ===== src/CString/Edit.antt =====
-- libc/string.c: the functions that edit a string in its buffer, strtok and strstr.
--
-- A buffer is the list of the bytes from the pointer on; a write behind its end is lost.
pub mod Append
pub mod Trim
pub mod Token
use orion_os.Base.{
  ℕ, zero, suc, ◌+◌, ◌-◌, Bool, true, false, Option, none, some, List, [], ◌∷◌, ◌==◌, ◌!=◌, ◌&&◌,
  ◌||◌, not, if◌then◌else◌, get_or, set, drop, is_some,
}
use orion_os.CString.{strlen, strchr}

pub strcpy : List ℕ → List ℕ → List ℕ
strcpy [] src = []
strcpy (b ∷ dest) [] = 0 ∷ dest
strcpy (b ∷ dest) (c ∷ src) = let rest = strcpy dest src in if c == 0 then 0 ∷ dest else c ∷ rest

pub strcat : List ℕ → List ℕ → List ℕ
strcat [] src = []
strcat (b ∷ dest) src =
    let rest = strcat dest src in if b == 0 then strcpy (b ∷ dest) src else b ∷ rest

-- The copy of strncat: `n` bytes at most, and the terminator.
pub copy_at_most : List ℕ → List ℕ → ℕ → List ℕ
copy_at_most [] src n = []
copy_at_most (b ∷ dest) src zero = 0 ∷ dest
copy_at_most (b ∷ dest) [] (suc n) = 0 ∷ dest
copy_at_most (b ∷ dest) (c ∷ src) (suc n) =
    let rest = copy_at_most dest src n in if c == 0 then 0 ∷ dest else c ∷ rest

pub strncat : List ℕ → List ℕ → ℕ → List ℕ
strncat [] src n = []
strncat (b ∷ dest) src n =
    let rest = strncat dest src n in if b == 0 then copy_at_most (b ∷ dest) src n else b ∷ rest

pub append : List ℕ → ℕ → List ℕ
append s n = set (set s (strlen s) n) (strlen s + 1) 0

abbrev pub is_blank : ℕ → Bool
is_blank c = c == 32 || c == 9 || c == 13 || c == 10

-- The second loop of rtrim, from the offset `i` down.
pub trim_from : ℕ → List ℕ → List ℕ
trim_from zero s = s
trim_from (suc i) s =
    let rest = trim_from i (set s i 0) in if is_blank (get_or s i 0) then rest else s

pub rtrim : List ℕ → List ℕ
rtrim s = trim_from (strlen s) s

-- How many bytes before the terminator the loop `while (*p && test(*p)) p++` passes.
unfoldable pub span : (ℕ → Bool) → List ℕ → ℕ
span test [] = 0
span test (c ∷ s) = let rest = span test s in if c != 0 && test c then suc rest else 0

-- strtok from the offset `p` on.
unfoldable pub token_from : List ℕ → List ℕ → ℕ → Option ℕ × List ℕ × Option ℕ
token_from delim mem p =
    let start = p + span (λ c. is_some (strchr delim c)) (drop p mem) in
    if get_or mem start 0 == 0
    then (none, mem, some start)
    else (let past = start + span (λ c. not (is_some (strchr delim c))) (drop start mem) in
        if get_or mem past 0 != 0
        then (some start, set mem past 0, some (past + 1))
        else (some start, mem, some past))

-- The token, the memory, and `strtok_next`. A pointer is an offset, `none` for NULL.
unfoldable pub strtok : Option ℕ → List ℕ → List ℕ → Option ℕ → Option ℕ × List ℕ × Option ℕ
strtok str delim mem strtok_next = elim (if is_some str then str else strtok_next) [
  | none ↦ (none, mem, none)
  | some p ↦ if get_or mem p 0 == 0 then (none, mem, some p) else token_from delim mem p
]
