-- ===== src/CString.antt =====
-- libc/string.c: comparing, searching and copying strings and memory.
--
-- A pointer to read from is the list of the bytes from it on; where the list ends the code would
-- read what it does not own, and the model reads a terminator. A buffer to write to is a list of
-- bytes and an offset. `int` results are integers, and `char` is signed.
pub mod Compare
pub mod Move
pub mod Copy
pub mod Number
pub mod Edit
pub mod Search
mod Tests
use orion_os.Base.{
  ℕ, zero, suc, ◌+◌, ◌-◌, ◌%◌, ◌^◌, Bool, true, false, Option, none, some, List, [], ◌∷◌, ltb, leb,
  ◌==◌, ◌!=◌, ◌&&◌, ◌||◌, not, if◌then◌else◌, get_or, set,
}

-- The integers over the native numbers, as far as a difference of bytes needs them.
pub data ℤ : Type 0 where
  pos negsuc : ℕ → ℤ

abbrev pub minus : ℕ → ℕ → ℤ
minus a b = if leb b a then pos (a - b) else negsuc (b - a - 1)

-- A difference of two signed chars: both are moved up by 128.
abbrev pub char_minus : ℕ → ℕ → ℤ
char_minus a b = minus ((a + 128) % 256) ((b + 128) % 256)

pub strlen : List ℕ → ℕ
strlen [] = 0
strlen (c ∷ s) = let rest = strlen s in if c == 0 then 0 else suc rest

-- The byte that a pointer points to.
abbrev pub first : List ℕ → ℕ
first [] = 0
first (c ∷ s) = c

pub strcmp : List ℕ → List ℕ → ℤ
strcmp [] t = if first t == 0 then pos 0 else char_minus 0 (first t)
strcmp (c ∷ s) [] = if c == 0 then pos 0 else char_minus c 0
strcmp (c ∷ s) (d ∷ t) =
    let rest = strcmp s t in if c == d then (if c == 0 then pos 0 else rest) else char_minus c d

pub strncmp : List ℕ → List ℕ → ℕ → ℤ
strncmp s t zero = pos 0
strncmp [] t (suc n) = minus 0 (first t)
strncmp (c ∷ s) [] (suc n) = minus c 0
strncmp (c ∷ s) (d ∷ t) (suc n) =
    let rest = strncmp s t n in if c != d then minus c d else (if c == 0 then pos 0 else rest)

pub memcmp : List ℕ → List ℕ → ℕ → ℤ
memcmp s t zero = pos 0
memcmp [] [] (suc n) = pos 0
memcmp [] (d ∷ t) (suc n) = let rest = memcmp [] t n in if 0 != d then minus 0 d else rest
memcmp (c ∷ s) [] (suc n) = let rest = memcmp s [] n in if c != 0 then minus c 0 else rest
memcmp (c ∷ s) (d ∷ t) (suc n) = let rest = memcmp s t n in if c != d then minus c d else rest

-- Each byte is made a lower-case letter where it is an upper-case one.
pub strcasecmp : List ℕ → List ℕ → ℤ
strcasecmp [] t = minus 0 (first t)
strcasecmp (c ∷ s) [] = minus c 0
strcasecmp (c ∷ s) (d ∷ t) =
    let rest = strcasecmp s t in
    let c1 = if leb b'A' c && leb c b'Z' then c + 32 else c in
    let c2 = if leb b'A' d && leb d b'Z' then d + 32 else d in
    if c == 0 || d == 0 then minus c d else (if c1 != c2 then minus c1 c2 else rest)

-- The offset of the first byte `c`, `none` for NULL.
unfoldable pub strchr : List ℕ → ℕ → Option ℕ
strchr [] c = none
strchr (d ∷ s) c =
    let rest = strchr s c in
    if d == 0
    then none
    else (if d == c then some 0 else (elim rest [ none ↦ none | some i ↦ some (suc i) ]))

-- The offset of the last byte `c`.
pub strrchr : List ℕ → ℕ → Option ℕ
strrchr [] c = none
strrchr (d ∷ s) c =
    let rest = strrchr s c in
    if d == 0
    then none
    else (elim rest [ none ↦ if d == c then some 0 else none | some i ↦ some (suc i) ])

pub toupper : ℕ → ℕ
toupper c = if leb b'a' c && leb c b'z' then c - 32 else c

pub tolower : ℕ → ℕ
tolower c = if leb b'A' c && leb c b'Z' then c + 32 else c

pub isdigit : ℕ → Bool
isdigit c = leb b'0' c && leb c b'9'

pub strlower : List ℕ → List ℕ
strlower [] = []
strlower (c ∷ s) =
    let rest = strlower s in
    if c == 0
    then c ∷ s
    else (if leb b'A' c && leb c b'Z' then (c - b'A' + b'a') ∷ rest else c ∷ rest)

-- `n` bytes of `val` at an offset of the memory.
pub memset : List ℕ → ℕ → ℕ → ℕ → List ℕ
memset mem dest val zero = mem
memset mem dest val (suc n) = memset (set mem dest (val % 256)) (dest + 1) val n

-- The loop of memcpy, which memmove runs too, from the lowest byte up.
pub memcpy : List ℕ → ℕ → ℕ → ℕ → List ℕ
memcpy mem dest src zero = mem
memcpy mem dest src (suc n) = memcpy (set mem dest (get_or mem src 0)) (dest + 1) (src + 1) n

-- The other loop of memmove, from the highest byte down.
pub move_down : List ℕ → ℕ → ℕ → ℕ → List ℕ
move_down mem dest src zero = mem
move_down mem dest src (suc n) = move_down (set mem (dest + n) (get_or mem (src + n) 0)) dest src n

pub memmove : List ℕ → ℕ → ℕ → ℕ → List ℕ
memmove mem dest src n =
    if ltb dest src
    then memcpy mem dest src n
    else (if ltb src dest then move_down mem dest src n else mem)

-- The second loop of strncpy.
pub pad_zero : List ℕ → ℕ → ℕ → List ℕ
pad_zero mem dest zero = mem
pad_zero mem dest (suc n) = pad_zero (set mem dest 0) (dest + 1) n

pub strncpy : List ℕ → ℕ → List ℕ → ℕ → List ℕ
strncpy mem dest src zero = mem
strncpy mem dest [] (suc n) = pad_zero mem dest (suc n)
strncpy mem dest (c ∷ src) (suc n) =
    let rest = strncpy (set mem dest c) (dest + 1) src n in
    if c == 0 then pad_zero mem dest (suc n) else rest
