-- ===== src/CString/Tests.antt =====
-- The theorems on strings at short strings.
use orion_os.Base.{ℕ, refl, ◌≡◌, Option, none, some, List, [], ◌∷◌, arith, get_or, set}
use orion_os.CString.{strchr, pos, memmove}
use orion_os.CString.Move.{memmove_lem}
use orion_os.CString.Edit.{strtok, token_from, span}
use orion_os.CString.Search.{starts, search, strstr}
use orion_os.CString.Number.{int_to_ascii, atoi}
use orion_os.CString.Number.RoundTrip.{atoi-int_to_ascii}

-- "ab" and "abc", with what happens to follow the terminator.
abbrev ab : List ℕ
ab = b'a' ∷ b'b' ∷ 0 ∷ 7 ∷ []

abbrev abc : List ℕ
abc = b'a' ∷ b'b' ∷ b'c' ∷ 0 ∷ []

abbrev memory : List ℕ
memory = 1 ∷ 2 ∷ 3 ∷ 4 ∷ 5 ∷ 6 ∷ []

-- Three bytes are moved up by one, over themselves.
memmove_lem_example : get_or (memmove memory 1 0 3) 3 0 ≡ 3
memmove_lem_example = memmove_lem memory 1 0 3 3 (omega arith)

atoi-int_to_ascii_example : atoi (int_to_ascii (pos 1203)) ≡ some (pos 1203)
atoi-int_to_ascii_example = (atoi-int_to_ascii 1203 (omega arith)).0

-- A buffer of eight bytes that holds "ab".
abbrev buffer : List ℕ
buffer = b'a' ∷ b'b' ∷ 0 ∷ 0 ∷ 0 ∷ 0 ∷ 0 ∷ 0 ∷ []

-- "a b " and a terminator.
abbrev words : List ℕ
words = b'a' ∷ 32 ∷ b'b' ∷ 32 ∷ 0 ∷ []

abbrev from_start : Option ℕ
from_start = some 0

cut-words : strtok from_start (32 ∷ []) words none ≡ (some 0, set words 1 0, some 2)
unfolding strtok token_from span strchr
cut-words = refl

abbrev bc : List ℕ
bc = b'b' ∷ b'c' ∷ 0 ∷ []

found-bc : strstr abc bc ≡ some 1
unfolding strstr search starts
found-bc = refl
