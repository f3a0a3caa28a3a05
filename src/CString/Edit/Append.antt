-- ===== src/CString/Edit/Append.antt =====
-- strcpy and strcat where the buffer has room.
use orion_os.Base.{
  ℕ, zero, suc, ◌+◌, ◌<◌, ◌≡◌, refl, ap, List, [], ◌∷◌, ◌++◌, arith, ◌==◌, length, take, Bool-cases,
  inl, inr,
}
use orion_os.CString.Compare.{text}
use orion_os.CString.Edit.{strcpy, strcat, copy_at_most, strncat}

-- A copy into a buffer with room for the text and its terminator leaves that text.
pub strcpy_lem :
    (dest src : List ℕ) → length (text src) < length dest → text (strcpy dest src) ≡ text src
unfolding strcpy text
strcpy_lem [] src h = absurd (omega arith)
strcpy_lem (b ∷ dest) [] h = refl
strcpy_lem (b ∷ dest) (c ∷ src) h = elim (Bool-cases (c == 0)) [
  | inl stop ↦ rw stop refl
  | inr go ↦ rw (go, go) (ap (◌∷◌ c) (strcpy_lem dest src (ground (arith, go))))
]

-- Where the buffer has room for both texts and a terminator, strcat leaves the one text followed by
-- the other.
pub strcat_lem :
    (dest src : List ℕ)
    → length (text dest) + length (text src) < length dest
    → text (strcat dest src) ≡ text dest ++ text src
unfolding strcat text
strcat_lem [] src h = absurd (omega arith)
strcat_lem (b ∷ dest) src h = elim (Bool-cases (b == 0)) [
  | inl stop ↦ rw stop (strcpy_lem (b ∷ dest) src (ground (arith, stop)))
  | inr go ↦ rw (go, go) (ap (◌∷◌ b) (strcat_lem dest src (ground (arith, go))))
]

copy_at_most-text :
    (dest src : List ℕ) (n : ℕ)
    → length (take n (text src)) < length dest
    → text (copy_at_most dest src n) ≡ take n (text src)
unfolding copy_at_most text
copy_at_most-text [] src n h = absurd (omega arith)
copy_at_most-text (b ∷ dest) src zero h = refl
copy_at_most-text (b ∷ dest) [] (suc n) h = refl
copy_at_most-text (b ∷ dest) (c ∷ src) (suc n) h = elim (Bool-cases (c == 0)) [
  | inl stop ↦ rw stop refl
  | inr go ↦ rw (go, go) (ap (◌∷◌ c) (copy_at_most-text dest src n (ground (arith, go))))
]

-- Where the buffer has room for them, strncat leaves the text, followed by the first `n` bytes of
-- the other, and a terminator.
pub strncat_lem :
    (dest src : List ℕ) (n : ℕ)
    → length (text dest) + length (take n (text src)) < length dest
    → text (strncat dest src n) ≡ text dest ++ take n (text src)
unfolding strncat text
strncat_lem [] src n h = absurd (omega arith)
strncat_lem (b ∷ dest) src n h = elim (Bool-cases (b == 0)) [
  | inl stop ↦ rw stop (copy_at_most-text (b ∷ dest) src n (ground (arith, stop)))
  | inr go ↦ rw (go, go) (ap (◌∷◌ b) (strncat_lem dest src n (ground (arith, go))))
]
