-- ===== src/CString/Copy.antt =====
-- strncpy: the text, cut or padded to the length asked for.
use orion_os.Base.{
  ℕ, zero, suc, ◌+◌, ◌-◌, ◌≤◌, ◌≡◌, List, [], ◌∷◌, arith, ltb, ◌==◌, if◌then◌else◌, length, get_or,
  set, length-set, get_or-set, Bool-cases, inl, inr,
}
use orion_os.CString.{pad_zero, strncpy}
use orion_os.CString.Compare.{text}
use orion_os.CString.Move.{in_range}

pad_zero-byte :
    (mem : List ℕ) (dest n k : ℕ)
    → dest + n ≤ length mem
    → get_or (pad_zero mem dest n) k 0 ≡ (if in_range dest n k then 0 else get_or mem k 0)
unfolding pad_zero
pad_zero-byte mem dest zero k room = ground arith
pad_zero-byte mem dest (suc n) k room =
    let later =
      pad_zero-byte (set mem dest 0) (dest + 1) n k
        (omega (arith, length-set {A = ℕ} mem dest 0)) in
    ground (arith, later, get_or-set mem dest k 0 (omega arith))

-- A call of strncpy writes the `n` bytes from the destination on and no others: the first `n`
-- bytes of the text, and zeros behind a shorter one. A text of `n` bytes or more gets no
-- terminator.
pub strncpy_lem :
    (mem : List ℕ) (dest : ℕ) (src : List ℕ) (n k : ℕ)
    → dest + n ≤ length mem
    → get_or (strncpy mem dest src n) k 0
      ≡ (if in_range dest n k then get_or (text src) (k - dest) 0 else get_or mem k 0)
unfolding strncpy text
strncpy_lem mem dest src zero k room = ground arith
strncpy_lem mem dest [] (suc n) k room = pad_zero-byte mem dest (suc n) k room
strncpy_lem mem dest (c ∷ src) (suc n) k room = elim (Bool-cases (c == 0)) [
  | inl stop ↦ rw stop (pad_zero-byte mem dest (suc n) k room)
  | inr go ↦
      let later =
        strncpy_lem (set mem dest c) (dest + 1) src n k (omega (arith, length-set mem dest c)) in
      let here = get_or-set mem dest k c (omega arith) in
      elim (Bool-cases (ltb dest k)) [
        | inl above ↦
            let at : k - dest ≡ suc (k - (dest + 1)) = ground arith in
            rw (go, at) (ground (arith, later, here))
        | inr below ↦ elim (Bool-cases (dest == k)) [
          | inl same ↦
              let at : k - dest ≡ 0 = ground arith in rw (go, at) (ground (arith, later, here))
          | inr under ↦ rw go (ground (arith, later, here))
        ]
      ]
]
