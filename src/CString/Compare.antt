-- ===== src/CString/Compare.antt =====
-- strcmp and strncmp against equality of texts.
use orion_os.Base.{
  ℕ, zero, suc, ◌+◌, ◌%◌, ◌<◌, ◌≡◌, ◌↔◌, refl, List, [], ◌∷◌, arith, ◌==◌, if◌then◌else◌, take,
}
use orion_os.CString.{pos, minus, char_minus, strcmp, strncmp}

-- The text at a pointer: the bytes before its terminator.
unfoldable pub text : List ℕ → List ℕ
text [] = []
text (c ∷ s) = if c == 0 then [] else c ∷ text s

-- Every number of the list is a byte.
abbrev pub AreBytes : List ℕ → Type 0
AreBytes [] = Unit
AreBytes (c ∷ s) = (c < 256) × AreBytes s

minus-zero : (a b : ℕ) → minus a b ≡ pos 0 → a ≡ b
minus-zero a b e = ground arith

char_minus-zero : (a b : ℕ) → a < 256 → b < 256 → char_minus a b ≡ pos 0 → a ≡ b
char_minus-zero a b ha hb e =
    let same : (a + 128) % 256 ≡ (b + 128) % 256 = minus-zero _ _ e in omega arith

-- Of two strings of bytes strcmp answers 0 exactly if their texts are the same.
pub strcmp_lem : (s t : List ℕ) → AreBytes s → AreBytes t → (strcmp s t ≡ pos 0) ↔ (text s ≡ text t)
unfolding strcmp text
strcmp_lem [] [] hs ht = ((λ e. refl), (λ e. refl))
strcmp_lem [] (d ∷ t) hs (hd, ht) =
    ((λ e. ground (arith, char_minus-zero 0 d (omega arith) hd)), (λ e. ground (arith, e)))
strcmp_lem (c ∷ s) [] (hc, hs) ht =
    ((λ e. ground (arith, char_minus-zero c 0 hc (omega arith))), (λ e. ground (arith, e)))
strcmp_lem (c ∷ s) (d ∷ t) (hc, hs) (hd, ht) =
    let (to, from) = strcmp_lem s t hs ht in
    ((λ e. ground (arith, char_minus-zero c d hc hd, to)), (λ e. ground (arith, e, from)))

-- strncmp answers 0 exactly if the first `n` bytes of the two texts are the same.
pub strncmp_lem :
    (s t : List ℕ) (n : ℕ) → (strncmp s t n ≡ pos 0) ↔ (take n (text s) ≡ take n (text t))
unfolding strncmp text
strncmp_lem s t zero = ((λ e. refl), (λ e. refl))
strncmp_lem [] [] (suc n) = ((λ e. refl), (λ e. refl))
strncmp_lem [] (d ∷ t) (suc n) = ((λ e. ground arith), (λ e. ground (arith, e)))
strncmp_lem (c ∷ s) [] (suc n) = ((λ e. ground arith), (λ e. ground (arith, e)))
strncmp_lem (c ∷ s) (d ∷ t) (suc n) =
    let (to, from) = strncmp_lem s t n in
    ((λ e. ground (arith, to)), (λ e. ground (arith, e, from)))
