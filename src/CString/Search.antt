-- ===== src/CString/Search.antt =====
-- libc/string.c: strstr finds the first occurrence.
use orion_os.Base.{
  ℕ, zero, suc, ◌<◌, ◌≡◌, ◌≢◌, refl, Bool, true, false, Option, none, some, List, [], ◌∷◌, arith,
  ◌==◌, if◌then◌else◌, Bool-cases, Option-cases, inl, inr, length, take, drop, ◌↔◌,
}
use orion_os.CString.{first}
use orion_os.CString.Compare.{text}

-- The inner loop of strstr, and its test: the text `needle` stands at the start of `s`.
unfoldable pub starts : List ℕ → List ℕ → Bool
starts s [] = true
starts [] (d ∷ needle) = d == 0
starts (c ∷ s) (d ∷ needle) =
    let rest = starts s needle in
    if d == 0 then true else (if c == 0 then false else (if c == d then rest else false))

-- The outer loop.
unfoldable pub search : List ℕ → List ℕ → Option ℕ
search [] needle = none
search (c ∷ s) needle =
    let rest = search s needle in
    if c == 0
    then none
    else (if starts (c ∷ s) needle
        then some 0
        else (elim rest [ none ↦ none | some i ↦ some (suc i) ]))

-- The offset, `none` for NULL.
unfoldable pub strstr : List ℕ → List ℕ → Option ℕ
strstr haystack needle = if first needle == 0 then some 0 else search haystack needle

-- The text `needle` stands in the text `haystack` at the offset `i`.
pub Occurs : List ℕ → List ℕ → ℕ → Type 0
Occurs haystack needle i = take (length (text needle)) (drop i (text haystack)) ≡ text needle

starts-take :
    (s needle : List ℕ)
    → (starts s needle ≡ true) ↔ (take (length (text needle)) (text s) ≡ text needle)
unfolding starts text
starts-take s [] = ((λ e. refl), (λ e. refl))
starts-take [] (d ∷ needle) = ((λ e. ground arith), (λ e. ground (arith, e)))
starts-take (c ∷ s) (d ∷ needle) =
    let (to, from) = starts-take s needle in
    ((λ e. ground (arith, to)), (λ e. ground (arith, e, from)))

later-Occurs :
    (c : ℕ) (s needle : List ℕ) (k : ℕ)
    → (c == 0) ≡ false
    → Occurs s needle k
    → Occurs (c ∷ s) needle (suc k)
unfolding Occurs text
later-Occurs c s needle k go o = rw go o

none-before :
    (c : ℕ) (s needle : List ℕ) (k : ℕ)
    → (c == 0) ≡ false
    → starts (c ∷ s) needle ≡ false
    → ((j : ℕ) → j < k → Occurs s needle j → ⊥)
    → (j : ℕ) → j < suc k
    → Occurs (c ∷ s) needle j
    → ⊥
unfolding Occurs text
none-before c s needle k go miss before zero lt o =
    ground (arith, (starts-take (c ∷ s) needle).1 o, miss)
none-before c s needle k go miss before (suc j) lt o = before j (omega arith) (rw go at o)

search-some :
    (s needle : List ℕ) (i : ℕ)
    → search s needle ≡ some i
    → Occurs s needle i × ((j : ℕ) → j < i → Occurs s needle j → ⊥)
unfolding search Occurs text
search-some [] needle i e = cc
search-some (c ∷ s) needle i e = elim (Bool-cases (c == 0)) [
  | inl stop ↦ absurd (ground (arith, e, stop))
  | inr go ↦ elim (Bool-cases (starts (c ∷ s) needle)) [
    | inl hit ↦
        let here : i ≡ 0 = ground (arith, e, go, hit) in
        rw here ((starts-take (c ∷ s) needle).0 hit, λ j lt. absurd (omega arith))
    | inr miss ↦ elim (Option-cases (search s needle)) [
      | inl nowhere ↦ absurd (ground (arith, e, go, miss, nowhere))
      | inr (k, found) ↦
          let there : i ≡ suc k = ground (arith, e, go, miss, found) in
          let (occurs, before) = search-some s needle k found in
          rw there (later-Occurs c s needle k go occurs, none-before c s needle k go miss before)
    ]
  ]
]

search-none :
    (s needle : List ℕ) (i : ℕ)
    → search s needle ≡ none
    → i < length (text s)
    → Occurs s needle i
    → ⊥
unfolding search Occurs text
search-none [] needle i e h o = absurd (omega arith)
search-none (c ∷ s) needle zero e h o = ground (arith, e, h, (starts-take (c ∷ s) needle).1 o)
search-none (c ∷ s) needle (suc i) e h o = elim (Bool-cases (c == 0)) [
  | inl stop ↦ absurd (ground (arith, h, stop))
  | inr go ↦ search-none s needle i (ground (arith, e, go)) (ground (arith, h, go)) (rw go at o)
]

text-empty : (s : List ℕ) → (first s == 0) ≡ true → text s ≡ []
unfolding text
text-empty [] e = refl
text-empty (c ∷ s) e = ground (arith, e)

text-full : (s : List ℕ) → (first s == 0) ≡ false → text s ≢ []
unfolding text
text-full [] e z = absurd (ground (arith, e))
text-full (c ∷ s) e z = ground (arith, e, z)

empty-Occurs : (haystack needle : List ℕ) (i : ℕ) → text needle ≡ [] → Occurs haystack needle i
unfolding Occurs
empty-Occurs haystack needle i e = rw e refl

-- strstr answers the offset of the first occurrence of a text in another. It answers NULL only for
-- a text that is not empty and occurs nowhere in the other.
pub strstr_lem :
    (haystack needle : List ℕ)
    → ((i : ℕ)
        → strstr haystack needle ≡ some i
        → Occurs haystack needle i × ((j : ℕ) → j < i → Occurs haystack needle j → ⊥))
      × (strstr haystack needle ≡ none
          → (text needle ≢ [])
            × ((i : ℕ) → i < length (text haystack) → Occurs haystack needle i → ⊥))
unfolding strstr
strstr_lem haystack needle = elim (Bool-cases (first needle == 0)) [
  | inl empty ↦ (
    λ i e.
        let here : i ≡ 0 = ground (arith, e, empty) in
        (empty-Occurs haystack needle i (text-empty needle empty), λ j lt. absurd (omega arith)),
    λ e. absurd (ground (arith, empty, e)),
  )
  | inr full ↦ (
    λ i e. search-some haystack needle i (ground (arith, full, e)),
    λ e. (
      text-full needle full,
      λ i h o. search-none haystack needle i (ground (arith, full, e)) h o,
    ),
  )
]
