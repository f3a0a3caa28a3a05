-- ===== src/CString/Number/Reverse.antt =====
-- reverse swaps the ends in place; what it leaves is the reversed list.
use orion_os.Base.{
  ℕ, zero, suc, ◌+◌, ◌-◌, ◌*◌, ◌≤◌, ◌<◌, ◌≡◌, refl, sym, ap, ◌∙◌, List, [], ◌∷◌, ◌++◌, arith, ltb,
  leb, ◌==◌, ◌&&◌, if◌then◌else◌, length, get_or, set, length-set, get_or-set, get_or-ext,
  length-append, get_or-append_left, get_or-append_right, Bool-cases, inl, inr,
}
use orion_os.CString.Number.{swap_from, reverse}

length-swap_from : (fuel i j : ℕ) (s : List ℕ) → length (swap_from fuel i j s) ≡ length s
unfolding swap_from
length-swap_from zero i j s = refl
length-swap_from (suc fuel) i j s =
    let s1 : List ℕ = set s i (get_or s j 0) in
    ground (
      arith,
      length-swap_from fuel (i + 1) (j - 1) (set s1 j (get_or s i 0)),
      length-set s1 j (get_or s i 0),
      length-set s i (get_or s j 0),
    )

swap_from-byte :
    (fuel i j k : ℕ) (s : List ℕ)
    → j < length s
    → j ≤ i + 2 * fuel
    → get_or (swap_from fuel i j s) k 0
      ≡ (if leb i k && leb k j then get_or s (i + j - k) 0 else get_or s k 0)
unfolding swap_from
swap_from-byte zero i j k s h enough = elim (Bool-cases (leb i k && leb k j)) [
  | inl inside ↦ let at : i + j - k ≡ k = ground arith in rw (inside, at) refl
  | inr outside ↦ rw outside refl
]
swap_from-byte (suc fuel) i j k s h enough = elim (Bool-cases (ltb i j)) [
  | inr done ↦ elim (Bool-cases (leb i k && leb k j)) [
    | inl inside ↦ let at : i + j - k ≡ k = ground arith in rw (done, inside, at) refl
    | inr outside ↦ rw (done, outside) refl
  ]
  | inl apart ↦
      let a : ℕ = get_or s i 0 in
      let b : ℕ = get_or s j 0 in
      let s1 : List ℕ = set s i b in
      let s2 : List ℕ = set s1 j a in
      let long : length s1 ≡ length s = length-set s i b in
      let long2 : length s2 ≡ length s1 = length-set s1 j a in
      let lt : i < j = ground arith in
      let at : (x : ℕ)
          → get_or s2 x 0 ≡ (if j == x then a else (if i == x then b else get_or s x 0)) =
        λ x.
          get_or-set s1 j x a (omega arith)
          ∙ ap (λ (y : ℕ). if j == x then a else y) (get_or-set s i x b (omega arith)) in
      let later = swap_from-byte fuel (i + 1) (j - 1) k s2 (omega arith) (omega arith) in
      let mirror : i + 1 + (j - 1) - k ≡ i + j - k = omega arith in
      rw apart (
        later
        ∙ rw (mirror, at k, at (i + j - k))
            (elim (Bool-cases (k == i)) [
              | inl e ↦ let here : i + j - k ≡ j = ground arith in rw here (ground arith)
              | inr e ↦ elim (Bool-cases (k == j)) [
                | inl e' ↦ let here : i + j - k ≡ i = ground arith in rw here (ground arith)
                | inr e' ↦ ground arith
              ]
            ]))
]

-- The reversed list, by recursion.
unfoldable pub reversed : List ℕ → List ℕ
reversed [] = []
reversed (x ∷ xs) = reversed xs ++ (x ∷ [])

length-reversed : (xs : List ℕ) → length (reversed xs) ≡ length xs
unfolding reversed
length-reversed [] = refl
length-reversed (x ∷ xs) = omega (arith, length-append (reversed xs) (x ∷ []), length-reversed xs)

get_or-reversed :
    (xs : List ℕ) (k : ℕ)
    → k < length xs
    → get_or (reversed xs) k 0 ≡ get_or xs (length xs - 1 - k) 0
unfolding reversed
get_or-reversed [] k h = absurd (omega arith)
get_or-reversed (x ∷ xs) k h = elim (Bool-cases (k == length xs)) [
  | inl last ↦
      let end_of : k ≡ length (reversed xs) + 0 = ground (arith, length-reversed xs) in
      let at : suc (length xs) - 1 - k ≡ 0 = ground arith in
      rw at (
        ap (λ (i : ℕ). get_or (reversed xs ++ (x ∷ [])) i 0) end_of
        ∙ get_or-append_right (reversed xs) (x ∷ []) 0 0)
  | inr before ↦
      let at : suc (length xs) - 1 - k ≡ suc (length xs - 1 - k) = ground arith in
      rw at (
        get_or-append_left (reversed xs) (x ∷ []) k 0 (ground (arith, length-reversed xs))
        ∙ get_or-reversed xs k (ground arith))
]

-- The swapping leaves the reversed string.
pub reverse_lem : (s : List ℕ) → reverse s ≡ reversed s
unfolding reverse reversed swap_from
reverse_lem [] = refl
reverse_lem (c ∷ s) =
    let long : length (reverse (c ∷ s)) ≡ length (c ∷ s) =
      length-swap_from (length (c ∷ s)) 0 (length (c ∷ s) - 1) (c ∷ s) in
    get_or-ext (reverse (c ∷ s)) (reversed (c ∷ s)) 0 (long ∙ sym (length-reversed (c ∷ s))) (λ k h.
      swap_from-byte (length (c ∷ s)) 0 (length (c ∷ s) - 1) k (c ∷ s) (omega arith) (omega arith)
      ∙ ground (arith, get_or-reversed (c ∷ s) k (omega arith)))
