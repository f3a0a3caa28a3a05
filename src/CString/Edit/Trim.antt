-- ===== src/CString/Edit/Trim.antt =====
-- rtrim removes the blanks at the end and nothing else.
use orion_os.Base.{
  ℕ, zero, suc, ◌-◌, ◌≤◌, ◌<◌, ◌≡◌, refl, sym, ap, ◌∙◌, true, false, List, [], ◌∷◌, arith, ◌==◌,
  if◌then◌else◌, length, get_or, set, length-set, get_or-set, Bool-cases, inl, inr, ◌⊎◌, leb, ltb,
  ◌&&◌,
}
use orion_os.CString.{strlen}
use orion_os.CString.Edit.{is_blank, trim_from, rtrim}

strlen-le : (s : List ℕ) → strlen s ≤ length s
unfolding strlen
strlen-le [] = omega arith
strlen-le (c ∷ s) = ground (arith, strlen-le s)

-- What a trimming of the first `i` bytes to the first `m` leaves.
pub record Trims (i m : ℕ) (s s' : List ℕ) : Type 0 where
  pub within : m ≤ i
  pub kept : (k : ℕ) → get_or s' k 0 ≡ (if leb m k && ltb k i then 0 else get_or s k 0)
  pub blank : (k : ℕ) → m ≤ k → k < i → is_blank (get_or s k 0) ≡ true
  pub solid : (m ≡ 0) ⊎ (is_blank (get_or s (m - 1) 0) ≡ false)

trim_from-Trims : (i : ℕ) (s : List ℕ) → i ≤ length s → (m : ℕ) × Trims i m s (trim_from i s)
unfolding trim_from
trim_from-Trims zero s h = (
  0,
  record {
    within = omega arith;
    kept = λ k. ground arith;
    blank = λ k lo hi. absurd (omega arith);
    solid = inl refl;
  },
)
trim_from-Trims (suc i) s h = elim (Bool-cases (is_blank (get_or s i 0))) [
  | inr last ↦ (
    suc i,
    rw last (record {
      within = omega arith;
      kept = λ k. ground arith;
      blank = λ k lo hi. absurd (omega arith);
      solid = let at : suc i - 1 ≡ i = omega arith in inr (rw at last);
    }),
  )
  | inl blank ↦
      let (m, t) = trim_from-Trims i (set s i 0) (omega (arith, length-set {A = ℕ} s i 0)) in
      (
        m,
        rw blank (record {
          within = omega (arith, t.within);
          kept = λ k. ground (arith, t.kept k, t.within, get_or-set s i k 0 (omega arith));
          blank = λ k lo hi. elim (Bool-cases (k == i)) [
            | inl here ↦ let at : k ≡ i = ground arith in rw at blank
            | inr there ↦
                let below : k < i = ground arith in
                let same : get_or (set s i 0) k 0 ≡ get_or s k 0 =
                  get_or-set s i k 0 (omega arith) ∙ ground (arith, there) in
                ap is_blank (sym same) ∙ t.blank k lo below
          ];
          solid = elim t.solid [
            | inl none_left ↦ inl none_left
            | inr last ↦ elim (Bool-cases (m == 0)) [
              | inl empty ↦ inl (ground arith)
              | inr some_left ↦
                  let same : get_or (set s i 0) (m - 1) 0 ≡ get_or s (m - 1) 0 =
                    get_or-set s i (m - 1) 0 (omega arith) ∙ ground (arith, t.within) in
                  inr (ap is_blank (sym same) ∙ last)
            ]
          ];
        }),
      )
]

-- rtrim cuts a string at some length `m`: all bytes of the text behind it are blanks and become
-- terminators, the last byte before it is none, and every other byte of the buffer is kept.
pub rtrim_lem : (s : List ℕ) → (m : ℕ) × Trims (strlen s) m s (rtrim s)
unfolding rtrim
rtrim_lem s = trim_from-Trims (strlen s) s (strlen-le s)
