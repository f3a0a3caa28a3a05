-- ===== src/CString/Edit/Token.antt =====
-- strtok: the token that it cuts out.
use orion_os.Base.{
  ℕ, zero, suc, ◌+◌, ◌-◌, ◌≤◌, ◌<◌, ◌≡◌, ◌≢◌, refl, sym, ap, ◌∙◌, Bool, true, false, not, Option,
  some, List, [], ◌∷◌, arith, ◌==◌, ◌!=◌, ◌&&◌, if◌then◌else◌, get_or, set, drop, get_or-drop,
  get_or-set_ne, subst, Option-cases, is_some, Bool-cases, inl, inr,
}
use orion_os.CString.{strchr}
use orion_os.CString.Edit.{span, token_from, strtok}

-- The bytes that a scan passes pass its test, and the byte that it stops at does not, or ends the
-- string.
span-lem :
    (test : ℕ → Bool) (s : List ℕ)
    → ((k : ℕ) → k < span test s → test (get_or s k 0) ≡ true)
      × ((k : ℕ) → k < span test s → get_or s k 0 ≢ 0)
      × (get_or s (span test s) 0 ≢ 0 → test (get_or s (span test s) 0) ≡ false)
unfolding span
span-lem test [] = (λ k h. absurd (omega arith), λ k h. absurd (omega arith), λ h. absurd (h refl))
span-lem test (c ∷ s) =
    let (passes, nonzero, stops) = span-lem test s in
    elim (Bool-cases (c != 0 && test c)) [
      | inr stop ↦
          rw stop
            (λ k h. absurd (omega arith), λ k h. absurd (omega arith), λ h. ground (arith, stop))
      | inl go ↦ rw go (
        λ k h.
            elim k as (λ (j : ℕ). j < suc (span test s) → test (get_or (c ∷ s) j 0) ≡ true) [
              | zero ↦ λ h0. ground (arith, go)
              | suc j ↦ λ h1. passes j (omega arith)
            ]
              h,
        λ k h.
            elim k as (λ (j : ℕ). j < suc (span test s) → get_or (c ∷ s) j 0 ≢ 0) [
              | zero ↦ λ h0 e. ground (arith, go)
              | suc j ↦ λ h1. nonzero j (omega arith)
            ]
              h,
        λ h. stops h,
      )
    ]

-- A byte of the set of delimiters.
abbrev pub is_delim : List ℕ → ℕ → Bool
is_delim delim c = is_some (strchr delim c)

-- What a call that answers a token leaves: the token starts behind delimiters only, it is not empty,
-- no byte of it is a delimiter or a terminator, and behind it stands a terminator. No byte but that
-- one has changed, and it was a delimiter or the terminator.
pub record Cuts (delim mem : List ℕ) (p start past : ℕ) (mem' : List ℕ) : Type 0 where
  pub ahead : p ≤ start
  pub skipped : (k : ℕ) → p ≤ k → k < start → is_delim delim (get_or mem k 0) ≡ true
  pub nonempty : start < past
  pub clean :
      (k : ℕ)
      → start ≤ k
      → k < past
      → (is_delim delim (get_or mem k 0) ≡ false) × (get_or mem k 0 ≢ 0)
  pub ended : get_or mem' past 0 ≡ 0
  pub kept : (k : ℕ) → k ≢ past → get_or mem' k 0 ≡ get_or mem k 0

abbrev token_start : List ℕ → List ℕ → ℕ → ℕ
token_start delim mem p = p + span (λ c. is_some (strchr delim c)) (drop p mem)

abbrev token_past : List ℕ → List ℕ → ℕ → ℕ
token_past delim mem start = start + span (λ c. not (is_some (strchr delim c))) (drop start mem)

dropped : (mem : List ℕ) (p k : ℕ) → p ≤ k → get_or (drop p mem) (k - p) 0 ≡ get_or mem k 0
dropped mem p k h =
    let at : p + (k - p) ≡ k = omega arith in
    get_or-drop p mem (k - p) 0 ∙ ap (λ (i : ℕ). get_or mem i 0) at

span-pos :
    (test : ℕ → Bool) (s : List ℕ) → get_or s 0 0 ≢ 0 → test (get_or s 0 0) ≡ true → 0 < span test s
unfolding span
span-pos test [] h e = absurd (h refl)
span-pos test (c ∷ s) h e = ground (arith, h, e)

scan-Cuts :
    (delim mem : List ℕ) (p : ℕ) (mem' : List ℕ)
    → get_or mem (token_start delim mem p) 0 ≢ 0
    → get_or mem' (token_past delim mem (token_start delim mem p)) 0 ≡ 0
    → ((k : ℕ)
        → k ≢ token_past delim mem (token_start delim mem p)
        → get_or mem' k 0 ≡ get_or mem k 0)
    → Cuts delim mem p
        (token_start delim mem p)
        (token_past delim mem (token_start delim mem p))
        mem'
scan-Cuts delim mem p mem' nonzero ended kept =
    let a : ℕ = token_start delim mem p in
    let (skips, solid, stops) = span-lem (λ c. is_delim delim c) (drop p mem) in
    let (passes, there, ends) = span-lem (λ c. not (is_delim delim c)) (drop a mem) in
    let at_a : get_or (drop p mem) (span (λ c. is_delim delim c) (drop p mem)) 0 ≡ get_or mem a 0 =
      get_or-drop p mem _ 0 in
    let no_delim : is_delim delim (get_or mem a 0) ≡ false =
      ap (is_delim delim) (sym at_a) ∙ stops (λ z. nonzero (sym at_a ∙ z)) in
    let at_zero : a + 0 ≡ a = omega arith in
    let first : get_or (drop a mem) 0 0 ≡ get_or mem a 0 =
      get_or-drop a mem 0 0 ∙ ap (λ (i : ℕ). get_or mem i 0) at_zero in
    let some_left : 0 < span (λ c. not (is_delim delim c)) (drop a mem) =
      span-pos (λ c. not (is_delim delim c)) (drop a mem) (λ z. nonzero (sym first ∙ z))
        (ap (λ (c : ℕ). not (is_delim delim c)) first ∙ ap not no_delim) in
    record {
      ahead = omega arith;
      skipped =
          λ k lo hi. ap (is_delim delim) (sym (dropped mem p k lo)) ∙ skips (k - p) (omega arith);
      nonempty = omega arith;
      clean = λ k lo hi. (
        let e : not (is_delim delim (get_or mem k 0)) ≡ true =
              ap (λ (c : ℕ). not (is_delim delim c)) (sym (dropped mem a k lo))
              ∙ passes (k - a) (omega arith) in
            ground (arith, e),
        λ z. there (k - a) (omega arith) (dropped mem a k lo ∙ z),
      );
      ended = ended;
      kept = kept;
    }

get_or-set_zero : (mem : List ℕ) (i : ℕ) → get_or (set mem i 0) i 0 ≡ 0
get_or-set_zero [] i = refl
get_or-set_zero (x ∷ mem) zero = refl
get_or-set_zero (x ∷ mem) (suc i) = get_or-set_zero mem i

token_from-Cuts :
    (delim mem : List ℕ) (p : ℕ) {start : ℕ} {mem' : List ℕ} {next : Option ℕ}
    → token_from delim mem p ≡ (some start, mem', next)
    → (past : ℕ) × Cuts delim mem p start past mem'
unfolding token_from
token_from-Cuts delim mem p {start} {mem'} {next} e =
    let a : ℕ = token_start delim mem p in
    let b : ℕ = token_past delim mem a in
    elim (Bool-cases (get_or mem a 0 == 0)) [
      | inl none_left ↦ absurd (ground (arith, none_left, e))
      | inr token ↦
          let here : a ≡ start = ground (arith, token, e) in
          elim (Bool-cases (get_or mem b 0 != 0)) [
            | inl more ↦
                let stored : set mem b 0 ≡ mem' = ground (arith, token, more, e) in
                (
                  b,
                  subst (λ x. Cuts delim mem p x b mem') here
                      (scan-Cuts delim mem p mem' (λ z. absurd (ground (arith, token, z)))
                        (rw (← stored) (get_or-set_zero mem b))
                        (λ k ne. rw (← stored) (get_or-set_ne mem b k 0 0 (λ z. ne (sym z))))),
                )
            | inr last ↦
                let same : mem ≡ mem' = ground (arith, token, last, e) in
                (
                  b,
                  subst (λ x. Cuts delim mem p x b mem') here
                      (scan-Cuts delim mem p mem' (λ z. absurd (ground (arith, token, z)))
                        (rw (← same) (ground (arith, last))) (λ k ne. rw (← same) refl)),
                )
          ]
    ]

-- A call of strtok that answers a token has cut it out of the string at the pointer that it was
-- given or, given none, at the one that the call before left.
pub strtok_lem :
    (str : Option ℕ) (delim mem : List ℕ) (strtok_next : Option ℕ) {start : ℕ} {mem' : List ℕ}
    {next : Option ℕ}
    → strtok str delim mem strtok_next ≡ (some start, mem', next)
    → (p : ℕ) × ((if is_some str then str else strtok_next) ≡ some p)
      × ((past : ℕ) × Cuts delim mem p start past mem')
unfolding strtok
strtok_lem str delim mem strtok_next {next = next} e =
    elim (Option-cases (if is_some str then str else strtok_next)) [
      | inl null ↦ absurd (ground (arith, null, e))
      | inr (p, at) ↦ elim (Bool-cases (get_or mem p 0 == 0)) [
        | inl empty ↦ absurd (ground (arith, at, empty, e))
        | inr bytes ↦
            (p, at, token_from-Cuts delim mem p {next = next} (ground (arith, at, bytes, e)))
      ]
    ]
