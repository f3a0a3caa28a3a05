-- ===== src/Base/Bytes.antt =====
-- memcpy out of and into the middle of a byte array.
use Prim.Native.Nat.{ℕ, ◌+◌, ◌-◌, ◌≤◌, ◌<◌}
use mathlib.Core.Path.{◌≡◌, refl, sym, ap, ◌∙◌}
use mathlib.Core.Logic.{◌⊎◌, inl, inr}
use mathlib.Core.Bool.{◌&&◌}
use mathlib.Core.List.{List, ◌++◌}
use native.Mathlib.Omega.{arith}
use orion_os.Base.Tests.{ltb, leb, if◌then◌else◌, Bool-cases}
use orion_os.Base.Lists.{
  length, get_or, take, drop, length-append, length-take, length-drop, get_or-ext, get_or-take,
  get_or-drop, get_or-append_left, get_or-append_right,
}

-- The `n` bytes from `off` on.
abbrev pub slice : ℕ → ℕ → List ℕ → List ℕ
slice off n xs = take n (drop off xs)

-- `xs` with the bytes `b` written at `off`.
abbrev pub splice : ℕ → List ℕ → List ℕ → List ℕ
splice off b xs = take off xs ++ (b ++ drop (off + length b) xs)

pub length-slice : (off n : ℕ) (xs : List ℕ) → off + n ≤ length xs → length (slice off n xs) ≡ n
length-slice off n xs h = omega (arith, length-take n (drop off xs), length-drop off xs)

pub get_or-slice :
    (off n i : ℕ) (xs : List ℕ) → i < n → get_or (slice off n xs) i 0 ≡ get_or xs (off + i) 0
get_or-slice off n i xs h = get_or-take n (drop off xs) i 0 h ∙ get_or-drop off xs i 0

-- A list read past a prefix of it.
append_at :
    (xs ys : List ℕ) (n i : ℕ) → length xs ≡ n → n ≤ i → get_or (xs ++ ys) i 0 ≡ get_or ys (i - n) 0
append_at xs ys n i e h =
    let split : i ≡ length xs + (i - n) = omega arith in
    ap (λ (k : ℕ). get_or (xs ++ ys) k 0) split ∙ get_or-append_right xs ys (i - n) 0

module _ (off : ℕ) (b xs : List ℕ) (room : off + length b ≤ length xs) where
  head_size : length (take off xs) ≡ off
  head_size = omega (arith, length-take off xs)

  pub length-splice : length (splice off b xs) ≡ length xs
  length-splice = omega (
    arith,
    length-append (take off xs) (b ++ drop (off + length b) xs),
    length-append b (drop (off + length b) xs),
    length-drop (off + length b) xs,
    head_size,
  )

  -- Each byte after the write: of `b` within its range, and as before elsewhere.
  pub get_or-splice :
      (i : ℕ)
      → get_or (splice off b xs) i 0
        ≡ (if leb off i && ltb i (off + length b) then get_or b (i - off) 0 else get_or xs i 0)
  get_or-splice i = elim (Bool-cases (ltb i off)) [
    | inl before ↦ ground (
      arith,
      get_or-append_left (take off xs) (b ++ drop (off + length b) xs) i 0,
      head_size,
      get_or-take off xs i 0,
    )
    | inr behind ↦
        let past : get_or (splice off b xs) i 0
            ≡ get_or (b ++ drop (off + length b) xs) (i - off) 0 =
          append_at (take off xs) (b ++ drop (off + length b) xs) off i head_size (ground arith) in
        elim (Bool-cases (ltb i (off + length b))) [
          | inl inside ↦
              ground (arith, past, get_or-append_left b (drop (off + length b) xs) (i - off) 0)
          | inr outside ↦
              let place : off + length b + (i - off - length b) ≡ i = ground arith in
              let tail : get_or (b ++ drop (off + length b) xs) (i - off) 0 ≡ get_or xs i 0 =
                append_at b (drop (off + length b) xs) (length b) (i - off) refl (ground arith)
                ∙ get_or-drop (off + length b) xs (i - off - length b) 0
                ∙ ap (λ (k : ℕ). get_or xs k 0) place in
              ground (arith, past, tail)
        ]
  ]

  -- What was written is read back.
  pub slice-splice_self : slice off (length b) (splice off b xs) ≡ b
  slice-splice_self =
      get_or-ext (slice off (length b) (splice off b xs)) b 0
        (length-slice off (length b) (splice off b xs) (omega (arith, length-splice)))
        (λ i h.
          let inside : i < length b =
            omega (
              arith,
              length-slice off (length b) (splice off b xs) (omega (arith, length-splice)),
            ) in
          let back : off + i - off ≡ i = omega arith in
          get_or-slice off (length b) i (splice off b xs) inside
          ∙ get_or-splice (off + i)
          ∙ ground (arith, back))

  -- A range apart from the write is read as before.
  pub slice-splice_apart :
      (o n : ℕ)
      → o + n ≤ length xs
      → (o + n ≤ off) ⊎ (off + length b ≤ o)
      → slice o n (splice off b xs) ≡ slice o n xs
  slice-splice_apart o n h apart =
      let fits : o + n ≤ length (splice off b xs) = omega (arith, length-splice) in
      get_or-ext (slice o n (splice off b xs)) (slice o n xs) 0
        (length-slice o n (splice off b xs) fits ∙ sym (length-slice o n xs h))
        (λ i hi.
          let inside : i < n = omega (arith, length-slice o n (splice off b xs) fits) in
          get_or-slice o n i (splice off b xs) inside
          ∙ get_or-splice (o + i)
          ∙ ground arith
          ∙ sym (get_or-slice o n i xs inside))
