-- ===== src/Syscall/Buffer.antt =====
-- validate_user_buffer of kernel/syscall.c: it accepts exactly the buffers whose bytes are all mapped.
use orion_os.Base.{
  ℕ, zero, suc, ◌+◌, ◌-◌, ◌*◌, ◌/◌, ◌%◌, ◌^◌, ◌≤◌, ◌<◌, ◌≡◌, refl, sym, ap, ◌∙◌, ◌≢◌, ◌⊎◌, inl, inr,
  ◌↔◌, Bool, true, false, some, arith, ltb, ◌==◌, Bool-cases,
}
use orion_os.Base.Bits.{bit_and_high}
use native.Mathlib.Decide.{dec_le}
use orion_os.Syscall.{page_of, check_pages, validate_user_buffer}

pub page_of_lem : (x : ℕ) → x < 2 ^ 32 → page_of x ≡ x / 4096 * 4096
page_of_lem x h = bit_and_high 12 20 x ∙ omega arith

module _ (mapped : ℕ → Bool) where
  -- What the loop answers for the pages from `p` to `q`.
  check_pages_lem :
      (fuel p q : ℕ)
      → p ≤ q
      → q < 2 ^ 20
      → q < p + fuel
      → (ok : Bool) × (check_pages mapped fuel (p * 4096) (q * 4096) ≡ some ok)
        × (ok ≡ true ↔ ((k : ℕ) → p ≤ k → k ≤ q → mapped (k * 4096) ≡ true))
  unfolding check_pages
  check_pages_lem zero p q le top enough = absurd (omega arith)
  check_pages_lem (suc fuel) p q le top enough = elim (Bool-cases (mapped (p * 4096))) [
    | inr unmapped ↦ (
      false,
      rw unmapped refl,
      ((λ e. absurd (ground arith)), λ all. sym unmapped ∙ all p (omega arith) le),
    )
    | inl here ↦ elim (dec_le q p) [
      | yes last ↦
          let same : (p * 4096 == q * 4096) ≡ true = ground arith in
          (
            true,
            rw (here, same) refl,
            ((λ e k lo hi. let z : k ≡ p = omega arith in rw z here), λ all. refl),
          )
      | no more ↦
          let (ok, e, spec) = check_pages_lem fuel (p + 1) q (omega arith) top (omega arith) in
          let next : (p * 4096 + 4096) % 2 ^ 32 ≡ (p + 1) * 4096 = omega arith in
          let other : (p * 4096 == q * 4096) ≡ false = ground arith in
          let up : ltb ((p + 1) * 4096) (p * 4096) ≡ false = ground arith in
          (
            ok,
            rw (here, other, next, up, e) refl,
            (
              (λ t k lo hi. elim (dec_le (p + 1) k) [
                | yes later ↦ spec.0 t k later hi
                | no now ↦ let z : k ≡ p = omega arith in rw z here
              ]),
              λ all. spec.1 (λ k lo hi. all k (omega arith) hi),
            ),
          )
    ]
  ]

  abbrev pub Readable : ℕ → ℕ → Type 0
  Readable addr size =
      (size ≡ 0)
      ⊎ ((addr ≢ 0)
          × (addr + size ≤ 2 ^ 32)
          × ((k : ℕ) → k < size → mapped ((addr + k) / 4096 * 4096) ≡ true))

  refused :
      (addr size : ℕ)
      → 0 < size
      → (addr ≡ 0) ⊎ (2 ^ 32 < addr + size)
      → (false ≡ true ↔ Readable addr size)
  refused addr size pos why = (
    (λ t. absurd (ground arith)),
    λ h. elim h [
      | inl none_asked ↦ absurd (omega arith)
      | inr (given, fits, all) ↦ elim why [
        | inl null ↦ absurd (given null)
        | inr over ↦ absurd (omega arith)
      ]
    ],
  )

  -- The bytes lie on the pages from the first byte's to the last one's.
  same_pages :
      (addr size : ℕ)
      → 0 < addr
      → 0 < size
      → addr + size ≤ 2 ^ 32
      → ((k : ℕ) → addr / 4096 ≤ k → k ≤ (addr + size - 1) / 4096 → mapped (k * 4096) ≡ true)
        ↔ Readable addr size
  same_pages addr size pos asked fits = (
    (λ pages. inr (
      (λ e. omega arith),
      fits,
      (λ k lt. pages ((addr + k) / 4096) (omega arith) (omega arith)),
    )),
    λ h k lo hi. elim h [
      | inl none_asked ↦ absurd (omega arith)
      | inr (given, within, all) ↦
          let j = k * 4096 - addr in
          let here : (addr + j) / 4096 ≡ k = omega arith in
          ap (λ (i : ℕ). mapped (i * 4096)) (sym here) ∙ all j (omega arith)
    ],
  )

  -- validate_user_buffer ends, and accepts exactly the empty buffers and those that start at another
  -- address than 0, do not go past the end of the address space and have every byte on a page that
  -- is mapped.
  pub validate_user_buffer_lem :
      (addr size : ℕ)
      → addr < 2 ^ 32
      → size < 2 ^ 32
      → (ok : Bool) × (validate_user_buffer mapped addr size ≡ some ok)
        × (ok ≡ true ↔ Readable addr size)
  unfolding validate_user_buffer
  validate_user_buffer_lem addr size ha hs = elim (dec_le size 0) [
    | yes none_asked ↦
        let e : size ≡ 0 = omega arith in (true, rw e refl, ((λ t. inl e), λ _. refl))
    | no asked ↦
        let some_size : (size == 0) ≡ false = ground arith in
        elim (dec_le addr 0) [
          | yes null ↦
              let e : (addr == 0) ≡ true = ground arith in
              (false, rw (some_size, e) refl, refused addr size (omega arith) (inl (omega arith)))
          | no given ↦
              let some_addr : (addr == 0) ≡ false = ground arith in
              elim (dec_le (addr + size) (2 ^ 32)) [
                | no over ↦
                    let wraps : ltb ((addr + size + 2 ^ 32 - 1) % 2 ^ 32) addr ≡ true =
                      ground arith in
                    (
                      false,
                      rw (some_size, some_addr, wraps) refl,
                      refused addr size (omega arith) (inr (omega arith)),
                    )
                | yes fits ↦
                    let (ok, e, spec) =
                      check_pages_lem (2 ^ 20) (addr / 4096) ((addr + size - 1) / 4096)
                        (omega arith) (omega arith) (omega arith) in
                    let pages = same_pages addr size (omega arith) (omega arith) fits in
                    let last : (addr + size + 2 ^ 32 - 1) % 2 ^ 32 ≡ addr + size - 1 =
                      omega arith in
                    let straight : ltb (addr + size - 1) addr ≡ false = ground arith in
                    let from = page_of_lem addr ha in
                    let to = page_of_lem (addr + size - 1) (omega arith) in
                    (
                      ok,
                      rw (some_size, some_addr, last, straight, from, to) e,
                      ((λ t. pages.0 (spec.0 t)), λ h. spec.1 (pages.1 h)),
                    )
              ]
        ]
  ]
