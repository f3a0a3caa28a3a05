-- ===== src/Syscall/Text.antt =====
-- copy_user_string of kernel/syscall.c: it copies exactly the strings that end in time and lie on
-- mapped pages.
use orion_os.Base.{
  ℕ, zero, suc, ◌+◌, ◌-◌, ◌%◌, ◌^◌, ◌<◌, ◌≡◌, refl, sym, ap, ◌∙◌, ◌≢◌, inl, inr, ◌↔◌, Bool, true,
  false, Option, none, some, List, [], ◌∷◌, arith, ◌==◌, ◌!=◌, ◌&&◌, ◌||◌, not, length, Bool-cases,
  ==-eq, if-each, subst,
}
use mathlib.Core.Option.{some-injective}
use orion_os.Syscall.{page_of, consed, copy_string_from, copy_user_string}

module _ (mapped : ℕ → Bool) (user : ℕ → ℕ) where
  -- The string at an address, its terminator included, lies on mapped pages.
  abbrev pub StringAt : ℕ → List ℕ → Type 0
  StringAt addr [] = (mapped (page_of addr) ≡ true) × (user addr ≡ 0)
  StringAt addr (c ∷ s) =
      (mapped (page_of addr) ≡ true) × (user addr ≡ c) × (c ≢ 0) × StringAt ((addr + 1) % 2 ^ 32) s

  consed-some :
      (c : ℕ) (r : Option (List ℕ)) (path : List ℕ)
      → consed c r ≡ some path
      → (s : List ℕ) × (r ≡ some s) × (path ≡ c ∷ s)
  unfolding consed
  consed-some c none path e = absurd (ground arith)
  consed-some c (some s) path e = (s, refl, sym (some-injective (c ∷ s) path e))

  -- A page that is not the one before was looked up.
  reached :
      (page addr : ℕ)
      → mapped page ≡ true
      → ((page_of addr != page) && not (mapped (page_of addr))) ≡ false
      → mapped (page_of addr) ≡ true
  reached page addr known passed = elim (Bool-cases (page_of addr == page)) [
    | inl e ↦ ap mapped (==-eq (page_of addr) page e) ∙ known
    | inr e ↦ ground arith
  ]

  copied :
      (n page addr : ℕ) (path : List ℕ)
      → mapped page ≡ true
      → copy_string_from mapped user n page addr ≡ some path
      → StringAt addr path × (length path < n)
  unfolding copy_string_from
  copied zero page addr path known = λ e. absurd (ground arith)
  copied (suc n) page addr path known =
      if-each (λ (r : Option (List ℕ)). r ≡ some path → StringAt addr path × (length path < suc n))
        ((page_of addr != page) && not (mapped (page_of addr))) (λ bad e. absurd (ground arith))
        (λ passed.
          if-each
            (λ (r : Option (List ℕ)). r ≡ some path → StringAt addr path × (length path < suc n))
            (user addr == 0)
            (λ end e.
              let nil : [] ≡ path = some-injective [] path e in
              subst (λ (t : List ℕ). StringAt addr t × (length t < suc n)) nil
                ((reached page addr known passed, ==-eq (user addr) 0 end), omega arith))
            (λ more e.
              let (s, es, ep) =
                consed-some (user addr)
                  (copy_string_from mapped user n (page_of addr) ((addr + 1) % 2 ^ 32)) path e in
              let (at, fits) =
                copied n (page_of addr) ((addr + 1) % 2 ^ 32) s (reached page addr known passed)
                  es in
              rw ep ((reached page addr known passed, refl, (λ z. ground arith), at), omega arith)))

  found :
      (n page addr : ℕ) (path : List ℕ)
      → StringAt addr path
      → length path < n
      → copy_string_from mapped user n page addr ≡ some path
  unfolding copy_string_from consed
  found zero page addr path at lt = absurd (omega arith)
  found (suc n) page addr [] (here, end) lt =
      let passed : ((page_of addr != page) && not (mapped (page_of addr))) ≡ false = ground arith in
      let stop : (user addr == 0) ≡ true = ground arith in rw (passed, stop) refl
  found (suc n) page addr (c ∷ s) (here, e, given, at) lt =
      let passed : ((page_of addr != page) && not (mapped (page_of addr))) ≡ false = ground arith in
      let go_on : (user addr == 0) ≡ false = ground arith in
      let rest = found n (page_of addr) ((addr + 1) % 2 ^ 32) s at (omega arith) in
      rw (passed, go_on, rest, e) refl

  first_mapped : (addr : ℕ) (path : List ℕ) → StringAt addr path → mapped (page_of addr) ≡ true
  first_mapped addr [] at = at.0
  first_mapped addr (c ∷ s) at = at.0

  -- copy_user_string returns 0 with a string exactly where that string, which has no 0 in it, stands
  -- at the address with its terminator, all of it lies on mapped pages, it has at least two bytes
  -- less than `max_len`, and the address is not 0.
  pub copy_user_string_lem :
      (src max_len : ℕ) (path : List ℕ)
      → (copy_user_string mapped user src max_len ≡ some path)
        ↔ ((src ≢ 0) × StringAt src path × (length path + 1 < max_len))
  unfolding copy_user_string
  copy_user_string_lem src max_len path = (
    if-each
        (λ (r : Option (List ℕ)).
          r ≡ some path → (src ≢ 0) × StringAt src path × (length path + 1 < max_len))
        ((src == 0) || (max_len == 0)) (λ bad e. absurd (ground arith))
        (λ given.
          if-each
            (λ (r : Option (List ℕ)).
              r ≡ some path → (src ≢ 0) × StringAt src path × (length path + 1 < max_len))
            (not (mapped (page_of src))) (λ bad e. absurd (ground arith))
            (λ here e.
              let (at, fits) = copied (max_len - 1) (page_of src) src path (ground arith) e in
              ((λ z. ground arith), at, omega arith))),
    λ (given, at, fits).
        let ok : ((src == 0) || (max_len == 0)) ≡ false = ground arith in
        let here : not (mapped (page_of src)) ≡ false = ground (arith, first_mapped src path at) in
        rw (ok, here) (found (max_len - 1) (page_of src) src path at (omega arith)),
  )
