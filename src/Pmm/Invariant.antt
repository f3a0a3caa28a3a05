-- ===== src/Pmm/Invariant.antt =====
-- The bitmap within its bounds, and the count of free memory against the bits.
use orion_os.Base.{
  ℕ, zero, suc, ◌+◌, ◌*◌, ◌≤◌, ◌<◌, ◌≡◌, refl, Bool, true, false, List, arith, ◌==◌, if◌then◌else◌,
  length, Bool-cases, inl, inr, not,
}
use orion_os.Base.Bitmap.{
  bit_test, bit_set, bit_clear, IsBytes, bit_test-bit_set, bit_test-bit_clear, bit_set-IsBytes,
  bit_clear-IsBytes, length-bit_set, length-bit_clear,
}
use orion_os.Pmm.{Pmm, add64, sub64, page_size}

abbrev pub is_free : List ℕ → ℕ → Bool
is_free a i = not (bit_test a i)

-- The free pages below `n`.
unfoldable pub count_free : List ℕ → ℕ → ℕ
count_free a zero = 0
count_free a (suc n) = (if is_free a n then 1 else 0) + count_free a n

-- The count depends on the bits below the bound alone.
pub count_free-same :
    (a b : List ℕ) (n : ℕ)
    → ((j : ℕ) → j < n → bit_test a j ≡ bit_test b j)
    → count_free a n ≡ count_free b n
unfolding count_free
count_free-same a b zero same = refl
count_free-same a b (suc n) same =
    ground (arith, same n (omega arith), count_free-same a b n (λ j h. same j (omega arith)))

-- One page taken from the free ones is one free page less.
pub count_free-take :
    (a b : List ℕ) (i n : ℕ)
    → i < n
    → is_free a i ≡ true
    → ((j : ℕ) → bit_test b j ≡ (if i == j then true else bit_test a j))
    → suc (count_free b n) ≡ count_free a n
unfolding count_free
count_free-take a b i zero h free same = absurd (omega arith)
count_free-take a b i (suc n) h free same = elim (Bool-cases (i == n)) [
  | inl e ↦
      let rest : count_free b n ≡ count_free a n =
        count_free-same b a n (λ j hj. ground (arith, same j)) in
      ground (arith, same n, rest)
  | inr e ↦ ground (arith, same n, count_free-take a b i n (ground arith) free same)
]

pub count_free-le : (a : List ℕ) (n : ℕ) → count_free a n ≤ n
unfolding count_free
count_free-le a zero = omega arith
count_free-le a (suc n) = ground (arith, count_free-le a n)

-- Pages in use past a bound add nothing to the count.
pub count_free-extend :
    (a : List ℕ) (n m : ℕ)
    → n ≤ m
    → ((j : ℕ) → n ≤ j → j < m → bit_test a j ≡ true)
    → count_free a m ≡ count_free a n
unfolding count_free
count_free-extend a n zero h used = let e : n ≡ 0 = omega arith in rw e refl
count_free-extend a n (suc m) h used = elim (Bool-cases (n == suc m)) [
  | inl e ↦ let same : n ≡ suc m = ground arith in rw same refl
  | inr e ↦
      let in_use : bit_test a m ≡ true = used m (ground arith) (omega arith) in
      ground
        (arith, in_use, count_free-extend a n m (ground arith) (λ j lo hi. used j lo (omega arith)))
]

pub count_free-pos : (a : List ℕ) (i n : ℕ) → i < n → is_free a i ≡ true → 0 < count_free a n
unfolding count_free
count_free-pos a i zero h free = absurd (omega arith)
count_free-pos a i (suc n) h free = elim (Bool-cases (i == n)) [
  | inl e ↦ ground arith
  | inr e ↦ ground (arith, count_free-pos a i n (ground arith) free)
]

-- `pages` holds at most MAX_PAGES entries, the managed ones among them, and free_memory is the
-- size of the free ones.
pub record IsValid (s : Pmm) : Type 0 where
  pub bytes : IsBytes s.pmm_bitmap
  pub within : s.max_physical_page ≤ 8 * length s.pmm_bitmap
  pub small : length s.pmm_bitmap ≤ 131072
  pub accounted : s.free_memory ≡ page_size * count_free s.pmm_bitmap s.max_physical_page

-- Taking a free page below the bound, with its size, keeps the invariant.
pub take_page-IsValid :
    {s : Pmm} (i : ℕ)
    → IsValid s
    → i < s.max_physical_page
    → is_free s.pmm_bitmap i ≡ true
    → IsValid (record s {
      pmm_bitmap = bit_set s.pmm_bitmap i;
      free_memory = sub64 s.free_memory page_size;
    })
take_page-IsValid {s} i v h free = record {
  bytes = bit_set-IsBytes s.pmm_bitmap i v.bytes (omega arith);
  within = omega (arith, length-bit_set s.pmm_bitmap i);
  small = omega (arith, length-bit_set s.pmm_bitmap i);
  accounted = omega (
    arith,
    count_free-take s.pmm_bitmap (bit_set s.pmm_bitmap i) i s.max_physical_page h free
        (bit_test-bit_set s.pmm_bitmap i v.bytes (omega arith)),
    count_free-le s.pmm_bitmap s.max_physical_page,
  );
}

-- Giving back a page in use, with its size, keeps the invariant.
pub give_page-IsValid :
    {s : Pmm} (i : ℕ)
    → IsValid s
    → i < s.max_physical_page
    → bit_test s.pmm_bitmap i ≡ true
    → IsValid (record s {
      pmm_bitmap = bit_clear s.pmm_bitmap i;
      free_memory = add64 s.free_memory page_size;
    })
give_page-IsValid {s} i v h used =
    let cleared : (j : ℕ)
        → bit_test (bit_clear s.pmm_bitmap i) j
          ≡ (if i == j then false else bit_test s.pmm_bitmap j) =
      bit_test-bit_clear s.pmm_bitmap i v.bytes (omega arith) in
    record {
      bytes = bit_clear-IsBytes s.pmm_bitmap i v.bytes (omega arith);
      within = omega (arith, length-bit_clear s.pmm_bitmap i);
      small = omega (arith, length-bit_clear s.pmm_bitmap i);
      accounted = omega (
        arith,
        count_free-take (bit_clear s.pmm_bitmap i) s.pmm_bitmap i s.max_physical_page h
            (ground (arith, cleared i)) (λ j. ground (arith, cleared j)),
        count_free-le (bit_clear s.pmm_bitmap i) s.max_physical_page,
      );
    }
