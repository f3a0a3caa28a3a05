-- ===== src/Pmm/Alloc.antt =====
-- pmm_alloc_page: first fit, and what it does to the bitmap and the counters.
use orion_os.Base.{
  ℕ, zero, suc, ◌+◌, ◌*◌, ◌/◌, ◌%◌, ◌^◌, ◌≤◌, ◌<◌, ◌≡◌, refl, true, false, List, arith, ◌==◌,
  if◌then◌else◌, length, Bool-cases, inl, inr, ltb, Option, none, some,
}
use orion_os.Base.Bitmap.{bit_test, bit_test-bit_set}
use orion_os.Pmm.{
  Pmm, Search, page, no_page, out_of_bounds, mark_used, page_size, find_from, find_free_page,
  pmm_alloc_page,
}
use orion_os.Pmm.Invariant.{IsValid, is_free, count_free-pos, count_free-le, take_page-IsValid}

-- What a scan of the `n` pages from `i` on may answer: the first free one, or that there is none.
abbrev pub Finds : List ℕ → ℕ → ℕ → Search → Type 0
Finds a n i (page j) =
    (i ≤ j) × (j < i + n) × (is_free a j ≡ true) × ((k : ℕ) → i ≤ k → k < j → is_free a k ≡ false)
Finds a n i no_page = (k : ℕ) → i ≤ k → k < i + n → is_free a k ≡ false
Finds a n i out_of_bounds = ⊥

Finds-later :
    (a : List ℕ) (n i : ℕ) (r : Search)
    → is_free a i ≡ false
    → Finds a n (i + 1) r
    → Finds a (suc n) i r
Finds-later a n i (page j) used (lo, hi, free, below) = (
  omega arith,
  omega arith,
  free,
  λ k h h'. elim (Bool-cases (k == i)) [
    | inl e ↦ let same : k ≡ i = ground arith in rw same used
    | inr e ↦ below k (ground arith) h'
  ],
)
Finds-later a n i no_page used none_free = λ k h h'. elim (Bool-cases (k == i)) [
  | inl e ↦ let same : k ≡ i = ground arith in rw same used
  | inr e ↦ none_free k (ground arith) (omega arith)
]
Finds-later a n i out_of_bounds used bad = bad

pub find_from-Finds : (a : List ℕ) (n i : ℕ) → i + n ≤ 8 * length a → Finds a n i (find_from a n i)
unfolding find_from
find_from-Finds a zero i h = λ k p q. absurd (omega arith)
find_from-Finds a (suc n) i h =
    let inside : ltb (i / 8) (length a) ≡ true = ground arith in
    elim (Bool-cases (is_free a i)) [
      | inl free ↦ rw (inside, free) (omega arith, omega arith, free, λ k p q. absurd (omega arith))
      | inr used ↦
          rw (inside, used)
            (Finds-later a n i (find_from a n (i + 1)) used
              (find_from-Finds a n (i + 1) (omega arith)))
    ]

-- What an allocation may answer. A page number is below 2 ^ 20, so its address fits 32 bits.
pub data Allocated (s : Pmm) : Option (ℕ × Pmm) → Type 0 where
  full :
      ((k : ℕ) → k < s.max_physical_page → is_free s.pmm_bitmap k ≡ false)
      → Allocated s (some (0, s))
  took :
      (i : ℕ) (s' : Pmm)
      → i < s.max_physical_page
      → is_free s.pmm_bitmap i ≡ true
      → ((k : ℕ) → k < i → is_free s.pmm_bitmap k ≡ false)
      → ((j : ℕ) → bit_test s'.pmm_bitmap j ≡ (if i == j then true else bit_test s.pmm_bitmap j))
      → s'.free_memory + page_size ≡ s.free_memory
      → s'.max_physical_page ≡ s.max_physical_page
      → IsValid s'
      → Allocated s (some (i * page_size, s'))

-- On a valid state the allocator never reads past its bitmap. It answers NULL and changes nothing
-- if every page is in use; otherwise it answers the address of the first free page, sets the bit
-- of that page and of no other, and takes one page off the free memory.
pub pmm_alloc_page_lem : {s : Pmm} → IsValid s → Allocated s (pmm_alloc_page s)
unfolding pmm_alloc_page find_free_page mark_used
pmm_alloc_page_lem {s} v =
    answer (find_from s.pmm_bitmap s.max_physical_page 0) refl
      (find_from-Finds s.pmm_bitmap s.max_physical_page 0 (omega (arith, v.within)))
  where
    answer :
        (r : Search)
        → find_from s.pmm_bitmap s.max_physical_page 0 ≡ r
        → Finds s.pmm_bitmap s.max_physical_page 0 r
        → Allocated s (pmm_alloc_page s)
    answer (page i) e (lo, hi, free, below) =
        let h : i < s.max_physical_page = omega arith in
        let inside : ltb i s.max_physical_page ≡ true = ground arith in
        let fits : i * page_size % 2 ^ 32 ≡ i * page_size = omega (arith, v.within, v.small) in
        rw (e, pmm_alloc_page, mark_used, inside, fits)
          (took i _ h free (λ k hk. below k (omega arith) hk)
            (bit_test-bit_set s.pmm_bitmap i v.bytes (omega (arith, v.within)))
            (omega (
              arith,
              v.accounted,
              v.within,
              v.small,
              count_free-pos s.pmm_bitmap i s.max_physical_page h free,
              count_free-le s.pmm_bitmap s.max_physical_page,
            ))
            refl (take_page-IsValid i v h free))
    answer no_page e none_free =
        rw (e, pmm_alloc_page) (full (λ k h. none_free k (omega arith) (omega arith)))
    answer out_of_bounds e bad = elim bad [ ]

find_from-overrun :
    (a : List ℕ) (n i : ℕ)
    → i ≤ 8 * length a
    → 8 * length a < i + n
    → ((k : ℕ) → i ≤ k → k < 8 * length a → is_free a k ≡ false)
    → find_from a n i ≡ out_of_bounds
unfolding find_from
find_from-overrun a zero i h over used = absurd (omega arith)
find_from-overrun a (suc n) i h over used = elim (Bool-cases (ltb (i / 8) (length a))) [
  | inl inside ↦
      rw (inside, used i (omega arith) (ground arith))
        (find_from-overrun a n (i + 1) (ground arith) (omega arith)
          (λ k p q. used k (omega arith) q))
  | inr outside ↦ rw outside
]

-- Where more pages are managed than the bitmap has entries, as with more than 4 GiB of memory, an
-- allocation with every entry of the bitmap in use reads past the bitmap's end.
pub pmm_alloc_page_overrun :
    (s : Pmm)
    → 8 * length s.pmm_bitmap < s.max_physical_page
    → ((k : ℕ) → k < 8 * length s.pmm_bitmap → is_free s.pmm_bitmap k ≡ false)
    → pmm_alloc_page s ≡ none
unfolding pmm_alloc_page find_free_page
pmm_alloc_page_overrun s over used = rw (
  find_from-overrun s.pmm_bitmap s.max_physical_page 0 (omega arith) (omega arith)
      (λ k p q. used k q),
  pmm_alloc_page,
)
