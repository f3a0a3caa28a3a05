-- ===== src/Pmm/Reserve.antt =====
-- pmm_reserve_region: every managed page that the region touches is in use afterwards.
use orion_os.Base.{
  ℕ, zero, suc, ◌+◌, ◌-◌, ◌*◌, ◌/◌, ◌^◌, ◌≤◌, ◌<◌, ◌≡◌, refl, true, arith, ◌==◌, if◌then◌else◌,
  Bool-cases, inl, inr, ltb, leb, ◌&&◌, ◌||◌, ◌∙◌,
}
use orion_os.Base.Bitmap.{bit_test, bit_set, bit_test-bit_set, bit_set-IsBytes, length-bit_set}
use orion_os.Pmm.{
  Pmm, mark_used, page_size, reserve_page, reserve_from, pmm_reserve_region, first_page, end_page,
}
use orion_os.Pmm.Invariant.{IsValid, take_page-IsValid, count_free-same}

-- `s'` is `s` with the managed pages from `i` up to `past` taken.
pub record Reserved (i past : ℕ) (s s' : Pmm) : Type 0 where
  pub bits :
      (j : ℕ)
      → j < s.max_physical_page
      → bit_test s'.pmm_bitmap j ≡ (leb i j && ltb j past || bit_test s.pmm_bitmap j)
  pub bound : s'.max_physical_page ≡ s.max_physical_page
  pub valid : IsValid s'

-- Setting a bit that is set already keeps the invariant.
again-IsValid :
    {s : Pmm} (i : ℕ)
    → IsValid s
    → i < s.max_physical_page
    → bit_test s.pmm_bitmap i ≡ true
    → IsValid (record s { pmm_bitmap = bit_set s.pmm_bitmap i })
again-IsValid {s} i v h used = record {
  bytes = bit_set-IsBytes s.pmm_bitmap i v.bytes (omega (arith, v.within));
  within = omega (arith, v.within, length-bit_set s.pmm_bitmap i);
  small = omega (arith, v.small, length-bit_set s.pmm_bitmap i);
  accounted = omega (
    arith,
    v.accounted,
    count_free-same (bit_set s.pmm_bitmap i) s.pmm_bitmap s.max_physical_page (λ j hj.
        ground (arith, bit_test-bit_set s.pmm_bitmap i v.bytes (omega (arith, v.within)) j)),
  );
}

reserve_page-Reserved : {s : Pmm} (i : ℕ) → IsValid s → Reserved i (i + 1) s (reserve_page i s)
unfolding reserve_page mark_used
reserve_page-Reserved {s} i v = elim (Bool-cases (ltb i s.max_physical_page)) [
  | inl inside ↦
      let h : i < s.max_physical_page = ground arith in
      let bits : (j : ℕ)
          → bit_test (bit_set s.pmm_bitmap i) j
            ≡ (if i == j then true else bit_test s.pmm_bitmap j) =
        bit_test-bit_set s.pmm_bitmap i v.bytes (omega (arith, v.within)) in
      elim (Bool-cases (bit_test s.pmm_bitmap i)) [
        | inl used ↦
            rw (inside, used, inside)
              (record {
                bits = λ j hj. ground (arith, bits j);
                bound = refl;
                valid = again-IsValid i v h used;
              })
        | inr free ↦
            rw (inside, free, inside)
              (record {
                bits = λ j hj. ground (arith, bits j);
                bound = refl;
                valid = take_page-IsValid i v h (ground arith);
              })
      ]
  | inr outside ↦ rw outside (record { bits = λ j hj. ground arith; bound = refl; valid = v })
]

pub reserve_from-Reserved :
    (n : ℕ) {s : Pmm} (i : ℕ) → IsValid s → Reserved i (i + n) s (reserve_from n i s)
unfolding reserve_from
reserve_from-Reserved zero i v = record { bits = λ j hj. ground arith; bound = refl; valid = v }
reserve_from-Reserved (suc n) {s} i v =
    let first : Reserved i (i + 1) s (reserve_page i s) = reserve_page-Reserved i v in
    let rest : Reserved (i + 1) (i + 1 + n) (reserve_page i s)
        (reserve_from n (i + 1) (reserve_page i s)) =
      reserve_from-Reserved n (i + 1) first.valid in
    record {
      bits = λ j hj. ground (arith, first.bits j, rest.bits j, first.bound);
      bound = rest.bound ∙ first.bound;
      valid = rest.valid;
    }

pub pmm_reserve_region-Reserved :
    (start past : ℕ) {s : Pmm}
    → IsValid s
    → Reserved
        (first_page start)
        (first_page start + (end_page past - first_page start))
        s
        (pmm_reserve_region start past s)
unfolding pmm_reserve_region
pmm_reserve_region-Reserved start past v =
    reserve_from-Reserved (end_page past - first_page start) (first_page start) v

-- Reserving a region that ends at least a page below 4 GiB marks the managed pages from the one that
-- holds its start to the last one that begins before its end, so every one that holds one of its
-- bytes, and changes no other managed page; it keeps the invariant. (An empty region that begins
-- inside a page marks that page.)
pub pmm_reserve_region_lem :
    (start past : ℕ) {s : Pmm}
    → IsValid s
    → past + page_size ≤ 2 ^ 32
    → let s' = pmm_reserve_region start past s in
      ((addr : ℕ)
        → start ≤ addr
        → addr < past
        → addr / page_size < s.max_physical_page
        → bit_test s'.pmm_bitmap (addr / page_size) ≡ true)
      × ((j : ℕ)
          → j < s.max_physical_page
          → bit_test s'.pmm_bitmap j
            ≡ (leb (start / page_size) j && ltb (j * page_size) past || bit_test s.pmm_bitmap j))
      × IsValid s'
pmm_reserve_region_lem start past {s} v fits = (
  (λ addr lo hi h.
      ground (arith, (pmm_reserve_region-Reserved start past v).bits (addr / page_size) h)),
  (λ j h. ground (arith, (pmm_reserve_region-Reserved start past v).bits j h)),
  (pmm_reserve_region-Reserved start past v).valid,
)
