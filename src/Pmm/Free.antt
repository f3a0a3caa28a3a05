-- ===== src/Pmm/Free.antt =====
-- pmm_free_page: a page in use below the bound is given back, and any other call changes nothing.
use orion_os.Base.{
  ℕ, ◌+◌, ◌/◌, ◌<◌, ◌≡◌, refl, true, false, arith, ◌==◌, if◌then◌else◌, Bool-cases, inl, inr, ltb,
  leb,
}
use orion_os.Base.Bitmap.{bit_test, bit_test-bit_clear}
use orion_os.Pmm.{Pmm, mark_free, page_size, pmm_free_page}
use orion_os.Pmm.Invariant.{IsValid, is_free, give_page-IsValid, count_free-le}

-- What a call for the page `i` does.
pub data Freed (s : Pmm) (i : ℕ) : Pmm → Type 0 where
  ignored : ((i < s.max_physical_page) → is_free s.pmm_bitmap i ≡ true) → Freed s i s
  gave :
      (s' : Pmm)
      → i < s.max_physical_page
      → is_free s.pmm_bitmap i ≡ false
      → ((j : ℕ) → bit_test s'.pmm_bitmap j ≡ (if i == j then false else bit_test s.pmm_bitmap j))
      → s'.free_memory ≡ s.free_memory + page_size
      → s'.max_physical_page ≡ s.max_physical_page
      → Freed s i s'

-- Freeing an address clears the bit of its page alone and adds one page to the free memory if that
-- page is managed and in use; otherwise (so on a second free) it changes nothing. It keeps the
-- invariant.
pub pmm_free_page_lem :
    {s : Pmm} (addr : ℕ)
    → IsValid s
    → Freed s (addr / page_size) (pmm_free_page addr s) × IsValid (pmm_free_page addr s)
unfolding pmm_free_page mark_free
pmm_free_page_lem {s} addr v = elim (Bool-cases (leb s.max_physical_page (addr / page_size))) [
  | inl beyond ↦ rw beyond (ignored (λ h. absurd (ground arith)), v)
  | inr below ↦ elim (Bool-cases (bit_test s.pmm_bitmap (addr / page_size))) [
    | inl used ↦
        let h : addr / page_size < s.max_physical_page = ground arith in
        let inside : ltb (addr / page_size) s.max_physical_page ≡ true = ground arith in
        rw (below, used, inside)
          (
            gave _ h (ground arith)
                (bit_test-bit_clear s.pmm_bitmap (addr / page_size) v.bytes
                  (omega (arith, v.within)))
                (omega (
                  arith,
                  v.accounted,
                  v.within,
                  v.small,
                  count_free-le s.pmm_bitmap s.max_physical_page,
                ))
                refl,
            give_page-IsValid (addr / page_size) v h used,
          )
    | inr unused ↦ rw (below, unused) (ignored (λ h. ground arith), v)
  ]
]
