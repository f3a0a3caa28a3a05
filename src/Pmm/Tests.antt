-- ===== src/Pmm/Tests.antt =====
-- Runs of the page allocator, and the theorems at concrete states.
use orion_os.Base.{ℕ, zero, suc, ◌/◌, ◌<◌, ◌≡◌, refl, true, none, some, List, [], ◌∷◌, arith}
use orion_os.Base.Bitmap.{bit_test, bit_set, bit_clear, IsBytes}
use orion_os.Pmm.{
  Pmm, page_size, mark_used, mark_free, find_from, find_free_page, pmm_alloc_page, pmm_free_page,
  pmm_reserve_region,
}
use orion_os.Pmm.Invariant.{IsValid, count_free}
use orion_os.Pmm.Alloc.{Allocated, pmm_alloc_page_lem, pmm_alloc_page_overrun}
use orion_os.Pmm.Free.{Freed, pmm_free_page_lem}
use orion_os.Pmm.Reserve.{pmm_reserve_region_lem}
use orion_os.Pmm.Init.{Tag, mmap, loaded, other, pmm_init}
use orion_os.Pmm.Init.Boot.{IsBootable, pmm_init_lem}

-- Eight pages, of which 2 and 3 are free.
abbrev small : Pmm
small = record {
  pmm_bitmap = 0b11110011 ∷ [];
  total_memory = 0x8000;
  free_memory = 0x2000;
  max_physical_page = 8;
}

small-IsBytes : IsBytes small.pmm_bitmap
small-IsBytes zero = omega arith
small-IsBytes (suc i) = omega arith

small-IsValid : IsValid small
unfolding count_free bit_test
small-IsValid = record {
  bytes = small-IsBytes;
  within = omega arith;
  small = omega arith;
  accounted = refl;
}

alloc-small :
    pmm_alloc_page small
    ≡ some (0x2000, record small { pmm_bitmap = 0b11110111 ∷ []; free_memory = 0x1000 })
unfolding pmm_alloc_page find_free_page find_from mark_used bit_test bit_set
alloc-small = refl

free-small :
    pmm_free_page 0x5abc small ≡ record small { pmm_bitmap = 0b11010011 ∷ []; free_memory = 0x3000 }
unfolding pmm_free_page mark_free bit_test bit_clear
free-small = refl

pmm_alloc_page_lem_example : Allocated small (pmm_alloc_page small)
pmm_alloc_page_lem_example = pmm_alloc_page_lem small-IsValid

-- More pages than the bitmap has entries, all of those in use.
abbrev too_large : Pmm
too_large = record small { pmm_bitmap = 0xFF ∷ []; max_physical_page = 9 }

too_large_used : (k : ℕ) → k < 8 → bit_test too_large.pmm_bitmap k ≡ true
unfolding bit_test
too_large_used zero h = refl
too_large_used (suc zero) h = refl
too_large_used (suc (suc zero)) h = refl
too_large_used (suc (suc (suc zero))) h = refl
too_large_used (suc (suc (suc (suc zero)))) h = refl
too_large_used (suc (suc (suc (suc (suc zero))))) h = refl
too_large_used (suc (suc (suc (suc (suc (suc zero)))))) h = refl
too_large_used (suc (suc (suc (suc (suc (suc (suc zero))))))) h = refl
too_large_used (suc (suc (suc (suc (suc (suc (suc (suc k)))))))) h = absurd (omega arith)

pmm_alloc_page_overrun_example : pmm_alloc_page too_large ≡ none
pmm_alloc_page_overrun_example =
    pmm_alloc_page_overrun too_large (omega arith) (λ k h. ground (arith, too_large_used k h))

pmm_free_page_lem_example :
    Freed small (0x5abc / page_size) (pmm_free_page 0x5abc small)
    × IsValid (pmm_free_page 0x5abc small)
pmm_free_page_lem_example = pmm_free_page_lem 0x5abc small-IsValid

pmm_reserve_region_lem_example : IsValid (pmm_reserve_region 0x2800 0x3001 small)
pmm_reserve_region_lem_example =
    (pmm_reserve_region_lem 0x2800 0x3001 small-IsValid (omega arith)).2

-- Low memory, memory above 1 MiB with a module in it, and a region that is no memory.
abbrev tags : List Tag
tags =
    other
    ∷ loaded 0x200000 0x204000
    ∷ mmap (
        record { addr = 0; len = 0x9F000; kind = 1 }
        ∷ record { addr = 0x100000; len = 0x700000; kind = 1 }
        ∷ record { addr = 0xFFFC0000; len = 0x40000; kind = 2 }
        ∷ [])
    ∷ []

tags-IsBootable : IsBootable 0x180000 0x190000 0x400 tags
tags-IsBootable = omega arith

pmm_init_lem_example : IsValid (pmm_init 0x100000 0x180000 0x190000 0x400 tags)
pmm_init_lem_example = (pmm_init_lem 0x100000 0x180000 0x190000 0x400 tags tags-IsBootable).0
