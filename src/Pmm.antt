-- ===== src/Pmm.antt =====
-- mm/pmm.c: the allocator of physical pages over a bitmap, a set bit for a page in use.
pub mod Init
pub mod Free
pub mod Invariant
pub mod Alloc
pub mod Reserve
mod Tests
use orion_os.Base.{
  ℕ, zero, suc, ◌+◌, ◌-◌, ◌*◌, ◌/◌, ◌%◌, ◌^◌, Bool, true, false, Option, none, some, List, ltb, leb,
  if◌then◌else◌, length, not,
}
use orion_os.Base.Bitmap.{bit_test, bit_set, bit_clear}

abbrev pub page_size : ℕ
page_size = 4096

abbrev pub max_pages : ℕ
max_pages = 1024 * 1024

-- The static variables. The memory counters are uint64_t.
pub record Pmm : Type 0 where
  pub pmm_bitmap : List ℕ
  pub total_memory : ℕ
  pub free_memory : ℕ
  pub max_physical_page : ℕ

-- uint64_t `+=` and `-=`
abbrev pub add64 : ℕ → ℕ → ℕ
add64 a b = (a + b) % 2 ^ 64

abbrev pub sub64 : ℕ → ℕ → ℕ
sub64 a b = (a + 2 ^ 64 - b) % 2 ^ 64

pub mark_used : ℕ → Pmm → Pmm
mark_used p s =
    if ltb p s.max_physical_page then record s { pmm_bitmap = bit_set s.pmm_bitmap p } else s

pub mark_free : ℕ → Pmm → Pmm
mark_free p s =
    if ltb p s.max_physical_page then record s { pmm_bitmap = bit_clear s.pmm_bitmap p } else s

-- What the scan for a free page ends in; `out_of_bounds` is a read past the end of the bitmap.
pub data Search : Type 0 where
  page : ℕ → Search
  no_page out_of_bounds : Search

-- The loop of find_free_page from page `i` on, with `n` pages left.
pub find_from : List ℕ → ℕ → ℕ → Search
find_from a zero i = no_page
find_from a (suc n) i =
    let later = find_from a n (i + 1) in
    if ltb (i / 8) (length a) then (if not (bit_test a i) then page i else later) else out_of_bounds

pub find_free_page : Pmm → Search
find_free_page s = find_from s.pmm_bitmap s.max_physical_page 0

-- The pointer is 0 where the code returns NULL. `none` stands for the read past the bitmap.
pub pmm_alloc_page : Pmm → Option (ℕ × Pmm)
pmm_alloc_page s = elim (find_free_page s) [
  | page idx ↦
      let s' = mark_used idx s in
      some (idx * page_size % 2 ^ 32, record s' { free_memory = sub64 s'.free_memory page_size })
  | no_page ↦ some (0, s)
  | out_of_bounds ↦ none
]

-- `addr` is a 32-bit pointer, so its page lies within the bitmap.
pub pmm_free_page : ℕ → Pmm → Pmm
pmm_free_page addr s =
    let idx = addr / page_size in
    if leb s.max_physical_page idx
    then s
    else (if bit_test s.pmm_bitmap idx
        then (let s' = mark_free idx s in
            record s' { free_memory = add64 s'.free_memory page_size })
        else s)

-- One round of the loop of pmm_reserve_region.
pub reserve_page : ℕ → Pmm → Pmm
reserve_page i s =
    if ltb i s.max_physical_page
    then mark_used i (
        if not (bit_test s.pmm_bitmap i)
        then record s { free_memory = sub64 s.free_memory page_size }
        else s)
    else s

pub reserve_from : ℕ → ℕ → Pmm → Pmm
reserve_from zero i s = s
reserve_from (suc n) i s = reserve_from n (i + 1) (reserve_page i s)

-- The first page of a region, and the page behind it. The addition wraps at 32 bits.
abbrev pub first_page : ℕ → ℕ
first_page start = start / page_size

abbrev pub end_page : ℕ → ℕ
end_page end_address = (end_address + page_size - 1) % 2 ^ 32 / page_size

pub pmm_reserve_region : ℕ → ℕ → Pmm → Pmm
pmm_reserve_region start end_address s =
    reserve_from (end_page end_address - first_page start) (first_page start) s
