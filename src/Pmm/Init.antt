-- ===== src/Pmm/Init.antt =====
-- pmm_init of mm/pmm.c, over the multiboot tags as they stand in the information block.
pub mod Open
pub mod Boot
use orion_os.Base.{
  fill, ℕ, zero, suc, ◌+◌, ◌-◌, ◌*◌, ◌/◌, ◌%◌, ◌^◌, List, [], ◌∷◌, ltb, ◌==◌, if◌then◌else◌, min,
}
use orion_os.Pmm.{Pmm, page_size, max_pages, add64, mark_free, pmm_reserve_region}

-- multiboot_mmap_entry_t: `kind` is the field `type`, 1 for usable memory.
pub record MmapEntry : Type 0 where
  pub addr : ℕ
  pub len : ℕ
  pub kind : ℕ

-- The tags before the end tag, of the two types that the code reads and of any other.
pub data Tag : Type 0 where
  mmap : List MmapEntry → Tag
  loaded : ℕ → ℕ → Tag
  other : Tag

-- The rounds of `for (p = s; p < en && p < MAX_PAGES; p++) mark_free(p)`.
pub free_from : ℕ → ℕ → Pmm → Pmm
free_from zero p s = s
free_from (suc n) p s = free_from n (p + 1) (mark_free p s)

pub add_entry : MmapEntry → Pmm → Pmm
add_entry e s =
    if e.kind == 1
    then (let first = e.addr / page_size in
        let past = (e.addr + e.len) % 2 ^ 64 / page_size in
        let s' =
          free_from (min past max_pages - first) first
            (if ltb s.max_physical_page past then record s { max_physical_page = past } else s) in
        record s' {
          free_memory = add64 s'.free_memory e.len;
          total_memory = add64 s'.total_memory e.len;
        })
    else s

pub add_entries : List MmapEntry → Pmm → Pmm
add_entries [] s = s
add_entries (e ∷ es) s = add_entries es (add_entry e s)

pub add_maps : List Tag → Pmm → Pmm
add_maps [] s = s
add_maps (mmap es ∷ ts) s = add_maps ts (add_entries es s)
add_maps (loaded a b ∷ ts) s = add_maps ts s
add_maps (other ∷ ts) s = add_maps ts s

pub reserve_modules : List Tag → Pmm → Pmm
reserve_modules [] s = s
reserve_modules (loaded a b ∷ ts) s = reserve_modules ts (pmm_reserve_region a b s)
reserve_modules (mmap es ∷ ts) s = reserve_modules ts s
reserve_modules (other ∷ ts) s = reserve_modules ts s

-- The kernel's own bounds are symbols of the linker.
module _ (kernel_start kernel_end : ℕ) where
  pub pmm_init : (mb_info_addr total_size : ℕ) → List Tag → Pmm
  pmm_init mb_info_addr total_size tags = reserve_modules tags (
      pmm_reserve_region mb_info_addr ((mb_info_addr + total_size) % 2 ^ 32) (
        pmm_reserve_region kernel_start kernel_end (
          pmm_reserve_region 0 0x100000 (
            add_maps tags (record {
              pmm_bitmap = fill 0xFF (max_pages / 8);
              total_memory = 0;
              free_memory = 0;
              max_physical_page = 0;
            })))))
