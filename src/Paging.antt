-- ===== src/Paging.antt =====
-- mm/paging.c: page directories and tables in physical memory, a frame of 1024 entries each. With
-- paging on, the code reaches the tables of the current directory through its last entry, which
-- points to the directory itself.
pub mod Walk
pub mod Ready
pub mod Tables
pub mod Map
mod Tests
use Prim.Native.Nat.{bit_and, bit_or}
use orion_os.Base.{
  ℕ, zero, suc, ◌+◌, ◌-◌, ◌*◌, ◌/◌, ◌%◌, ◌^◌, Bool, true, false, Option, none, some, ltb, ◌==◌,
  ◌!=◌, ◌&&◌, not, if◌then◌else◌, is_some,
}
use orion_os.Pmm.{page_size}
use orion_os.Kheap.Request.{Pager}

abbrev pub page_present : ℕ
page_present = 1

abbrev pub page_rw : ℕ
page_rw = 2

abbrev pub page_user : ℕ
page_user = 4

-- Physical memory as far as it holds tables, whether paging is on, and the directories. A directory
-- is the address of its frame; `current` is also what CR3 holds.
pub record Vmm : Type 0 where
  pub memory : ℕ → ℕ → ℕ
  pub enabled : Bool
  pub current : ℕ
  pub kernel : ℕ

abbrev pub put : ℕ → ℕ → ℕ → Vmm → Vmm
put frame index entry v = record v {
  memory = λ f i. if (f == frame) && (i == index) then entry else v.memory f i;
}

abbrev pub clear : ℕ → Vmm → Vmm
clear frame v = record v { memory = λ f i. if f == frame then 0 else v.memory f i }

-- `x & 0xFFFFF000`
unfoldable pub frame_of : ℕ → ℕ
frame_of x = bit_and x (2 ^ 32 - 4096)

abbrev pub dir_idx : ℕ → ℕ
dir_idx virt = virt / 2 ^ 22

abbrev pub table_idx : ℕ → ℕ
table_idx virt = bit_and (virt / 2 ^ 12) 1023

-- The frame that stands at RECURSIVE_PT_BASE + index * PAGE_SIZE.
abbrev pub window : ℕ → Vmm → ℕ
window index v = frame_of (v.memory (frame_of (v.memory v.current 1023)) index)

-- The entry for a new table.
unfoldable pub new_entry : ℕ → ℕ → ℕ
new_entry table flags =
    let entry = bit_or (bit_or (frame_of table) page_present) page_rw in
    if bit_and flags page_user != 0 then bit_or entry page_user else entry

abbrev pub table_at : ℕ → ℕ → Vmm → ℕ
table_at dir index v = if v.enabled then window index v else frame_of (v.memory dir index)

unfoldable pub put_page : (dir virt phys flags : ℕ) → Vmm → Vmm
put_page dir virt phys flags v =
    put (table_at dir (dir_idx virt) v) (table_idx virt) (bit_or (frame_of phys) flags) v

-- A new table is cleared where the code finds it: through the window with paging on.
abbrev pub add_table : (dir index entry table : ℕ) → Vmm → Vmm
add_table dir index entry table v =
    let v' = put dir index entry v in clear (if v.enabled then window index v' else table) v'

-- The allocator of pages is a state `P` with pmm_alloc_page, which answers 0 for NULL.
module _ {ℓ} {P : Type ℓ} (pmm_alloc_page : P → ℕ × P) where
  unfoldable pub map_page : (dir virt phys flags : ℕ) → Vmm → P → Vmm × P
  map_page dir virt phys flags v p =
      let index = dir_idx virt in
      let old = v.memory dir index in
      let (table, p') = pmm_alloc_page p in
      if bit_and old page_present == 0
      then (if table == 0 then (v, p') else (
        put_page dir virt phys flags (add_table dir index (new_entry table flags) table v),
        p',
      ))
      else if bit_and flags page_user != 0
      then (put_page dir virt phys flags (put dir index (bit_or old page_user) v), p)
      else (put_page dir virt phys flags v, p)

  -- The code answers 0 whatever map_page did.
  unfoldable pub vmm_map_page : (virt phys flags : ℕ) → Vmm → P → Vmm × P
  vmm_map_page virt phys flags v p = map_page v.current virt phys flags v p

  -- The page that is mapped, `none` where the code returns -1.
  unfoldable pub vmm_map_page_alloc : (virt flags : ℕ) → Vmm → P → Option ℕ × Vmm × P
  vmm_map_page_alloc virt flags v p =
      let (phys, p') = pmm_alloc_page p in
      let (v', p'') = vmm_map_page virt phys flags v p' in
      if phys == 0 then (none, v, p') else (some phys, v', p'')

  -- `n` rounds of the loop of vmm_map_range_alloc; the answer is whether the code returns 0.
  unfoldable pub map_range : (n addr flags : ℕ) → Vmm → P → Bool × Vmm × P
  map_range zero addr flags v p = (true, v, p)
  map_range (suc n) addr flags v p =
      let (mapped, v', p') = vmm_map_page_alloc addr flags v p in
      let later = map_range n (addr + page_size) flags v' p' in
      elim mapped [ none ↦ (false, v', p') | some phys ↦ later ]

  unfoldable pub vmm_map_range_alloc : (virt size flags : ℕ) → Vmm → P → Bool × Vmm × P
  vmm_map_range_alloc virt size flags v p =
      let start = frame_of virt in
      let past = frame_of ((virt + size + 4095) % 2 ^ 32) in
      if size == 0 then (true, v, p) else map_range ((past - start) / page_size) start flags v p

unfoldable pub vmm_virt_to_phys : ℕ → Vmm → Option ℕ
vmm_virt_to_phys virt v =
    let pde = v.memory (window 1023 v) (dir_idx virt) in
    let pte = v.memory (window (dir_idx virt) v) (table_idx virt) in
    if not v.enabled
    then some virt
    else if bit_and pde page_present == 0
    then none
    else if bit_and pte page_present == 0
    then none
    else some (bit_or (frame_of pte) (bit_and virt 4095))

module _ {ℓ} {P : Type ℓ} (pmm_alloc_page : P → ℕ × P) where
  -- `n` rounds of the loop of vmm_mark_user_range.
  unfoldable pub mark_user : (n addr : ℕ) → Vmm → P → Bool × Vmm × P
  mark_user zero addr v p = (true, v, p)
  mark_user (suc n) addr v p = elim (vmm_virt_to_phys addr v) [
    | none ↦ (false, v, p)
    | some phys ↦
        let flags = bit_or (bit_or page_present page_rw) page_user in
        let (v', p') = vmm_map_page pmm_alloc_page addr phys flags v p in
        mark_user n (addr + page_size) v' p'
  ]

  unfoldable pub vmm_mark_user_range : (virt size : ℕ) → Vmm → P → Bool × Vmm × P
  vmm_mark_user_range virt size v p =
      let start = frame_of virt in
      let past = frame_of ((virt + size + 4095) % 2 ^ 32) in
      if size == 0 then (true, v, p) else mark_user ((past - start) / page_size) start v p

  -- What the heap of mm/mem.c asks of this file.
  abbrev pub heap_pager : Pager (Vmm × P)
  heap_pager = record {
    map_page_alloc = λ addr s.
        let (done, v, p) = vmm_map_page_alloc pmm_alloc_page addr 3 s.0 s.1 in
        (is_some done, (v, p));
    virt_to_phys = λ addr s. vmm_virt_to_phys addr s.0;
  }
