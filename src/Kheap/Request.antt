-- ===== src/Kheap/Request.antt =====
-- The requests of mm/mem.c: kmalloc_init, kmalloc and kmalloc_aligned, over the pager, a state `S`
-- with the two operations of mm/paging.c that the heap calls.
use orion_os.Base.{
  ℕ, zero, suc, ◌+◌, ◌-◌, ◌/◌, Bool, true, false, Option, none, some, ltb, leb, ◌==◌, if◌then◌else◌,
  List,
}
use orion_os.CString.{memcpy}
use orion_os.Kheap.{
  Heap, header_size, page_size, add32, sub32, align_to, align_up, normalize_align, find_free_block,
  allocate_from_block, append_block, fill_gap,
}

pub record Pager {ℓ} (S : Type ℓ) : Type ℓ where
  -- vmm_map_page_alloc(addr, PAGE_PRESENT | PAGE_RW, NULL) == 0
  pub map_page_alloc : ℕ → S → Bool × S
  -- vmm_virt_to_phys, with `none` for its failure
  pub virt_to_phys : ℕ → S → Option ℕ

abbrev pub default_start : ℕ
default_start = 3238002688

abbrev pub default_size : ℕ
default_size = 67108864

module _ {ℓ} {S : Type ℓ} (pager : Pager S) where
  -- `n` rounds of the loop that maps one page after another.
  unfoldable pub map_pages : ℕ → ℕ → S → Bool × S
  map_pages zero addr s = (true, s)
  map_pages (suc n) addr s =
      let (mapped, s') = pager.map_page_alloc addr s in
      let later = map_pages n (addr + page_size) s' in if mapped then later else (false, s')

  unfoldable pub heap_commit_to : ℕ → Heap → S → Bool × Heap × S
  heap_commit_to need_end h s =
      let new_commit_end = align_to need_end page_size in
      let pages = (new_commit_end - h.heap_commit_end + page_size - 1) / page_size in
      let (mapped, s') = map_pages pages h.heap_commit_end s in
      if leb new_commit_end h.heap_commit_end
      then (true, h, s)
      else if mapped
      then (true, record h { heap_commit_end = new_commit_end }, s')
      else (false, h, s')

  unfoldable pub allocate_new_block : ℕ → ℕ → Heap → S → ℕ × Heap × S
  allocate_new_block size align h s =
      let start = h.heap_curr in
      let aligned_payload = align_up (add32 start header_size) align in
      let aligned_header = sub32 aligned_payload header_size in
      let past = add32 (add32 aligned_header header_size) size in
      let (committed, h', s') = heap_commit_to past h s in
      if ltb h.heap_end past
      then (0, h, s)
      else if committed
      then (
        add32 aligned_header header_size,
        record (append_block aligned_header size 0 (fill_gap start aligned_header h')) {
          heap_curr = past;
        },
        s',
      )
      else (0, h', s')

  -- `none` where an alignment or the list of blocks keeps a loop going; `fuel` bounds the blocks.
  unfoldable pub kmalloc_internal : ℕ → ℕ → ℕ → Heap → S → Option (ℕ × Heap × S)
  kmalloc_internal fuel size align h s =
      if size == 0 then some (0, h, s) else elim (normalize_align align) [
        | none ↦ none
        | some a ↦ elim (find_free_block fuel (align_to size 4) a h.memory h.heap_head) [
          | none ↦ none
          | some none ↦ some (allocate_new_block (align_to size 4) a h s)
          | some (some (block, aligned_header)) ↦
              let (ptr, h') = allocate_from_block block aligned_header (align_to size 4) h in
              some (ptr, h', s)
        ]
      ]

  -- `align` is 0 or not; the third part is what goes to `*phys_addr`.
  unfoldable pub kmalloc : ℕ → ℕ → ℕ → Heap → S → Option (ℕ × Heap × S × Option ℕ)
  kmalloc fuel size align h s =
      let use_align = if align == 0 then 0 else page_size in
      elim (kmalloc_internal fuel size use_align h s) [
        | none ↦ none
        | some (res, h', s') ↦
            if res == 0 then some (0, h', s', none) else elim (pager.virt_to_phys res s') [
              | none ↦ some (res, h', s', some res)
              | some phys ↦ some (res, h', s', some phys)
            ]
      ]

  unfoldable pub kmalloc_aligned : ℕ → ℕ → ℕ → Heap → S → Option (ℕ × Heap × S)
  kmalloc_aligned fuel size align h s = kmalloc_internal fuel size align h s

  -- The memory that the heap had before stays as it is.
  unfoldable pub kmalloc_init : ℕ → ℕ → Heap → S → Heap × S
  kmalloc_init heap_start heap_end_addr h s =
      let base = if heap_start == 0 then default_start else align_to heap_start page_size in
      let h' : Heap = record {
        memory = h.memory;
        heap_base = base;
        heap_curr = base;
        heap_commit_end = base;
        heap_end = if heap_end_addr == 0 then add32 base default_size else heap_end_addr;
        heap_head = 0;
        heap_tail = 0;
      } in
      let (committed, h'', s') = heap_commit_to (add32 base 1) h' s in (h'', s')

-- A negative count has no round, as 0 has none.
unfoldable pub memory_copy : ℕ → ℕ → ℕ → List ℕ → List ℕ
memory_copy src dest nbytes mem = memcpy mem dest src nbytes
