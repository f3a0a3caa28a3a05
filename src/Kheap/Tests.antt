-- ===== src/Kheap/Tests.antt =====
-- Runs of the kernel heap, and the theorems at concrete heaps.
use orion_os.Base.{
  ◌≢◌, ℕ, ◌+◌, ◌-◌, ◌*◌, ◌%◌, ◌≤◌, ◌<◌, ◌≡◌, refl, ◌⊎◌, inr, true, false, Option, none, some, List,
  [], ◌∷◌, ◌++◌, arith, if◌then◌else◌, ◌==◌,
}
use orion_os.Kheap.{
  block_can_fit, align_up, align_to, allocate_from_block, split_block, cut, header, Memory, Heap,
  kfree, normalize_align, find_free_block,
}
use orion_os.Kheap.Request.{
  Pager, heap_commit_to, kmalloc_init, kmalloc, kmalloc_internal, allocate_new_block, map_pages,
}
use orion_os.Kheap.Align.{Alignment, normalize_align_lem}
use orion_os.Kheap.Blocks.{Block, block, used, IsValid}
use orion_os.Kheap.Merge.{kfree-IsValid}
use orion_os.Kheap.Promise.{Apart}
use orion_os.Kheap.Start.{kmalloc_init-IsValid}
use orion_os.Kheap.Kmalloc.{kmalloc-Apart, kfree-kmalloc}

-- A pager that has 16 pages and maps every address to itself.
abbrev pager : Pager ℕ
pager = record {
  map_page_alloc = λ addr pages. if pages == 0 then (false, pages) else (true, pages - 1);
  virt_to_phys = λ addr pages. some addr;
}

abbrev base : ℕ
base = 3238002688

-- Three blocks: 64 bytes in use, 4096 free, 32 in use.
abbrev three : Memory
three a =
    if a == base
    then header 64 (base + 80) 0 0
    else if a == base + 80
    then header 4096 (base + 4192) base 1
    else header 32 0 (base + 80) 0

abbrev heap : Heap
heap = record {
  memory = three;
  heap_base = base;
  heap_curr = base + 4240;
  heap_commit_end = base + 8192;
  heap_end = base + 65536;
  heap_head = base;
  heap_tail = base + 4192;
}

abbrev front : List Block
front = block base 64 0 ∷ []

abbrev middle_block : Block
middle_block = block (base + 80) 4096 1

abbrev rest : List Block
rest = block (base + 4192) 32 0 ∷ []

heap-IsValid : IsValid heap (front ++ (middle_block ∷ rest))
heap-IsValid = record {
  linked = (refl, (refl, (refl, tt)));
  laid = omega arith;
  head = refl;
  tail = refl;
  base = omega arith;
  room = omega arith;
  whole = omega arith;
  width = omega arith;
}

abbrev blocks : List Block
blocks = front ++ (middle_block ∷ rest)

abbrev pointer : Option (ℕ × Heap × ℕ × Option ℕ) → ℕ
pointer none = 1
pointer (some (ptr, h', s', phys)) = ptr

-- A request that the free block holds, and one for a page that takes a new block.
kmalloc_small : pointer (kmalloc pager 9 100 0 heap 16) ≡ base + 96
unfolding kmalloc kmalloc_internal find_free_block block_can_fit normalize_align align_up align_to
    allocate_from_block split_block cut
kmalloc_small = refl

kmalloc_page : pointer (kmalloc pager 9 5000 1 heap 16) ≡ base + 8192
unfolding kmalloc kmalloc_internal find_free_block block_can_fit normalize_align align_up align_to
    allocate_new_block heap_commit_to map_pages
kmalloc_page = refl

-- Sizes whose sums wrap get a block that cannot hold them.
kmalloc_wraps :
    (pointer (kmalloc pager 9 0xFFFFFFFE 0 heap 16) ≡ base + 96)
    × (pointer (kmalloc pager 9 0x50000000 0 heap 16) ≡ base + 96)
unfolding kmalloc kmalloc_internal find_free_block block_can_fit normalize_align align_up align_to
    allocate_from_block split_block cut
kmalloc_wraps = (refl, refl)

kfree-IsValid_example :
    (zs : List Block) × (used zs ≡ used front ++ used rest)
    × IsValid (kfree (base + 80 + 16) heap) zs
kfree-IsValid_example = kfree-IsValid front middle_block rest heap-IsValid

kmalloc-Apart_example :
    (ptr : ℕ) × (h' : Heap) × (s' : ℕ) × (phys : Option ℕ) × (kmalloc pager 9 100 1 heap 16
      ≡ some (ptr, h', s', phys))
    × ((ptr ≡ 0)
        ⊎ ((h'.heap_base + 16 ≤ ptr)
            × (ptr + 100 ≤ h'.heap_curr)
            × Apart (block (ptr - 16) 100 0) (used blocks)
            × (◌≢◌ {A = ℕ} 1 0 → ptr % 4096 ≡ 0)))
kmalloc-Apart_example =
    kmalloc-Apart pager 9 100 1 heap 16 blocks heap-IsValid (omega arith) (omega arith)
      (omega arith)

kfree-kmalloc_example :
    (ptr : ℕ) × (h' : Heap) × (s' : ℕ) × (phys : Option ℕ) × (cs : List Block) × (kmalloc pager 9
        100 0 heap 16
      ≡ some (ptr, h', s', phys))
    × (used cs ≡ used blocks)
    × IsValid (kfree ptr h') cs
kfree-kmalloc_example =
    kfree-kmalloc pager 9 100 0 heap 16 blocks heap-IsValid (omega arith) (omega arith)
      (omega arith)

on_pages : (◌≡◌ {A = ℕ} 4096 0) ⊎ Alignment 4096
on_pages = inr (12, omega arith, omega arith, refl)

kmalloc_init-IsValid_example :
    let (h', s') = kmalloc_init pager 0xD0000123 0 heap 16 in
    IsValid h' [] × (h'.heap_curr ≡ 0xD0001000) × (h'.heap_end ≡ 0xD4001000)
kmalloc_init-IsValid_example =
    kmalloc_init-IsValid pager 0xD0000123 0 heap 16 (omega arith) (omega arith) (omega arith)

normalize_align_lem_example :
    (a : ℕ) × (normalize_align 48 ≡ some a)
    × (((48 < 2) × (a ≡ 0)) ⊎ ((2 ≤ 48) × Alignment a × (48 ≤ a) × ((a ≡ 4) ⊎ (a < 2 * 48))))
normalize_align_lem_example = normalize_align_lem 48 (omega arith)
