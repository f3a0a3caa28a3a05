-- ===== src/Kheap/Start.antt =====
-- kmalloc_init of mm/mem.c: the heap begins empty.
use orion_os.Base.{
  ℕ, ◌+◌, ◌*◌, ◌/◌, ◌%◌, ◌^◌, ◌≤◌, ◌<◌, ◌≡◌, refl, ◌∙◌, [], arith, ◌==◌, if◌then◌else◌,
}
use orion_os.Kheap.{Heap, align_to, add32, page_size}
use orion_os.Kheap.Request.{Pager, default_start, default_size, kmalloc_init}
use orion_os.Kheap.Align.{align_to-page}
use orion_os.Kheap.Blocks.{IsValid}
use orion_os.Kheap.Grant.{commit-same}

-- The page-aligned start of the heap and its end, where neither wraps.
abbrev pub base_of : ℕ → ℕ
base_of heap_start = if heap_start == 0 then default_start else (heap_start + 4095) / 4096 * 4096

abbrev pub end_of : ℕ → ℕ → ℕ
end_of heap_start heap_end_addr =
    if heap_end_addr == 0 then base_of heap_start + default_size else heap_end_addr

empty-IsValid :
    {h : Heap}
    → h.heap_head ≡ 0
    → h.heap_tail ≡ 0
    → h.heap_curr ≡ h.heap_base
    → 0 < h.heap_base
    → h.heap_base % 4 ≡ 0
    → h.heap_base ≤ h.heap_end
    → h.heap_end < 2 ^ 32
    → IsValid h []
empty-IsValid head tail curr pos whole room width = record {
  linked = tt;
  laid = omega arith;
  head = head;
  tail = tail;
  base = pos;
  room = omega arith;
  whole = rw curr whole;
  width = width;
}

module _ {ℓ} {S : Type ℓ} (pager : Pager S) where
  -- kmalloc_init makes a valid heap without blocks where the start, rounded up to a page, is not
  -- behind the end, and both are 32-bit addresses; an address 0 asks for the default.
  pub kmalloc_init-IsValid :
      (heap_start heap_end_addr : ℕ) (h : Heap) (s : S)
      → heap_start + 4096 < 2 ^ 32
      → base_of heap_start ≤ end_of heap_start heap_end_addr
      → end_of heap_start heap_end_addr < 2 ^ 32
      → let (h', s') = kmalloc_init pager heap_start heap_end_addr h s in
        IsValid h' []
        × (h'.heap_curr ≡ base_of heap_start)
        × (h'.heap_end ≡ end_of heap_start heap_end_addr)
  unfolding kmalloc_init
  kmalloc_init-IsValid heap_start heap_end_addr h s room le width =
      let rounded = align_to-page heap_start (omega arith) in
      let base = if heap_start == 0 then default_start else align_to heap_start page_size in
      let base_is : base ≡ base_of heap_start =
        λ i. if heap_start == 0 then default_start else rounded i in
      let top_is : (if heap_end_addr == 0 then add32 base default_size else heap_end_addr)
          ≡ end_of heap_start heap_end_addr =
        ground arith in
      let h' : Heap = record {
        memory = h.memory;
        heap_base = base;
        heap_curr = base;
        heap_commit_end = base;
        heap_end = if heap_end_addr == 0 then add32 base default_size else heap_end_addr;
        heap_head = 0;
        heap_tail = 0;
      } in
      let v : IsValid h' [] =
        empty-IsValid refl refl refl (ground arith) (ground arith) (omega arith) (omega arith) in
      let (v', curr, top) = commit-same pager (add32 base 1) h' s [] v in
      (v', curr ∙ base_is, top ∙ top_is)
