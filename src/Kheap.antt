-- ===== src/Kheap.antt =====
-- mm/mem.c: the kernel heap, a doubly linked list of blocks that each begin with a header. The
-- memory is the headers by their address; the payloads belong to the callers. A pointer is the
-- 32-bit number it is, NULL is 0.
pub mod Request
pub mod Stores
pub mod Blocks
pub mod Align
pub mod Rebuild
pub mod Merge
pub mod Carve
pub mod Search
pub mod Grow
pub mod Grant
pub mod Promise
pub mod Start
pub mod Kmalloc
mod Tests
pub use orion_os.Pmm.{page_size}
use Prim.Native.Nat.{bit_and}
use orion_os.Base.{
  ℕ, zero, suc, ◌+◌, ◌-◌, ◌*◌, ◌/◌, ◌%◌, ◌^◌, Bool, true, false, Option, none, some, ◌||◌, ◌&&◌,
  ltb, leb, ◌==◌, ◌!=◌, if◌then◌else◌, not,
}

-- block_header_t
pub record Header : Type 0 where
  pub size : ℕ
  pub next : ℕ
  pub prev : ℕ
  pub free : ℕ

abbrev pub header : ℕ → ℕ → ℕ → ℕ → Header
header size next prev free = record { size = size; next = next; prev = prev; free = free }

abbrev pub Memory : Type 0
Memory = ℕ → Header

abbrev pub store : ℕ → Header → Memory → Memory
store p v m a = if a == p then v else m a

-- The stores `p->size = v` and so on.
abbrev pub set_size : ℕ → ℕ → Memory → Memory
set_size p v m = store p (record (m p) { size = v }) m

abbrev pub set_next : ℕ → ℕ → Memory → Memory
set_next p v m = store p (record (m p) { next = v }) m

abbrev pub set_prev : ℕ → ℕ → Memory → Memory
set_prev p v m = store p (record (m p) { prev = v }) m

abbrev pub set_free : ℕ → ℕ → Memory → Memory
set_free p v m = store p (record (m p) { free = v }) m

-- `if (p) p->prev = v`
abbrev pub link_back : ℕ → ℕ → Memory → Memory
link_back p v m = if p == 0 then m else set_prev p v m

-- The static variables.
pub record Heap : Type 0 where
  pub memory : Memory
  pub heap_base : ℕ
  pub heap_curr : ℕ
  pub heap_commit_end : ℕ
  pub heap_end : ℕ
  pub heap_head : ℕ
  pub heap_tail : ℕ

-- size_t and uintptr_t `+` and `-`
abbrev pub add32 : ℕ → ℕ → ℕ
add32 a b = (a + b) % 2 ^ 32

abbrev pub sub32 : ℕ → ℕ → ℕ
sub32 a b = (a + 2 ^ 32 - b) % 2 ^ 32

abbrev pub header_size : ℕ
header_size = 16

abbrev pub min_block_size : ℕ
min_block_size = 24

-- ALIGN_UP: `~(a - 1)` is `2 ^ 32 - 1 - (a - 1)`.
unfoldable pub align_to : ℕ → ℕ → ℕ
align_to x a = bit_and (add32 x (sub32 a 1)) (2 ^ 32 - 1 - sub32 a 1)

unfoldable pub align_up : ℕ → ℕ → ℕ
align_up val align = if align == 0 then val else align_to val align

-- `while (p < align) p <<= 1`, where the shift drops the highest bit; `none` where it goes on after
-- that many rounds.
unfoldable pub power_from : ℕ → ℕ → ℕ → Option ℕ
power_from zero p align = none
power_from (suc fuel) p align =
    let later = power_from fuel (p * 2 % 2 ^ 32) align in if ltb p align then later else some p

-- A shift of a 32-bit one is 0 after 32 rounds, from where the loop never ends.
unfoldable pub normalize_align : ℕ → Option ℕ
normalize_align align =
    if ltb align 2
    then some 0
    else (let power =
          if bit_and align (sub32 align 1) != 0 then power_from 33 1 align else some align in
        elim power [ none ↦ none | some a ↦ some (if ltb a 4 then 4 else a) ])

abbrev pub block_end : ℕ → Memory → ℕ
block_end block m = add32 (add32 block header_size) (m block).size

abbrev pub blocks_adjacent : ℕ → ℕ → Memory → Bool
blocks_adjacent a b m = block_end a m == b

-- The part of a block behind `size` bytes becomes a free block of its own.
unfoldable pub cut : ℕ → ℕ → Heap → Heap
cut block size h =
    let next = add32 (add32 block header_size) size in
    let old = h.memory block in
    let m =
      store next (header (sub32 (sub32 old.size size) header_size) old.next block 1) h.memory in
    record h {
      memory = set_size block size (set_next block next (link_back old.next next m));
      heap_tail = if h.heap_tail == block then next else h.heap_tail;
    }

unfoldable pub split_block : ℕ → ℕ → Heap → Heap
split_block block size h =
    if leb (h.memory block).size size
    then h
    else if ltb (sub32 (h.memory block).size size) min_block_size
    then h
    else cut block size h

-- The header's address where the block can hold `size` bytes at that alignment.
unfoldable pub block_can_fit : ℕ → ℕ → ℕ → Memory → Option ℕ
block_can_fit block size align m =
    let aligned_payload = align_up (add32 block header_size) align in
    let aligned_header = sub32 aligned_payload header_size in
    let leading = sub32 aligned_header block in
    if ltb (block_end block m) (add32 aligned_payload size)
    then none
    else if (leading != 0) && ltb leading min_block_size
    then none
    else some aligned_header

-- The first free block that fits and the address for its header, `some none` for NULL; `none` where
-- `fuel` blocks were passed and the list goes on.
unfoldable pub find_free_block : ℕ → ℕ → ℕ → Memory → ℕ → Option (Option (ℕ × ℕ))
find_free_block zero size align m cur = none
find_free_block (suc fuel) size align m cur =
    let later = find_free_block fuel size align m (m cur).next in
    if cur == 0
    then some none
    else if (m cur).free == 0
    then later
    else elim (block_can_fit cur size align m) [
      | none ↦ later
      | some aligned_header ↦ some (some (cur, aligned_header))
    ]

-- The bytes before `aligned_header` become a free block of their own.
unfoldable pub cut_lead : ℕ → ℕ → Heap → Heap
cut_lead block aligned_header h =
    let old = h.memory block in
    let past = block_end block h.memory in
    let m =
      set_free block 1 (set_size block (sub32 (sub32 aligned_header block) header_size) h.memory) in
    let m' =
      store aligned_header (header (sub32 past (add32 aligned_header header_size)) old.next block 1)
        m in
    record h {
      memory = set_next block aligned_header (link_back old.next aligned_header m');
      heap_tail = if h.heap_tail == block then aligned_header else h.heap_tail;
    }

unfoldable pub allocate_from_block : ℕ → ℕ → ℕ → Heap → ℕ × Heap
allocate_from_block block aligned_header size h =
    let led = if aligned_header != block then cut_lead block aligned_header h else h in
    let h' = split_block aligned_header size led in
    (add32 aligned_header header_size, record h' { memory = set_free aligned_header 0 h'.memory })

-- The block at `p` becomes the last of the list.
unfoldable pub append_block : ℕ → ℕ → ℕ → Heap → Heap
append_block p size free h =
    let m = store p (header size 0 h.heap_tail free) h.memory in
    record h {
      memory = if h.heap_tail == 0 then m else set_next h.heap_tail p m;
      heap_head = if h.heap_tail == 0 then p else h.heap_head;
      heap_tail = p;
    }

-- The bytes that the alignment skips: a free block, or bytes of the last block if it is free.
unfoldable pub fill_gap : ℕ → ℕ → Heap → Heap
fill_gap start aligned_header h =
    let gap = sub32 aligned_header start in
    let last = h.memory h.heap_tail in
    if ltb start aligned_header
    then (if leb min_block_size gap
        then append_block start (sub32 gap header_size) 1 h
        else if ((h.heap_tail != 0) && (last.free != 0))
            && blocks_adjacent h.heap_tail start h.memory
        then record h { memory = set_size h.heap_tail (add32 last.size gap) h.memory }
        else h)
    else h

-- kfree's merge of `next` into the block `b` before it.
unfoldable pub merge : ℕ → ℕ → Heap → Heap
merge b next h =
    let old = h.memory next in
    let m = set_size b (add32 (h.memory b).size (add32 header_size old.size)) h.memory in
    record h {
      memory = link_back old.next b (set_next b old.next m);
      heap_tail = if h.heap_tail == next then b else h.heap_tail;
    }

unfoldable pub merge_next : ℕ → Heap → Heap
merge_next b h =
    let next = (h.memory b).next in
    if ((next != 0) && ((h.memory next).free != 0)) && blocks_adjacent b next h.memory
    then merge b next h
    else h

unfoldable pub merge_prev : ℕ → Heap → Heap
merge_prev b h =
    let prev = (h.memory b).prev in
    if ((prev != 0) && ((h.memory prev).free != 0)) && blocks_adjacent prev b h.memory
    then merge prev b h
    else h

unfoldable pub kfree : ℕ → Heap → Heap
kfree ptr h =
    if ptr == 0
    then h
    else (let block = sub32 ptr header_size in
        merge_prev block (merge_next block (record h { memory = set_free block 1 h.memory })))
