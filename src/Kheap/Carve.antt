-- ===== src/Kheap/Carve.antt =====
-- split_block and allocate_from_block of mm/mem.c on the list of blocks: a free block is cut in up to
-- three, and the middle one is in use.
use orion_os.Base.{
  ℕ, ◌+◌, ◌-◌, ◌%◌, ◌^◌, ◌≤◌, ◌<◌, ◌≡◌, refl, ap, ◌∙◌, ◌≢◌, ◌⊎◌, List, [], ◌∷◌, ◌++◌, arith, ltb,
  leb, ◌==◌, ◌!=◌, if◌then◌else◌, if-each, append_assoc, append-nil,
}
use orion_os.Kheap.{
  Header, header, Heap, store, set_size, set_next, set_free, link_back, cut, split_block, cut_lead,
  allocate_from_block, add32, sub32, min_block_size, block_end,
}
use orion_os.Kheap.Blocks.{
  Block, block, past, first, last, used, used_free, first-append, last-append, Laid-le, first-in,
  IsValid,
}
use orion_os.Kheap.Stores.{
  parted_at, parted_new, parted_off, parted_behind, led_at, led_new, led_off, led_behind, parted,
  led,
}
use orion_os.Kheap.Rebuild.{middle, tail_moves, mark-IsValid, rebuild}

-- A heap that differs from a valid one in a block that is two blocks is valid.
halves :
    {h h' : Heap} (xs : List Block) (b : Block) (ys : List Block) (c s f s' : ℕ)
    → IsValid h (xs ++ (b ∷ ys))
    → (h'.heap_base ≡ h.heap_base) × (h'.heap_curr ≡ h.heap_curr) × (h'.heap_end ≡ h.heap_end)
    → (h'.heap_head ≡ h.heap_head)
      × (h'.heap_tail ≡ (if h.heap_tail == b.addr then c else h.heap_tail))
    → (c ≡ b.addr + 16 + s) × (c + 16 + s' ≡ past b) × (c % 4 ≡ 0)
    → (h'.memory b.addr ≡ header s c (last 0 xs) f)
      × (h'.memory c ≡ header s' (first ys 0) b.addr 1)
    → ((k : ℕ) → k ≢ b.addr → k ≢ c → k ≢ first ys 0 → h'.memory k ≡ h.memory k)
    → ((k : ℕ)
        → k ≢ b.addr
        → k ≢ c
        → k ≢ 0
        → h'.memory k ≡ (if k == first ys 0 then record (h.memory k) { prev = c } else h.memory k))
    → IsValid h' (xs ++ (block b.addr s f ∷ (block c s' 1 ∷ ys)))
halves {h} {h'} xs b ys c s f s' v same (he, te) (ec, ep, whole) (at_b, at_c) off behind =
    let m = middle xs b ys v in
    let link = first-in (past b) ys h.heap_curr m.above in
    let base = v.base in
    let start = m.start in
    rebuild xs (block b.addr s f) (block c s' 1 ∷ []) ys m.mid (past b) b.addr v same
      (
        he ∙ v.head ∙ first-append xs (b ∷ ys) 0,
        te
            ∙ tail_moves b.addr h.heap_tail c (past b) h.heap_curr ys (omega arith)
                (v.tail ∙ last-append 0 xs (b ∷ ys)) m.above,
      )
      m.below (m.start, m.whole_start, (omega arith, whole, omega arith)) m.above m.before
      (at_b, (at_c, tt)) m.behind (λ k l u. off k (omega arith) (omega arith) (omega arith))
      (λ k l u. behind k (omega arith) (omega arith) (omega arith))

cut-IsValid :
    {h : Heap} (xs : List Block) (b : Block) (size : ℕ) (ys : List Block)
    → size + 24 ≤ b.size
    → size % 4 ≡ 0
    → IsValid h (xs ++ (b ∷ ys))
    → IsValid (cut b.addr size h) (
        xs ++ (block b.addr size b.free ∷ (block (b.addr + 16 + size) (b.size - size - 16) 1 ∷ ys)))
unfolding cut
cut-IsValid {h} xs b size ys fits whole v =
    let m = middle xs b ys v in
    let n = first ys 0 in
    let c = b.addr + 16 + size in
    let rest = b.size - size - 16 in
    let memory = h.memory in
    let room : past b < 2 ^ 32 = omega (arith, m.fits, v.room, v.width) in
    let link = first-in (past b) ys h.heap_curr m.above in
    let start : 0 < b.addr = omega (arith, Laid-le h.heap_base xs m.mid m.below, m.start, v.base) in
    let next : add32 (add32 b.addr 16) size ≡ c = omega arith in
    let size_b : (memory b.addr).size ≡ b.size = ap Header.size m.here in
    let left : sub32 (sub32 (memory b.addr).size size) 16 ≡ rest = omega arith in
    let next_b : (memory b.addr).next ≡ n = ap Header.next m.here in
    let new = header rest n b.addr 1 in
    let apart : n ≢ b.addr = omega arith in
    let apart' : n ≢ c = omega arith in
    let apart'' : c ≢ b.addr = omega arith in
    let at : (k : ℕ)
        → (cut b.addr size h).memory k ≡ parted memory b.addr c n size new apart'' apart apart' k =
      λ k i.
        set_size b.addr size
          (set_next b.addr (next i) (
            link_back (next_b i) (next i)
              (store (next i) (header (left i) (next_b i) b.addr 1) memory)))
          k in
    halves xs b ys c size b.free rest v (refl, refl, refl)
      (refl, λ i. if h.heap_tail == b.addr then next i else h.heap_tail)
      (refl, omega arith, omega arith)
      (
        at b.addr ∙ parted_at memory b.addr c n size new apart'' apart apart' ∙ rw (m.here) refl,
        at c ∙ parted_new memory b.addr c n size new apart'' apart apart' (omega arith),
      )
      (λ k e e' e''. at k ∙ parted_off memory b.addr c n size new apart'' apart apart' k e e' e'')
      (λ k e e' e''.
        at k ∙ parted_behind memory b.addr c n size new apart'' apart apart' k e e' e'')

cut_lead-IsValid :
    {h : Heap} (xs : List Block) (b : Block) (a : ℕ) (ys : List Block)
    → b.addr + 24 ≤ a
    → a + 16 ≤ past b
    → a % 4 ≡ 0
    → IsValid h (xs ++ (b ∷ ys))
    → IsValid
        (cut_lead b.addr a h)
        (xs ++ (block b.addr (a - b.addr - 16) 1 ∷ (block a (past b - a - 16) 1 ∷ ys)))
unfolding cut_lead
cut_lead-IsValid {h} xs b a ys gap fits whole v =
    let m = middle xs b ys v in
    let n = first ys 0 in
    let lead = a - b.addr - 16 in
    let rest = past b - a - 16 in
    let memory = h.memory in
    let room : past b < 2 ^ 32 = omega (arith, m.fits, v.room, v.width) in
    let link = first-in (past b) ys h.heap_curr m.above in
    let start : 0 < b.addr = omega (arith, Laid-le h.heap_base xs m.mid m.below, m.start, v.base) in
    let size_b : (memory b.addr).size ≡ b.size = ap Header.size m.here in
    let left : sub32 (sub32 a b.addr) 16 ≡ lead = omega arith in
    let right : sub32 (block_end b.addr memory) (add32 a 16) ≡ rest = omega arith in
    let next_b : (memory b.addr).next ≡ n = ap Header.next m.here in
    let new = header rest n b.addr 1 in
    let apart : n ≢ b.addr = omega arith in
    let apart' : n ≢ a = omega arith in
    let apart'' : a ≢ b.addr = omega arith in
    let at : (k : ℕ)
        → (cut_lead b.addr a h).memory k ≡ led memory b.addr a n lead new apart'' apart apart' k =
      λ k i.
        set_next b.addr a
          (link_back (next_b i) a (
            store a (header (right i) (next_b i) b.addr 1)
              (set_free b.addr 1 (set_size b.addr (left i) memory))))
          k in
    halves xs b ys a lead 1 rest v (refl, refl, refl) (refl, refl) (omega arith, omega arith, whole)
      (
        at b.addr ∙ led_at memory b.addr a n lead new apart'' apart apart' ∙ rw (m.here) refl,
        at a ∙ led_new memory b.addr a n lead new apart'' apart apart' (omega arith),
      )
      (λ k e e' e''. at k ∙ led_off memory b.addr a n lead new apart'' apart apart' k e e' e'')
      (λ k e e' e''. at k ∙ led_behind memory b.addr a n lead new apart'' apart apart' k e e' e'')

split_block-IsValid :
    {h : Heap} (xs : List Block) (b : Block) (size : ℕ) (ys : List Block)
    → size ≤ b.size
    → size % 4 ≡ 0
    → IsValid h (xs ++ (b ∷ ys))
    → (s : ℕ) × (zs : List Block) × (size ≤ s)
      × (s < size + 24)
      × (used zs ≡ used ys)
      × IsValid (split_block b.addr size h) (xs ++ (block b.addr s b.free ∷ zs))
unfolding split_block used
split_block-IsValid {h} xs b size ys fits whole v =
    let m = middle xs b ys v in
    let size_b : (h.memory b.addr).size ≡ b.size = ap Header.size m.here in
    let room : past b < 2 ^ 32 = omega (arith, m.fits, v.room, v.width) in
    let Result : Heap → Type 0 = λ (h' : Heap).
      (s : ℕ) × (zs : List Block) × (size ≤ s)
      × (s < size + 24)
      × (used zs ≡ used ys)
      × IsValid h' (xs ++ (block b.addr s b.free ∷ zs)) in
    if-each Result (leb (h.memory b.addr).size size)
      (λ hit. (b.size, ys, fits, ground arith, refl, v))
      (λ larger.
        if-each Result (ltb (sub32 (h.memory b.addr).size size) min_block_size)
          (λ hit. (b.size, ys, fits, ground arith, refl, v))
          (λ miss. (
            size,
            block (b.addr + 16 + size) (b.size - size - 16) 1 ∷ ys,
            omega arith,
            omega arith,
            refl,
            cut-IsValid xs b size ys (ground arith) whole v,
          )))

-- A block of the list that is cut to the size and marked as in use.
abbrev pub Taken : Heap → List Block → List Block → ℕ → ℕ → Type 0
Taken h us vs a size =
    (ws : List Block) × (s : ℕ) × (zs : List Block) × (used ws ≡ us)
    × (used zs ≡ vs)
    × (size ≤ s)
    × (s < size + 24)
    × IsValid h (ws ++ (block a s 0 ∷ zs))

take-Taken :
    {h : Heap} (xs : List Block) (b : Block) (size : ℕ) (ys : List Block)
    → size ≤ b.size
    → size % 4 ≡ 0
    → IsValid h (xs ++ (b ∷ ys))
    → let h' = split_block b.addr size h in
      Taken (record h' { memory = set_free b.addr 0 h'.memory }) (used xs) (used ys) b.addr size
take-Taken xs b size ys fits whole v =
    let (s, zs, le, lt, same, v') = split_block-IsValid xs b size ys fits whole v in
    (xs, s, zs, refl, same, le, lt, mark-IsValid xs (block b.addr s b.free) 0 zs v')

pub allocate_from_block-Taken :
    {h : Heap} (xs : List Block) (b : Block) (a size : ℕ) (ys : List Block)
    → (a ≡ b.addr) ⊎ (b.addr + 24 ≤ a)
    → a + 16 + size ≤ past b
    → a % 4 ≡ 0
    → size % 4 ≡ 0
    → IsValid h (xs ++ (b ∷ ys))
    → let (ptr, h') = allocate_from_block b.addr a size h in
      (ptr ≡ a + 16) × Taken h' (used xs) (used ys) a size
unfolding allocate_from_block used
allocate_from_block-Taken {h} xs b a size ys place fits whole_a whole v =
    let m = middle xs b ys v in
    let room : past b < 2 ^ 32 = omega (arith, m.fits, v.room, v.width) in
    (
      omega arith,
      if-each
          (λ (h1 : Heap).
            let h' = split_block a size h1 in
            Taken (record h' { memory = set_free a 0 h'.memory }) (used xs) (used ys) a size)
          (a != b.addr)
          (λ later.
            let lead = block b.addr (a - b.addr - 16) 1 in
            let rest = block a (past b - a - 16) 1 in
            let gap : b.addr + 24 ≤ a = ground arith in
            let v' = cut_lead-IsValid xs b a ys gap (omega arith) whole_a v in
            let v'' = rw (← append_assoc xs (lead ∷ []) (rest ∷ ys)) at v' in
            let (ws, s, zs, u, w, le, lt, r) =
              take-Taken (xs ++ (lead ∷ [])) rest size ys (omega arith) whole v'' in
            (
              ws,
              s,
              zs,
              u ∙ used_free xs lead [] (λ e. omega arith) ∙ append-nil (used xs),
              w,
              le,
              lt,
              r,
            ))
          (λ same.
            let here : a ≡ b.addr = ground arith in
            rw here (take-Taken xs b size ys (omega arith) whole v)),
    )
