-- ===== src/Kheap/Grant.antt =====
-- What kmalloc of mm/mem.c gives: a new block in use, or NULL with a reason.
use orion_os.Base.{
  ℕ, ◌+◌, ◌-◌, ◌*◌, ◌/◌, ◌%◌, ◌^◌, ◌≤◌, ◌<◌, ◌≡◌, refl, sym, ap, ◌∙◌, ◌≢◌, ◌⊎◌, inl, inr, Bool,
  true, false, some, List, [], ◌∷◌, ◌++◌, arith, ltb, leb, ◌==◌, if-each, if-both, append-nil,
  length, ltb→lt,
}
use mathlib.Core.Option.{some-injective}
use orion_os.Kheap.{
  Heap, align_to, align_up, normalize_align, find_free_block, allocate_from_block, append_block,
  fill_gap, add32, sub32, page_size,
}
use orion_os.Kheap.Request.{Pager, map_pages, heap_commit_to, allocate_new_block, kmalloc_internal}
use orion_os.Kheap.Align.{
  Alignment, Aligned, align_up_lem, align_to-four, normalize_align-Alignment,
}
use orion_os.Kheap.Blocks.{Block, block, first, used, used_free, IsValid}
use orion_os.Kheap.Carve.{allocate_from_block-Taken}
use orion_os.Kheap.Search.{Fits, Skipped, find_free_block-Found}
use orion_os.Kheap.Grow.{append_block-IsValid, fill_gap-heap_end, fill_gap-IsValid}

-- Exactly one block more is in use: it has the size and the alignment, and `ptr` is its payload.
pub record Granted (bs : List Block) (size align ptr : ℕ) (h : Heap) : Type 0 where
  pub front : List Block
  pub given : Block
  pub rest : List Block
  pub valid : IsValid h (front ++ (given ∷ rest))
  pub others : used bs ≡ used front ++ used rest
  pub in_use : given.free ≡ 0
  pub payload : ptr ≡ given.addr + 16
  pub holds : size ≤ given.size
  pub aligned : Aligned align ptr

granted :
    {h : Heap} (bs ws : List Block) (b : Block) (zs : List Block) (size align ptr : ℕ)
    → used bs ≡ used ws ++ used zs
    → b.free ≡ 0
    → ptr ≡ b.addr + 16
    → size ≤ b.size
    → Aligned align ptr
    → IsValid h (ws ++ (b ∷ zs))
    → Granted bs size align ptr h
granted bs ws b zs size align ptr others busy payload holds aligned v = record {
  front = ws;
  given = b;
  rest = zs;
  valid = v;
  others = others;
  in_use = busy;
  payload = payload;
  holds = holds;
  aligned = aligned;
}

-- A free block that was found becomes the block in use.
reused :
    {h : Heap} (bs : List Block) (size align : ℕ) (xs : List Block) (b : Block) (ys : List Block)
    (a : ℕ)
    → IsValid h bs
    → bs ≡ xs ++ (b ∷ ys)
    → b.free ≢ 0
    → Fits b size align a
    → size % 4 ≡ 0
    → let (ptr, h') = allocate_from_block b.addr a size h in Granted bs size align ptr h'
reused {h} bs size align xs b ys a v e open_b fits whole =
    let (four, rest) = fits.aligned in
    let (there, (ws, s, zs, us, vs, le, lt, v')) =
      allocate_from_block-Taken xs b a size ys fits.place fits.inside (omega arith) whole
        (rw e at v) in
    let were : used bs ≡ used ws ++ used zs =
      ap used e ∙ used_free xs b ys open_b ∙ (λ i. sym us i ++ sym vs i) in
    granted bs ws (block a s 0) zs size align _ were refl there le (rw there fits.aligned) v'

-- A new block at `a`, behind whatever fills the bytes before it.
placed :
    {h : Heap} (bs : List Block) (start a size align : ℕ)
    → IsValid h bs
    → start ≡ h.heap_curr
    → start ≤ a
    → a + 16 + size ≤ h.heap_end
    → size % 4 ≡ 0
    → Aligned align (a + 16)
    → Granted bs size align
        (a + 16)
        (record (append_block a size 0 (fill_gap start a h)) { heap_curr = a + 16 + size })
unfolding used fill_gap append_block
placed {h} bs start a size align v same le fits whole aligned =
    let four = aligned.0 in
    let gap : (cs : List Block) × (used cs ≡ used bs)
        × IsValid (record (fill_gap start a h) { heap_curr = a }) cs =
      rw same (fill_gap-IsValid bs a v (omega arith) (omega arith) (omega arith)) in
    let (cs, were, w) = gap in
    let last = fill_gap-heap_end start a h in
    let more =
      append_block-IsValid cs a size 0 (a + 16 + size) w (omega arith) (omega arith) (omega arith)
        (omega arith) (omega arith) in
    granted bs cs (block a size 0) [] size align (a + 16) (sym were ∙ sym (append-nil (used cs)))
      refl refl (omega arith) aligned more

committed :
    {h : Heap} (bs : List Block) (e : ℕ)
    → IsValid h bs
    → IsValid (record h { heap_commit_end = e }) bs
committed bs e v = record {
  linked = v.linked;
  laid = v.laid;
  head = v.head;
  tail = v.tail;
  base = v.base;
  room = v.room;
  whole = v.whole;
  width = v.width;
}

module _ {ℓ} {S : Type ℓ} (pager : Pager S) where
  -- Committing pages leaves the list of blocks alone.
  pub commit-same :
      (need : ℕ) (h : Heap) (s : S) (bs : List Block)
      → IsValid h bs
      → let (done, h', s') = heap_commit_to pager need h s in
        IsValid h' bs × (h'.heap_curr ≡ h.heap_curr) × (h'.heap_end ≡ h.heap_end)
  unfolding heap_commit_to
  commit-same need h s bs v =
      let Same : Bool × Heap × S → Type 0 = λ (r : Bool × Heap × S).
        IsValid r.1 bs × (r.1.heap_curr ≡ h.heap_curr) × (r.1.heap_end ≡ h.heap_end) in
      let top = align_to need page_size in
      let (mapped, s') =
        map_pages pager ((top - h.heap_commit_end + page_size - 1) / page_size) h.heap_commit_end
          s in
      if-both Same (leb top h.heap_commit_end) {x = (true, h, s)} (v, refl, refl)
        (if-both Same mapped {x = (true, record h { heap_commit_end = top }, s')}
          {y = (false, h, s')} (committed bs top v, refl, refl) (v, refl, refl))

  -- NULL for a new block, with the reason.
  abbrev pub Refused : ℕ → ℕ → Heap → S → Type 0
  Refused size align h s =
      let need = align_up (h.heap_curr + 16) align + size in
      (h.heap_end < need) ⊎ ((heap_commit_to pager need h s).0 ≡ false)

  allocate_new_block-Granted :
      (size align : ℕ) (h : Heap) (s : S) (bs : List Block)
      → IsValid h bs
      → (align ≡ 0) ⊎ Alignment align
      → h.heap_end + align + size + 16 < 2 ^ 32
      → size % 4 ≡ 0
      → let (ptr, h', s') = allocate_new_block pager size align h s in
        ((ptr ≡ 0) × IsValid h' bs × Refused size align h s) ⊎ Granted bs size align ptr h'
  unfolding allocate_new_block
  allocate_new_block-Granted size align h s bs v given room whole =
      let curr = v.room in
      let four = v.whole in
      let (ge, le, al) = align_up_lem align (h.heap_curr + 16) given (omega arith) (omega arith) in
      let r = align_up (h.heap_curr + 16) align in
      let start : add32 h.heap_curr 16 ≡ h.heap_curr + 16 = omega arith in
      let there : sub32 r 16 ≡ r - 16 = omega arith in
      let back : add32 (r - 16) 16 ≡ r = omega arith in
      let past_is : add32 r size ≡ r + size = omega arith in
      let (v', same_curr, same_end) = commit-same (r + size) h s bs v in
      let h1 = (heap_commit_to pager (r + size) h s).1 in
      let at : r - 16 + 16 ≡ r = omega arith in
      let Outcome : ℕ × Heap × S → Type 0 = λ (t : ℕ × Heap × S).
        ((t.0 ≡ 0) × IsValid t.1 bs × Refused size align h s) ⊎ Granted bs size align t.0 t.1 in
      rw (start, there, back, past_is)
        (if-each Outcome (ltb h.heap_end (r + size))
          (λ full. inl (refl, v, inl (ltb→lt h.heap_end (r + size) full)))
          (λ fits.
            if-each Outcome (heap_commit_to pager (r + size) h s).0
              (λ done.
                let new =
                  placed bs h.heap_curr (r - 16) size align v' (sym same_curr) (omega arith)
                    (ground arith) whole (rw at al) in
                inr (rw at at new))
              (λ failed. inl (refl, v', inr failed))))

  pub kmalloc_internal-Granted :
      (fuel size align a : ℕ) (h : Heap) (s : S) (bs : List Block)
      → IsValid h bs
      → length bs < fuel
      → 0 < size
      → align ≤ 2 ^ 31
      → normalize_align align ≡ some a
      → h.heap_end + a + size + 20 < 2 ^ 32
      → (ptr : ℕ) × (h' : Heap) × (s' : S) × (kmalloc_internal pager fuel size align h s
          ≡ some (ptr, h', s'))
        × (((ptr ≡ 0)
              × IsValid h' bs
              × Skipped ((size + 3) / 4 * 4) a bs
              × Refused ((size + 3) / 4 * 4) a h s)
            ⊎ Granted bs ((size + 3) / 4 * 4) a ptr h')
  unfolding kmalloc_internal
  kmalloc_internal-Granted fuel size align a h s bs v enough pos small ea room =
      let (a', ea', given', covers) = normalize_align-Alignment align small in
      let same : a' ≡ a = some-injective a' a (sym ea' ∙ ea) in
      let given : (a ≡ 0) ⊎ Alignment a = rw same at given' in
      let n = (size + 3) / 4 * 4 in
      let whole : align_to size 4 ≡ n = align_to-four size (omega arith) in
      let some_size : (size == 0) ≡ false = ground arith in
      let found =
        find_free_block-Found h.memory n a given fuel 0 bs h.heap_base h.heap_curr enough v.base
          (omega (arith, v.room)) v.laid v.linked in
      let searched : find_free_block fuel (align_to size 4) a h.memory h.heap_head
          ≡ find_free_block fuel n a h.memory (first bs 0) =
        λ i. find_free_block fuel (whole i) a h.memory (v.head i) in
      elim found [
        | inl (none_found, skipped) ↦
            let (ptr, h', s') = allocate_new_block pager n a h s in
            let outcome =
              allocate_new_block-Granted n a h s bs v given (omega arith) (omega arith) in
            (
              ptr,
              h',
              s',
              rw (some_size, ea, searched ∙ none_found, whole) refl,
              elim outcome [
                | inl (null, v', reason) ↦ inl (null, v', skipped, reason)
                | inr g ↦ inr g
              ],
            )
        | inr (xs, b, ys, at, e, open_b, hit, fits, skipped) ↦
            let (ptr, h') = allocate_from_block b.addr at n h in
            (
              ptr,
              h',
              s,
              rw (some_size, ea, searched ∙ hit, whole) refl,
              inr (reused bs n a xs b ys at v e open_b fits (omega arith)),
            )
      ]
