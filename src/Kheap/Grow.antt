-- ===== src/Kheap/Grow.antt =====
-- allocate_new_block of mm/mem.c on the list of blocks: a block at the end of the heap, and what
-- becomes of the bytes that its alignment skips.
use orion_os.Base.{
  ℕ, ◌+◌, ◌-◌, ◌%◌, ◌≤◌, ◌<◌, ◌≡◌, refl, sym, ap, ◌∙◌, ◌≢◌, ◌⊎◌, inl, inr, true, List, [], ◌∷◌,
  ◌++◌, arith, ltb, leb, ◌==◌, ◌!=◌, ◌&&◌, if◌then◌else◌, if-each, if-both, append-nil, length,
  subst,
}
use orion_os.Kheap.{
  Header, header, Memory, Heap, store, set_size, set_next, append_block, fill_gap, add32, sub32,
  min_block_size, blocks_adjacent,
}
use orion_os.Kheap.Blocks.{
  Block, block, first, last, Laid, used, used_free, first-append, last-append, Laid-le, Laid-join,
  Laid-wider, Linked-join, Linked-end, last-in, last-below, last-cases, IsValid,
}
use orion_os.Kheap.Stores.{store_at, store_off}
use orion_os.Kheap.Rebuild.{middle, rebuild}

pub widen-IsValid :
    {h : Heap} (bs : List Block) (q : ℕ)
    → IsValid h bs
    → h.heap_curr ≤ q
    → q ≤ h.heap_end
    → q % 4 ≡ 0
    → IsValid (record h { heap_curr = q }) bs
widen-IsValid {h} bs q v le fits whole = record {
  linked = v.linked;
  laid = Laid-wider h.heap_base h.heap_base bs h.heap_curr q (omega arith) le v.laid;
  head = v.head;
  tail = v.tail;
  base = v.base;
  room = fits;
  whole = whole;
  width = v.width;
}

end_place :
    (lo hi : ℕ) (bs : List Block)
    → 0 < lo
    → Laid lo bs hi
    → ((bs ≡ []) × (last 0 bs ≡ 0)) ⊎ ((0 < last 0 bs) × (last 0 bs < hi))
end_place lo hi [] pos v = inl (refl, refl)
end_place lo hi (b ∷ bs) pos v = elim (last-in lo 0 (b ∷ bs) hi v) [
  | inl le ↦ elim (last-below lo 0 (b ∷ bs) hi v) [
    | inl lt ↦ inr (omega arith, lt)
    | inr none ↦ absurd (omega (arith, ap length none))
  ]
  | inr none ↦ absurd (omega (arith, ap length none))
]

head_after :
    (lo hi : ℕ) (bs : List Block) (x : Block)
    → 0 < lo
    → Laid lo bs hi
    → (if last 0 bs == 0 then x.addr else first bs 0) ≡ first (bs ++ (x ∷ [])) 0
head_after lo hi [] x pos v = refl
head_after lo hi (b ∷ bs) x pos v = elim (end_place lo hi (b ∷ bs) pos v) [
  | inl (none, e) ↦ absurd (omega (arith, ap length none))
  | inr (positive, below) ↦ ground arith
]

-- The header of a new last block, and the link to it.
module _ (m : Memory) (t p size free : ℕ) (apart : t ≢ p) where
  after_at :
      (if t == 0
          then store p (header size 0 t free) m
          else set_next t p (store p (header size 0 t free) m))
        p
      ≡ header size 0 t free
  after_at = ground arith

  after_off :
      (k : ℕ)
      → k ≢ p
      → k ≢ 0
      → (if t == 0
            then store p (header size 0 t free) m
            else set_next t p (store p (header size 0 t free) m))
          k
        ≡ (if k == t then record (m k) { next = p } else m k)
  after_off k e e' = ground arith

pub append_block-IsValid :
    {h : Heap} (bs : List Block) (p size free q : ℕ)
    → IsValid h bs
    → h.heap_curr ≤ p
    → p % 4 ≡ 0
    → p + 16 + size ≤ q
    → q ≤ h.heap_end
    → q % 4 ≡ 0
    → IsValid
        (record (append_block p size free h) { heap_curr = q })
        (bs ++ (block p size free ∷ []))
unfolding append_block
append_block-IsValid {h} bs p size free q v le whole fits room whole' =
    let base = v.base in
    let low = Laid-le h.heap_base bs h.heap_curr v.laid in
    let tail = last 0 bs in
    let place = end_place h.heap_base h.heap_curr bs base v.laid in
    let tail_is = v.tail in
    let apart : h.heap_tail ≢ p = λ e. elim place [
      | inl (none, zero_tail) ↦ omega arith
      | inr (positive, below) ↦ omega arith
    ] in
    let new = after_at h.memory h.heap_tail p size free apart in
    record {
      linked =
          Linked-join _ 0 bs (block p size free ∷ []) 0
            (Linked-end h.memory _ 0 bs 0 p h.heap_base h.heap_curr v.laid
              (λ k l u.
                after_off h.memory h.heap_tail p size free apart k (omega arith) (omega arith)
                ∙ λ i. if k == tail_is i then record (h.memory k) { next = p } else h.memory k)
              v.linked)
            (new ∙ (λ i. header size 0 (tail_is i) free), tt);
      laid =
          Laid-join h.heap_base bs (block p size free ∷ []) h.heap_curr q v.laid (le, whole, fits);
      head =
          (λ i. if tail_is i == 0 then p else v.head i)
          ∙ head_after h.heap_base h.heap_curr bs (block p size free) base v.laid;
      tail = sym (last-append 0 bs (block p size free ∷ []));
      base = v.base;
      room = room;
      whole = whole';
      width = v.width;
    }

-- The last block of the list takes bytes that no block has.
resize-IsValid :
    {h : Heap} (xs : List Block) (t : Block) (size : ℕ)
    → t.addr + 16 + size ≤ h.heap_curr
    → IsValid h (xs ++ (t ∷ []))
    → IsValid
        (record h { memory = set_size t.addr size h.memory })
        (xs ++ (block t.addr size t.free ∷ []))
resize-IsValid {h} xs t size fits v =
    let m = middle xs t [] v in
    let here = m.here in
    rebuild xs (block t.addr size t.free) [] [] m.mid h.heap_curr t.addr v (refl, refl, refl)
      (v.head ∙ first-append xs (t ∷ []) 0, v.tail ∙ last-append 0 xs (t ∷ [])) m.below
      (m.start, m.whole_start, fits) (omega arith) m.before
      (store_at h.memory t.addr (record (h.memory t.addr) { size = size }) ∙ rw here refl, tt) tt
      (λ k l u. store_off h.memory t.addr _ k (omega (arith, m.start)))
      (λ k l u. absurd (omega arith))

grow_last :
    {h : Heap} (xs : List Block) (t : Block) (a : ℕ)
    → IsValid h (xs ++ (t ∷ []))
    → h.heap_curr ≤ a
    → a ≤ h.heap_end
    → a % 4 ≡ 0
    → (((h.heap_tail != 0) && ((h.memory h.heap_tail).free != 0))
        && blocks_adjacent h.heap_tail h.heap_curr h.memory)
      ≡ true
    → (cs : List Block) × (used cs ≡ used (xs ++ (t ∷ [])))
      × IsValid
          (record h {
            memory =
                set_size h.heap_tail
                  (add32 (h.memory h.heap_tail).size (sub32 a h.heap_curr))
                  h.memory;
            heap_curr = a;
          })
          cs
unfolding used
grow_last {h} xs t a v le fits whole joins =
    let m = middle xs t [] v in
    let width = v.width in
    let room = m.fits in
    let tail : h.heap_tail ≡ t.addr = v.tail ∙ last-append 0 xs (t ∷ []) in
    let size : (h.memory h.heap_tail).size ≡ t.size =
      ap (λ (k : ℕ). (h.memory k).size) tail ∙ ap Header.size m.here in
    let free : (h.memory h.heap_tail).free ≡ t.free =
      ap (λ (k : ℕ). (h.memory k).free) tail ∙ ap Header.free m.here in
    let open_t : t.free ≢ 0 = λ e. ground arith in
    let sum : add32 (h.memory h.heap_tail).size (sub32 a h.heap_curr) ≡ t.size + (a - h.heap_curr) =
      omega arith in
    let bigger = block t.addr (t.size + (a - h.heap_curr)) t.free in
    (
      xs ++ (bigger ∷ []),
      used_free xs bigger [] open_t ∙ sym (used_free xs t [] open_t),
      subst (λ (m : Memory). IsValid (record h { memory = m; heap_curr = a }) (xs ++ (bigger ∷ [])))
          (λ i. set_size (sym tail i) (sym sum i) h.memory)
          (resize-IsValid xs t (t.size + (a - h.heap_curr)) (omega arith)
            (widen-IsValid (xs ++ (t ∷ [])) a v le fits whole)),
    )

pub fill_gap-heap_end : (start a : ℕ) (h : Heap) → (fill_gap start a h).heap_end ≡ h.heap_end
unfolding fill_gap append_block
fill_gap-heap_end start a h =
    let Same : Heap → Type 0 = λ (h' : Heap). h'.heap_end ≡ h.heap_end in
    let gap = sub32 a start in
    let last = h.memory h.heap_tail in
    if-both Same (ltb start a) {y = h}
      (if-both Same (leb min_block_size gap) refl (
        if-both Same
          (((h.heap_tail != 0) && (last.free != 0)) && blocks_adjacent h.heap_tail start h.memory)
          {x = record h { memory = set_size h.heap_tail (add32 last.size gap) h.memory }} {y = h}
          refl refl))
      refl

pub fill_gap-IsValid :
    {h : Heap} (bs : List Block) (a : ℕ)
    → IsValid h bs
    → h.heap_curr ≤ a
    → a ≤ h.heap_end
    → a % 4 ≡ 0
    → (cs : List Block) × (used cs ≡ used bs)
      × IsValid (record (fill_gap h.heap_curr a h) { heap_curr = a }) cs
unfolding fill_gap used
fill_gap-IsValid {h} bs a v le fits whole =
    let width = v.width in
    let Result : Heap → Type 0 = λ (h' : Heap).
      (cs : List Block) × (used cs ≡ used bs) × IsValid (record h' { heap_curr = a }) cs in
    let gap : sub32 a h.heap_curr ≡ a - h.heap_curr = omega arith in
    let wide = widen-IsValid bs a v le fits whole in
    let kept : Result h = (bs, refl, wide) in
    if-each Result (ltb h.heap_curr a)
      (λ later.
        if-each Result (leb min_block_size (sub32 a h.heap_curr))
          (λ large.
            let amount : sub32 (sub32 a h.heap_curr) 16 ≡ a - h.heap_curr - 16 = ground arith in
            (
              bs ++ (block h.heap_curr (a - h.heap_curr - 16) 1 ∷ []),
              used_free bs (block h.heap_curr (a - h.heap_curr - 16) 1) [] (λ e. omega arith)
                  ∙ append-nil (used bs),
              rw amount (
                  append_block-IsValid bs h.heap_curr (a - h.heap_curr - 16) 1 a v (omega arith)
                    v.whole (ground arith) fits whole),
            ))
          (λ small.
            if-each Result
              (((h.heap_tail != 0) && ((h.memory h.heap_tail).free != 0))
                && blocks_adjacent h.heap_tail h.heap_curr h.memory)
              (λ joins. elim (last-cases bs) [
                | inl none ↦
                    let z : h.heap_tail ≡ 0 = v.tail ∙ ap (last 0) none in absurd (ground arith)
                | inr (xs, t, e) ↦
                    let (cs, u, w) = grow_last xs t a (rw e at v) le fits whole joins in
                    (cs, u ∙ ap used (sym e), w)
              ])
              (λ leaves. kept)))
      (λ same. kept)
