-- ===== src/Kheap/Merge.antt =====
-- kfree of mm/mem.c on the list of blocks: a block is marked free and merged with its neighbours.
use orion_os.Base.{
  ℕ, ◌+◌, ◌^◌, ◌≤◌, ◌<◌, ◌≡◌, refl, sym, ap, ◌∙◌, ◌≢◌, inl, inr, true, if-each, append_assoc,
  append-nil, ◌&&◌, ◌!=◌, false, List, [], ◌∷◌, ◌++◌, arith, ◌==◌,
}
use orion_os.Kheap.{
  Header, header, Heap, set_next, set_size, link_back, merge, merge_next, merge_prev, kfree, add32,
  sub32, blocks_adjacent,
}
use orion_os.Kheap.Blocks.{
  Block, block, past, first, last, used, used_free, first-append, last-append, Laid-le, first-in,
  last-cases, IsValid,
}
use orion_os.Kheap.Stores.{joined_at, joined_off, joined_behind}
use orion_os.Kheap.Rebuild.{middle, tail_moves, mark-IsValid, rebuild}

abbrev joined : Block → Block → Block
joined b c = block b.addr (b.size + 16 + c.size) b.free

merge-IsValid :
    {h : Heap} (xs : List Block) (b c : Block) (ys : List Block)
    → IsValid h (xs ++ (b ∷ (c ∷ ys)))
    → past b ≡ c.addr
    → IsValid (merge b.addr c.addr h) (xs ++ (joined b c ∷ ys))
unfolding merge
merge-IsValid {h} xs b c ys v e =
    let m = middle xs b (c ∷ ys) v in
    let (le, whole_c, above) = m.above in
    let (ec, behind) = m.behind in
    let fits : past c ≤ h.heap_curr = Laid-le (past c) ys h.heap_curr above in
    let room : h.heap_curr < 2 ^ 32 = omega (arith, v.room, v.width) in
    let base = v.base in
    let start : h.heap_base ≤ b.addr =
      omega (arith, Laid-le h.heap_base xs m.mid m.below, m.start) in
    let here = m.here in
    let link = first-in (past c) ys h.heap_curr above in
    let n = first ys 0 in
    let m1 = h.memory in
    let total = add32 b.size (add32 16 c.size) in
    let size_b : (m1 b.addr).size ≡ b.size = ap Header.size here in
    let size_c : (m1 c.addr).size ≡ c.size = ap Header.size ec in
    let next_c : (m1 c.addr).next ≡ n = ap Header.next ec in
    let sum : total ≡ b.size + 16 + c.size = omega arith in
    let at : (k : ℕ)
        → (merge b.addr c.addr h).memory k
          ≡ link_back n b.addr (set_next b.addr n (set_size b.addr total m1)) k =
      λ k i.
        link_back (next_c i) b.addr
          (set_next b.addr (next_c i) (set_size b.addr (add32 (size_b i) (add32 16 (size_c i))) m1))
          k in
    let apart : n ≢ b.addr = omega arith in
    let under : m.mid ≤ b.addr = m.start in
    rebuild xs (joined b c) [] ys m.mid (past c) c.addr v (refl, refl, refl)
      (
        v.head ∙ first-append xs (b ∷ (c ∷ ys)) 0,
        tail_moves c.addr h.heap_tail b.addr (past c) h.heap_curr ys (omega arith)
            (v.tail ∙ last-append 0 xs (b ∷ (c ∷ ys))) above,
      )
      m.below (m.start, m.whole_start, omega arith) above m.before
      (
        at b.addr
            ∙ joined_at m1 b.addr n total apart
            ∙ rw here (λ i. header (sum i) n (last 0 xs) b.free),
        tt,
      )
      behind (λ k l u. at k ∙ joined_off m1 b.addr n total apart k (omega arith) (omega arith))
      (λ k l u. at k ∙ joined_behind m1 b.addr n total apart k (omega arith) (omega arith))

-- What the code's test says of the blocks at `p` and `n`, where it reads the values given.
merge_test :
    (h : Heap) (p n size free : ℕ)
    → (h.memory p).next ≡ n
    → (h.memory p).size ≡ size
    → (h.memory n).free ≡ free
    → p + 16 + size < 2 ^ 32
    → ((h.memory p).next ≡ n)
      × (((((h.memory p).next != 0) && ((h.memory (h.memory p).next).free != 0))
              && blocks_adjacent p (h.memory p).next h.memory)
            ≡ true
          → (free ≢ 0) × (p + 16 + size ≡ n))
merge_test h p n size free en es ef room = (en, rw en (λ hit. ground arith))

merge_next-IsValid :
    {h : Heap} (xs : List Block) (b : Block) (ys : List Block)
    → IsValid h (xs ++ (b ∷ ys))
    → (b' : Block) × (zs : List Block) × (b'.addr ≡ b.addr)
      × (b'.free ≡ b.free)
      × (used zs ≡ used ys)
      × IsValid (merge_next b.addr h) (xs ++ (b' ∷ zs))
unfolding merge_next used
merge_next-IsValid {h} xs b [] v =
    let m = middle xs b [] v in
    let none : (h.memory b.addr).next ≡ 0 = ap Header.next m.here in
    (b, [], refl, refl, refl, rw none v)
merge_next-IsValid {h} xs b (c ∷ ys) v =
    let m = middle xs b (c ∷ ys) v in
    let (le, whole_c, above) = m.above in
    let (next_b, adjacent) =
      merge_test h b.addr c.addr b.size c.free (ap Header.next m.here) (ap Header.size m.here)
        (ap Header.free m.behind.0) (omega (arith, m.fits, v.room, v.width)) in
    if-each
      (λ (h' : Heap).
        (b' : Block) × (zs : List Block) × (b'.addr ≡ b.addr)
        × (b'.free ≡ b.free)
        × (used zs ≡ used (c ∷ ys))
        × IsValid h' (xs ++ (b' ∷ zs)))
      _
      (λ hit.
        let (free, next) = adjacent hit in
        (joined b c, ys, refl, refl, ground arith, rw next_b (merge-IsValid xs b c ys v next)))
      (λ miss. (b, c ∷ ys, refl, refl, refl, v))

prev_test :
    (h : Heap) (p n size free : ℕ)
    → (h.memory n).prev ≡ p
    → (h.memory p).size ≡ size
    → (h.memory p).free ≡ free
    → p + 16 + size < 2 ^ 32
    → (((((h.memory n).prev != 0) && ((h.memory (h.memory n).prev).free != 0))
            && blocks_adjacent (h.memory n).prev n h.memory)
          ≡ true
        → (free ≢ 0) × (p + 16 + size ≡ n))
prev_test h p n size free en es ef room = rw en (λ hit. ground arith)

merge_prev-first :
    {h : Heap} (b : Block) (ys : List Block)
    → IsValid h (b ∷ ys)
    → IsValid (merge_prev b.addr h) (b ∷ ys)
unfolding merge_prev
merge_prev-first b ys v = let none = ap Header.prev v.linked.0 in rw none v

merge_prev-IsValid :
    {h : Heap} (ws : List Block) (t b : Block) (ys : List Block)
    → b.free ≢ 0
    → IsValid h (ws ++ (t ∷ (b ∷ ys)))
    → (zs : List Block) × (used zs ≡ used (ws ++ (t ∷ [])) ++ used ys)
      × IsValid (merge_prev b.addr h) zs
unfolding merge_prev used
merge_prev-IsValid {h} ws t b ys free v =
    let m = middle ws t (b ∷ ys) v in
    let prev_b = ap Header.prev m.behind.0 in
    let adjacent =
      prev_test h t.addr b.addr t.size t.free prev_b (ap Header.size m.here) (ap Header.free m.here)
        (omega (arith, m.fits, v.room, v.width)) in
    if-each
      (λ (h' : Heap).
        (zs : List Block) × (used zs ≡ used (ws ++ (t ∷ [])) ++ used ys) × IsValid h' zs)
      _
      (λ hit.
        let (free_t, next) = adjacent hit in
        (
          ws ++ (joined t b ∷ ys),
          used_free ws (joined t b) ys free_t
              ∙ ap (λ (us : List Block). us ++ used ys)
                  (sym (used_free ws t [] free_t ∙ append-nil (used ws))),
          rw prev_b (merge-IsValid ws t b ys v next),
        ))
      (λ miss. (
        ws ++ (t ∷ (b ∷ ys)),
        ap used (sym (append_assoc ws (t ∷ []) (b ∷ ys))) ∙ used_free (ws ++ (t ∷ [])) b ys free,
        v,
      ))

merge_prev_any :
    {h : Heap} (xs : List Block) (b : Block) (ys : List Block)
    → b.free ≢ 0
    → IsValid h (xs ++ (b ∷ ys))
    → (zs : List Block) × (used zs ≡ used xs ++ used ys) × IsValid (merge_prev b.addr h) zs
unfolding used
merge_prev_any {h} xs b ys free v = elim (last-cases xs) [
  | inl e ↦
      let none : used xs ++ used ys ≡ used ys = rw e refl in
      let v' = rw e at v in (b ∷ ys, used_free [] b ys free ∙ sym none, merge_prev-first b ys v')
  | inr (ws, t, e) ↦
      let v' = rw (e, append_assoc ws (t ∷ []) (b ∷ ys)) at v in
      let (zs, u, w) = merge_prev-IsValid ws t b ys free v' in (zs, u ∙ rw e refl, w)
]

-- Freeing a block of a valid heap by the pointer to its payload takes exactly that block from those
-- in use and keeps the heap valid.
pub kfree-IsValid :
    {h : Heap} (xs : List Block) (b : Block) (ys : List Block)
    → IsValid h (xs ++ (b ∷ ys))
    → (zs : List Block) × (used zs ≡ used xs ++ used ys) × IsValid (kfree (b.addr + 16) h) zs
unfolding kfree
kfree-IsValid {h} xs b ys v =
    let m = middle xs b ys v in
    let there : sub32 (b.addr + 16) 16 ≡ b.addr = omega (arith, m.fits, v.room, v.width) in
    let given : (b.addr + 16 == 0) ≡ false = ground arith in
    let (b', zs, ea, ef, eu, v') =
      merge_next-IsValid xs (block b.addr b.size 1) ys (mark-IsValid xs b 1 ys v) in
    let (ws, eu', v'') = merge_prev_any xs b' zs (λ e. omega arith) v' in
    rw (given, there) (ws, eu' ∙ ap (◌++◌ (used xs)) eu, rw ea at v'')
