-- ===== src/Kheap/Kmalloc.antt =====
-- kmalloc and kfree of mm/mem.c as their callers see them.
use orion_os.Base.{
  ℕ, ◌+◌, ◌-◌, ◌*◌, ◌/◌, ◌%◌, ◌^◌, ◌≤◌, ◌<◌, ◌≡◌, refl, sym, ◌≢◌, ◌⊎◌, inl, inr, true, false, List,
  arith, ◌==◌, if◌then◌else◌, if-both, Option, none, some, Option-cases, ==-ne, length,
}
use orion_os.Kheap.{Heap, kfree, normalize_align}
use orion_os.Kheap.Request.{Pager, kmalloc, kmalloc_internal}
use orion_os.Kheap.Blocks.{Block, block, used, IsValid}
use orion_os.Kheap.Grant.{Granted, kmalloc_internal-Granted}
use orion_os.Kheap.Promise.{Apart, Apart-smaller, Granted-Apart, kfree-Granted}

abbrev pub alignment_of : ℕ → ℕ
alignment_of align = if align == 0 then 0 else 4096

normal : (align : ℕ) → normalize_align (alignment_of align) ≡ some (alignment_of align)
unfolding normalize_align
normal align = if-both (λ (a : ℕ). normalize_align a ≡ some a) (align == 0) refl refl

on_page :
    (align ptr : ℕ)
    → align ≢ 0
    → (alignment_of align ≡ 0) ⊎ (ptr % alignment_of align ≡ 0)
    → ptr % 4096 ≡ 0
on_page align ptr asked (inl none_asked) = absurd (ground arith)
on_page align ptr asked (inr whole) =
    let page : alignment_of align ≡ 4096 = ground arith in rw page at whole

module _ {ℓ} {S : Type ℓ} (pager : Pager S) where
  module _ (fuel size align : ℕ) (h : Heap) (s : S) (ptr : ℕ) (h' : Heap) (s' : S)
      (e : kmalloc_internal pager fuel size (alignment_of align) h s ≡ some (ptr, h', s')) where
    null_answer : ptr ≡ 0 → kmalloc pager fuel size align h s ≡ some (ptr, h', s', none)
    unfolding kmalloc
    null_answer null =
        let z : (ptr == 0) ≡ true = ground arith in
        rw (kmalloc, e, z) (λ i. some (sym null i, h', s', none))

    answer :
        ptr ≢ 0 → (phys : ℕ) × (kmalloc pager fuel size align h s ≡ some (ptr, h', s', some phys))
    unfolding kmalloc
    answer given =
        let nz : (ptr == 0) ≡ false = ==-ne ptr 0 given in
        elim (Option-cases (pager.virt_to_phys ptr s')) [
          | inl unmapped ↦ (ptr, rw (kmalloc, e, nz, unmapped) refl)
          | inr (phys, mapped) ↦ (phys, rw (kmalloc, e, nz, mapped) refl)
        ]

  -- kmalloc on top of kmalloc_internal.
  kmalloc-Granted :
      (fuel size align : ℕ) (h : Heap) (s : S) (bs : List Block)
      → IsValid h bs
      → length bs < fuel
      → 0 < size
      → h.heap_end + size + 4116 < 2 ^ 32
      → (ptr : ℕ) × (h' : Heap) × (s' : S) × (phys : Option ℕ) × (kmalloc pager fuel size align h s
          ≡ some (ptr, h', s', phys))
        × (((ptr ≡ 0) × (phys ≡ none) × IsValid h' bs)
            ⊎ Granted bs ((size + 3) / 4 * 4) (alignment_of align) ptr h')
  unfolding kmalloc
  kmalloc-Granted fuel size align h s bs v enough pos room =
      let a = alignment_of align in
      let few : a ≤ 4096 = if-both (λ (k : ℕ). k ≤ 4096) (align == 0) (omega arith) (omega arith) in
      let (ptr, h', s', e, outcome) =
        kmalloc_internal-Granted pager fuel size a a h s bs v enough pos (omega arith)
          (normal align) (omega arith) in
      elim outcome [
        | inl (null, v', skipped, reason) ↦ (
          ptr,
          h',
          s',
          none,
          null_answer fuel size align h s ptr h' s' e null,
          inl (null, refl, v'),
        )
        | inr g ↦
            let (phys, e') =
              answer fuel size align h s ptr h' s' e (λ n. omega (arith, g.payload)) in
            (ptr, h', s', some phys, e', inr g)
      ]

  -- kmalloc on a valid heap, for a size with which no sum wraps and fuel for more rounds than there
  -- are blocks, ends; a pointer that is not 0 has `size` bytes within the heap, no byte of them or of
  -- the 16 before them is in a block that was in use, and it is on a page where one was asked for.
  pub kmalloc-Apart :
      (fuel size align : ℕ) (h : Heap) (s : S) (bs : List Block)
      → IsValid h bs
      → length bs < fuel
      → 0 < size
      → h.heap_end + size + 4116 < 2 ^ 32
      → (ptr : ℕ) × (h' : Heap) × (s' : S) × (phys : Option ℕ) × (kmalloc pager fuel size align h s
          ≡ some (ptr, h', s', phys))
        × ((ptr ≡ 0)
            ⊎ ((h'.heap_base + 16 ≤ ptr)
                × (ptr + size ≤ h'.heap_curr)
                × Apart (block (ptr - 16) size 0) (used bs)
                × (align ≢ 0 → ptr % 4096 ≡ 0)))
  kmalloc-Apart fuel size align h s bs v enough pos room =
      let (ptr, h', s', phys, e, outcome) =
        kmalloc-Granted fuel size align h s bs v enough pos room in
      (
        ptr,
        h',
        s',
        phys,
        e,
        elim outcome [
          | inl (null, nothing, v') ↦ inl null
          | inr g ↦
              let (low, high, apart) = Granted-Apart bs _ _ ptr g in
              let payload = g.payload in
              let holds = g.holds in
              inr (
                low,
                omega arith,
                Apart-smaller (block (ptr - 16) size 0) g.given (used bs) (omega arith)
                    (omega arith) apart,
                (λ asked. on_page align ptr asked g.aligned.1),
              )
        ],
      )

  -- Under the same conditions, kfree of what kmalloc returned leaves exactly the blocks in use that
  -- were in use before, in a valid heap.
  pub kfree-kmalloc :
      (fuel size align : ℕ) (h : Heap) (s : S) (bs : List Block)
      → IsValid h bs
      → length bs < fuel
      → 0 < size
      → h.heap_end + size + 4116 < 2 ^ 32
      → (ptr : ℕ) × (h' : Heap) × (s' : S) × (phys : Option ℕ) × (cs : List Block) × (kmalloc pager
            fuel size align h s
          ≡ some (ptr, h', s', phys))
        × (used cs ≡ used bs)
        × IsValid (kfree ptr h') cs
  unfolding kfree
  kfree-kmalloc fuel size align h s bs v enough pos room =
      let (ptr, h', s', phys, e, outcome) =
        kmalloc-Granted fuel size align h s bs v enough pos room in
      elim outcome [
        | inl (null, nothing, v') ↦
            let z : (ptr == 0) ≡ true = ground arith in (ptr, h', s', phys, bs, e, refl, rw z v')
        | inr g ↦
            let (cs, same, v') = kfree-Granted bs _ _ ptr g in (ptr, h', s', phys, cs, e, same, v')
      ]
