-- ===== src/Kheap/Search.antt =====
-- find_free_block of mm/mem.c: first fit over the list of blocks.
use orion_os.Base.{
  ℕ, zero, suc, ◌+◌, ◌-◌, ◌%◌, ◌^◌, ◌≤◌, ◌<◌, ◌≡◌, refl, sym, ap, ◌≢◌, ◌⊎◌, inl, inr, false, Option,
  none, some, List, [], ◌∷◌, ◌++◌, arith, ltb, ◌==◌, ◌!=◌, ◌&&◌, if◌then◌else◌, length, subst,
  ==-eq, Option-cases, Bool-cases,
}
use orion_os.Kheap.{Header, Memory, align_up, block_can_fit, find_free_block, add32, sub32}
use orion_os.Kheap.Align.{Alignment, Aligned, align_up_lem}
use orion_os.Kheap.Blocks.{Block, past, first, Linked, Laid, Laid-le}

-- The block has room for `size` bytes behind a header at `a`, with no bytes before it or enough for
-- a block.
pub record Fits (b : Block) (size align a : ℕ) : Type 0 where
  pub place : (a ≡ b.addr) ⊎ (b.addr + 24 ≤ a)
  pub inside : a + 16 + size ≤ past b
  pub aligned : Aligned align (a + 16)

-- `size` bytes from the first aligned address behind the header on end behind the block, or leave
-- some bytes before their header, but fewer than the 24 of a block.
abbrev pub NoRoom : ℕ → ℕ → Block → Type 0
NoRoom size align b =
    let r = align_up (b.addr + 16) align in
    (past b < r + size) ⊎ ((b.addr < r - 16) × (r - 16 < b.addr + 24))

-- The free blocks passed over have no room.
abbrev pub Skipped : ℕ → ℕ → List Block → Type 0
Skipped size align [] = Unit {0}
Skipped size align (b ∷ bs) = (b.free ≢ 0 → NoRoom size align b) × Skipped size align bs

-- The tests of block_can_fit without wrap, for the address `r` that the alignment gives.
fit_test :
    (start length r size a : ℕ)
    → start + 16 ≤ r
    → r + size < 2 ^ 32
    → start + 16 + length < 2 ^ 32
    → (if ltb (add32 (start + 16) length) (add32 r size)
        then none
        else if (sub32 (sub32 r 16) start != 0) && ltb (sub32 (sub32 r 16) start) 24
        then none
        else some (sub32 r 16))
      ≡ some a
    → ((a ≡ start) ⊎ (start + 24 ≤ a)) × (a + 16 + size ≤ start + 16 + length) × (a + 16 ≡ r)
fit_test start length r size a ge room room' e = ground arith

no_fit :
    (start length r size : ℕ)
    → start + 16 ≤ r
    → r + size < 2 ^ 32
    → start + 16 + length < 2 ^ 32
    → (if ltb (add32 (start + 16) length) (add32 r size)
        then none
        else if (sub32 (sub32 r 16) start != 0) && ltb (sub32 (sub32 r 16) start) 24
        then none
        else some (sub32 r 16))
      ≡ none
    → (start + 16 + length < r + size) ⊎ ((start < r - 16) × (r - 16 < start + 24))
no_fit start length r size ge room room' e = ground arith

module _ (m : Memory) (size align : ℕ) (given : (align ≡ 0) ⊎ Alignment align) where
  block_can_fit-Fits :
      (b : Block) (a : ℕ)
      → (m b.addr).size ≡ b.size
      → b.addr % 4 ≡ 0
      → past b + align + size < 2 ^ 32
      → block_can_fit b.addr size align m ≡ some a
      → Fits b size align a
  unfolding block_can_fit
  block_can_fit-Fits b a size_b whole room =
      let payload : add32 b.addr 16 ≡ b.addr + 16 = omega arith in
      let (ge, le, al) = align_up_lem align (b.addr + 16) given (omega arith) (omega arith) in
      λ e.
        let (place, inside, there) =
          fit_test b.addr b.size (align_up (b.addr + 16) align) size a ge (omega arith)
            (omega arith) (rw (payload, size_b) at e) in
        record { place = place; inside = inside; aligned = rw there al }

  block_can_fit-NoRoom :
      (b : Block)
      → (m b.addr).size ≡ b.size
      → b.addr % 4 ≡ 0
      → past b + align + size < 2 ^ 32
      → block_can_fit b.addr size align m ≡ none
      → NoRoom size align b
  unfolding block_can_fit
  block_can_fit-NoRoom b size_b whole room =
      let payload : add32 b.addr 16 ≡ b.addr + 16 = omega arith in
      let (ge, le, al) = align_up_lem align (b.addr + 16) given (omega arith) (omega arith) in
      λ e.
        no_fit b.addr b.size (align_up (b.addr + 16) align) size ge (omega arith) (omega arith)
          (rw (payload, size_b) at e)

  -- What the search answers from the first block of a list on.
  abbrev pub Found : Option (Option (ℕ × ℕ)) → List Block → Type 0
  Found r bs =
      ((r ≡ some none) × Skipped size align bs)
      ⊎ ((xs : List Block) × (b : Block) × (ys : List Block) × (a : ℕ) × (bs ≡ xs ++ (b ∷ ys))
          × (b.free ≢ 0)
          × (r ≡ some (some (b.addr, a)))
          × Fits b size align a
          × Skipped size align xs)

  passed :
      (r : Option (Option (ℕ × ℕ))) (b : Block) (bs : List Block)
      → (b.free ≢ 0 → NoRoom size align b)
      → Found r bs
      → Found r (b ∷ bs)
  passed r b bs skip (inl (e, s)) = inl (e, (skip, s))
  passed r b bs skip (inr (xs, c, ys, a, e, f, found, fits, s)) =
      inr (b ∷ xs, c, ys, a, ap (◌∷◌ b) e, f, found, fits, (skip, s))

  -- With fuel for more rounds than there are blocks, and no sum that wraps, the search over linked
  -- blocks ends: it answers the first free block with room and the address for its header, or NULL
  -- where no free block has room.
  pub find_free_block-Found :
      (fuel p : ℕ) (bs : List Block) (lo hi : ℕ)
      → length bs < fuel
      → 0 < lo
      → hi + align + size < 2 ^ 32
      → Laid lo bs hi
      → Linked m p bs 0
      → Found (find_free_block fuel size align m (first bs 0)) bs
  unfolding find_free_block
  find_free_block-Found zero p bs lo hi enough pos room laid linked = absurd (omega arith)
  find_free_block-Found (suc fuel) p [] lo hi enough pos room laid linked = inl (refl, tt)
  find_free_block-Found (suc fuel) p (b ∷ bs) lo hi enough pos room (a, w, laid) (e, linked) =
      let later =
        find_free_block-Found fuel b.addr bs (past b) hi (omega arith) (omega arith) room laid
          linked in
      let there : (b.addr == 0) ≡ false = ground arith in
      let fits : past b ≤ hi = Laid-le (past b) bs hi laid in
      let next_b : (m b.addr).next ≡ first bs 0 = ap Header.next e in
      let free_b : (m b.addr).free ≡ b.free = ap Header.free e in
      elim (Bool-cases (b.free == 0)) [
        | inl busy ↦
            rw (there, free_b, busy, next_b)
              (passed _ b bs (λ f. absurd (f (==-eq b.free 0 busy))) later)
        | inr open_b ↦ elim (Option-cases (block_can_fit b.addr size align m)) [
          | inl none_fits ↦
              let step : find_free_block (suc fuel) size align m b.addr
                  ≡ find_free_block fuel size align m (first bs 0) =
                rw (there, free_b, open_b, none_fits, next_b) refl in
              subst (λ (r : Option (Option (ℕ × ℕ))). Found r (b ∷ bs)) (sym step)
                (passed _ b bs
                  (λ f. block_can_fit-NoRoom b (ap Header.size e) w (omega arith) none_fits) later)
          | inr (h, some_fits) ↦
              rw (there, free_b, open_b, some_fits)
                (inr (
                  [],
                  b,
                  bs,
                  h,
                  refl,
                  (λ f. ground arith),
                  refl,
                  block_can_fit-Fits b h (ap Header.size e) w (omega arith) some_fits,
                  tt,
                ))
        ]
      ]
