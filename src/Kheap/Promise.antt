-- ===== src/Kheap/Promise.antt =====
-- What a grant of mm/mem.c means: payloads do not overlap, freeing gives back what was taken.
use orion_os.Base.{
  ℕ, ◌+◌, ◌≤◌, ◌≡◌, sym, ◌∙◌, ◌⊎◌, inl, inr, List, [], ◌∷◌, ◌++◌, arith, ◌==◌, if-both,
}
use orion_os.Kheap.{Heap, kfree}
use orion_os.Kheap.Blocks.{Block, past, used, Laid, Laid-le, IsValid}
use orion_os.Kheap.Merge.{kfree-IsValid}
use orion_os.Kheap.Grant.{Granted}
use orion_os.Kheap.Rebuild.{middle}

-- None of the blocks shares a byte with `b`, headers included.
abbrev pub Apart : Block → List Block → Type 0
Apart b [] = Unit {0}
Apart b (c ∷ cs) = ((past c ≤ b.addr) ⊎ (past b ≤ c.addr)) × Apart b cs

Apart-append : (b : Block) (xs ys : List Block) → Apart b xs → Apart b ys → Apart b (xs ++ ys)
Apart-append b [] ys l r = r
Apart-append b (x ∷ xs) ys (e, l) r = (e, Apart-append b xs ys l r)

below : (b : Block) (lo hi : ℕ) (xs : List Block) → Laid lo xs hi → hi ≤ b.addr → Apart b (used xs)
unfolding used
below b lo hi [] v le = tt
below b lo hi (x ∷ xs) (a, w, v) le =
    let rest = below b (past x) hi xs v le in
    if-both (Apart b) (x.free == 0) (inl (omega (arith, Laid-le (past x) xs hi v)), rest) rest

above : (b : Block) (lo hi : ℕ) (xs : List Block) → Laid lo xs hi → past b ≤ lo → Apart b (used xs)
unfolding used
above b lo hi [] v le = tt
above b lo hi (x ∷ xs) (a, w, v) le =
    let rest = above b (past x) hi xs v (omega arith) in
    if-both (Apart b) (x.free == 0) (inr (omega arith), rest) rest

-- A smaller block at the same place is apart all the same.
pub Apart-smaller :
    (b c : Block) (xs : List Block) → b.addr ≡ c.addr → b.size ≤ c.size → Apart c xs → Apart b xs
Apart-smaller b c [] e le v = tt
Apart-smaller b c (x ∷ xs) e le (inl before, v) = (inl (omega arith), Apart-smaller b c xs e le v)
Apart-smaller b c (x ∷ xs) e le (inr behind, v) = (inr (omega arith), Apart-smaller b c xs e le v)

-- A granted block lies within the heap and shares no byte with any block that was in use before.
pub Granted-Apart :
    {h : Heap} (bs : List Block) (size align ptr : ℕ) (g : Granted bs size align ptr h)
    → (h.heap_base + 16 ≤ ptr) × (ptr + size ≤ h.heap_curr) × Apart g.given (used bs)
Granted-Apart {h} bs size align ptr g =
    let m = middle g.front g.given g.rest g.valid in
    let payload = g.payload in
    let holds = g.holds in
    let fits = m.fits in
    let start = m.start in
    (
      omega (arith, Laid-le h.heap_base g.front m.mid m.below),
      omega arith,
      rw g.others (
          Apart-append g.given (used g.front) (used g.rest)
            (below g.given h.heap_base m.mid g.front m.below m.start)
            (above g.given (past g.given) h.heap_curr g.rest m.above (omega arith))),
    )

-- Freeing the pointer of a granted block leaves exactly the blocks in use that were before it was
-- granted, in a valid heap.
pub kfree-Granted :
    {h : Heap} (bs : List Block) (size align ptr : ℕ)
    → Granted bs size align ptr h
    → (cs : List Block) × (used cs ≡ used bs) × IsValid (kfree ptr h) cs
kfree-Granted bs size align ptr g =
    let (cs, same, v) = kfree-IsValid g.front g.given g.rest g.valid in
    (cs, same ∙ sym g.others, rw g.payload v)
