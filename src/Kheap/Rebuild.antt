-- ===== src/Kheap/Rebuild.antt =====
-- What an operation of mm/mem.c on one place of the list of blocks leaves of the rest.
use orion_os.Base.{
  if-each, ==-eq, length, ℕ, ◌%◌, ◌≤◌, ◌<◌, ◌≡◌, refl, sym, ap, ◌∙◌, inl, inr, List, [], ◌∷◌, ◌++◌,
  arith, ◌==◌, if◌then◌else◌,
}
use orion_os.Kheap.{Header, header, Memory, Heap, set_free}
use orion_os.Kheap.Stores.{store_at, store_off}
use orion_os.Kheap.Blocks.{
  Block, block, past, first, last, Linked, Laid, first-append, last-append, Laid-le, Laid-split,
  Laid-join, Linked-split, Linked-join, Linked-same, Linked-back, last-in, IsValid,
}

-- A block of the list, the header that stands at its address, and what lies around it.
pub record Middle (h : Heap) (xs : List Block) (b : Block) (ys : List Block) : Type 0 where
  pub mid : ℕ
  pub before : Linked h.memory 0 xs b.addr
  pub here : h.memory b.addr ≡ header b.size (first ys 0) (last 0 xs) b.free
  pub behind : Linked h.memory b.addr ys 0
  pub below : Laid h.heap_base xs mid
  pub start : mid ≤ b.addr
  pub whole_start : b.addr % 4 ≡ 0
  pub above : Laid (past b) ys h.heap_curr
  pub fits : past b ≤ h.heap_curr

pub middle :
    {h : Heap} (xs : List Block) (b : Block) (ys : List Block)
    → IsValid h (xs ++ (b ∷ ys))
    → Middle h xs b ys
middle {h} xs b ys v =
    let (mid, low, (a, w, c)) = Laid-split h.heap_base xs (b ∷ ys) h.heap_curr v.laid in
    let (l, (e, r)) = Linked-split h.memory 0 xs (b ∷ ys) 0 v.linked in
    record {
      mid = mid;
      before = l;
      here = e;
      behind = r;
      below = low;
      start = a;
      whole_start = w;
      above = c;
      fits = Laid-le (past b) ys h.heap_curr c;
    }

-- The tail's pointer moves from the block at `t` to the one at `q` where no block is behind it.
pub tail_moves :
    (t p q lo hi : ℕ) (ys : List Block)
    → t < lo
    → p ≡ last t ys
    → Laid lo ys hi
    → (if p == t then q else p) ≡ last q ys
tail_moves t p q lo hi [] h e v = ground arith
tail_moves t p q lo hi (y ∷ ys) h e v = elim (last-in lo t (y ∷ ys) hi v) [
  | inl le ↦ ground arith
  | inr none ↦ absurd (omega (arith, ap length none))
]

-- The block behind already points back to the one before it.
pub back_same :
    (m : Memory) (p lo : ℕ) (ys : List Block)
    → 0 < lo
    → Linked m p ys 0
    → (k : ℕ) → lo ≤ k
    → m k ≡ (if k == first ys 0 then record (m k) { prev = p } else m k)
back_same m p lo [] pos v k le = ground arith
back_same m p lo (y ∷ ys) pos (e, v) k le =
    if-each (λ (h : Header). m k ≡ h) (k == y.addr)
      (λ hit. let there : k ≡ y.addr = ==-eq k y.addr hit in rw there (rw e refl)) (λ miss. refl)

-- New blocks `d ∷ ds` between the blocks `xs` and `ys` of a valid heap.
pub rebuild :
    {h h' : Heap} {bs : List Block} (xs : List Block) (d : Block) (ds ys : List Block)
    (mid hi p : ℕ)
    → IsValid h bs
    → (h'.heap_base ≡ h.heap_base) × (h'.heap_curr ≡ h.heap_curr) × (h'.heap_end ≡ h.heap_end)
    → (h'.heap_head ≡ first xs d.addr) × (h'.heap_tail ≡ last (last d.addr ds) ys)
    → Laid h.heap_base xs mid
    → Laid mid (d ∷ ds) hi
    → Laid hi ys h.heap_curr
    → Linked h.memory 0 xs d.addr
    → Linked h'.memory (last 0 xs) (d ∷ ds) (first ys 0)
    → Linked h.memory p ys 0
    → ((a : ℕ) → h.heap_base ≤ a → a < mid → h'.memory a ≡ h.memory a)
    → ((a : ℕ)
        → hi ≤ a
        → a < h.heap_curr
        → h'.memory a
          ≡ (if a == first ys 0 then record (h.memory a) { prev = last d.addr ds } else h.memory a))
    → IsValid h' (xs ++ (d ∷ (ds ++ ys)))
rebuild {h} {h'} xs d ds ys mid hi p v (e, e', e'') (he, te) below here above lx ld ly low high =
    let laid =
      Laid-join h.heap_base xs (d ∷ (ds ++ ys)) mid h.heap_curr below
        (Laid-join mid (d ∷ ds) ys hi h.heap_curr here above) in
    record {
      linked =
          Linked-join h'.memory 0 xs (d ∷ (ds ++ ys)) 0
            (Linked-same h.memory h'.memory 0 xs d.addr h.heap_base mid below low lx)
            (Linked-join h'.memory (last 0 xs) (d ∷ ds) ys 0 ld (
              Linked-back h.memory h'.memory p (last d.addr ds) ys 0 hi h.heap_curr above high ly));
      laid = rw (e, e') laid;
      head = he ∙ sym (first-append xs (d ∷ (ds ++ ys)) 0);
      tail = te ∙ sym (last-append d.addr ds ys) ∙ sym (last-append 0 xs (d ∷ (ds ++ ys)));
      base = omega (arith, v.base);
      room = omega (arith, v.room);
      whole = rw e' v.whole;
      width = omega (arith, v.width);
    }

-- A block's flag is set, nothing else changes.
pub mark-IsValid :
    {h : Heap} (xs : List Block) (b : Block) (f : ℕ) (ys : List Block)
    → IsValid h (xs ++ (b ∷ ys))
    → IsValid
        (record h { memory = set_free b.addr f h.memory })
        (xs ++ (block b.addr b.size f ∷ ys))
mark-IsValid {h} xs b f ys v =
    let m = middle xs b ys v in
    let here = m.here in
    rebuild xs (block b.addr b.size f) [] ys m.mid (past b) b.addr v (refl, refl, refl)
      (v.head ∙ first-append xs (b ∷ ys) 0, v.tail ∙ last-append 0 xs (b ∷ ys)) m.below
      (m.start, m.whole_start, omega arith) m.above m.before
      (store_at h.memory b.addr (record (h.memory b.addr) { free = f }) ∙ rw here refl, tt) m.behind
      (λ k l u. store_off h.memory b.addr _ k (omega (arith, m.start)))
      (λ k l u.
        store_off h.memory b.addr _ k (omega arith)
        ∙ back_same h.memory b.addr (past b) ys (omega arith) m.behind k l)
