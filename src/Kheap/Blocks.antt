-- ===== src/Kheap/Blocks.antt =====
-- The heap of mm/mem.c as the list of its blocks by rising address.
use orion_os.Base.{
  length, ◌⊎◌, inl, inr, ap, ℕ, ◌+◌, ◌%◌, ◌^◌, ◌≤◌, ◌<◌, ◌≡◌, refl, ◌∙◌, ◌≢◌, List, [], ◌∷◌, ◌++◌,
  arith, ◌==◌, if◌then◌else◌,
}
use orion_os.Kheap.{header, Memory, Heap}

pub record Block : Type 0 where
  pub addr : ℕ
  pub size : ℕ
  pub free : ℕ

abbrev pub block : ℕ → ℕ → ℕ → Block
block addr size free = record { addr = addr; size = size; free = free }

-- The address behind a block, its header of 16 bytes included.
abbrev pub past : Block → ℕ
past b = b.addr + 16 + b.size

abbrev pub first : List Block → ℕ → ℕ
first [] n = n
first (b ∷ bs) n = b.addr

abbrev pub last : ℕ → List Block → ℕ
last p [] = p
last p (b ∷ bs) = last b.addr bs

-- The headers of the blocks `bs`, linked between the block `p` before and the block `n` behind.
abbrev pub Linked : Memory → ℕ → List Block → ℕ → Type 0
Linked m p [] n = Unit {0}
Linked m p (b ∷ bs) n = (m b.addr ≡ header b.size (first bs n) p b.free) × Linked m b.addr bs n

-- The blocks lie in the addresses from `lo` to `hi`, one behind the other, on multiples of 4.
abbrev pub Laid : ℕ → List Block → ℕ → Type 0
Laid lo [] hi = lo ≤ hi
Laid lo (b ∷ bs) hi = (lo ≤ b.addr) × (b.addr % 4 ≡ 0) × Laid (past b) bs hi

-- The blocks in use.
unfoldable pub used : List Block → List Block
used [] = []
used (b ∷ bs) = let rest = used bs in if b.free == 0 then b ∷ rest else rest

pub used-append : (xs ys : List Block) → used (xs ++ ys) ≡ used xs ++ used ys
unfolding used
used-append [] ys = refl
used-append (x ∷ xs) ys = ground (arith, used-append xs ys)

pub used_free :
    (xs : List Block) (b : Block) (ys : List Block)
    → b.free ≢ 0
    → used (xs ++ (b ∷ ys)) ≡ used xs ++ used ys
unfolding used
used_free [] b ys h = ground arith
used_free (x ∷ xs) b ys h = ground (arith, used_free xs b ys h)

pub used_busy :
    (xs : List Block) (b : Block) (ys : List Block)
    → b.free ≡ 0
    → used (xs ++ (b ∷ ys)) ≡ used xs ++ (b ∷ used ys)
unfolding used
used_busy [] b ys h = ground arith
used_busy (x ∷ xs) b ys h = ground (arith, used_busy xs b ys h)

pub first-append : (xs ys : List Block) (n : ℕ) → first (xs ++ ys) n ≡ first xs (first ys n)
first-append [] ys n = refl
first-append (x ∷ xs) ys n = refl

pub last-append : (p : ℕ) (xs ys : List Block) → last p (xs ++ ys) ≡ last (last p xs) ys
last-append p [] ys = refl
last-append p (x ∷ xs) ys = last-append x.addr xs ys

pub Laid-le : (lo : ℕ) (xs : List Block) (hi : ℕ) → Laid lo xs hi → lo ≤ hi
Laid-le lo [] hi v = v
Laid-le lo (x ∷ xs) hi (a, b, c) = omega (arith, Laid-le (past x) xs hi c)

-- A layout splits where its list does.
pub Laid-split :
    (lo : ℕ) (xs ys : List Block) (hi : ℕ)
    → Laid lo (xs ++ ys) hi
    → (mid : ℕ) × Laid lo xs mid × Laid mid ys hi
Laid-split lo [] ys hi v = (lo, omega arith, v)
Laid-split lo (x ∷ xs) ys hi (a, b, c) =
    let (mid, l, r) = Laid-split (past x) xs ys hi c in (mid, (a, b, l), r)

pub Laid-join :
    (lo : ℕ) (xs ys : List Block) (mid hi : ℕ)
    → Laid lo xs mid
    → Laid mid ys hi
    → Laid lo (xs ++ ys) hi
Laid-join lo [] [] mid hi l r = omega arith
Laid-join lo [] (y ∷ ys) mid hi l (a, b, c) = (omega arith, b, c)
Laid-join lo (x ∷ xs) ys mid hi (a, b, c) r = (a, b, Laid-join (past x) xs ys mid hi c r)

pub Laid-wider :
    (lo lo' : ℕ) (xs : List Block) (hi hi' : ℕ)
    → lo' ≤ lo
    → hi ≤ hi'
    → Laid lo xs hi
    → Laid lo' xs hi'
Laid-wider lo lo' [] hi hi' l h v = omega arith
Laid-wider lo lo' (x ∷ xs) hi hi' l h (a, b, c) =
    (omega arith, b, Laid-wider (past x) (past x) xs hi hi' (omega arith) h c)

-- No block lies behind the last one, and none at or before it but itself.
pub last-in : (lo p : ℕ) (xs : List Block) (hi : ℕ) → Laid lo xs hi → lo ≤ last p xs ⊎ (xs ≡ [])
last-in lo p [] hi v = inr refl
last-in lo p (x ∷ xs) hi (a, b, c) = elim (last-in (past x) x.addr xs hi c) [
  | inl le ↦ inl (omega arith)
  | inr e ↦ inl (rw e a)
]

pub last-below : (lo p : ℕ) (xs : List Block) (hi : ℕ) → Laid lo xs hi → last p xs < hi ⊎ (xs ≡ [])
last-below lo p [] hi v = inr refl
last-below lo p (x ∷ xs) hi (a, b, c) = elim (last-below (past x) x.addr xs hi c) [
  | inl le ↦ inl le
  | inr e ↦ inl (rw e (omega (arith, Laid-le (past x) xs hi c)))
]

-- The link to what is laid out from `lo` on.
pub first-in :
    (lo : ℕ) (xs : List Block) (hi : ℕ) → Laid lo xs hi → (first xs 0 ≡ 0) ⊎ (lo ≤ first xs 0)
first-in lo [] hi v = inl refl
first-in lo (x ∷ xs) hi (a, b, c) = inr a

-- A list is empty or has a last block.
pub last-cases :
    (xs : List Block) → (xs ≡ []) ⊎ ((ws : List Block) × (t : Block) × (xs ≡ ws ++ (t ∷ [])))
last-cases [] = inl refl
last-cases (x ∷ xs) = elim (last-cases xs) [
  | inl e ↦ inr ([], x, ap (◌∷◌ x) e)
  | inr (ws, t, e) ↦ inr (x ∷ ws, t, ap (◌∷◌ x) e)
]

pub Linked-split :
    (m : Memory) (p : ℕ) (xs ys : List Block) (n : ℕ)
    → Linked m p (xs ++ ys) n
    → Linked m p xs (first ys n) × Linked m (last p xs) ys n
Linked-split m p [] ys n v = (tt, v)
Linked-split m p (x ∷ xs) ys n (a, c) =
    let (l, r) = Linked-split m x.addr xs ys n c in
    let e = rw (first-append xs ys n) at a in ((e, l), r)

pub Linked-join :
    (m : Memory) (p : ℕ) (xs ys : List Block) (n : ℕ)
    → Linked m p xs (first ys n)
    → Linked m (last p xs) ys n
    → Linked m p (xs ++ ys) n
Linked-join m p [] ys n l r = r
Linked-join m p (x ∷ xs) ys n (a, c) r =
    (rw (first-append xs ys n) a, Linked-join m x.addr xs ys n c r)

-- Memory that differs outside the blocks' addresses links them all the same.
pub Linked-same :
    (m m' : Memory) (p : ℕ) (xs : List Block) (n lo hi : ℕ)
    → Laid lo xs hi
    → ((a : ℕ) → lo ≤ a → a < hi → m' a ≡ m a)
    → Linked m p xs n
    → Linked m' p xs n
Linked-same m m' p [] n lo hi laid same v = tt
Linked-same m m' p (x ∷ xs) n lo hi (a, b, c) same (e, v) =
    let le : past x ≤ hi = Laid-le (past x) xs hi c in
    (
      same x.addr a (omega arith) ∙ e,
      Linked-same m m' x.addr xs n (past x) hi c (λ k l h. same k (omega arith) h) v,
    )

-- The block behind gets another one before it.
pub Linked-back :
    (m m' : Memory) (p q : ℕ) (xs : List Block) (n lo hi : ℕ)
    → Laid lo xs hi
    → ((a : ℕ)
        → lo ≤ a
        → a < hi
        → m' a ≡ (if a == first xs n then record (m a) { prev = q } else m a))
    → Linked m p xs n
    → Linked m' q xs n
Linked-back m m' p q [] n lo hi laid same v = tt
Linked-back m m' p q (x ∷ xs) n lo hi (a, b, c) same (e, v) =
    let le : past x ≤ hi = Laid-le (past x) xs hi c in
    (
      ground (arith, same x.addr a (omega arith), e),
      Linked-same m m' x.addr xs n (past x) hi c (λ k l h. ground (arith, same k (omega arith) h))
          v,
    )

-- The last block gets another one behind it.
pub Linked-end :
    (m m' : Memory) (p : ℕ) (xs : List Block) (n n' lo hi : ℕ)
    → Laid lo xs hi
    → ((a : ℕ)
        → lo ≤ a
        → a < hi
        → m' a ≡ (if a == last p xs then record (m a) { next = n' } else m a))
    → Linked m p xs n
    → Linked m' p xs n'
Linked-end m m' p [] n n' lo hi laid same v = tt
Linked-end m m' p (x ∷ []) n n' lo hi (a, b, c) same (e, v) =
    (ground (arith, same x.addr a (omega arith), e), tt)
Linked-end m m' p (x ∷ (y ∷ ys)) n n' lo hi (a, b, c) same (e, v) =
    let le : past x ≤ hi = Laid-le (past x) (y ∷ ys) hi c in
    elim (last-in (past x) x.addr (y ∷ ys) hi c) [
      | inl later ↦ (
        ground (arith, same x.addr a (omega arith), e),
        Linked-end m m' x.addr (y ∷ ys) n n' (past x) hi c (λ k l h. same k (omega arith) h) v,
      )
      | inr none ↦ absurd (omega (arith, ap length none))
    ]

pub record IsValid (h : Heap) (bs : List Block) : Type 0 where
  pub linked : Linked h.memory 0 bs 0
  pub laid : Laid h.heap_base bs h.heap_curr
  pub head : h.heap_head ≡ first bs 0
  pub tail : h.heap_tail ≡ last 0 bs
  pub base : 0 < h.heap_base
  pub room : h.heap_curr ≤ h.heap_end
  pub whole : h.heap_curr % 4 ≡ 0
  pub width : h.heap_end < 2 ^ 32
