-- ===== src/Pmm/Init/Open.antt =====
-- The part of pmm_init that opens the usable memory of one entry of the memory map.
use orion_os.Base.{
  ℕ, zero, suc, ◌+◌, ◌-◌, ◌/◌, ◌%◌, ◌^◌, ◌≤◌, ◌<◌, ◌≡◌, ◌≢◌, refl, true, false, arith, ◌==◌,
  if◌then◌else◌, Bool-cases, inl, inr, ltb, leb, ◌&&◌, ◌⊎◌, ◌∙◌, length, List, [], ◌∷◌, min,
}
use orion_os.Base.Bitmap.{
  bit_test, bit_clear, bit_test-bit_clear, bit_clear-IsBytes, length-bit_clear, IsBytes,
}
use orion_os.Pmm.{Pmm, page_size, max_pages, mark_free, add64}
use orion_os.Pmm.Init.{MmapEntry, free_from, add_entry}
use orion_os.Pmm.Invariant.{IsValid, count_free, count_free-take, count_free-le, count_free-extend}

-- A valid state whose bitmap has its full size, with every page past the bound in use.
pub record Booting (s : Pmm) : Type 0 where
  pub valid : IsValid s
  pub full_size : length s.pmm_bitmap ≡ 131072
  pub rest : (j : ℕ) → s.max_physical_page ≤ j → j < max_pages → bit_test s.pmm_bitmap j ≡ true

abbrev pub first_of : MmapEntry → ℕ
first_of e = e.addr / page_size

abbrev pub past_of : MmapEntry → ℕ
past_of e = (e.addr + e.len) / page_size

-- The pages from `p` up to `q` are all in use.
abbrev pub InUse : ℕ → ℕ → Pmm → Type 0
InUse p q s = (j : ℕ) → p ≤ j → j < q → bit_test s.pmm_bitmap j ≡ true

-- `s'` is `s` with the pages from `p` up to `q` freed, the memory counters apart.
record Opened (p q : ℕ) (s s' : Pmm) : Type 0 where
  bits :
      (j : ℕ)
      → bit_test s'.pmm_bitmap j ≡ (if leb p j && ltb j q then false else bit_test s.pmm_bitmap j)
  bytes : IsBytes s'.pmm_bitmap
  size : length s'.pmm_bitmap ≡ length s.pmm_bitmap
  bound : s'.max_physical_page ≡ s.max_physical_page
  memory : s'.free_memory ≡ s.free_memory
  counted :
      count_free s'.pmm_bitmap s.max_physical_page
      ≡ count_free s.pmm_bitmap s.max_physical_page + (q - p)

free_from-Opened :
    (n p : ℕ) {s : Pmm}
    → IsBytes s.pmm_bitmap
    → length s.pmm_bitmap ≡ 131072
    → p + n ≤ s.max_physical_page
    → s.max_physical_page ≤ max_pages
    → InUse p (p + n) s
    → Opened p (p + n) s (free_from n p s)
unfolding free_from mark_free
free_from-Opened zero p {s} bytes size h small used = record {
  bits = λ j. ground arith;
  bytes = bytes;
  size = refl;
  bound = refl;
  memory = refl;
  counted = omega arith;
}
free_from-Opened (suc n) p {s} bytes size h small used =
    let inside : ltb p s.max_physical_page ≡ true = ground arith in
    let cleared : (j : ℕ)
        → bit_test (bit_clear s.pmm_bitmap p) j
          ≡ (if p == j then false else bit_test s.pmm_bitmap j) =
      bit_test-bit_clear s.pmm_bitmap p bytes (omega arith) in
    let s' : Pmm = record s { pmm_bitmap = bit_clear s.pmm_bitmap p } in
    let rest : Opened (p + 1) (p + 1 + n) s' (free_from n (p + 1) s') =
      free_from-Opened n (p + 1) (bit_clear-IsBytes s.pmm_bitmap p bytes (omega arith))
        (length-bit_clear s.pmm_bitmap p ∙ size) (omega arith) small
        (λ j lo hi. ground (arith, cleared j, used j (omega arith) (omega arith))) in
    let one_more : suc (count_free s.pmm_bitmap s.max_physical_page)
        ≡ count_free s'.pmm_bitmap s.max_physical_page =
      count_free-take s'.pmm_bitmap s.pmm_bitmap p s.max_physical_page (omega arith)
        (ground (arith, cleared p))
        (λ j. ground (arith, cleared j, used p (omega arith) (omega arith))) in
    rw inside (record {
      bits = λ j. ground (arith, rest.bits j, cleared j);
      bytes = rest.bytes;
      size = rest.size ∙ length-bit_clear s.pmm_bitmap p;
      bound = rest.bound;
      memory = rest.memory;
      counted = omega (arith, rest.counted, one_more);
    })

-- A usable entry of whole pages below 4 GiB.
abbrev pub Fits : MmapEntry → Type 0
Fits e = e.kind ≡ 1 → (e.addr % page_size ≡ 0) × (e.len % page_size ≡ 0) × (e.addr + e.len ≤ 2 ^ 32)

abbrev pub Apart : MmapEntry → MmapEntry → Type 0
Apart e f = e.kind ≡ 1 → f.kind ≡ 1 → (e.addr + e.len ≤ f.addr) ⊎ (f.addr + f.len ≤ e.addr)

abbrev pub AllApart : MmapEntry → List MmapEntry → Type 0
AllApart e [] = Unit {0}
AllApart e (f ∷ fs) = Apart e f × AllApart e fs

-- Usable entries are whole pages below 4 GiB, and no two overlap.
abbrev pub IsMap : List MmapEntry → Type 0
IsMap [] = Unit {0}
IsMap (e ∷ es) = Fits e × AllApart e es × IsMap es

abbrev pub Unopened : List MmapEntry → Pmm → Type 0
Unopened [] s = Unit {0}
Unopened (e ∷ es) s = (e.kind ≡ 1 → InUse (first_of e) (past_of e) s) × Unopened es s

-- The bound raised to the end of an entry.
abbrev raised : MmapEntry → Pmm → Pmm
raised e s =
    if ltb s.max_physical_page (past_of e) then record s { max_physical_page = past_of e } else s

raised-Booting :
    (e : MmapEntry) {s : Pmm}
    → Booting s
    → past_of e ≤ max_pages
    → Booting (raised e s) × (past_of e ≤ (raised e s).max_physical_page)
raised-Booting e {s} b small = elim (Bool-cases (ltb s.max_physical_page (past_of e))) [
  | inl grows ↦
      let lt : s.max_physical_page < past_of e = ground arith in
      rw grows (
        record {
          valid = record {
            bytes = b.valid.bytes;
            within = omega (arith, b.full_size);
            small = b.valid.small;
            accounted = omega (
              arith,
              b.valid.accounted,
              count_free-extend s.pmm_bitmap s.max_physical_page (past_of e) (omega arith)
                  (λ j lo hi. b.rest j lo (omega arith)),
            );
          };
          full_size = b.full_size;
          rest = λ j lo hi. b.rest j (omega arith) hi;
        },
        omega arith,
      )
  | inr stays ↦ rw stays (b, ground arith)
]

raised-bitmap : (e : MmapEntry) (s : Pmm) → (raised e s).pmm_bitmap ≡ s.pmm_bitmap
raised-bitmap e s = ground arith

-- The end of `add_entry`, after its loop.
booted :
    (e : MmapEntry) {s s' : Pmm}
    → Booting s
    → Fits e
    → e.kind ≡ 1
    → past_of e ≤ s.max_physical_page
    → Opened (first_of e) (first_of e + (past_of e - first_of e)) s s'
    → Booting (record s' {
      free_memory = add64 s'.free_memory e.len;
      total_memory = add64 s'.total_memory e.len;
    })
booted e {s} {s'} b fits usable reach o = record {
  valid = record {
    bytes = o.bytes;
    within = omega (arith, o.size, o.bound, b.valid.within);
    small = omega (arith, o.size, b.full_size);
    accounted = rw o.bound (
        omega (
          arith,
          o.memory,
          o.counted,
          b.valid.accounted,
          b.valid.within,
          b.full_size,
          fits usable,
          count_free-le s'.pmm_bitmap s.max_physical_page,
        ));
  };
  full_size = o.size ∙ b.full_size;
  rest = λ j lo hi. ground (arith, o.bits j, b.rest j (omega (arith, o.bound)) hi, o.bound);
}

-- A usable entry of pages not yet opened opens them.
pub add_entry-Opened :
    (e : MmapEntry) {s : Pmm}
    → Booting s
    → Fits e
    → e.kind ≡ 1
    → InUse (first_of e) (past_of e) s
    → Booting (add_entry e s)
      × ((j : ℕ)
          → bit_test (add_entry e s).pmm_bitmap j
            ≡ (if leb (first_of e) j && ltb j (past_of e) then false else bit_test s.pmm_bitmap j))
unfolding add_entry
add_entry-Opened e {s} b fits usable closed =
    let kind : (e.kind == 1) ≡ true = ground arith in
    let no_wrap : (e.addr + e.len) % 2 ^ 64 ≡ e.addr + e.len = omega (arith, (fits usable).2) in
    let n : ℕ = past_of e - first_of e in
    let rounds : min (past_of e) max_pages - first_of e ≡ n = omega (arith, (fits usable).2) in
    let (b', reach) = raised-Booting e b (omega (arith, (fits usable).2)) in
    let same : (raised e s).pmm_bitmap ≡ s.pmm_bitmap = raised-bitmap e s in
    let o : Opened (first_of e) (first_of e + n) (raised e s)
        (free_from n (first_of e) (raised e s)) =
      free_from-Opened n (first_of e) b'.valid.bytes b'.full_size (omega (arith, reach))
        (omega (arith, b'.valid.within, b'.full_size))
        (λ j lo hi. rw same (closed j lo (omega arith))) in
    rw (kind, no_wrap, rounds)
      (booted e b' fits usable reach o, λ j. ground (arith, o.bits j, same))

-- An entry that is no usable memory is passed over.
pub add_entry-skips : (e : MmapEntry) (s : Pmm) → e.kind ≢ 1 → add_entry e s ≡ s
unfolding add_entry
add_entry-skips e s h = ground arith

-- Opening an entry leaves the pages of the entries apart from it as they were.
pub Unopened-add_entry :
    (e : MmapEntry) (fs : List MmapEntry) {s : Pmm}
    → Booting s
    → Fits e
    → e.kind ≡ 1
    → InUse (first_of e) (past_of e) s
    → AllApart e fs
    → IsMap fs
    → Unopened fs s
    → Unopened fs (add_entry e s)
Unopened-add_entry e [] b fits usable closed apart ok un = tt
Unopened-add_entry e (f ∷ fs) {s} b fits usable closed apart ok un = (
  λ usable' j lo hi. kept usable' (apart.0 usable usable') j lo hi,
  Unopened-add_entry e fs b fits usable closed apart.1 ok.2 un.1,
)
  where
    kept :
        f.kind ≡ 1
        → (e.addr + e.len ≤ f.addr) ⊎ (f.addr + f.len ≤ e.addr)
        → InUse (first_of f) (past_of f) (add_entry e s)
    kept usable' disjoint j lo hi =
        let before : bit_test s.pmm_bitmap j ≡ true = un.0 usable' j lo hi in
        ground
          (arith, (add_entry-Opened e b fits usable closed).1 j, before, fits usable, ok.0 usable')
