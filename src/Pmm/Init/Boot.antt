-- ===== src/Pmm/Init/Boot.antt =====
-- pmm_init: what the allocator knows after boot, for a memory map of whole pages.
use orion_os.Base.{
  fill, length-fill, get_or-fill, ℕ, ◌+◌, ◌*◌, ◌/◌, ◌%◌, ◌^◌, ◌≤◌, ◌<◌, ◌≡◌, refl, sym, subst, true,
  false, arith, ◌==◌, Bool-cases, inl, inr, ◌⊎◌, ◌∙◌, List, [], ◌∷◌, ◌++◌, get_or,
}
use orion_os.Base.Bitmap.{byte_test, every, every-instance, bit_test}
use orion_os.Pmm.{Pmm, page_size, max_pages, pmm_reserve_region}
use orion_os.Pmm.Init.{
  MmapEntry, Tag, mmap, loaded, other, add_entry, add_entries, add_maps, reserve_modules, pmm_init,
}
use orion_os.Pmm.Invariant.{IsValid, count_free-le}
use orion_os.Pmm.Reserve.{pmm_reserve_region-Reserved}
use orion_os.Pmm.Init.Open.{
  Booting, first_of, past_of, IsMap, Unopened, add_entry-Opened, add_entry-skips,
  Unopened-add_entry,
}

-- `j` is a page of a usable entry of the map.
abbrev pub Usable : ℕ → List MmapEntry → Type 0
Usable j [] = ⊥
Usable j (e ∷ es) = ((e.kind ≡ 1) × (first_of e ≤ j) × (j < past_of e)) ⊎ Usable j es

add_entries-Booting :
    (es : List MmapEntry) {s : Pmm}
    → Booting s
    → IsMap es
    → Unopened es s
    → Booting (add_entries es s)
      × ((j : ℕ)
          → bit_test (add_entries es s).pmm_bitmap j ≡ false
          → (bit_test s.pmm_bitmap j ≡ false) ⊎ Usable j es)
unfolding add_entries
add_entries-Booting [] b ok un = (b, λ j h. inl h)
add_entries-Booting (e ∷ es) {s} b ok un = elim (Bool-cases (e.kind == 1)) [
  | inl u ↦
      let usable : e.kind ≡ 1 = ground arith in
      let (b', bits) = add_entry-Opened e b ok.0 usable (un.0 usable) in
      let (done, from) =
        add_entries-Booting es b' ok.2
          (Unopened-add_entry e es b ok.0 usable (un.0 usable) ok.1 ok.2 un.1) in
      (done, λ j h. ground (arith, from j h, bits j))
  | inr u ↦
      let same : add_entry e s ≡ s = add_entry-skips e s (ground arith) in
      let (done, from) =
        add_entries-Booting es (subst Booting (sym same) b) ok.2
          (subst (Unopened es) (sym same) un.1) in
      (done, λ j h. ground (arith, from j h, same))
]

-- The entries of all memory-map tags, in order.
abbrev pub entries_of : List Tag → List MmapEntry
entries_of [] = []
entries_of (mmap es ∷ ts) = es ++ entries_of ts
entries_of (loaded a b ∷ ts) = entries_of ts
entries_of (other ∷ ts) = entries_of ts

add_entries-append :
    (es fs : List MmapEntry) (s : Pmm)
    → add_entries (es ++ fs) s ≡ add_entries fs (add_entries es s)
unfolding add_entries
add_entries-append [] fs s = refl
add_entries-append (e ∷ es) fs s = add_entries-append es fs (add_entry e s)

add_maps-entries : (ts : List Tag) (s : Pmm) → add_maps ts s ≡ add_entries (entries_of ts) s
unfolding add_maps add_entries
add_maps-entries [] s = refl
add_maps-entries (mmap es ∷ ts) s =
    add_maps-entries ts (add_entries es s) ∙ sym (add_entries-append es (entries_of ts) s)
add_maps-entries (loaded a b ∷ ts) s = add_maps-entries ts s
add_maps-entries (other ∷ ts) s = add_maps-entries ts s

-- Every module ends a page or more below 4 GiB.
abbrev pub ModulesFit : List Tag → Type 0
ModulesFit [] = Unit {0}
ModulesFit (mmap es ∷ ts) = ModulesFit ts
ModulesFit (loaded a b ∷ ts) = (b + page_size ≤ 2 ^ 32) × ModulesFit ts
ModulesFit (other ∷ ts) = ModulesFit ts

-- A page that is managed and free.
abbrev pub Free : ℕ → Pmm → Type 0
Free j s = (j < s.max_physical_page) × (bit_test s.pmm_bitmap j ≡ false)

-- The page `j` holds no byte of the region from `a` up to `b`.
abbrev pub Avoids : ℕ → ℕ → ℕ → Type 0
Avoids a b j = (b ≤ j * page_size) ⊎ ((j + 1) * page_size ≤ a)

abbrev pub AvoidsModules : ℕ → List Tag → Type 0
AvoidsModules j [] = Unit {0}
AvoidsModules j (mmap es ∷ ts) = AvoidsModules j ts
AvoidsModules j (loaded a b ∷ ts) = Avoids a b j × AvoidsModules j ts
AvoidsModules j (other ∷ ts) = AvoidsModules j ts

-- A reservation keeps the state valid; what is free afterwards was free, and outside the region.
reserve-frees :
    (a b : ℕ) {s : Pmm}
    → IsValid s
    → b + page_size ≤ 2 ^ 32
    → IsValid (pmm_reserve_region a b s)
      × ((j : ℕ) → Free j (pmm_reserve_region a b s) → Free j s × Avoids a b j)
reserve-frees a b {s} v fits =
    let r = pmm_reserve_region-Reserved a b v in
    (r.valid, λ j (h, free). ground (arith, r.bits j, r.bound))

reserve_modules-frees :
    (ts : List Tag) {s : Pmm}
    → IsValid s
    → ModulesFit ts
    → IsValid (reserve_modules ts s)
      × ((j : ℕ) → Free j (reserve_modules ts s) → Free j s × AvoidsModules j ts)
unfolding reserve_modules
reserve_modules-frees [] v fits = (v, λ j h. (h, tt))
reserve_modules-frees (mmap es ∷ ts) v fits = reserve_modules-frees ts v fits
reserve_modules-frees (loaded a b ∷ ts) v fits =
    let (v', one) = reserve-frees a b v fits.0 in
    let (v'', more) = reserve_modules-frees ts v' fits.1 in
    (v'', λ j h. let (g, out) = more j h in let (g', out') = one j g in (g', (out', out)))
reserve_modules-frees (other ∷ ts) v fits = reserve_modules-frees ts v fits

all_ones : (k : ℕ) → k < 8 → byte_test 0xFF k ≡ true
unfolding every
all_ones k h = every-instance 8 k (byte_test 0xFF) h refl

abbrev blank : List ℕ → Pmm
blank a = record { pmm_bitmap = a; total_memory = 0; free_memory = 0; max_physical_page = 0 }

blank-Booting :
    (n : ℕ)
    → n ≡ 131072
    → Booting (blank (fill 0xFF n)) × ((j : ℕ) → j < max_pages → bit_test (fill 0xFF n) j ≡ true)
unfolding bit_test
blank-Booting n size =
    let used : (j : ℕ) → j < max_pages → bit_test (fill 0xFF n) j ≡ true = λ j h.
      let e : get_or {A = ℕ} (fill 0xFF n) (j / 8) 0 ≡ 0xFF =
        ground (arith, get_or-fill 0xFF n (j / 8)) in
      rw e (all_ones (j % 8) (omega arith)) in
    (
      record {
        valid = record {
          bytes = λ i. ground (arith, get_or-fill 0xFF n i);
          within = omega arith;
          small = omega (arith, length-fill {A = ℕ} 0xFF n);
          accounted = omega (arith, count_free-le (fill 0xFF n) 0);
        };
        full_size = length-fill {A = ℕ} 0xFF n ∙ size;
        rest = λ j lo hi. used j hi;
      },
      used,
    )

Unopened-all :
    (es : List MmapEntry) (s : Pmm)
    → ((j : ℕ) → j < max_pages → bit_test s.pmm_bitmap j ≡ true)
    → IsMap es
    → Unopened es s
Unopened-all [] s used ok = tt
Unopened-all (e ∷ es) s used ok =
    (λ usable j lo hi. used j (omega (arith, ok.0 usable)), Unopened-all es s used ok.2)

-- What `tags` and the linker must say for boot to be exact: usable memory in whole pages below
-- 4 GiB and without overlap, and the other regions ending a page below 4 GiB.
pub record IsBootable (kernel_end mb_info_addr total_size : ℕ) (tags : List Tag) : Type 0 where
  pub is_map : IsMap (entries_of tags)
  pub kernel_fits : kernel_end + page_size ≤ 2 ^ 32
  pub info_fits : mb_info_addr + total_size + page_size ≤ 2 ^ 32
  pub modules_fit : ModulesFit tags

-- For usable memory in whole pages below 4 GiB and without overlap, and where the kernel, the
-- multiboot information and every module end at least a page below 4 GiB, boot ends in a valid state
-- (the free memory is that of the free pages), and a page that is free lies in a usable entry and
-- outside the first MiB, the kernel, the multiboot information and every module.
pub pmm_init_lem :
    (kernel_start kernel_end mb_info_addr total_size : ℕ) (tags : List Tag)
    → IsBootable kernel_end mb_info_addr total_size tags
    → let s = pmm_init kernel_start kernel_end mb_info_addr total_size tags in
      IsValid s
      × ((j : ℕ)
          → Free j s
          → Usable j (entries_of tags)
            × Avoids 0 0x100000 j
            × Avoids kernel_start kernel_end j
            × Avoids mb_info_addr (mb_info_addr + total_size) j
            × AvoidsModules j tags)
unfolding pmm_init
pmm_init_lem kernel_start kernel_end mb_info_addr total_size tags ok =
    let no_wrap : (mb_info_addr + total_size) % 2 ^ 32 ≡ mb_info_addr + total_size =
      omega (arith, ok.info_fits) in
    let (b, used) = blank-Booting (max_pages / 8) refl in
    let (mapped, from) =
      add_entries-Booting (entries_of tags) b ok.is_map
        (Unopened-all (entries_of tags) (blank (fill 0xFF (max_pages / 8))) used ok.is_map) in
    let (v₁, low) = reserve-frees 0 0x100000 mapped.valid (omega arith) in
    let (v₂, kernel) = reserve-frees kernel_start kernel_end v₁ ok.kernel_fits in
    let (v₃, info) = reserve-frees mb_info_addr (mb_info_addr + total_size) v₂ ok.info_fits in
    let (v₄, modules) = reserve_modules-frees tags v₃ ok.modules_fit in
    rw (no_wrap, add_maps-entries tags)
      (
        v₄,
        λ j h.
            let (h₃, out₄) = modules j h in
            let (h₂, out₃) = info j h₃ in
            let (h₁, out₂) = kernel j h₂ in
            let (h₀, out₁) = low j h₁ in
            let small : j < max_pages = omega (arith, h₀, mapped.valid.within, mapped.full_size) in
            (opened j (used j small) (from j h₀.1), out₁, out₂, out₃, out₄),
      )
  where
    opened :
        (j : ℕ)
        → bit_test (fill 0xFF (max_pages / 8)) j ≡ true
        → (bit_test (fill 0xFF (max_pages / 8)) j ≡ false) ⊎ Usable j (entries_of tags)
        → Usable j (entries_of tags)
    opened j e (inl e') = cc
    opened j e (inr u) = u
