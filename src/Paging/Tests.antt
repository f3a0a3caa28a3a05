-- ===== src/Paging/Tests.antt =====
-- Runs of paging, and the theorems at a concrete state.
use orion_os.Base.{
  none, inl, ◌≢◌, sym, ◌∙◌, ℕ, ◌+◌, ◌%◌, ◌<◌, ◌≡◌, refl, ◌⊎◌, inr, true, some, arith, ◌==◌, ◌&&◌,
  if◌then◌else◌,
}
use orion_os.Paging.{map_page, Vmm, frame_of, vmm_map_page, vmm_map_page_alloc, vmm_virt_to_phys}
use orion_os.Paging.Walk
use orion_os.Paging.Walk.{vmm_virt_to_phys_lem, walk}
use orion_os.Paging.Ready.{Mapped}
use orion_os.Paging.Map.{Fresh, vmm_map_page_lem, vmm_map_page_alloc_lem}

-- The directory is at 0x5000 and has one table, at 0x6000, for the addresses from 0xC0000000 on.
abbrev tables : ℕ → ℕ → ℕ
tables f i =
    if f == 0x5000
    then (if i == 1023 then 0x5003 else if i == 768 then 0x6003 else 0)
    else if (f == 0x6000) && (i == 0)
    then 0x7003
    else 0

abbrev vmm : Vmm
vmm = record { memory = tables; enabled = true; current = 0x5000; kernel = 0x5000 }

-- The allocator gives one frame after another.
abbrev next_frame : ℕ → ℕ × ℕ
next_frame p = (p, p + 4096)

only_768 : (i : ℕ) → i < 1023 → tables 0x5000 i % 2 ≡ 1 → i ≡ 768
only_768 i lt present = ground arith

vmm-IsValid : Walk.IsValid vmm
unfolding frame_of
vmm-IsValid = record {
  on = refl;
  self = refl;
  tables = λ i lt present e.
      let there = only_768 i lt present in
      let e' : frame_of (tables 0x5000 768) ≡ 0x5000 =
        (λ k. frame_of (tables 0x5000 (sym there k))) ∙ e in
      absurd (omega arith);
  apart = λ i j hi hj ne pi pj. absurd (ne (only_768 i hi pi ∙ sym (only_768 j hj pj)));
}

translated : vmm_virt_to_phys 0xC0000ABC vmm ≡ some 0x7ABC
unfolding vmm_virt_to_phys frame_of
translated = refl

vmm_virt_to_phys_lem_example : vmm_virt_to_phys 0xC0000ABC vmm ≡ walk tables 0x5000 0xC0000ABC
vmm_virt_to_phys_lem_example = vmm_virt_to_phys_lem 0xC0000ABC vmm-IsValid

-- A page for which there is no table yet.
fresh : Fresh vmm 0x8000
unfolding frame_of
fresh = inr (
  refl,
  (λ e. omega arith),
  λ i lt present e.
      let there = only_768 i lt present in
      let e' : frame_of (tables 0x5000 768) ≡ 0x8000 =
        (λ k. frame_of (tables 0x5000 (sym there k))) ∙ e in
      absurd (omega arith),
)

vmm_map_page_lem_example :
    let (v', p') = vmm_map_page next_frame 0xC0401234 0x9000 3 vmm 0x8000 in
    ((tables 0x5000 769 % 2 ≡ 0) × (◌≡◌ {A = ℕ} 0x8000 0) × (v' ≡ vmm))
    ⊎ Mapped vmm v' 0xC0401234 0x9000
vmm_map_page_lem_example =
    vmm_map_page_lem next_frame 0xC0401234 0x9000 3 vmm 0x8000 vmm-IsValid (omega arith)
      (omega arith) (omega arith) (omega arith) fresh

-- One frame is left.
abbrev last_frame : ℕ → ℕ × ℕ
last_frame p = (p, 0)

-- The page that was taken is lost: it is answered, but not mapped.
lost : vmm_map_page_alloc last_frame 0xC0401234 3 vmm 0x8000 ≡ (some 0x8000, vmm, 0)
unfolding vmm_map_page_alloc vmm_map_page map_page
lost = refl

vmm_map_page_alloc_lem_example :
    let (mapped, v', p') = vmm_map_page_alloc last_frame 0xC0401234 3 vmm 0x8000 in
    ((◌≡◌ {A = ℕ} 0x8000 0) × (mapped ≡ none) × (v' ≡ vmm) × (◌≡◌ {A = ℕ} p' 0))
    ⊎ ((◌≢◌ {A = ℕ} 0x8000 0)
        × (mapped ≡ some 0x8000)
        × (Mapped vmm v' 0xC0401234 0x8000
            ⊎ ((tables 0x5000 769 % 2 ≡ 0) × (◌≡◌ {A = ℕ} 0 0) × (v' ≡ vmm))))
vmm_map_page_alloc_lem_example =
    vmm_map_page_alloc_lem last_frame 0xC0401234 3 vmm 0x8000 vmm-IsValid (omega arith)
      (omega arith) (omega arith) (omega arith) (inl refl)
