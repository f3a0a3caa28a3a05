-- ===== src/Paging/Map.antt =====
-- vmm_map_page of mm/paging.c: it maps the page that it is asked for and no other.
use Prim.Native.Nat.{bit_and}
use orion_os.Base.{
  none, ℕ, ◌/◌, ◌%◌, ◌^◌, ◌<◌, ◌≡◌, refl, ◌≢◌, ◌⊎◌, inl, inr, true, some, arith, ◌==◌, ◌!=◌,
  Bool-cases, ==-eq,
}
use orion_os.Paging.{Vmm, frame_of, map_page, vmm_map_page, vmm_map_page_alloc}
use orion_os.Paging.Walk.{bit_one, IsValid}
use orion_os.Paging.Ready.{Mapped, put_page-Mapped}
use orion_os.Paging.Tables.{kept-Ready, user-Ready, new-Ready}

-- pmm_alloc_page gives no page, or one that is no directory and no table.
abbrev pub Fresh : Vmm → ℕ → Type 0
Fresh v t =
    (t ≡ 0)
    ⊎ ((frame_of t ≡ t)
        × (t ≢ v.current)
        × ((i : ℕ) → i < 1023 → v.memory v.current i % 2 ≡ 1 → frame_of (v.memory v.current i) ≢ t))

-- vmm_map_page on a valid state, for a page outside the window of the tables, a physical address of
-- 32 bits and flags that say present, where the allocator gives no frame that holds tables: either
-- the entry had no table and the allocator had no page, and nothing changes, or the state stays
-- valid, the page's addresses are translated to the physical page, and those of every other page
-- outside the window as before.
pub vmm_map_page_lem {ℓ} :
    {P : Type ℓ} (alloc : P → ℕ × P) (virt phys flags : ℕ) (v : Vmm) (p : P)
    → IsValid v
    → virt / 2 ^ 22 < 1023
    → phys < 2 ^ 32
    → flags < 4096
    → flags % 2 ≡ 1
    → Fresh v (alloc p).0
    → let (v', p') = vmm_map_page alloc virt phys flags v p in
      ((v.memory v.current (virt / 2 ^ 22) % 2 ≡ 0) × ((alloc p).0 ≡ 0) × (v' ≡ v))
      ⊎ Mapped v v' virt phys
unfolding vmm_map_page map_page
vmm_map_page_lem alloc virt phys flags v p ok inside width few present fresh =
    let d = virt / 2 ^ 22 in
    let old = v.memory v.current d in
    let bit = bit_one old in
    elim (Bool-cases (bit_and old 1 == 0)) [
      | inl absent ↦
          let gone : old % 2 ≡ 0 = ground arith in
          elim fresh [
            | inl null ↦
                let z : ((alloc p).0 == 0) ≡ true = ground arith in
                inl (gone, null, rw (vmm_map_page, map_page, absent, z) refl)
            | inr (frame, own, apart) ↦ elim (Bool-cases ((alloc p).0 == 0)) [
              | inl z ↦
                  inl (gone, ==-eq (alloc p).0 0 z, rw (vmm_map_page, map_page, absent, z) refl)
              | inr z ↦ inr (
                  rw (vmm_map_page, map_page, absent, z)
                    (put_page-Mapped v _ (alloc p).0 virt phys flags ok
                      (new-Ready v d (alloc p).0 flags ok inside gone (frame, own, apart)) inside
                      width few present))
            ]
          ]
      | inr there ↦
          let is_there : old % 2 ≡ 1 = ground arith in
          elim (Bool-cases (bit_and flags 4 != 0)) [
            | inl user ↦ inr (
                rw (vmm_map_page, map_page, there, user)
                  (put_page-Mapped v _ (frame_of old) virt phys flags ok
                    (user-Ready v d ok inside is_there) inside width few present))
            | inr kernel ↦ inr (
                rw (vmm_map_page, map_page, there, kernel)
                  (put_page-Mapped v v (frame_of old) virt phys flags ok
                    (kept-Ready v d ok inside is_there) inside width few present))
          ]
    ]

-- vmm_map_page_alloc on a valid state, for a page outside the window of the tables and flags that
-- say present, where the allocator gives pages of 32-bit addresses and, as the second one, no frame
-- that holds tables. Where there is no page it fails and no table changes. Otherwise it answers
-- success and the page that it took, and either that page is mapped (its addresses are translated to
-- it, those of every other page outside the window as before, and the state stays valid), or the
-- entry had no table and there was no second page for one, and no table has changed.
pub vmm_map_page_alloc_lem {ℓ} :
    {P : Type ℓ} (alloc : P → ℕ × P) (virt flags : ℕ) (v : Vmm) (p : P)
    → IsValid v
    → virt / 2 ^ 22 < 1023
    → (alloc p).0 < 2 ^ 32
    → flags < 4096
    → flags % 2 ≡ 1
    → Fresh v (alloc (alloc p).1).0
    → let (mapped, v', p') = vmm_map_page_alloc alloc virt flags v p in
      (((alloc p).0 ≡ 0) × (mapped ≡ none) × (v' ≡ v) × (p' ≡ (alloc p).1))
      ⊎ (((alloc p).0 ≢ 0)
          × (mapped ≡ some (alloc p).0)
          × (Mapped v v' virt (alloc p).0
              ⊎ ((v.memory v.current (virt / 2 ^ 22) % 2 ≡ 0)
                  × ((alloc (alloc p).1).0 ≡ 0)
                  × (v' ≡ v))))
unfolding vmm_map_page_alloc
vmm_map_page_alloc_lem alloc virt flags v p ok inside width few present fresh =
    elim (Bool-cases ((alloc p).0 == 0)) [
      | inl null ↦ rw (vmm_map_page_alloc, null) (inl (==-eq (alloc p).0 0 null, refl, refl, refl))
      | inr page ↦
          let mapping =
            vmm_map_page_lem alloc virt (alloc p).0 flags v (alloc p).1 ok inside width few present
              fresh in
          rw (vmm_map_page_alloc, page)
            (inr (
              (λ z. ground arith),
              refl,
              elim mapping [
                | inl (gone, none_left, same) ↦ inr (gone, none_left, same)
                | inr mapped ↦ inl mapped
              ],
            ))
    ]
