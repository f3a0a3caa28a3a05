-- ===== src/Paging/Walk.antt =====
-- What the tables of mm/paging.c map: the walk from a directory to a page, and what a new entry
-- changes of it.
use Prim.Native.Nat.{bit_and, bit_or}
use orion_os.Base.{
  ℕ, ◌+◌, ◌*◌, ◌/◌, ◌%◌, ◌^◌, ◌<◌, ◌≡◌, refl, ap, ◌∙◌, ◌≢◌, inl, inr, true, Option, none, some,
  arith, ◌==◌, ◌!=◌, if◌then◌else◌, Bool-cases,
}
use orion_os.Base.Bits.{bit_and_low, bit_and_high}
use orion_os.Base.Join.{bit_or_apart, bit_or_one, bit_or_two, bit_or_four}
use orion_os.Paging.{Vmm, frame_of, table_idx, new_entry, vmm_virt_to_phys}

pub frame_of_lem : (x : ℕ) → frame_of x ≡ x / 4096 % 2 ^ 20 * 4096
unfolding frame_of
frame_of_lem x = bit_and_high 12 20 x

pub bit_one : (x : ℕ) → bit_and x 1 ≡ x % 2
bit_one x = omega (arith, bit_and_low 1 x)

pub table_idx_lem : (virt : ℕ) → table_idx virt ≡ virt / 4096 % 1024
table_idx_lem virt = bit_and_low 10 (virt / 2 ^ 12)

-- The entry of a page: a frame with flags below 4096.
pub entry_lem :
    (phys flags : ℕ)
    → flags < 4096
    → phys < 2 ^ 32
    → bit_or (frame_of phys) flags ≡ phys / 4096 * 4096 + flags
entry_lem phys flags few width =
    let e : frame_of phys ≡ phys / 4096 * 2 ^ 12 = omega (arith, frame_of_lem phys) in
    rw e (omega (arith, bit_or_apart 12 (phys / 4096) flags few))

-- An entry for a new table is present and has the table's frame.
pub new_entry_lem :
    (table flags : ℕ)
    → (frame_of (new_entry table flags) ≡ frame_of table) × (new_entry table flags % 2 ≡ 1)
unfolding new_entry
new_entry_lem table flags =
    let f = frame_of_lem table in
    let t = frame_of table in
    let e1 = bit_or_one t in
    let e2 = bit_or_two (bit_or t 1) in
    let e3 = bit_or_four (bit_or (bit_or t 1) 2) in
    let f2 = frame_of_lem (bit_or (bit_or t 1) 2) in
    let f3 = frame_of_lem (bit_or (bit_or (bit_or t 1) 2) 4) in
    elim (Bool-cases (bit_and flags 4 != 0)) [
      | inl user ↦ rw user (omega arith, omega arith)
      | inr kernel ↦ rw kernel (omega arith, omega arith)
    ]

-- The user flag changes neither the frame of an entry nor whether it is present.
pub user_entry_lem : (x : ℕ) → (frame_of (bit_or x 4) ≡ frame_of x) × (bit_or x 4 % 2 ≡ x % 2)
user_entry_lem x =
    let e = bit_or_four x in
    let f = frame_of_lem x in let f' = frame_of_lem (bit_or x 4) in (omega arith, omega arith)

-- Paging is on, the last entry of the directory points to the directory, and the tables are frames
-- of their own, each of one entry.
pub record IsValid (v : Vmm) : Type 0 where
  pub on : v.enabled ≡ true
  pub self : frame_of (v.memory v.current 1023) ≡ v.current
  pub tables :
      (i : ℕ)
      → i < 1023
      → v.memory v.current i % 2 ≡ 1
      → frame_of (v.memory v.current i) ≢ v.current
  pub apart :
      (i j : ℕ)
      → i < 1023
      → j < 1023
      → i ≢ j
      → v.memory v.current i % 2 ≡ 1
      → v.memory v.current j % 2 ≡ 1
      → frame_of (v.memory v.current i) ≢ frame_of (v.memory v.current j)

-- The address behind a directory's entry and a table's entry.
abbrev pub target : ℕ → ℕ → ℕ → Option ℕ
target pde pte virt =
    if pde % 2 == 0
    then none
    else if pte % 2 == 0
    then none
    else some (pte / 4096 % 2 ^ 20 * 4096 + virt % 4096)

abbrev pub walk : (ℕ → ℕ → ℕ) → ℕ → ℕ → Option ℕ
walk m dir virt =
    let pde = m dir (virt / 2 ^ 22) in target pde (m (frame_of pde) (virt / 4096 % 1024)) virt

-- In a valid state vmm_virt_to_phys walks the tables of the current directory.
pub vmm_virt_to_phys_lem :
    {v : Vmm} (virt : ℕ) → IsValid v → vmm_virt_to_phys virt v ≡ walk v.memory v.current virt
unfolding vmm_virt_to_phys
vmm_virt_to_phys_lem {v} virt ok =
    let pde = v.memory v.current (virt / 2 ^ 22) in
    let pte = v.memory (frame_of pde) (virt / 4096 % 1024) in
    let low : bit_and virt 4095 ≡ virt % 4096 = bit_and_low 12 virt in
    let joined : bit_or (frame_of pte) (virt % 4096) ≡ pte / 4096 % 2 ^ 20 * 4096 + virt % 4096 =
      ap (λ (x : ℕ). bit_or x (virt % 4096)) (frame_of_lem pte)
      ∙ bit_or_apart 12 (pte / 4096 % 2 ^ 20) (virt % 4096) (omega arith) in
    rw
      (
        vmm_virt_to_phys,
        ok.on,
        ok.self,
        ok.self,
        table_idx_lem virt,
        bit_one pde,
        bit_one pte,
        low,
        joined,
      )
      refl
