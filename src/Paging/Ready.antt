-- ===== src/Paging/Ready.antt =====
-- What one more entry in a table changes of the walk, for mm/paging.c.
use orion_os.Base.{
  ℕ, ◌+◌, ◌*◌, ◌/◌, ◌%◌, ◌^◌, ◌<◌, ◌≡◌, refl, sym, ap, ◌∙◌, ◌≢◌, ◌⊎◌, inl, inr, true, false, some,
  arith, ◌==◌, Bool-cases, ==-eq, subst,
}
use orion_os.Paging.{Vmm, put, frame_of, table_at, put_page, vmm_virt_to_phys}
use orion_os.Paging.Walk.{table_idx_lem, entry_lem, IsValid, target, walk, vmm_virt_to_phys_lem}

-- A state with a table `t` for the entry `d` of the current directory that maps what was mapped.
pub record Ready (v v' : Vmm) (d t : ℕ) : Type 0 where
  pub on : v'.enabled ≡ true
  pub current : v'.current ≡ v.current
  pub present : v'.memory v.current d % 2 ≡ 1
  pub frame : frame_of (v'.memory v.current d) ≡ t
  pub entries : (i : ℕ) → i ≢ d → v'.memory v.current i ≡ v.memory v.current i
  pub others : (f k : ℕ) → f ≢ v.current → f ≢ t → v'.memory f k ≡ v.memory f k
  pub table :
      (i w : ℕ)
      → target (v.memory v.current d) (v.memory (frame_of (v.memory v.current d)) i) w
        ≡ target (v'.memory v.current d) (v'.memory t i) w
  pub own : t ≢ v.current
  pub apart :
      (i : ℕ)
      → i < 1023
      → i ≢ d
      → v.memory v.current i % 2 ≡ 1
      → frame_of (v.memory v.current i) ≢ t

module _ (v v1 : Vmm) (d t ti pte : ℕ) (ok : IsValid v) (r : Ready v v1 d t)
    (in_dir : d < 1023) where
  abbrev pub after : Vmm
  after = put t ti pte v1

  kept : (i : ℕ) → i ≢ d → after.memory v.current i ≡ v.memory v.current i
  kept i ne = let own = r.own in let e = r.entries i ne in ground arith

  entry : after.memory v.current d ≡ v1.memory v.current d
  entry = let own = r.own in ground arith

  entry_frame : frame_of (after.memory v.current d) ≡ t
  entry_frame = ap frame_of entry ∙ r.frame

  abbrev Distinct : ℕ → Type 0
  Distinct c =
      (i j : ℕ)
      → i < 1023
      → j < 1023
      → i ≢ j
      → after.memory c i % 2 ≡ 1
      → after.memory c j % 2 ≡ 1
      → frame_of (after.memory c i) ≢ frame_of (after.memory c j)

  -- The table of another entry is not the one of `d`.
  not_d :
      (i : ℕ)
      → i < 1023
      → i ≢ d
      → after.memory v.current i % 2 ≡ 1
      → frame_of (after.memory v.current i) ≢ frame_of (after.memory v.current d)
  not_d i hi ne present e =
      r.apart i hi ne (ap (λ (x : ℕ). x % 2) (sym (kept i ne)) ∙ present)
        (ap frame_of (sym (kept i ne)) ∙ e ∙ entry_frame)

  distinct : Distinct v.current
  distinct i j hi hj ne pi pj = elim (Bool-cases (i == d)) [
    | inl e ↦
        let at : i ≡ d = ==-eq i d e in
        λ same.
          not_d j hj (λ z. ne (at ∙ sym z)) pj
            (sym same ∙ ap (λ (k : ℕ). frame_of (after.memory v.current k)) at)
    | inr e ↦
        let off : i ≢ d = λ z. ground arith in
        elim (Bool-cases (j == d)) [
          | inl e' ↦
              let at : j ≡ d = ==-eq j d e' in
              λ same.
                not_d i hi off pi (same ∙ ap (λ (k : ℕ). frame_of (after.memory v.current k)) at)
          | inr e' ↦
              let off' : j ≢ d = λ z. ground arith in
              λ same.
                ok.apart i j hi hj ne (ap (λ (x : ℕ). x % 2) (sym (kept i off)) ∙ pi)
                  (ap (λ (x : ℕ). x % 2) (sym (kept j off')) ∙ pj)
                  (ap frame_of (sym (kept i off)) ∙ same ∙ ap frame_of (kept j off'))
        ]
  ]

  away :
      (i : ℕ)
      → i < 1023
      → after.memory v.current i % 2 ≡ 1
      → frame_of (after.memory v.current i) ≢ v.current
  away i hi present = elim (Bool-cases (i == d)) [
    | inl e ↦
        let at : i ≡ d = ==-eq i d e in
        λ z.
          r.own (sym entry_frame ∙ ap (λ (k : ℕ). frame_of (after.memory v.current k)) (sym at) ∙ z)
    | inr e ↦
        let off : i ≢ d = λ z. ground arith in
        λ z.
          ok.tables i hi (ap (λ (x : ℕ). x % 2) (sym (kept i off)) ∙ present)
            (ap frame_of (sym (kept i off)) ∙ z)
  ]

  pub after-IsValid : IsValid after
  after-IsValid = record {
    on = r.on;
    self =
        subst (λ (c : ℕ). frame_of (after.memory c 1023) ≡ c) (sym r.current)
          (ap frame_of (kept 1023 (λ e. omega arith)) ∙ ok.self);
    tables =
        subst
          (λ (c : ℕ).
            (i : ℕ) → i < 1023 → after.memory c i % 2 ≡ 1 → frame_of (after.memory c i) ≢ c)
          (sym r.current) away;
    apart = subst Distinct (sym r.current) distinct;
  }

  pub hit :
      (virt : ℕ)
      → virt / 2 ^ 22 ≡ d
      → virt / 4096 % 1024 ≡ ti
      → pte % 2 ≡ 1
      → walk after.memory v.current virt ≡ some (pte / 4096 % 2 ^ 20 * 4096 + virt % 4096)
  hit virt ed et present =
      let there : after.memory v.current d % 2 ≡ 1 = ap (λ (x : ℕ). x % 2) entry ∙ r.present in
      let page : after.memory t ti ≡ pte = ground arith in
      let marked : (pte % 2 == 0) ≡ false = ground arith in
      let used : (after.memory v.current d % 2 == 0) ≡ false = ground arith in
      (λ i.
        target (after.memory v.current (ed i))
          (after.memory (frame_of (after.memory v.current (ed i))) (et i)) virt)
      ∙ (λ i. target (after.memory v.current d) (after.memory (entry_frame i) ti) virt)
      ∙ (λ i. target (after.memory v.current d) (page i) virt)
      ∙ rw (used, marked) refl

  same_target :
      (k w pde : ℕ)
      → (pde % 2 ≡ 1 → frame_of pde ≢ v.current)
      → (pde % 2 ≡ 1 → frame_of pde ≢ t)
      → target pde (after.memory (frame_of pde) k) w ≡ target pde (v.memory (frame_of pde) k) w
  same_target k w pde not_dir not_t = elim (Bool-cases (pde % 2 == 0)) [
    | inl absent ↦ rw absent refl
    | inr there ↦
        let present : pde % 2 ≡ 1 = ground arith in
        let other = not_t present in
        let left : after.memory (frame_of pde) k ≡ v1.memory (frame_of pde) k = ground arith in
        λ i. target pde ((left ∙ r.others (frame_of pde) k (not_dir present) other) i) w
  ]

  other_table :
      (w : ℕ)
      → w / 2 ^ 22 < 1023
      → w / 2 ^ 22 ≢ d
      → walk after.memory v.current w ≡ walk v.memory v.current w
  other_table w inside off =
      let j = w / 2 ^ 22 in
      let k = w / 4096 % 1024 in
      (λ i. target (kept j off i) (after.memory (frame_of (kept j off i)) k) w)
      ∙ same_target k w (v.memory v.current j) (λ present. ok.tables j inside present)
          (λ present. r.apart j inside off present)

  pub miss :
      (w : ℕ)
      → w / 2 ^ 22 < 1023
      → (w / 2 ^ 22 ≢ d) ⊎ (w / 4096 % 1024 ≢ ti)
      → walk after.memory v.current w ≡ walk v.memory v.current w
  miss w inside (inl off) = other_table w inside off
  miss w inside (inr off) = elim (Bool-cases (w / 2 ^ 22 == d)) [
    | inr e ↦ other_table w inside (λ z. ground arith)
    | inl e ↦
        let at : w / 2 ^ 22 ≡ d = ==-eq (w / 2 ^ 22) d e in
        let k = w / 4096 % 1024 in
        let left : after.memory t k ≡ v1.memory t k = ground arith in
        (λ i.
          target (after.memory v.current (at i))
            (after.memory (frame_of (after.memory v.current (at i))) k) w)
        ∙ (λ i. target (entry i) (after.memory (entry_frame i) k) w)
        ∙ (λ i. target (v1.memory v.current d) (left i) w)
        ∙ sym (r.table k w)
        ∙ (λ i.
            target (v.memory v.current (sym at i))
              (v.memory (frame_of (v.memory v.current (sym at i))) k) w)
  ]

-- `virt` is mapped to `phys`, and every other page as it was.
pub record Mapped (v v' : Vmm) (virt phys : ℕ) : Type 0 where
  pub valid : IsValid v'
  pub page : vmm_virt_to_phys virt v' ≡ some (phys / 4096 * 4096 + virt % 4096)
  pub others :
      (w : ℕ)
      → w / 2 ^ 22 < 1023
      → w / 4096 ≢ virt / 4096
      → vmm_virt_to_phys w v' ≡ vmm_virt_to_phys w v

elsewhere :
    (w virt : ℕ)
    → w / 4096 ≢ virt / 4096
    → (w / 2 ^ 22 ≢ virt / 2 ^ 22) ⊎ (w / 4096 % 1024 ≢ virt / 4096 % 1024)
elsewhere w virt ne = elim (Bool-cases (w / 2 ^ 22 == virt / 2 ^ 22)) [
  | inl e ↦
      let at : w / 2 ^ 22 ≡ virt / 2 ^ 22 = ==-eq (w / 2 ^ 22) (virt / 2 ^ 22) e in
      inr (λ z. ne (omega arith))
  | inr e ↦ inl (λ z. ground arith)
]

pub put_page-Mapped :
    (v v1 : Vmm) (t virt phys flags : ℕ)
    → IsValid v
    → Ready v v1 (virt / 2 ^ 22) t
    → virt / 2 ^ 22 < 1023
    → phys < 2 ^ 32
    → flags < 4096
    → flags % 2 ≡ 1
    → Mapped v (put_page v.current virt phys flags v1) virt phys
unfolding put_page
put_page-Mapped v v1 t virt phys flags ok r inside width few present =
    let d = virt / 2 ^ 22 in
    let ti = virt / 4096 % 1024 in
    let pte = phys / 4096 * 4096 + flags in
    let last : frame_of (v1.memory v1.current 1023) ≡ v.current =
      (λ i. frame_of (v1.memory (r.current i) 1023))
      ∙ ap frame_of (r.entries 1023 (λ e. omega arith))
      ∙ ok.self in
    let found : table_at v.current d v1 ≡ t =
      rw r.on ((λ i. frame_of (v1.memory (last i) d)) ∙ r.frame) in
    let same : put_page v.current virt phys flags v1 ≡ put t ti pte v1 =
      λ i. put (found i) (table_idx_lem virt i) (entry_lem phys flags few width i) v1 in
    let valid = after-IsValid v v1 d t ti pte ok r inside in
    let v' = put t ti pte v1 in
    let frame : pte / 4096 % 2 ^ 20 * 4096 + virt % 4096 ≡ phys / 4096 * 4096 + virt % 4096 =
      omega arith in
    let marked : pte % 2 ≡ 1 = omega arith in
    subst (λ (x : Vmm). Mapped v x virt phys) (sym same)
      (record {
        valid = valid;
        page =
            vmm_virt_to_phys_lem virt valid
            ∙ (λ i. walk v'.memory (r.current i) virt)
            ∙ hit v v1 d t ti pte ok r inside virt refl refl marked
            ∙ ap some frame;
        others = λ w in_w ne.
            vmm_virt_to_phys_lem w valid
            ∙ (λ i. walk v'.memory (r.current i) w)
            ∙ miss v v1 d t ti pte ok r inside w in_w (elsewhere w virt ne)
            ∙ sym (vmm_virt_to_phys_lem w ok);
      })
