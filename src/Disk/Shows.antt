-- ===== src/Disk/Shows.antt =====
-- fs/disk.c and fs/fs_quick.h: what a drive shows of the file system that it holds, said of its
-- sectors, and that the quick probe and the NTFS filter find just that.
use Prim.Native.String.{String}
use orion_os.Base.{
  ℕ, zero, suc, ◌+◌, ◌≤◌, ◌<◌, ◌≡◌, ◌≢◌, refl, sym, ap, ◌∙◌, true, false, Option, none, some, List,
  arith, ◌==◌, ◌!=◌, not, if◌then◌else◌, if-each, Bool-cases, Option-cases, inl, inr,
}
use mathlib.Core.Option.{some-injective}
use orion_os.Disk.{
  DiskInfo, FsKind, fsq_unknown, has_55aa, fs_quick_probe, part_kind, first_part, part_lba,
  part_type, is_xvfs_sig, is_xvfs_sig_at, is_fat_sig, is_ntfs, fat16_sig, fat32_sig, is_none,
  probed_base, type_name, filter_ntfs,
}

-- The first of the entries from `k` up to `k + n` that is in use.
abbrev pub FirstPart : List ℕ → ℕ → ℕ → Option ℕ → Type 0
FirstPart sec n k none = (j : ℕ) → k ≤ j → j < k + n → part_type sec j ≡ 0
FirstPart sec n k (some i) =
    (k ≤ i) × (i < k + n) × (part_type sec i ≢ 0) × ((j : ℕ) → k ≤ j → j < i → part_type sec j ≡ 0)

FirstPart-skip :
    (sec : List ℕ) (n k : ℕ) (r : Option ℕ)
    → part_type sec k ≡ 0
    → FirstPart sec n (k + 1) r
    → FirstPart sec (suc n) k r
FirstPart-skip sec n k none empty rest = λ j lo hi. elim (Bool-cases (k == j)) [
  | inl e ↦ let same : k ≡ j = ground arith in rw (← same) empty
  | inr e ↦ rest j (ground arith) (omega arith)
]
FirstPart-skip sec n k (some i) empty (lo, hi, used, before) = (
  omega arith,
  omega arith,
  used,
  λ j lo' hi'. elim (Bool-cases (k == j)) [
    | inl e ↦ let same : k ≡ j = ground arith in rw (← same) empty
    | inr e ↦ before j (ground arith) hi'
  ],
)

first_part_lem : (sec : List ℕ) (n k : ℕ) → FirstPart sec n k (first_part sec n k)
unfolding first_part
first_part_lem sec zero k = λ j lo hi. absurd (omega arith)
first_part_lem sec (suc n) k =
    if-each (FirstPart sec (suc n) k) (part_type sec k != 0)
      (λ used. (omega arith, omega arith, (λ z. ground arith), (λ j lo hi. absurd (omega arith))))
      (λ empty.
        FirstPart-skip sec n k (first_part sec n (k + 1)) (ground arith)
          (first_part_lem sec n (k + 1)))

module _ (ata_read : ℕ → ℕ → Option (List ℕ)) (d : ℕ) where
  -- What the first sector of a partition at `base` says it holds.
  pub data Part (base : ℕ) : String → Type 0 where
    unreadable : ata_read d base ≡ none → Part base "MBR"
    unsigned : (sec : List ℕ) → ata_read d base ≡ some sec → has_55aa sec ≡ false → Part base "MBR"
    fat16 :
        (sec : List ℕ)
        → ata_read d base ≡ some sec
        → has_55aa sec ≡ true
        → is_fat_sig sec fat16_sig ≡ true
        → Part base "FAT16"
    fat32 :
        (sec : List ℕ)
        → ata_read d base ≡ some sec
        → has_55aa sec ≡ true
        → is_fat_sig sec fat16_sig ≡ false
        → is_fat_sig sec fat32_sig ≡ true
        → Part base "FAT32"
    xvfs :
        (sec : List ℕ)
        → ata_read d base ≡ some sec
        → has_55aa sec ≡ true
        → is_fat_sig sec fat16_sig ≡ false
        → is_fat_sig sec fat32_sig ≡ false
        → is_xvfs_sig_at ata_read d base ≡ true
        → Part base "XVFS"
    unknown :
        (sec : List ℕ)
        → ata_read d base ≡ some sec
        → has_55aa sec ≡ true
        → is_fat_sig sec fat16_sig ≡ false
        → is_fat_sig sec fat32_sig ≡ false
        → is_xvfs_sig_at ata_read d base ≡ false
        → Part base "MBR"

  -- What a drive with the first sector `sec` holds, and from which sector on.
  pub data Holds (sec : List ℕ) : String → ℕ → Type 0 where
    no_boot : has_55aa sec ≡ false → Holds sec "Unknown" 0
    whole_xvfs : has_55aa sec ≡ true → is_xvfs_sig ata_read d ≡ true → Holds sec "XVFS" 0
    whole_fat16 :
        has_55aa sec ≡ true
        → is_xvfs_sig ata_read d ≡ false
        → is_fat_sig sec fat16_sig ≡ true
        → Holds sec "FAT16" 0
    whole_fat32 :
        has_55aa sec ≡ true
        → is_xvfs_sig ata_read d ≡ false
        → is_fat_sig sec fat16_sig ≡ false
        → is_fat_sig sec fat32_sig ≡ true
        → Holds sec "FAT32" 0
    no_part :
        has_55aa sec ≡ true
        → is_xvfs_sig ata_read d ≡ false
        → is_fat_sig sec fat16_sig ≡ false
        → is_fat_sig sec fat32_sig ≡ false
        → FirstPart sec 4 0 none
        → Holds sec "Unknown" 0
    part :
        (i : ℕ) (name : String)
        → has_55aa sec ≡ true
        → is_xvfs_sig ata_read d ≡ false
        → is_fat_sig sec fat16_sig ≡ false
        → is_fat_sig sec fat32_sig ≡ false
        → FirstPart sec 4 0 (some i)
        → Part (part_lba sec i) name
        → Holds sec name (part_lba sec i)

  -- The sector at `base` can be read and says NTFS.
  abbrev pub Ntfs : ℕ → Type 0
  Ntfs base = (sec : List ℕ) × (ata_read d base ≡ some sec) × (is_ntfs sec ≡ true)

  -- The entry of the table of drives that the drive calls for.
  pub data Shows : DiskInfo → Type 0 where
    absent :
        ata_read d 0 ≡ none
        → Shows (record { present = false; id = d; fs_type = "None"; base_lba = 0 })
    ntfs :
        (sec : List ℕ) (name : String) (base : ℕ)
        → ata_read d 0 ≡ some sec
        → Holds sec name base
        → Ntfs base
        → Shows (record { present = true; id = d; fs_type = "Unknown"; base_lba = base })
    held :
        (sec : List ℕ) (name : String) (base : ℕ)
        → ata_read d 0 ≡ some sec
        → Holds sec name base
        → (Ntfs base → ⊥)
        → Shows (record { present = true; id = d; fs_type = name; base_lba = base })

  abbrev Named : ℕ → FsKind → Type 0
  Named base k = Part base (type_name k) × (is_none k ≡ false)

  part_kind-Part : (base : ℕ) → Named base (part_kind ata_read d base)
  unfolding part_kind type_name
  part_kind-Part base = elim (Option-cases (ata_read d base)) [
    | inl e ↦ rw (part_kind, e) (unreadable e, refl)
    | inr (sec, e) ↦
        rw (part_kind, e)
          (if-each (Named base) (has_55aa sec)
            (λ boot.
              if-each (Named base) (is_fat_sig sec fat16_sig) (λ f16. (fat16 sec e boot f16, refl))
                (λ n16.
                  if-each (Named base) (is_fat_sig sec fat32_sig)
                    (λ f32. (fat32 sec e boot n16 f32, refl))
                    (λ n32.
                      if-each (Named base) (is_xvfs_sig_at ata_read d base)
                        (λ x. (xvfs sec e boot n16 n32 x, refl))
                        (λ nx. (unknown sec e boot n16 n32 nx, refl)))))
            (λ none_there. (unsigned sec e none_there, refl)))
  ]

  abbrev Probed : List ℕ → FsKind × Option ℕ → Type 0
  Probed sec r = Holds sec (type_name r.0) (probed_base r) × (is_none r.0 ≡ false)

  table :
      (sec : List ℕ)
      → has_55aa sec ≡ true
      → is_xvfs_sig ata_read d ≡ false
      → is_fat_sig sec fat16_sig ≡ false
      → is_fat_sig sec fat32_sig ≡ false
      → (r : Option ℕ) → FirstPart sec 4 0 r
      → Probed sec (elim r [
        | none ↦ (fsq_unknown, none)
        | some i ↦ (part_kind ata_read d (part_lba sec i), some (part_lba sec i))
      ])
  unfolding type_name
  table sec boot nx n16 n32 none f = (no_part boot nx n16 n32 f, refl)
  table sec boot nx n16 n32 (some i) f =
      let (holds, there) = part_kind-Part (part_lba sec i) in
      (part i _ boot nx n16 n32 f holds, there)

  fs_quick_probe-Holds :
      (sec : List ℕ) → ata_read d 0 ≡ some sec → Probed sec (fs_quick_probe ata_read d)
  unfolding fs_quick_probe type_name
  fs_quick_probe-Holds sec e =
      rw (fs_quick_probe, e)
        (if-each (Probed sec) (not (has_55aa sec)) (λ off. (no_boot (ground arith), refl))
          (λ on.
            let boot : has_55aa sec ≡ true = ground arith in
            if-each (Probed sec) (is_xvfs_sig ata_read d) (λ x. (whole_xvfs boot x, refl))
              (λ nx.
                if-each (Probed sec) (is_fat_sig sec fat16_sig)
                  (λ f16. (whole_fat16 boot nx f16, refl))
                  (λ n16.
                    if-each (Probed sec) (is_fat_sig sec fat32_sig)
                      (λ f32. (whole_fat32 boot nx n16 f32, refl))
                      (λ n32.
                        table sec boot nx n16 n32 (first_part sec 4 0) (first_part_lem sec 4 0))))))

  filter_ntfs-Shows :
      (sec : List ℕ) (kind : FsKind) (base : ℕ)
      → ata_read d 0 ≡ some sec
      → Holds sec (type_name kind) base
      → Shows (record {
        present = true;
        id = d;
        fs_type = type_name (filter_ntfs ata_read d base kind);
        base_lba = base;
      })
  unfolding filter_ntfs type_name
  filter_ntfs-Shows sec kind base e holds = elim (Option-cases (ata_read d base)) [
    | inl gone ↦
        rw (filter_ntfs, gone)
          (held sec (type_name kind) base e holds (λ (s, there, is). absurd (ground arith)))
    | inr (s, there) ↦ elim (Bool-cases (is_ntfs s)) [
      | inl yes_it ↦
          rw (filter_ntfs, there, yes_it)
            (ntfs sec (type_name kind) base e holds (s, there, yes_it))
      | inr not_it ↦
          rw (filter_ntfs, there, not_it)
            (held sec (type_name kind) base e holds (λ (s', there', is).
              let same : s ≡ s' = some-injective s s' (sym there ∙ there') in
              let bad : false ≡ true = sym not_it ∙ ap (λ (x : List ℕ). is_ntfs x) same ∙ is in
              ground arith))
    ]
  ]

  pub probed-Shows :
      let r = fs_quick_probe ata_read d in
      Shows (
        if is_none r.0
        then record { present = false; id = d; fs_type = "None"; base_lba = 0 }
        else (record {
          present = true;
          id = d;
          fs_type = type_name (filter_ntfs ata_read d (probed_base r) r.0);
          base_lba = probed_base r;
        }))
  unfolding fs_quick_probe
  probed-Shows = elim (Option-cases (ata_read d 0)) [
    | inl gone ↦ rw (fs_quick_probe, gone) (absent gone)
    | inr (sec, e) ↦
        let (holds, there) = fs_quick_probe-Holds sec e in
        rw there (filter_ntfs-Shows sec _ _ e holds)
  ]
