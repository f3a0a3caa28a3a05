-- ===== src/Disk/Detect.antt =====
-- What detection leaves in the table of drives.
use orion_os.Disk.Shows.{Shows}
use orion_os.Base.{
  ℕ, zero, suc, ◌+◌, ◌≤◌, ◌<◌, ◌≡◌, ◌≢◌, ◌↔◌, refl, true, false, Option, none, some, List, arith,
  ◌==◌, ◌!=◌, if◌then◌else◌, get_or, length, Bool-cases, Option-cases, inl, inr,
}
use orion_os.Disk.{
  DiskInfo, no_disk, Disks, max_disks, has_55aa, fs_quick_probe, part_kind, first_part, part_lba,
  part_type, is_xvfs_sig, is_fat_sig, fat16_sig, fat32_sig, is_none, probed_base, type_name,
  filter_ntfs,
}

-- The slots below `n` that are in use.
unfoldable pub count_present : List DiskInfo → ℕ → ℕ
count_present t zero = 0
count_present t (suc n) = (if (get_or t n no_disk).present then 1 else 0) + count_present t n

pub count_present-same :
    (t u : List DiskInfo) (n : ℕ)
    → ((j : ℕ) → j < n → get_or t j no_disk ≡ get_or u j no_disk)
    → count_present t n ≡ count_present u n
unfolding count_present
count_present-same t u zero same = refl
count_present-same t u (suc n) same =
    ground (arith, same n (omega arith), count_present-same t u n (λ j h. same j (omega arith)))

-- The scan of the partition table stops at its first entry in use.
first_part-finds :
    (sec : List ℕ) (n k i : ℕ)
    → k ≤ i
    → i < k + n
    → part_type sec i ≢ 0
    → ((j : ℕ) → k ≤ j → j < i → part_type sec j ≡ 0)
    → first_part sec n k ≡ some i
unfolding first_part
first_part-finds sec zero k i lo hi used empty = absurd (omega arith)
first_part-finds sec (suc n) k i lo hi used empty = elim (Bool-cases (k == i)) [
  | inl e ↦
      let same : k ≡ i = ground arith in
      let test : (part_type sec i != 0) ≡ true = ground arith in rw (same, test) refl
  | inr e ↦
      let test : (part_type sec k != 0) ≡ false =
        ground (arith, empty k (omega arith) (ground arith)) in
      rw test (
        first_part-finds sec n (k + 1) i (ground arith) (omega arith) used
          (λ j lo' hi'. empty j (omega arith) hi'))
]

module _ (ata_read : ℕ → ℕ → Option (List ℕ)) where
  -- A drive is taken for absent exactly when its first sector cannot be read.
  pub fs_quick_probe_absent :
      (drive : ℕ) → is_none (fs_quick_probe ata_read drive).0 ≡ true ↔ (ata_read drive 0 ≡ none)
  unfolding fs_quick_probe part_kind
  fs_quick_probe_absent drive = elim (Option-cases (ata_read drive 0)) [
    | inl e ↦ rw (e, fs_quick_probe) ((λ h. refl), (λ h. refl))
    | inr (sec, e) ↦ ground (arith, e)
  ]

  -- A drive with a boot signature that holds no file system of its own is taken for what its first
  -- partition in use says, at that partition's base.
  pub fs_quick_probe_first_part :
      (drive i : ℕ) (sec : List ℕ)
      → ata_read drive 0 ≡ some sec
      → has_55aa sec ≡ true
      → is_xvfs_sig ata_read drive ≡ false
      → is_fat_sig sec fat16_sig ≡ false
      → is_fat_sig sec fat32_sig ≡ false
      → i < 4
      → part_type sec i ≢ 0
      → ((j : ℕ) → j < i → part_type sec j ≡ 0)
      → fs_quick_probe ata_read drive
        ≡ (part_kind ata_read drive (part_lba sec i), some (part_lba sec i))
  unfolding fs_quick_probe
  fs_quick_probe_first_part drive i sec read boot not_xvfs not_16 not_32 small used empty =
      let found : first_part sec 4 0 ≡ some i =
        first_part-finds sec 4 0 i (omega arith) (omega arith) used (λ j lo hi. empty j hi) in
      rw (read, fs_quick_probe, boot, not_xvfs, not_16, not_32, found) refl

  -- The slot that detection gives a drive.
  abbrev pub slot_of : ℕ → DiskInfo
  slot_of d =
      let r = fs_quick_probe ata_read d in
      if is_none r.0
      then record { present = false; id = d; fs_type = "None"; base_lba = 0 }
      else (record {
        present = true;
        id = d;
        fs_type = type_name (filter_ntfs ata_read d (probed_base r) r.0);
        base_lba = probed_base r;
      })

  -- The drives below `d` have their slots, and are counted.
  record Detected (d : ℕ) (t : Disks) : Type 0 where
    size : length t.disks ≡ max_disks
    slots : (j : ℕ) → j < d → get_or t.disks j no_disk ≡ slot_of j
    counted : t.disk_count ≡ count_present t.disks d
