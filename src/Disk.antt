-- ===== src/Disk.antt =====
-- fs/disk.c: the table of drives, the quick probe of what file system a drive holds, and the
-- detection that fills the table. Reading a sector is a parameter (drivers/ata.c); a sector that
-- cannot be read is `none`.
pub mod Shows
pub mod Detect
pub mod Rescan
mod Tests
use Prim.Native.String.{String}
use orion_os.Base.{
  ℕ, zero, suc, ◌+◌, ◌*◌, ◌%◌, ◌^◌, Bool, true, false, Option, none, some, List, [], ◌∷◌, ◌==◌,
  ◌!=◌, if◌then◌else◌, ◌&&◌, ◌||◌, get_or, set, not,
}
use orion_os.Base.Bytes.{slice}

abbrev pub max_disks : ℕ
max_disks = 8

pub data FsKind : Type 0 where
  fsq_none fsq_unknown fsq_mbr fsq_fat16 fsq_fat32 fsq_xvfs : FsKind

-- The fields of DiskInfo that detection fills; `bpb` and the regions are filled on mounting.
pub record DiskInfo : Type 0 where
  pub present : Bool
  pub id : ℕ
  pub fs_type : String
  pub base_lba : ℕ

abbrev pub no_disk : DiskInfo
no_disk = record { present = false; id = 0; fs_type = ""; base_lba = 0 }

pub record Disks : Type 0 where
  pub disks : List DiskInfo
  pub disk_count : ℕ

-- memcmp against a constant, as a test of equality.
pub same_bytes : List ℕ → List ℕ → Bool
same_bytes [] [] = true
same_bytes [] (y ∷ ys) = false
same_bytes (x ∷ xs) [] = false
same_bytes (x ∷ xs) (y ∷ ys) = x == y && same_bytes xs ys

abbrev pub byte_at : List ℕ → ℕ → ℕ
byte_at sec i = get_or sec i 0

-- A little-endian uint32_t.
abbrev pub word_at : List ℕ → ℕ → ℕ
word_at sec i =
    byte_at sec i
    + 0x100 * byte_at sec (i + 1)
    + 0x10000 * byte_at sec (i + 2)
    + 0x1000000 * byte_at sec (i + 3)

abbrev pub fat16_sig : List ℕ
fat16_sig = b'F' ∷ b'A' ∷ b'T' ∷ b'1' ∷ b'6' ∷ b' ' ∷ b' ' ∷ b' ' ∷ []

abbrev pub fat32_sig : List ℕ
fat32_sig = b'F' ∷ b'A' ∷ b'T' ∷ b'3' ∷ b'2' ∷ b' ' ∷ b' ' ∷ b' ' ∷ []

abbrev pub xvfs_sig : List ℕ
xvfs_sig = b'X' ∷ b'V' ∷ b'F' ∷ b'S' ∷ b'2' ∷ []

abbrev pub ntfs_sig : List ℕ
ntfs_sig = b'N' ∷ b'T' ∷ b'F' ∷ b'S' ∷ []

pub has_55aa : List ℕ → Bool
has_55aa sec = byte_at sec 510 == 0x55 && byte_at sec 511 == 0xAA

pub is_fat_sig : List ℕ → List ℕ → Bool
is_fat_sig sec sig8 = same_bytes (slice 0x36 8 sec) sig8 || same_bytes (slice 0x52 8 sec) sig8

-- Byte 4 of the entry `i` of the partition table, and its first sector.
abbrev pub part_type : List ℕ → ℕ → ℕ
part_type sec i = byte_at sec (0x1BE + 16 * i + 4)

abbrev pub part_lba : List ℕ → ℕ → ℕ
part_lba sec i = word_at sec (0x1BE + 16 * i + 8)

-- The first of the `n` entries from `i` on that is in use.
pub first_part : List ℕ → ℕ → ℕ → Option ℕ
first_part sec zero i = none
first_part sec (suc n) i =
    let later = first_part sec n (i + 1) in if part_type sec i != 0 then some i else later

abbrev pub is_ntfs : List ℕ → Bool
is_ntfs sec = same_bytes (slice 0x03 4 sec) ntfs_sig || same_bytes (slice 0x52 4 sec) ntfs_sig

pub type_name : FsKind → String
type_name fsq_fat16 = "FAT16"
type_name fsq_fat32 = "FAT32"
type_name fsq_xvfs = "XVFS"
type_name fsq_mbr = "MBR"
type_name fsq_none = "Unknown"
type_name fsq_unknown = "Unknown"

-- The base after the probe; it is 0 before.
abbrev pub probed_base : FsKind × Option ℕ → ℕ
probed_base (kind, none) = 0
probed_base (kind, some base) = base

abbrev pub is_none : FsKind → Bool
is_none fsq_none = true
is_none fsq_unknown = false
is_none fsq_mbr = false
is_none fsq_fat16 = false
is_none fsq_fat32 = false
is_none fsq_xvfs = false

module _ (ata_read : ℕ → ℕ → Option (List ℕ)) where
  pub is_xvfs_sig_at : ℕ → ℕ → Bool
  is_xvfs_sig_at drive base_lba = elim (ata_read drive base_lba) [
    | none ↦ false
    | some sec0 ↦
        if not (same_bytes (slice 0 5 sec0) xvfs_sig)
        then false
        else (elim (ata_read drive ((base_lba + 1) % 2 ^ 32)) [
          | none ↦ false
          | some sec1 ↦ word_at sec1 0 == 0x58564653
        ])
  ]

  pub is_xvfs_sig : ℕ → Bool
  is_xvfs_sig drive = elim (ata_read drive 0) [
    | none ↦ false
    | some sec0 ↦
        if not (same_bytes (slice 0 5 sec0) xvfs_sig) then false else (elim (ata_read drive 1) [
          | none ↦ false
          | some sec1 ↦ if word_at sec1 0 != 0x58564653 then false else true
        ])
  ]

  -- What the first sector of the partition at `base` says.
  pub part_kind : ℕ → ℕ → FsKind
  part_kind drive base = elim (ata_read drive base) [
    | none ↦ fsq_mbr
    | some sec ↦
        if has_55aa sec
        then (if is_fat_sig sec fat16_sig
            then fsq_fat16
            else if is_fat_sig sec fat32_sig
            then fsq_fat32
            else if is_xvfs_sig_at drive base
            then fsq_xvfs
            else fsq_mbr)
        else fsq_mbr
  ]

  -- The kind, and what is stored through `out_base_lba`.
  pub fs_quick_probe : ℕ → FsKind × Option ℕ
  fs_quick_probe drive = elim (ata_read drive 0) [
    | none ↦ (fsq_none, none)
    | some sec ↦
        if not (has_55aa sec)
        then (fsq_unknown, none)
        else if is_xvfs_sig drive
        then (fsq_xvfs, some 0)
        else if is_fat_sig sec fat16_sig
        then (fsq_fat16, some 0)
        else if is_fat_sig sec fat32_sig
        then (fsq_fat32, some 0)
        else (elim (first_part sec 4 0) [
          | none ↦ (fsq_unknown, none)
          | some i ↦ (part_kind drive (part_lba sec i), some (part_lba sec i))
        ])
  ]

  -- A drive whose sector says NTFS counts as unknown.
  pub filter_ntfs : ℕ → ℕ → FsKind → FsKind
  filter_ntfs d base kind = elim (ata_read d base) [
    | none ↦ kind
    | some sec ↦ if is_ntfs sec then fsq_unknown else kind
  ]

  -- One round of detect_disks_quick.
  pub detect_one : ℕ → Disks → Disks
  detect_one d t =
      let r = fs_quick_probe d in
      if is_none r.0
      then record t {
        disks = set t.disks d (record { present = false; id = d; fs_type = "None"; base_lba = 0 });
      }
      else (record {
        disks = set t.disks d (record {
          present = true;
          id = d;
          fs_type = type_name (filter_ntfs d (probed_base r) r.0);
          base_lba = probed_base r;
        });
        disk_count = t.disk_count + 1;
      })

  pub detect_from : ℕ → ℕ → Disks → Disks
  detect_from zero d t = t
  detect_from (suc n) d t = detect_from n (d + 1) (detect_one d t)

  -- After ata_refresh_drive_map, which the parameter stands for.
  pub detect_disks_quick : Disks → Disks
  detect_disks_quick t = detect_from max_disks 0 (record t { disk_count = 0 })
