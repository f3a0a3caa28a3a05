-- ===== src/Ramdisk.antt =====
-- drivers/ramdisk.c: one image in memory that stands in for a drive of the table of fs/disk.c.
pub mod Access
pub mod Attach
mod Tests
use Prim.Native.Nat.{bit_and}
use orion_os.Base.{
  ℕ, zero, suc, ◌+◌, ◌-◌, ◌*◌, ◌/◌, ◌%◌, ◌^◌, Bool, true, false, Option, none, some, List, ltb, leb,
  ◌==◌, ◌!=◌, if◌then◌else◌, ◌&&◌, ◌||◌, get_or, set, not, take,
}
use orion_os.Base.Bytes.{slice, splice}
use orion_os.Disk.{DiskInfo, no_disk, Disks, FsKind, max_disks, probed_base, type_name}

abbrev pub sector_size : ℕ
sector_size = 512

abbrev pub drive_auto : ℕ
drive_auto = 0xFF

-- ramdisk_t. `image` is the memory that `data` points to.
pub record Ramdisk : Type 0 where
  pub present : Bool
  pub drive : ℕ
  pub image : List ℕ
  pub size_bytes : ℕ
  pub sector_count : ℕ

-- `none` for -1
pub ramdisk_drive_id : Ramdisk → Option ℕ
ramdisk_drive_id r = if r.present then some r.drive else none

pub ramdisk_present : Ramdisk → ℕ → Bool
ramdisk_present r drive = r.present && r.drive == drive

-- A count of 0 stands for 256 sectors.
abbrev pub sectors : ℕ → ℕ
sectors count = if count == 0 then 256 else count

-- The bytes copied to the buffer, where the call succeeds; `buffer` tells that one is given.
pub ramdisk_read : Ramdisk → ℕ → ℕ → ℕ → Bool → Option (List ℕ)
ramdisk_read r drive lba count buffer =
    if not buffer || not (ramdisk_present r drive)
    then none
    else (let offset = lba * sector_size in
        let bytes = sectors count * sector_size in
        if ltb r.size_bytes (offset + bytes) then none else some (slice offset bytes r.image))

-- The buffer holds as many bytes as the sectors asked for.
pub ramdisk_write : Ramdisk → ℕ → ℕ → ℕ → Option (List ℕ) → Option Ramdisk
ramdisk_write r drive lba count none = none
ramdisk_write r drive lba count (some buffer) =
    if not (ramdisk_present r drive)
    then none
    else (let offset = lba * sector_size in
        let bytes = sectors count * sector_size in
        if ltb r.size_bytes (offset + bytes)
        then none
        else some (record r { image = splice offset (take bytes buffer) r.image }))

pub ramdisk_get_sector_count : Ramdisk → ℕ → ℕ
ramdisk_get_sector_count r drive = if not (ramdisk_present r drive) then 0 else r.sector_count

pub ramdisk_get_size_bytes : Ramdisk → ℕ → ℕ
ramdisk_get_size_bytes r drive = if not (ramdisk_present r drive) then 0 else r.size_bytes

pub ramdisk_data : Ramdisk → ℕ → Option (List ℕ)
ramdisk_data r drive = if not (ramdisk_present r drive) then none else some r.image

-- The slots in use among the first `n`, as ramdisk_recount_disks counts them.
pub recount_from : List DiskInfo → ℕ → ℕ → ℕ
recount_from t zero i = 0
recount_from t (suc n) i =
    (if (get_or t i no_disk).present then 1 else 0) + recount_from t n (i + 1)

pub ramdisk_recount_disks : Disks → Disks
ramdisk_recount_disks t = record t { disk_count = recount_from t.disks max_disks 0 }

-- The highest free slot below `n`.
pub find_free_below : List DiskInfo → ℕ → Option ℕ
find_free_below t zero = none
find_free_below t (suc i) =
    let lower = find_free_below t i in if not (get_or t i no_disk).present then some i else lower

pub ramdisk_find_free_drive : Disks → Option ℕ
ramdisk_find_free_drive t = find_free_below t.disks max_disks

-- What ramdisk_attach stores in `g_ramdisk`, and in the slot of the drive.
abbrev pub image_on : ℕ → List ℕ → ℕ → Ramdisk
image_on drive image size = record {
  present = true;
  drive = drive;
  image = image;
  size_bytes = size;
  sector_count = size / sector_size;
}

abbrev pub probed_slot : ℕ → FsKind × Option ℕ → DiskInfo
probed_slot drive probe = record {
  present = true;
  id = drive;
  fs_type = type_name probe.0;
  base_lba = probed_base probe;
}

-- The probe of fs/disk.c, which reads through the drive layer and so sees the image.
module _ (fs_quick_probe : Ramdisk → ℕ → FsKind × Option ℕ) where
  -- ramdisk_attach from the place where the drive is known.
  pub attach_at : ℕ → List ℕ → ℕ → Ramdisk → Disks → Option (ℕ × Ramdisk × Disks)
  attach_at drive image size r t =
      if leb max_disks drive || (get_or t.disks drive no_disk).present
      then none
      else (let r' = image_on drive image size in
          let slot = probed_slot drive (fs_quick_probe r' drive) in
          some (drive, r', ramdisk_recount_disks (record t { disks = set t.disks drive slot })))

  -- The drive attached and the new state, or `none` where the call fails and changes nothing. The
  -- image is `none` for a null pointer.
  pub ramdisk_attach : ℕ → Option (List ℕ) → ℕ → Ramdisk → Disks → Option (ℕ × Ramdisk × Disks)
  ramdisk_attach drive none size_bytes r t = none
  ramdisk_attach drive (some image) size_bytes r t =
      let usable = bit_and size_bytes (2 ^ 32 - sector_size) in
      if r.present || ltb size_bytes sector_size || ltb usable sector_size
      then none
      else (if drive == drive_auto
          then (elim (ramdisk_find_free_drive t) [
            | none ↦ none
            | some free ↦ attach_at free image usable r t
          ])
          else attach_at drive image usable r t)
