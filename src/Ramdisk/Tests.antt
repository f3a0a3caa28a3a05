-- ===== src/Ramdisk/Tests.antt =====
-- The theorems on the RAM disk at a disk of two sectors.
use orion_os.Base.{
  ℕ, ◌≡◌, refl, true, false, Option, none, some, List, [], ◌∷◌, arith, fill, length-fill, length,
  set,
}
use orion_os.Base.Bytes.{splice}
use orion_os.Disk.{Disks, DiskInfo, no_disk, FsKind, fsq_unknown}
use orion_os.Ramdisk.{
  Ramdisk, ramdisk_present, ramdisk_read, ramdisk_write, image_on, ramdisk_attach, attach_at,
  ramdisk_find_free_drive, find_free_below, ramdisk_recount_disks, probed_slot,
}
use orion_os.Ramdisk.Access.{IsBacked, ReadAnswers, ramdisk_read_lem, read-write_self}

image : List ℕ
image = fill 7 1024

buffer : List ℕ
buffer = fill 9 512

two_sectors : Ramdisk
two_sectors = image_on 3 image 1024

-- What a write of `buffer` to the second sector leaves.
written : Ramdisk
unfolding two_sectors
written = record two_sectors { image = splice 512 buffer image }

two_sectors-IsBacked : IsBacked two_sectors
unfolding two_sectors image
two_sectors-IsBacked = omega (arith, length-fill {A = ℕ} 7 1024)

length-buffer : length buffer ≡ 512
unfolding buffer
length-buffer = length-fill {A = ℕ} 9 512

write-two : ramdisk_write two_sectors 3 1 1 (some buffer) ≡ some written
unfolding ramdisk_write ramdisk_present two_sectors written buffer fill
write-two = refl

ramdisk_read_lem_example : ReadAnswers two_sectors 3 1 1 true
ramdisk_read_lem_example = ramdisk_read_lem two_sectors 3 1 1 true two_sectors-IsBacked

read-write_self_example : ramdisk_read written 3 1 1 true ≡ some buffer
read-write_self_example =
    (read-write_self two_sectors 3 1 1 buffer two_sectors-IsBacked length-buffer write-two).0

abbrev unknown_probe : Ramdisk → ℕ → FsKind × Option ℕ
unknown_probe r drive = (fsq_unknown, none)

-- Drives 0 and 7 in use.
abbrev table : Disks
table = record {
  disks = used ∷ no_disk ∷ no_disk ∷ no_disk ∷ no_disk ∷ no_disk ∷ no_disk ∷ used ∷ [];
  disk_count = 2;
}
  where
    used : DiskInfo
    used = record no_disk { present = true }

abbrev no_ramdisk : Ramdisk
no_ramdisk = record { present = false; drive = 0; image = []; size_bytes = 0; sector_count = 0 }

attached_table : Disks
unfolding ramdisk_recount_disks
attached_table =
    ramdisk_recount_disks
      (record table { disks = set table.disks 6 (probed_slot 6 (fsq_unknown, none)) })

attach-auto :
    ramdisk_attach unknown_probe 0xFF (some image) 1100 no_ramdisk table
    ≡ some (6, image_on 6 image 1024, attached_table)
unfolding ramdisk_attach attach_at ramdisk_find_free_drive find_free_below attached_table
attach-auto = refl
