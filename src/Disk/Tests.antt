-- ===== src/Disk/Tests.antt =====
-- Runs of the probe and of detection, and the theorems at concrete drives.
use orion_os.Base.{
  ℕ, zero, suc, ◌+◌, ◌<◌, ◌≡◌, ◌↔◌, refl, true, false, Option, none, some, List, arith, ◌==◌,
  if◌then◌else◌, replicate, set, ◌&&◌,
}
use orion_os.Disk.{
  Disks, no_disk, fsq_mbr, fs_quick_probe, part_kind, part_type, has_55aa, is_xvfs_sig, is_fat_sig,
  same_bytes, first_part, is_none,
}
use orion_os.Disk.Shows.{Shows}
use orion_os.Disk.Detect.{fs_quick_probe_absent}
use orion_os.Disk.Rescan.{
  State, Reach, here, next, ask, enqueue, begin, end_round, Reach-served, queued, resting,
  detecting, start, request, round_end,
}

-- A boot sector with one partition, in the second entry, from sector 63 on.
abbrev boot_sector : List ℕ
boot_sector =
    set (set (set (set (replicate 512 0) 510 0x55) 511 0xAA) (0x1BE + 20) 0x83) (0x1BE + 24) 63

-- Drive 0 has that sector alone; the others do not answer.
abbrev reader : ℕ → ℕ → Option (List ℕ)
reader drive lba = if drive == 0 && lba == 0 then some boot_sector else none

abbrev empty_table : Disks
empty_table = record { disks = replicate 8 no_disk; disk_count = 5 }

probe-reader : fs_quick_probe reader 0 ≡ (fsq_mbr, some 63)
unfolding fs_quick_probe has_55aa is_xvfs_sig is_fat_sig same_bytes first_part part_kind
probe-reader = refl

fs_quick_probe_absent_example : is_none (fs_quick_probe reader 1).0 ≡ true ↔ (reader 1 0 ≡ none)
fs_quick_probe_absent_example = fs_quick_probe_absent reader 1

only_second : (j : ℕ) → j < 1 → part_type boot_sector j ≡ 0
only_second zero h = refl
only_second (suc j) h = absurd (omega arith)

-- A request, its enqueue, the start of the work item, a second request and the end of the round.
abbrev asked : State
asked = record {
  flags = record { pending = true; again = false };
  worker = resting;
  enqueuing = true;
  unserved = true;
}

asked-Reach : Reach asked
unfolding request
asked-Reach = next here (ask start)

abbrev detecting_once : State
detecting_once = record asked { worker = detecting; enqueuing = false; unserved = false }

detecting_once-Reach : Reach detecting_once
detecting_once-Reach =
    next (next asked-Reach (enqueue asked refl))
      (begin (record asked { worker = queued; enqueuing = false }) refl)

-- A second request, and the end of the round that it makes repeat; then the end of the last round.
abbrev at_rest : State
at_rest = start

at_rest-Reach : Reach at_rest
unfolding request round_end
at_rest-Reach =
    next
      (next (next detecting_once-Reach (ask detecting_once)) (
        end_round
          (record detecting_once {
            flags = record { pending = true; again = true };
            unserved = true;
          })
          refl))
      (end_round detecting_once refl)

Reach-served_example : at_rest.unserved ≡ false
Reach-served_example = Reach-served at_rest-Reach refl refl
