-- ===== src/Ramdisk/Attach.antt =====
-- ramdisk_attach: which calls succeed, and what they leave in the table of drives.
use orion_os.Base.{
  ℕ, zero, suc, ◌+◌, ◌-◌, ◌*◌, ◌/◌, ◌^◌, ◌≤◌, ◌<◌, ◌≡◌, ◌≢◌, refl, sym, ap, ◌∙◌, true, false,
  Option, some, List, arith, ◌==◌, length, Bool-cases, Option-cases, inl, inr, ◌⊎◌, get_or, set,
  get_or-set_self, get_or-set_ne,
}
use Prim.Native.Nat.{bit_and}
use orion_os.Base.Bits.{bit_and_high}
use orion_os.Disk.{Disks, DiskInfo, no_disk, FsKind, max_disks}
use orion_os.Disk.Detect.{count_present}
use orion_os.Ramdisk.{
  Ramdisk, sector_size, drive_auto, recount_from, ramdisk_recount_disks, find_free_below,
  ramdisk_find_free_drive, attach_at, ramdisk_attach, image_on, probed_slot,
}

recount-count :
    (t : List DiskInfo) (n i : ℕ) → recount_from t n i + count_present t i ≡ count_present t (n + i)
unfolding recount_from count_present
recount-count t zero i = let e : 0 + i ≡ i = omega arith in rw e (omega arith)
recount-count t (suc n) i =
    let e : suc n + i ≡ n + suc i = omega arith in
    let s : i + 1 ≡ suc i = omega arith in rw (e, s) (omega (arith, recount-count t n (suc i)))

-- The count of a recounted table is that of its slots in use.
pub ramdisk_recount_disks-count :
    (t : Disks) → (ramdisk_recount_disks t).disk_count ≡ count_present t.disks max_disks
unfolding ramdisk_recount_disks count_present
ramdisk_recount_disks-count t = omega (arith, recount-count t.disks 8 0)

-- A free slot below `n` is found if there is one, and it is the highest.
find_free_below-lem :
    (t : List DiskInfo) (n i : ℕ)
    → find_free_below t n ≡ some i
    → (i < n)
      × ((get_or t i no_disk).present ≡ false)
      × ((j : ℕ) → i < j → j < n → (get_or t j no_disk).present ≡ true)
unfolding find_free_below
find_free_below-lem t zero i e = cc
find_free_below-lem t (suc n) i e = elim (Bool-cases (get_or t n no_disk).present) [
  | inl used ↦
      let lower : find_free_below t n ≡ some i = ground arith in
      let (lt, free, above) = find_free_below-lem t n i lower in
      (
        omega arith,
        free,
        λ j lo hi. elim (Bool-cases (j == n)) [
          | inl same ↦ let same' : j ≡ n = ground arith in rw same' used
          | inr other ↦ above j lo (ground arith)
        ],
      )
  | inr free ↦
      let here : i ≡ n = ground arith in
      (omega arith, rw here free, λ j lo hi. absurd (omega arith))
]

round_down : (size : ℕ) → size < 2 ^ 32 → bit_and size (2 ^ 32 - sector_size) ≡ size / 512 * 512
round_down size h = bit_and_high 9 23 size ∙ omega arith

-- What an attachment that succeeds leaves: a RAM disk of whole sectors within its image on a drive
-- whose slot was free, that slot filled and the others kept, and the count put right.
pub record Attached (image : List ℕ) (size drive : ℕ) (t : Disks) (r' : Ramdisk) (t' : Disks)
    : Type 0 where
  pub present : r'.present ≡ true
  pub on_drive : r'.drive ≡ drive
  pub image_kept : r'.image ≡ image
  pub size_down : r'.size_bytes ≡ size / sector_size * sector_size
  pub in_sectors : r'.sector_count * sector_size ≡ r'.size_bytes
  pub nonempty : 0 < r'.sector_count
  pub slot_in : drive < max_disks
  pub was_free : (get_or t.disks drive no_disk).present ≡ false
  pub filled : (get_or t'.disks drive no_disk).present ≡ true
  pub kept : (j : ℕ) → j ≢ drive → get_or t'.disks j no_disk ≡ get_or t.disks j no_disk
  pub counted : t'.disk_count ≡ count_present t'.disks max_disks

module _ (fs_quick_probe : Ramdisk → ℕ → FsKind × Option ℕ) where
  -- A success of the last part, field by field.
  attach_at-some :
      (drive : ℕ) (image : List ℕ) (size : ℕ) (r : Ramdisk) (t : Disks) {d : ℕ} {r' : Ramdisk}
      {t' : Disks}
      → attach_at fs_quick_probe drive image size r t ≡ some (d, r', t')
      → (drive ≡ d)
        × (drive < max_disks)
        × ((get_or t.disks drive no_disk).present ≡ false)
        × (r' ≡ image_on drive image size)
        × (t'
            ≡ ramdisk_recount_disks (record t {
              disks =
                  set t.disks drive
                    (probed_slot drive (fs_quick_probe (image_on drive image size) drive));
            }))
  unfolding attach_at
  attach_at-some drive image size r t e = ground arith

  disks-recount : (t : Disks) → (ramdisk_recount_disks t).disks ≡ t.disks
  unfolding ramdisk_recount_disks
  disks-recount t = refl

  attach_at-Attached :
      (drive : ℕ) (image : List ℕ) (size : ℕ) (r : Ramdisk) (t : Disks) {d : ℕ} {r' : Ramdisk}
      {t' : Disks}
      → length t.disks ≡ max_disks
      → 512 ≤ size
      → attach_at fs_quick_probe drive image (size / 512 * 512) r t ≡ some (d, r', t')
      → Attached image size d t r' t'
  attach_at-Attached drive image size r t {d} {r'} {t'} slots lo e =
      let (on, inside, free, er, et) = attach_at-some drive image (size / 512 * 512) r t e in
      let slot : DiskInfo =
        probed_slot drive (fs_quick_probe (image_on drive image (size / 512 * 512)) drive) in
      let table : t'.disks ≡ set t.disks drive slot =
        ap (λ (x : Disks). x.disks) et
        ∙ disks-recount (record t { disks = set t.disks drive slot }) in
      record {
        present = rw er refl;
        on_drive = rw er on;
        image_kept = rw er refl;
        size_down = rw er refl;
        in_sectors = rw er (omega arith);
        nonempty = rw er (omega arith);
        slot_in = omega arith;
        was_free = rw (← on) free;
        filled =
            rw (table, ← on)
              (ap (λ (x : DiskInfo). x.present)
                (get_or-set_self t.disks drive slot no_disk (omega arith)));
        kept = λ j ne. rw table (get_or-set_ne t.disks drive j slot no_disk (omega arith));
        counted =
            ap (λ (x : Disks). x.disk_count) et
            ∙ ramdisk_recount_disks-count (record t { disks = set t.disks drive slot })
            ∙ ap (λ (x : List DiskInfo). count_present x max_disks) (sym table);
      }

  -- The guards that a success has passed, and the drive that it went to.
  accepted :
      (drive : ℕ) (image : List ℕ) (size : ℕ) (r : Ramdisk) (t : Disks) {d : ℕ} {r' : Ramdisk}
      {t' : Disks}
      → size < 2 ^ 32
      → ramdisk_attach fs_quick_probe drive (some image) size r t ≡ some (d, r', t')
      → (r.present ≡ false)
        × (512 ≤ size)
        × ((attach_at fs_quick_probe drive image (size / 512 * 512) r t ≡ some (d, r', t'))
            ⊎ ((drive ≡ drive_auto)
                × ((free : ℕ) × (find_free_below t.disks 8 ≡ some free)
                    × (attach_at fs_quick_probe free image (size / 512 * 512) r t
                        ≡ some (d, r', t')))))
  unfolding ramdisk_attach ramdisk_find_free_drive
  accepted drive image size r t hi e =
      let usable : bit_and size (2 ^ 32 - sector_size) ≡ size / 512 * 512 = round_down size hi in
      elim (Option-cases (find_free_below t.disks 8)) [
        | inl none_free ↦ ground (arith, usable)
        | inr (free, found) ↦ elim (Bool-cases (drive == drive_auto)) [
          | inl auto ↦ (
            ground (arith, usable),
            ground (arith, usable),
            inr (ground arith, (free, found, ground (arith, usable))),
          )
          | inr given ↦
              (ground (arith, usable), ground (arith, usable), inl (ground (arith, usable)))
        ]
      ]

  -- An attachment that succeeds had no RAM disk before. It takes the drive asked for, or, asked to
  -- choose, the highest free one; and it leaves what `Attached` says.
  pub ramdisk_attach_lem :
      (drive : ℕ) (image : List ℕ) (size : ℕ) (r : Ramdisk) (t : Disks) {d : ℕ} {r' : Ramdisk}
      {t' : Disks}
      → length t.disks ≡ max_disks
      → size < 2 ^ 32
      → ramdisk_attach fs_quick_probe drive (some image) size r t ≡ some (d, r', t')
      → (r.present ≡ false)
        × ((drive ≡ d)
            ⊎ ((drive ≡ drive_auto)
                × ((j : ℕ) → d < j → j < max_disks → (get_or t.disks j no_disk).present ≡ true)))
        × Attached image size d t r' t'
  ramdisk_attach_lem drive image size r t {d} {r'} {t'} slots hi e =
      let (absent, lo, went) = accepted drive image size r t hi e in
      (
        absent,
        elim went [
          | inl at ↦ inl (attach_at-some drive image (size / 512 * 512) r t at).0
          | inr (auto, (free, found, at)) ↦
              let same : free ≡ d = (attach_at-some free image (size / 512 * 512) r t at).0 in
              inr
                (auto, λ j hj hj'. (find_free_below-lem t.disks 8 free found).2 j (omega arith) hj')
        ],
        elim went [
          | inl at ↦ attach_at-Attached drive image size r t slots lo at
          | inr (auto, (free, found, at)) ↦ attach_at-Attached free image size r t slots lo at
        ],
      )
