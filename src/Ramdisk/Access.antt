-- ===== src/Ramdisk/Access.antt =====
-- Reads and writes of the RAM disk: bounds, and what a read sees after a write.
use orion_os.Base.{
  ℕ, ◌+◌, ◌*◌, ◌≤◌, ◌≡◌, refl, sym, ap, ◌∙◌, Bool, true, false, none, some, List, arith, ltb,
  length, take, take-length, Bool-cases, inl, inr, ◌⊎◌,
}
use orion_os.Base.Bytes.{
  slice, splice, length-slice, length-splice, slice-splice_self, slice-splice_apart,
}
use orion_os.Ramdisk.{Ramdisk, sector_size, sectors, ramdisk_present, ramdisk_read, ramdisk_write}

-- The image holds the bytes that its size says.
abbrev pub IsBacked : Ramdisk → Type 0
IsBacked r = r.size_bytes ≤ length r.image

-- The sectors asked for lie within the image.
abbrev pub InRange : Ramdisk → ℕ → ℕ → Type 0
InRange r lba count = (lba + sectors count) * sector_size ≤ r.size_bytes

-- What a read may answer: `bytes` of the image, as many as the sectors asked for, or nothing.
abbrev pub ReadAnswers : Ramdisk → ℕ → ℕ → ℕ → Bool → Type 0
ReadAnswers r drive lba count buffer =
    let bytes = slice (lba * sector_size) (sectors count * sector_size) r.image in
    ((buffer ≡ true)
      × (ramdisk_present r drive ≡ true)
      × InRange r lba count
      × (ramdisk_read r drive lba count buffer ≡ some bytes)
      × (length bytes ≡ sectors count * sector_size))
    ⊎ ((buffer ≡ true → ramdisk_present r drive ≡ true → InRange r lba count → ⊥)
        × (ramdisk_read r drive lba count buffer ≡ none))

-- A read answers exactly where a buffer is given, the drive is the RAM disk and the sectors lie
-- within its size; then it answers that many sectors of the image.
pub ramdisk_read_lem :
    (r : Ramdisk) (drive lba count : ℕ) (buffer : Bool)
    → IsBacked r
    → ReadAnswers r drive lba count buffer
unfolding ramdisk_read
ramdisk_read_lem r drive lba count false backed = inr ((λ h. cc), refl)
ramdisk_read_lem r drive lba count true backed = elim (Bool-cases (ramdisk_present r drive)) [
  | inr absent ↦ rw absent (inr ((λ h h'. cc), refl))
  | inl present ↦
      elim (Bool-cases (ltb r.size_bytes (lba * sector_size + sectors count * sector_size))) [
        | inl beyond ↦ rw (present, beyond) (inr ((λ h h' fits. absurd (ground arith)), refl))
        | inr within ↦
            let fits : lba * sector_size + sectors count * sector_size ≤ r.size_bytes =
              ground arith in
            rw (present, within)
              (inl (
                refl,
                refl,
                omega (arith, fits),
                refl,
                length-slice (lba * sector_size) (sectors count * sector_size) r.image
                    (omega (arith, fits)),
              ))
      ]
]

-- A write that succeeds was within the image of the RAM disk, and changed its image alone.
write-splices :
    (r : Ramdisk) (drive lba count : ℕ) (buffer : List ℕ) {r' : Ramdisk}
    → length buffer ≡ sectors count * sector_size
    → ramdisk_write r drive lba count (some buffer) ≡ some r'
    → (ramdisk_present r drive ≡ true)
      × (lba * sector_size + length buffer ≤ r.size_bytes)
      × (r' ≡ record r { image = splice (lba * sector_size) buffer r.image })
unfolding ramdisk_write
write-splices r drive lba count buffer size done =
    let whole : take (sectors count * sector_size) buffer ≡ buffer =
      ap (λ (k : ℕ). take k buffer) (sym size) ∙ take-length buffer in
    ground (arith, whole)

-- What a write of whole sectors stores is what a read of the same sectors answers.
pub read-write_self :
    (r : Ramdisk) (drive lba count : ℕ) (buffer : List ℕ) {r' : Ramdisk}
    → IsBacked r
    → length buffer ≡ sectors count * sector_size
    → ramdisk_write r drive lba count (some buffer) ≡ some r'
    → (ramdisk_read r' drive lba count true ≡ some buffer) × IsBacked r'
unfolding ramdisk_read ramdisk_write ramdisk_present
read-write_self r drive lba count buffer {r'} backed size done =
    let (present, fits, e) = write-splices r drive lba count buffer size done in
    let back : slice (lba * sector_size) (sectors count * sector_size)
          (splice (lba * sector_size) buffer r.image)
        ≡ buffer =
      ap (λ (k : ℕ). slice (lba * sector_size) k (splice (lba * sector_size) buffer r.image))
        (sym size)
      ∙ slice-splice_self (lba * sector_size) buffer r.image (omega arith) in
    let same : length (splice (lba * sector_size) buffer r.image) ≡ length r.image =
      length-splice (lba * sector_size) buffer r.image (omega arith) in
    rw e (ground (arith, back), omega arith)

-- A read of sectors apart from a write answers what it did before.
pub read-write_apart :
    (r : Ramdisk) (drive lba count o n : ℕ) (buffer : List ℕ) {r' : Ramdisk}
    → IsBacked r
    → length buffer ≡ sectors count * sector_size
    → ramdisk_write r drive lba count (some buffer) ≡ some r'
    → (o + sectors n ≤ lba) ⊎ (lba + sectors count ≤ o)
    → ramdisk_read r' drive o n true ≡ ramdisk_read r drive o n true
unfolding ramdisk_read ramdisk_write ramdisk_present
read-write_apart r drive lba count o n buffer {r'} backed size done apart =
    let (present, fits, e) = write-splices r drive lba count buffer size done in
    let same : o * sector_size + sectors n * sector_size ≤ r.size_bytes
        → slice (o * sector_size) (sectors n * sector_size)
            (splice (lba * sector_size) buffer r.image)
          ≡ slice (o * sector_size) (sectors n * sector_size) r.image =
      λ h.
        slice-splice_apart (lba * sector_size) buffer r.image (omega arith) (o * sector_size)
          (sectors n * sector_size) (omega arith) (omega arith) in
    rw e (ground (arith, same))
