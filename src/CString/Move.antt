-- ===== src/CString/Move.antt =====
-- memcpy, memmove and memset: what they leave in every byte of the memory.
use orion_os.Base.{
  ℕ, zero, suc, ◌+◌, ◌-◌, ◌%◌, ◌≤◌, ◌<◌, ◌≡◌, refl, ap, Bool, List, arith, ltb, leb, ◌==◌, ◌&&◌,
  if◌then◌else◌, length, get_or, set, length-set, get_or-set, Bool-cases, inl, inr,
}
use orion_os.CString.{memcpy, move_down, memmove, memset}

-- Whether the `n` bytes from `start` on contain the byte `k`.
abbrev pub in_range : ℕ → ℕ → ℕ → Bool
in_range start n k = leb start k && ltb k (start + n)

memcpy-byte :
    (mem : List ℕ) (dest src n k : ℕ)
    → dest < src
    → dest + n ≤ length mem
    → get_or (memcpy mem dest src n) k 0
      ≡ (if in_range dest n k then get_or mem (src + (k - dest)) 0 else get_or mem k 0)
unfolding memcpy
memcpy-byte mem dest src zero k h room = ground arith
memcpy-byte mem dest src (suc n) k h room =
    let v : ℕ = get_or mem src 0 in
    let later =
      memcpy-byte (set mem dest v) (dest + 1) (src + 1) n k (omega arith)
        (omega (arith, length-set mem dest v)) in
    let here = get_or-set mem dest k v (omega arith) in
    let there = get_or-set mem dest (src + 1 + (k - (dest + 1))) v (omega arith) in
    elim (Bool-cases (ltb dest k)) [
      | inl above ↦
          let at : src + 1 + (k - (dest + 1)) ≡ src + (k - dest) = ground arith in
          ground (arith, later, here, there, ap (λ (x : ℕ). get_or mem x 0) at)
      | inr below ↦ elim (Bool-cases (dest == k)) [
        | inl same ↦
            let at : src ≡ src + (k - dest) = ground arith in
            ground (arith, later, here, ap (λ (x : ℕ). get_or mem x 0) at)
        | inr under ↦ ground (arith, later, here)
      ]
    ]

move_down-byte :
    (mem : List ℕ) (dest src n k : ℕ)
    → src < dest
    → dest + n ≤ length mem
    → get_or (move_down mem dest src n) k 0
      ≡ (if in_range dest n k then get_or mem (src + (k - dest)) 0 else get_or mem k 0)
unfolding move_down
move_down-byte mem dest src zero k h room = ground arith
move_down-byte mem dest src (suc n) k h room =
    let v : ℕ = get_or mem (src + n) 0 in
    let later =
      move_down-byte (set mem (dest + n) v) dest src n k h
        (omega (arith, length-set mem (dest + n) v)) in
    let here = get_or-set mem (dest + n) k v (omega arith) in
    let there = get_or-set mem (dest + n) (src + (k - dest)) v (omega arith) in
    elim (Bool-cases (dest + n == k)) [
      | inl same ↦
          let at : src + n ≡ src + (k - dest) = ground arith in
          ground (arith, later, here, ap (λ (x : ℕ). get_or mem x 0) at)
      | inr other ↦ ground (arith, later, here, there)
    ]

-- Whether the ranges overlap or not, memmove leaves in the destination the bytes that the source
-- had before the call, and it changes no other byte.
pub memmove_lem :
    (mem : List ℕ) (dest src n k : ℕ)
    → dest + n ≤ length mem
    → get_or (memmove mem dest src n) k 0
      ≡ (if in_range dest n k then get_or mem (src + (k - dest)) 0 else get_or mem k 0)
unfolding memmove
memmove_lem mem dest src n k room = elim (Bool-cases (ltb dest src)) [
  | inl up ↦ rw up (memcpy-byte mem dest src n k (ground arith) room)
  | inr not_up ↦ elim (Bool-cases (ltb src dest)) [
    | inl down ↦ rw (not_up, down) (move_down-byte mem dest src n k (ground arith) room)
    | inr same ↦ elim (Bool-cases (in_range dest n k)) [
      | inl inside ↦
          let at : src + (k - dest) ≡ k = ground arith in rw (not_up, same, inside, at) refl
      | inr outside ↦ rw (not_up, same, outside) refl
    ]
  ]
]

-- memset leaves the low byte of its value in every byte of the range and changes no other byte.
pub memset_lem :
    (mem : List ℕ) (dest val n k : ℕ)
    → dest + n ≤ length mem
    → get_or (memset mem dest val n) k 0 ≡ (if in_range dest n k then val % 256 else get_or mem k 0)
unfolding memset
memset_lem mem dest val zero k room = ground arith
memset_lem mem dest val (suc n) k room =
    let later =
      memset_lem (set mem dest (val % 256)) (dest + 1) val n k
        (omega (arith, length-set mem dest (val % 256))) in
    ground (arith, later, get_or-set mem dest k (val % 256) (omega arith))
