-- ===== src/Base/Bitmap.antt =====
-- A bitmap in a byte array, eight entries to a byte: `a[i / 8]` under the mask `1 << (i % 8)`.
-- The physical page allocator and XVFS both keep one.
use Prim.Native.Nat.{ℕ, zero, suc, ◌-◌, ◌/◌, ◌%◌, ◌^◌, ◌<◌, bit_and, bit_or}
use mathlib.Core.Path.{◌≡◌, refl}
use mathlib.Core.Logic.{◌≢◌, inl, inr}
use mathlib.Core.Bool.{Bool, true, false, ◌&&◌}
use mathlib.Core.List.{List}
use native.Mathlib.Omega.{arith}
use orion_os.Base.Tests.{ltb, ◌==◌, ◌!=◌, if◌then◌else◌, ltb→lt, Bool-cases}
use orion_os.Base.Lists.{length, get_or, set, length-set, get_or-set_self, get_or-set_ne}

-- `1 << k`
abbrev pub bit : ℕ → ℕ
bit k = 2 ^ k

-- One byte: test, set and clear of its bit `k`.
abbrev pub byte_test : ℕ → ℕ → Bool
byte_test b k = bit_and b (bit k) != 0

abbrev pub byte_set : ℕ → ℕ → ℕ
byte_set b k = bit_or b (bit k)

abbrev pub byte_clear : ℕ → ℕ → ℕ
byte_clear b k = bit_and b (255 - bit k)

-- The test of every number below a bound.
unfoldable pub every : ℕ → (ℕ → Bool) → Bool
every zero test = true
every (suc bound) test = test bound && every bound test

pub every-instance :
    (bound i : ℕ) (test : ℕ → Bool) → i < bound → every bound test ≡ true → test i ≡ true
unfolding every
every-instance zero i test h all = absurd (omega arith)
every-instance (suc bound) i test h all = ground (arith, every-instance bound i test)

abbrev same_bool : Bool → Bool → Bool
same_bool true b = b
same_bool false true = false
same_bool false false = true

same_bool-eq : (a b : Bool) → same_bool a b ≡ true → a ≡ b
same_bool-eq a b h = ground arith

abbrev set_law : ℕ → ℕ → ℕ → Bool
set_law b k j =
    ltb (byte_set b k) 256
    && same_bool (byte_test (byte_set b k) j) (if k == j then true else byte_test b j)

abbrev clear_law : ℕ → ℕ → ℕ → Bool
clear_law b k j =
    ltb (byte_clear b k) 256
    && same_bool (byte_test (byte_clear b k) j) (if k == j then false else byte_test b j)

abbrev table : (ℕ → ℕ → ℕ → Bool) → Bool
table law = every 256 (λ b. every 8 (λ k. every 8 (λ j. law b k j)))

set_table : table set_law ≡ true
unfolding every
set_table = refl

clear_table : table clear_law ≡ true
unfolding every
clear_table = refl

table_sound :
    (law : ℕ → ℕ → ℕ → Bool) (b k j : ℕ)
    → table law ≡ true
    → b < 256
    → k < 8
    → j < 8
    → law b k j ≡ true
table_sound law b k j t hb hk hj =
    every-instance 8 j (λ j. law b k j) hj
      (every-instance 8 k (λ k. every 8 (λ j. law b k j)) hk
        (every-instance 256 b (λ b. every 8 (λ k. every 8 (λ j. law b k j))) hb t))

and-left : (a b : Bool) → (a && b) ≡ true → a ≡ true
and-left a b h = ground arith

and-right : (a b : Bool) → (a && b) ≡ true → b ≡ true
and-right a b h = ground arith

module _ (b k j : ℕ) (hb : b < 256) (hk : k < 8) (hj : j < 8) where
  byte_set-lt : byte_set b k < 256
  byte_set-lt = ltb→lt _ _ (and-left _ _ (table_sound set_law b k j set_table hb hk hj))

  byte_clear-lt : byte_clear b k < 256
  byte_clear-lt = ltb→lt _ _ (and-left _ _ (table_sound clear_law b k j clear_table hb hk hj))

  byte_test-byte_set : byte_test (byte_set b k) j ≡ (if k == j then true else byte_test b j)
  byte_test-byte_set =
      same_bool-eq _ _ (and-right _ _ (table_sound set_law b k j set_table hb hk hj))

  byte_test-byte_clear : byte_test (byte_clear b k) j ≡ (if k == j then false else byte_test b j)
  byte_test-byte_clear =
      same_bool-eq _ _ (and-right _ _ (table_sound clear_law b k j clear_table hb hk hj))

-- The macros BIT_TEST, BIT_SET and BIT_CLEAR of mm/pmm.c over an array.
unfoldable pub bit_test : List ℕ → ℕ → Bool
bit_test a i = byte_test (get_or a (i / 8) 0) (i % 8)

unfoldable pub bit_set : List ℕ → ℕ → List ℕ
bit_set a i = set a (i / 8) (byte_set (get_or a (i / 8) 0) (i % 8))

unfoldable pub bit_clear : List ℕ → ℕ → List ℕ
bit_clear a i = set a (i / 8) (byte_clear (get_or a (i / 8) 0) (i % 8))

-- Every cell of the array holds a byte.
abbrev pub IsBytes : List ℕ → Type 0
IsBytes a = (i : ℕ) → get_or a i 0 < 256

pub set-IsBytes : (a : List ℕ) (i v : ℕ) → i < length a → v < 256 → IsBytes a → IsBytes (set a i v)
set-IsBytes a i v hi hv bytes j = elim (Bool-cases (i == j)) [
  | inl e ↦ ground (arith, get_or-set_self a i v 0)
  | inr e ↦ ground (arith, get_or-set_ne a i j v 0, bytes j)
]

module _ (a : List ℕ) (i : ℕ) (bytes : IsBytes a) (inside : i / 8 < length a) where
  pub bit_set-IsBytes : IsBytes (bit_set a i)
  unfolding bit_set
  bit_set-IsBytes =
      set-IsBytes a (i / 8) _ inside
        (byte_set-lt _ (i % 8) 0 (bytes (i / 8)) (omega arith) (omega arith)) bytes

  pub bit_clear-IsBytes : IsBytes (bit_clear a i)
  unfolding bit_clear
  bit_clear-IsBytes =
      set-IsBytes a (i / 8) _ inside
        (byte_clear-lt _ (i % 8) 0 (bytes (i / 8)) (omega arith) (omega arith)) bytes

  -- Setting entry `i` sets that entry and no other.
  pub bit_test-bit_set :
      (j : ℕ) → bit_test (bit_set a i) j ≡ (if i == j then true else bit_test a j)
  unfolding bit_set bit_test
  bit_test-bit_set j = elim (Bool-cases (i / 8 == j / 8)) [
    | inl e ↦
        let same : j / 8 ≡ i / 8 = ground arith in
        rw (same, get_or-set_self a (i / 8) (byte_set (get_or a (i / 8) 0) (i % 8)) 0 inside)
          (ground (
            arith,
            byte_test-byte_set (get_or a (i / 8) 0) (i % 8) (j % 8) (bytes (i / 8)) (omega arith)
                (omega arith),
          ))
    | inr e ↦
        let other : i / 8 ≢ j / 8 = ground arith in
        rw (get_or-set_ne a (i / 8) (j / 8) (byte_set (get_or a (i / 8) 0) (i % 8)) 0 other)
          (ground arith)
  ]

  pub bit_test-bit_clear :
      (j : ℕ) → bit_test (bit_clear a i) j ≡ (if i == j then false else bit_test a j)
  unfolding bit_clear bit_test
  bit_test-bit_clear j = elim (Bool-cases (i / 8 == j / 8)) [
    | inl e ↦
        let same : j / 8 ≡ i / 8 = ground arith in
        rw (same, get_or-set_self a (i / 8) (byte_clear (get_or a (i / 8) 0) (i % 8)) 0 inside)
          (ground (
            arith,
            byte_test-byte_clear (get_or a (i / 8) 0) (i % 8) (j % 8) (bytes (i / 8)) (omega arith)
                (omega arith),
          ))
    | inr e ↦
        let other : i / 8 ≢ j / 8 = ground arith in
        rw (get_or-set_ne a (i / 8) (j / 8) (byte_clear (get_or a (i / 8) 0) (i % 8)) 0 other)
          (ground arith)
  ]

pub length-bit_set : (a : List ℕ) (i : ℕ) → length (bit_set a i) ≡ length a
unfolding bit_set
length-bit_set a i = length-set a (i / 8) _

pub length-bit_clear : (a : List ℕ) (i : ℕ) → length (bit_clear a i) ≡ length a
unfolding bit_clear
length-bit_clear a i = length-set a (i / 8) _
