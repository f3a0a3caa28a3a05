-- ===== src/Base/Window.antt =====
-- The items of a ring of 64 slots between two indices.
use Prim.Native.Nat.{ℕ, zero, suc, ◌+◌, ◌%◌, ◌≤◌, ◌<◌}
use mathlib.Core.Path.{◌≡◌, refl, ap, ap₂}
use mathlib.Core.List.{List, [], ◌∷◌, ◌++◌}
use orion_os.Base.Lists.{length, get_or, set, get_or-set_self, get_or-set_ne}
use native.Mathlib.Omega.{arith}

module _ {ℓ} {A : Type ℓ} (d : A) where
  -- The `n` items from index `i` on, going round the ring.
  abbrev pub window : List A → ℕ → ℕ → List A
  window items i zero = []
  window items i (suc n) = get_or items i d ∷ window items ((i + 1) % 64) n

  pub length-window : (items : List A) (i n : ℕ) → length (window items i n) ≡ n
  length-window items i zero = refl
  length-window items i (suc n) = ap suc (length-window items ((i + 1) % 64) n)

  -- A write just past a window extends it.
  pub window-set_end :
      (items : List A) (w : A) (n i j : ℕ)
      → length items ≡ 64
      → i < 64
      → n < 64
      → j ≡ (i + n) % 64
      → window (set items j w) i (suc n) ≡ window items i n ++ (w ∷ [])
  window-set_end items w zero i j len hi hn e =
      let same : j ≡ i = omega arith in rw (same, get_or-set_self items i w d (omega arith))
  window-set_end items w (suc n) i j len hi hn e =
      ap₂ ◌∷◌ (get_or-set_ne items j i w d (omega arith))
        (window-set_end items w n ((i + 1) % 64) j len (omega arith) (omega arith) (omega arith))

  -- A write outside a window changes nothing of it.
  pub window-set_out :
      (items : List A) (w : A) (n i j : ℕ)
      → i < 64
      → n + 1 ≤ 64
      → j < 64
      → (k : ℕ) → i ≡ (j + 1 + k) % 64
      → k + n ≤ 63
      → window (set items j w) i n ≡ window items i n
  window-set_out items w zero i j hi hn hj k e room = refl
  window-set_out items w (suc n) i j hi hn hj k e room =
      ap₂ ◌∷◌ (get_or-set_ne items j i w d (omega arith)) (
        window-set_out items w n ((i + 1) % 64) j (omega arith) (omega arith) hj (k + 1)
          (omega arith) (omega arith))
