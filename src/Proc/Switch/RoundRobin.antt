-- ===== src/Proc/Switch/RoundRobin.antt =====
-- proc_find_next: the search goes round the table once, from the slot after the current one.
use orion_os.Base.{
  ℕ, zero, suc, ◌+◌, ◌-◌, ◌%◌, ◌<◌, ◌≡◌, refl, ap, true, false, Option, none, some, List, arith,
  ltb, ◌==◌, ◌⊎◌, inl, inr, Bool-cases,
}
use orion_os.Proc.{Process}
use orion_os.Proc.Switch.{eligible, next_slot, first_slot, find_next_from, proc_find_next}

-- What `n` rounds from the slot `i` answer: the first eligible slot that they meet, or none.
abbrev pub FindsFrom : List Process → ℕ → ℕ → Option ℕ → Type 0
FindsFrom t n i none = (k : ℕ) → k < n → eligible t ((i + k) % 16) ≡ false
FindsFrom t n i (some j) =
    (k : ℕ) × (k < n)
    × (j ≡ (i + k) % 16)
    × (eligible t j ≡ true)
    × ((m : ℕ) → m < k → eligible t ((i + m) % 16) ≡ false)

next_slot-mod : (i : ℕ) → i < 16 → next_slot i ≡ (i + 1) % 16
next_slot-mod i h = ground arith

FindsFrom-later :
    (t : List Process) (n i : ℕ) (r : Option ℕ)
    → i < 16
    → eligible t i ≡ false
    → FindsFrom t n (next_slot i) r
    → FindsFrom t (suc n) i r
FindsFrom-later t n i none h miss later = λ k lt. elim (Bool-cases (k == 0)) [
  | inl here ↦ let e : (i + k) % 16 ≡ i = ground arith in rw e miss
  | inr there ↦
      let e : (i + k) % 16 ≡ (next_slot i + (k - 1)) % 16 = ground (arith, next_slot-mod i h) in
      rw e (later (k - 1) (ground arith))
]
FindsFrom-later t n i (some j) h miss (k, lt, e, hit, before) = (
  suc k,
  omega arith,
  ground (arith, next_slot-mod i h),
  hit,
  λ m below. elim (Bool-cases (m == 0)) [
    | inl here ↦ let e : (i + m) % 16 ≡ i = ground arith in rw e miss
    | inr there ↦
        let e : (i + m) % 16 ≡ (next_slot i + (m - 1)) % 16 = ground (arith, next_slot-mod i h) in
        rw e (before (m - 1) (ground arith))
  ],
)

find_next_from-lem : (t : List Process) (n i : ℕ) → i < 16 → FindsFrom t n i (find_next_from t n i)
unfolding find_next_from
find_next_from-lem t zero i h = λ k lt. absurd (omega arith)
find_next_from-lem t (suc n) i h = elim (Bool-cases (eligible t i)) [
  | inl hit ↦ rw hit (0, omega arith, omega arith, hit, λ m lt. absurd (omega arith))
  | inr miss ↦ rw miss (
      FindsFrom-later t n i (find_next_from t n (next_slot i)) h miss
        (find_next_from-lem t n (next_slot i) (ground (arith, next_slot-mod i h))))
]

pub first_slot-lt : (start : Option ℕ) → first_slot start < 16
first_slot-lt none = omega arith
first_slot-lt (some i) = ground arith

-- The search answers the eligible slot that is nearest behind the slot it starts from, counting
-- round the table, and answers none only where no slot of the table is eligible.
pub proc_find_next_lem :
    (start : Option ℕ) (t : List Process)
    → FindsFrom t 16 (first_slot start) (proc_find_next start t)
unfolding proc_find_next
proc_find_next_lem start t = find_next_from-lem t 16 (first_slot start) (first_slot-lt start)

-- How many slots the search passes before it comes to the slot `j`.
unfoldable pub wait : Option ℕ → ℕ → ℕ
wait start j = (j + 16 - first_slot start) % 16

-- With an eligible slot `j` the search finds one that comes no later than `j`.
pub found-wait :
    (start : Option ℕ) (t : List Process) (j : ℕ)
    → j < 16
    → eligible t j ≡ true
    → (i : ℕ) × (proc_find_next start t ≡ some i)
      × (i < 16)
      × (eligible t i ≡ true)
      × ((i ≡ j) ⊎ (wait (some i) j < wait start j))
unfolding wait
found-wait start t j h hit = go (proc_find_next start t) refl (proc_find_next_lem start t)
  where
    f : ℕ
    f = first_slot start

    reach : (f + (j + 16 - f) % 16) % 16 ≡ j
    reach = omega (arith, first_slot-lt start)

    go :
        (r : Option ℕ)
        → proc_find_next start t ≡ r
        → FindsFrom t 16 f r
        → (i : ℕ) × (proc_find_next start t ≡ some i)
          × (i < 16)
          × (eligible t i ≡ true)
          × ((i ≡ j) ⊎ ((j + 16 - next_slot i) % 16 < (j + 16 - f) % 16))
    go none e miss =
        absurd (ground (arith, ap (eligible t) reach, miss ((j + 16 - f) % 16) (omega arith)))
    go (some i) e (k, lt, at, good, before) =
        let in16 : i < 16 = omega arith in
        (
          i,
          e,
          in16,
          good,
          elim (Bool-cases (ltb ((j + 16 - f) % 16) k)) [
            | inl early ↦
                absurd
                  (ground (arith, ap (eligible t) reach, before ((j + 16 - f) % 16) (ground arith)))
            | inr late ↦ elim (Bool-cases (i == j)) [
              | inl same ↦ inl (ground arith)
              | inr other ↦ inr (ground (arith, next_slot-mod i in16, first_slot-lt start))
            ]
          ],
        )
