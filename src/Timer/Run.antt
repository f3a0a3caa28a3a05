-- ===== src/Timer/Run.antt =====
-- timer_task_run_due of kernel/proc/timer_task.c: which tasks it calls, and that it ends.
use orion_os.Base.{
  ℕ, zero, suc, ◌+◌, ◌%◌, ◌^◌, ◌≤◌, ◌<◌, ◌≡◌, refl, ap, ap₂, sym, ==-ne, ◌∙◌, ◌≢◌, ◌⊎◌, inl, inr,
  ◌&&◌, true, false, some, none, List, [], ◌∷◌, arith, ◌==◌, if◌then◌else◌, length, Bool-cases,
  Bool,
}
use orion_os.Timer.{
  TimerTask, Timers, tick_elapsed, is_due, due_in, timer_task_due, taken, take_due, before,
  timer_task_run_due, round,
}

-- An active task has a function, and its interval is at most half the counter's range.
abbrev pub IsValid : TimerTask → Type 0
IsValid x = x.active ≡ true → (x.fn ≢ 0) × (x.interval_ticks ≤ 2 ^ 31)

abbrev pub Valid : List TimerTask → Type 0
Valid [] = Unit {0}
Valid (x ∷ xs) = IsValid x × Valid xs

-- The tasks that are due, in the order of their slots.
unfoldable pub due_tasks : ℕ → List TimerTask → List TimerTask
due_tasks now [] = []
due_tasks now (x ∷ xs) = let later = due_tasks now xs in if is_due now x then x ∷ later else later

-- The slots after all of them have been taken.
unfoldable pub settled : ℕ → List TimerTask → List TimerTask
settled now [] = []
settled now (x ∷ xs) =
    let later = settled now xs in if is_due now x then taken now x ∷ later else x ∷ later

abbrev head_or : TimerTask → List TimerTask → TimerTask
head_or d [] = d
head_or d (x ∷ xs) = x

abbrev rest_of : List TimerTask → List TimerTask
rest_of [] = []
rest_of (x ∷ xs) = xs

none_or_more :
    (xs : List TimerTask) → (xs ≡ []) ⊎ ((y : TimerTask) × (ys : List TimerTask) × (xs ≡ y ∷ ys))
none_or_more [] = inl refl
none_or_more (x ∷ xs) = inr (x, xs, refl)

if_off {ℓ} : {A : Type ℓ} (b : Bool) (x y : A) → b ≡ false → (if b then x else y) ≡ y
if_off true x y e = ground arith
if_off false x y e = refl

left_true : (a b : Bool) → a && b ≡ true → a ≡ true
left_true true b e = refl
left_true false b e = e

and_false : (a : Bool) → a && false ≡ false
and_false true = refl
and_false false = refl

==-no : (a b : ℕ) → (a == b) ≡ false → a ≢ b
==-no a b e = λ same. ground arith

module _ (now : ℕ) (width : now < 2 ^ 32) where
  later_tick : (i : ℕ) → i ≢ 0 → i ≤ 2 ^ 31 → tick_elapsed now ((now + i) % 2 ^ 32) ≡ false
  unfolding tick_elapsed
  later_tick i some_ticks half = ground arith

  taken-later : (x : TimerTask) → IsValid x → is_due now x ≡ true → is_due now (taken now x) ≡ false
  taken-later x ok due = elim (Bool-cases (x.interval_ticks == 0)) [
    | inl once ↦ rw once refl
    | inr again ↦
        let active = left_true x.active _ due in
        let (_, half) = ok active in
        rw (again, later_tick x.interval_ticks (==-no x.interval_ticks 0 again) half)
          (and_false x.active)
  ]

  taken-IsValid : (x : TimerTask) → IsValid x → is_due now x ≡ true → IsValid (taken now x)
  taken-IsValid x ok due = elim (Bool-cases (x.interval_ticks == 0)) [
    | inl once ↦ rw once (λ e. ground arith)
    | inr again ↦ rw again ok
  ]

  settled-due : (xs : List TimerTask) → Valid xs → due_in now (settled now xs) ≡ false
  unfolding due_in settled
  settled-due [] ok = refl
  settled-due (x ∷ xs) (here, rest) = elim (Bool-cases (is_due now x)) [
    | inl due ↦ rw (due, taken-later x here due) (settled-due xs rest)
    | inr idle ↦ rw (idle, idle) (settled-due xs rest)
  ]

  take_due-none :
      (xs : List TimerTask)
      → due_tasks now xs ≡ []
      → (take_due now xs ≡ (none, xs)) × (settled now xs ≡ xs)
  unfolding due_tasks settled take_due
  take_due-none [] e = (refl, refl)
  take_due-none (x ∷ xs) e = elim (Bool-cases (is_due now x)) [
    | inl due ↦
        let bad : (x ∷ due_tasks now xs) ≡ [] = rw due at e in
        let z = ap length bad in absurd (omega arith)
    | inr idle ↦
        let (a, b) = take_due-none xs (rw idle at e) in
        rw idle (ap (λ r. (r.0, x ∷ r.1)) a, ap (λ r. x ∷ r) b)
  ]

  -- What taking the first task that is due does to the others.
  abbrev pub Took : List TimerTask → TimerTask → List TimerTask → Type 0
  Took xs y ys =
      (zs : List TimerTask) × (take_due now xs ≡ (some y, zs))
      × (due_tasks now zs ≡ ys)
      × (settled now zs ≡ settled now xs)
      × Valid zs
      × (y.fn ≢ 0)

  take_due-Took :
      (xs : List TimerTask) (y : TimerTask) (ys : List TimerTask)
      → Valid xs
      → due_tasks now xs ≡ y ∷ ys
      → Took xs y ys
  unfolding due_tasks settled take_due
  take_due-Took [] y ys ok e = let z = ap length e in absurd (omega arith)
  take_due-Took (x ∷ xs) y ys (here, rest) e = elim (Bool-cases (is_due now x)) [
    | inl due ↦
        let e' : x ∷ due_tasks now xs ≡ y ∷ ys = rw due at e in
        let later = taken-later x here due in
        let (fn, _) = here (left_true x.active _ due) in
        (
          taken now x ∷ xs,
          rw due (ap (λ z. (some z, taken now x ∷ xs)) (ap (head_or x) e')),
          rw later (ap rest_of e'),
          rw (due, later) refl,
          (taken-IsValid x here due, rest),
          λ z. fn (ap (λ w. w.fn) (ap (head_or x) e') ∙ z),
        )
    | inr idle ↦
        let (zs, took, due, same, valid, fn) = take_due-Took xs y ys rest (rw idle at e) in
        (
          x ∷ zs,
          rw idle (ap (λ r. (r.0, x ∷ r.1)) took),
          rw idle due,
          rw idle (ap (λ r. x ∷ r) same),
          (here, valid),
          fn,
        )
  ]

  abbrev all_called : Timers → List TimerTask × Timers
  all_called t = (due_tasks now t.tasks, record t { tasks = settled now t.tasks })

  round-none :
      (fuel : ℕ) (t : Timers) (zs : List TimerTask)
      → take_due now t.tasks ≡ (none, zs)
      → timer_task_run_due (λ x s. s) (λ k. now) (suc fuel) t ≡ some ([], record t { tasks = zs })
  unfolding timer_task_run_due
  round-none fuel t zs took =
      ap (round (λ x s. before x (timer_task_run_due (λ x s. s) (λ k. now) fuel s)) t) took

  round-some :
      (fuel : ℕ) (t : Timers) (y : TimerTask) (zs : List TimerTask)
      → take_due now t.tasks ≡ (some y, zs)
      → (y.fn == 0) ≡ false
      → timer_task_run_due (λ x s. s) (λ k. now) (suc fuel) t
        ≡ before y (timer_task_run_due (λ x s. s) (λ k. now) fuel (record t { tasks = zs }))
  unfolding timer_task_run_due
  round-some fuel t y zs took fn =
      ap (round (λ x s. before x (timer_task_run_due (λ x s. s) (λ k. now) fuel s)) t) took
      ∙ if_off (y.fn == 0) _ _ fn

  calls :
      (fuel : ℕ) (t : Timers)
      → Valid t.tasks
      → length (due_tasks now t.tasks) < fuel
      → timer_task_run_due (λ x s. s) (λ k. now) fuel t ≡ some (all_called t)
  calls zero t ok enough = absurd (omega arith)
  calls (suc fuel) t ok enough = elim (none_or_more (due_tasks now t.tasks)) [
    | inl idle ↦
        let (took, same) = take_due-none t.tasks idle in
        round-none fuel t t.tasks took
        ∙ ap₂ (λ called ts. some (called, record t { tasks = ts })) (sym idle) (sym same)
    | inr (y, ys, e) ↦
        let (zs, took, due, same, valid, fn) = take_due-Took t.tasks y ys ok e in
        let t' = record t { tasks = zs } in
        let fewer = ap length due in
        let all = ap length e in
        let rest = calls fuel t' valid (omega arith) in
        round-some fuel t y zs took (==-ne y.fn 0 fn)
        ∙ ap (before y) rest
        ∙ ap₂ (λ called ts. some (called, record t { tasks = ts })) (ap (λ l. y ∷ l) due ∙ sym e)
            same
  ]

  -- timer_task_run_due at a tick that stands, with tasks that leave the timers alone, where each
  -- active task has a function and an interval of at most half the counter's range: with a round for
  -- each task that is due and one more it ends, it has called exactly the tasks that were due, in
  -- the order of their slots, a task for one time is cleared and one at an interval set to fall due
  -- that much later, and none is due any more.
  pub timer_task_run_due_lem :
      (fuel : ℕ) (t : Timers)
      → Valid t.tasks
      → length (due_tasks now t.tasks) < fuel
      → let t' = record t { tasks = settled now t.tasks } in
        (timer_task_run_due (λ x s. s) (λ k. now) fuel t ≡ some (due_tasks now t.tasks, t'))
        × (timer_task_due now t' ≡ false)
  unfolding timer_task_run_due timer_task_due
  timer_task_run_due_lem fuel t ok enough = (calls fuel t ok enough, settled-due t.tasks ok)
