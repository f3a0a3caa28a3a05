-- ===== src/Proc/Switch/Schedule.antt =====
-- proc_schedule behind the reaping: what a switch does, and that it keeps the invariant.
use orion_os.Base.{
  ℕ, ◌<◌, ◌≡◌, refl, sym, ap, subst, ◌∙◌, Bool, true, false, Option, none, some, List, arith, ◌==◌,
  if◌then◌else◌, if-both, not, ◌⊎◌, inl, inr, Bool-cases, Option-cases,
}
use orion_os.Proc.{Process, Procs, slot, max_procs}
use orion_os.Proc.Invariant.{IsValid, same-IsValid}
use orion_os.Proc.Lifecycle.Reap.{proc_reap_lem}
use orion_os.Proc.Switch.{
  proc_find_next, preempt, run_slot, install, save_context, has_current, first_slot, schedule_next,
  proc_schedule,
}
use orion_os.Proc.Switch.RoundRobin.{FindsFrom, proc_find_next_lem}
use orion_os.Proc.Switch.Running.{
  preempt-IsIdle, run_slot-IsValid, install-IsValid, save_context-IsValid,
}

-- The state that a switch to the slot `next` leaves.
unfoldable pub switched : ℕ → Bool → ℕ → Procs → Procs
switched regs save next s =
    let s2 = install next (run_slot next (preempt (if save then save_context regs s else s))) in
    record s2 { sched_next_esp = (slot s2 next).context_esp }

-- The three ways that a call of the scheduler goes.
pub schedule_next-cases :
    (regs : ℕ) (save : Bool) (s : Procs)
    → ((proc_find_next s.current_index s.proc_table ≡ none)
        × (schedule_next regs save s ≡ (false, s)))
      ⊎ ((next : ℕ) × (proc_find_next s.current_index s.proc_table ≡ some next)
          × (((s.current_index ≡ some next) × (schedule_next regs save s ≡ (false, s)))
              ⊎ (schedule_next regs save s ≡ (true, switched regs save next s))))
unfolding schedule_next has_current switched
schedule_next-cases regs save s =
    elim (Option-cases (proc_find_next s.current_index s.proc_table)) [
      | inl off ↦ inl (off, ground (arith, off))
      | inr (next, on) ↦ inr (
        next,
        on,
        elim (Option-cases s.current_index) [
          | inl no_index ↦ inr (ground (arith, on, no_index))
          | inr (i, index) ↦ elim (Bool-cases (i == next)) [
            | inl same ↦ elim (Option-cases s.current_proc) [
              | inl no_current ↦ inr (ground (arith, on, index, no_current, same))
              | inr (c, current) ↦
                  let here : i ≡ next = ground arith in
                  inl (index ∙ ap some here, ground (arith, on, index, current, same))
            ]
            | inr other ↦ inr (ground (arith, on, index, other))
          ]
        ],
      )
    ]

pub switched-IsValid :
    {s : Procs} (regs : ℕ) (save : Bool) (next : ℕ)
    → IsValid s
    → next < max_procs
    → IsValid (switched regs save next s)
unfolding switched
switched-IsValid {s} regs true next v h =
    same-IsValid refl refl refl (
      install-IsValid next (run_slot-IsValid next (preempt-IsIdle (save_context-IsValid regs v)) h))
switched-IsValid {s} regs false next v h =
    same-IsValid refl refl refl (install-IsValid next (run_slot-IsValid next (preempt-IsIdle v) h))

-- The slot that a search finds is one of the table.
pub found-lt :
    (start : Option ℕ) (t : List Process) (i : ℕ) → proc_find_next start t ≡ some i → i < max_procs
found-lt start t i e = go (proc_find_next start t) e (proc_find_next_lem start t)
  where
    go : (r : Option ℕ) → r ≡ some i → FindsFrom t 16 (first_slot start) r → i < max_procs
    go none e' f = absurd (ground arith)
    go (some j) e' (k, lt, at, more, none_before) = let same : j ≡ i = ground arith in omega arith

pub schedule_next-IsValid :
    {s : Procs} (regs : ℕ) (save : Bool) → IsValid s → IsValid (schedule_next regs save s).1
schedule_next-IsValid {s} regs save v = elim (schedule_next-cases regs save s) [
  | inl (off, e) ↦ subst IsValid (sym (ap (λ x. x.1) e)) v
  | inr (next, on, inl (same, e)) ↦ subst IsValid (sym (ap (λ x. x.1) e)) v
  | inr (next, on, inr e) ↦
      subst IsValid (sym (ap (λ x. x.1) e))
        (switched-IsValid regs save next v (found-lt s.current_index s.proc_table next on))
]

-- Every call of the scheduler, its reaping included, leaves a valid table valid: at most the
-- current process is RUNNING, and it is neither unused nor exited.
pub proc_schedule-IsValid :
    {s : Procs} (regs : ℕ) (save_current : Bool) (esp : ℕ)
    → IsValid s
    → IsValid (proc_schedule regs save_current esp s).1
unfolding proc_schedule
proc_schedule-IsValid {s} regs save esp v =
    schedule_next-IsValid regs save
      (if-both IsValid (not s.proc_reaper_enabled) (proc_reap_lem esp v).0 v)
