-- ===== src/Proc/Switch/Fair.antt =====
-- Fairness of the timer interrupt of cpu/timer.c and proc_schedule: a process that stays eligible
-- gets the processor within sixteen time slices.
use orion_os.Base.{
  ℕ, ◌+◌, ◌-◌, ◌*◌, ◌==◌, if◌then◌else◌, ◌<◌, ◌≡◌, ◌≢◌, refl, sym, ap, subst, ◌∙◌, Bool, true,
  Option, some, List, [], ◌∷◌, arith, ◌!=◌, ◌⊎◌, inl, inr, Bool-cases,
}
use orion_os.Proc.{Procs, slot, max_procs}
use orion_os.Proc.Invariant.{IsValid}
use orion_os.Proc.Switch.{
  eligible, proc_find_next, preempt, run_slot, install, save_context, schedule_next, proc_schedule,
}
use orion_os.Proc.Switch.RoundRobin.{wait, found-wait}
use orion_os.Proc.Switch.Schedule.{switched, schedule_next-cases, switched-IsValid}
use orion_os.Proc.Lifecycle.{proc_current_pid}
use orion_os.Proc.Switch.Eligible.{switched-eligible}
use orion_os.Proc.Switch.Named.{Named, switched-Named}
use orion_os.Proc.Switch.Slice.{Slices, timer_callback}

-- A state in which the process in the slot `j` waits for the processor: the table is valid, live
-- processes have pids, some process is current, and the reaper thread has been started.
pub record Waits (j : ℕ) (s : Procs) : Type 0 where
  pub valid : IsValid s
  pub ready : eligible s.proc_table j ≡ true
  pub reaper : s.proc_reaper_enabled ≡ true
  pub names : Named s
  pub running : (c : ℕ) × (s.current_proc ≡ some c)

save_context-reaper :
    (regs : ℕ) (s : Procs) → (save_context regs s).proc_reaper_enabled ≡ s.proc_reaper_enabled
unfolding save_context
save_context-reaper regs s = ground arith

preempt-reaper : (s : Procs) → (preempt s).proc_reaper_enabled ≡ s.proc_reaper_enabled
unfolding preempt
preempt-reaper s = ground arith

switched-fields :
    (regs next : ℕ) (s : Procs)
    → ((switched regs true next s).current_proc ≡ some next)
      × ((switched regs true next s).current_index ≡ some next)
      × ((switched regs true next s).proc_reaper_enabled ≡ s.proc_reaper_enabled)
unfolding switched run_slot install
switched-fields regs next s =
    let on : Procs = preempt (save_context regs s) in
    let kept : on.proc_reaper_enabled ≡ s.proc_reaper_enabled =
      preempt-reaper (save_context regs s) ∙ save_context-reaper regs s in
    elim (Bool-cases ((slot (run_slot next on) next).page_dir != 0)) [
      | inl some_dir ↦ simp some_dir (refl, refl, kept)
      | inr no_dir ↦ simp no_dir (refl, refl, kept)
    ]

-- One call: the process stays eligible, and it is current or nearer to its turn.
pub schedule-progress :
    {s : Procs} (j regs esp : ℕ)
    → Waits j s
    → j < max_procs
    → regs ≢ 0
    → let s' = (proc_schedule regs true esp s).1 in
      Waits j s' × ((s'.current_proc ≡ some j) ⊎ (wait s'.current_index j < wait s.current_index j))
unfolding proc_schedule
schedule-progress {s} j regs esp w h frame =
    let (i, found, in16, good, near) = found-wait s.current_index s.proc_table j h w.ready in
    simp w.reaper (go i found in16 good near)
  where
    Goal : Bool × Procs → Type 0
    Goal r =
        Waits j r.1
        × ((r.1.current_proc ≡ some j) ⊎ (wait r.1.current_index j < wait s.current_index j))

    go :
        (i : ℕ)
        → proc_find_next s.current_index s.proc_table ≡ some i
        → i < max_procs
        → eligible s.proc_table i ≡ true
        → (i ≡ j) ⊎ (wait (some i) j < wait s.current_index j)
        → Goal (schedule_next regs true s)
    go i found in16 good near = elim (schedule_next-cases regs true s) [
      | inl (off, e) ↦ absurd (ground (arith, off, found))
      | inr (next, on, inl (same, e)) ↦
          let here : i ≡ next = ground (arith, on, found) in
          subst Goal (sym e) (
            w,
            inl (
                sym w.valid.same
                ∙ same
                ∙ ap some (elim near [
                  | inl at ↦ omega arith
                  | inr less ↦
                      let index : s.current_index ≡ some i = same ∙ ap some (sym here) in
                      let less' : wait (some i) j < wait (some i) j =
                        subst (λ (x : Option ℕ). wait (some i) j < wait x j) index less in
                      absurd (omega arith)
                ])),
          )
      | inr (next, on, inr e) ↦
          let here : i ≡ next = ground (arith, on, found) in
          let (cur, idx, reap) = switched-fields regs next s in
          subst Goal (sym e) (
            record {
              valid = switched-IsValid regs true next w.valid (omega arith);
              ready = switched-eligible regs next j w.valid frame (omega arith) w.ready;
              reaper = reap ∙ w.reaper;
              names =
                  switched-Named regs next w.valid frame (omega arith) (rw (← here) good) w.names;
              running = (next, cur);
            },
            elim near [
              | inl at ↦ inl (cur ∙ ap some (omega arith))
              | inr less ↦ inr (rw (idx, ← here) less)
            ],
          )
    ]

-- A run of timer interrupts, with the addresses of their frames.
pub ticks : ℕ → List ℕ → Slices × Procs → Slices × Procs
ticks esp [] s = s
ticks esp (regs ∷ later) s = ticks esp later (timer_callback regs esp s)

-- The interrupts that the slice of the process `pid` has had.
abbrev spent : ℕ → Slices → ℕ
spent pid c = if pid == c.slice_pid then c.slice_ticks else 0

-- The interrupts until the process in the slot `j` has its turn, at most.
abbrev left : ℕ → Slices × Procs → ℕ
left j (c, s) = 5 * wait s.current_index j + 5 - spent (proc_current_pid s) c

-- What an interrupt keeps, and that it brings the process nearer to its turn.
Nearer : ℕ → ℕ → Slices × Procs → Type 0
Nearer j before (c, s) =
    Waits j s × (c.slice_ticks < 5) × ((s.current_proc ≡ some j) ⊎ (left j (c, s) < before))
