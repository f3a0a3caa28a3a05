-- ===== src/Proc/Tests.antt =====
-- The theorems on processes at a table with a running, a ready and an exited process.
use orion_os.Base.{
  ℕ, zero, suc, ◌≡◌, refl, ap, true, false, some, List, ◌∷◌, arith, get_or, replicate,
  get_or-replicate,
}
use orion_os.Proc.{
  Process, Procs, slot, no_process, proc_init, proc_running, proc_ready, proc_exited, is_running,
}
use orion_os.Proc.Invariant.{IsValid}
use orion_os.Proc.Lifecycle.{proc_exit, proc_reap}
use orion_os.Proc.Lifecycle.Exit.{proc_exit-IsValid}
use orion_os.Proc.Lifecycle.Reap.{reapable, proc_reap_lem}
use orion_os.Proc.Switch.{proc_find_next, proc_schedule}
use orion_os.Proc.Switch.RoundRobin.{FindsFrom, proc_find_next_lem}
use orion_os.Proc.Switch.Schedule.{proc_schedule-IsValid}
use orion_os.Proc.Switch.Named.{Named}
use orion_os.Proc.Switch.Slice.{Slices}

abbrev shell : Process
shell = record no_process { pid = 1; context_esp = 4096; state = proc_running }

abbrev editor : Process
editor = record no_process { pid = 2; context_esp = 8192; state = proc_ready; vfork_parent_pid = 1 }

abbrev done : Process
done = record no_process { pid = 3; kstack_base = 100; kstack_size = 50; state = proc_exited }

abbrev processes : List Process
processes = shell ∷ editor ∷ done ∷ replicate 13 no_process

-- The shell runs, the reaper thread has been started.
abbrev machine : Procs
machine = record proc_init {
  proc_table = processes;
  current_proc = some 0;
  current_index = some 0;
  proc_reaper_enabled = true;
}

machine-only : (i : ℕ) → is_running (get_or processes i no_process).state ≡ true → some 0 ≡ some i
machine-only zero e = refl
machine-only (suc zero) e = absurd (ground arith)
machine-only (suc (suc zero)) e = absurd (ground arith)
machine-only (suc (suc (suc i))) e =
    let unused : is_running (get_or (replicate 13 no_process) i no_process).state ≡ false =
      ap (λ (p : Process). is_running p.state) (get_or-replicate 13 i no_process) in
    absurd (ground (arith, unused))

machine-IsValid : IsValid machine
machine-IsValid = record {
  size = refl;
  same = refl;
  inside = λ c e. let here : 0 ≡ c = ground arith in rw (← here) (omega arith);
  live = λ c e. let here : 0 ≡ c = ground arith in rw (← here) refl;
  only = machine-only;
}

abbrev frames : List ℕ
frames = replicate 80 1

abbrev slices : Slices
slices = record { tick = 0; slice_ticks = 3; slice_pid = 1 }

proc_find_next_lem_example : FindsFrom processes 16 1 (proc_find_next (some 0) processes)
proc_find_next_lem_example = proc_find_next_lem (some 0) processes

proc_schedule-IsValid_example : IsValid (proc_schedule 4096 true 120 machine).1
proc_schedule-IsValid_example = proc_schedule-IsValid 4096 true 120 machine-IsValid

proc_exit-IsValid_example : IsValid (proc_exit 7 machine)
proc_exit-IsValid_example = proc_exit-IsValid 7 machine-IsValid

-- The stack of the exited process is the one in use.
proc_reap_lem_example : slot (proc_reap 120 machine) 2 ≡ done
unfolding reapable
proc_reap_lem_example = (proc_reap_lem 120 machine-IsValid).2 2 (omega arith)
