-- ===== src/Proc/Switch.antt =====
-- kernel/proc/proc.c: the choice of the next process and the switch to it.
pub mod Running
pub mod RoundRobin
pub mod Schedule
pub mod Eligible
pub mod Slice
pub mod Named
pub mod Fair
use orion_os.Base.{
  ℕ, zero, suc, ◌+◌, ◌^◌, ◌%◌, Bool, true, false, Option, none, some, List, ◌∷◌, leb, ◌==◌, ◌!=◌,
  ◌&&◌, not, if◌then◌else◌, get_or,
}
use orion_os.Proc.{
  Process, Procs, ProcState, Call, tss_set_kernel_stack, paging_set_current_dir, slot, put_slot,
  no_process, max_procs, is_running, proc_unused, proc_ready, proc_running, proc_blocked,
  proc_exited,
}
use orion_os.Proc.Lifecycle.{is_slot, proc_is_foreground_pid, proc_exit, proc_reap}

unfoldable pub proc_is_runnable : Process → Bool
proc_is_runnable p = elim p.state [
  | proc_ready ↦ true
  | proc_running ↦ true
  | proc_unused ↦ false
  | proc_blocked ↦ false
  | proc_exited ↦ false
]

-- A process that the scheduler may choose.
abbrev pub eligible : List Process → ℕ → Bool
eligible t i = proc_is_runnable (get_or t i no_process) && (get_or t i no_process).context_esp != 0

abbrev pub next_slot : ℕ → ℕ
next_slot i = if leb max_procs (i + 1) then 0 else i + 1

-- The slot after `start`, where `none` is -1.
abbrev pub first_slot : Option ℕ → ℕ
first_slot none = 0
first_slot (some i) = next_slot i

-- `n` rounds of the loop of proc_find_next, the first at the slot `i`.
pub find_next_from : List Process → ℕ → ℕ → Option ℕ
find_next_from t zero i = none
find_next_from t (suc n) i =
    let rest = find_next_from t n (next_slot i) in if eligible t i then some i else rest

pub proc_find_next : Option ℕ → List Process → Option ℕ
proc_find_next start t = find_next_from t max_procs (first_slot start)

pub has_runnable_from : List Process → ℕ → ℕ → Bool
has_runnable_from t zero i = false
has_runnable_from t (suc n) i =
    let rest = has_runnable_from t n (i + 1) in
    if eligible t i && not (get_or t i no_process).is_kernel then true else rest

pub proc_has_runnable : Procs → Bool
proc_has_runnable s = has_runnable_from s.proc_table max_procs 0

-- The current process, if it is RUNNING, becomes READY.
pub preempt : Procs → Procs
preempt s = elim s.current_proc [
  | none ↦ s
  | some c ↦
      if is_running (slot s c).state
      then put_slot c (record (slot s c) { state = proc_ready }) s
      else s
]

-- The process in the slot `i` becomes the current one and RUNNING.
pub run_slot : ℕ → Procs → Procs
run_slot i s =
    put_slot i (record (slot s i) { state = proc_running })
      (record s { current_index = some i; current_proc = some i })

pub proc_take_next : Procs → Option ℕ × Procs
proc_take_next s = elim (proc_find_next s.current_index s.proc_table) [
  | none ↦ (none, s)
  | some next ↦ (some next, run_slot next (preempt s))
]

-- The kernel stack and the page directory of the process in the slot `i` are installed.
pub install : ℕ → Procs → Procs
install i s =
    let p = slot s i in
    let stack = tss_set_kernel_stack ((p.kstack_base + p.kstack_size) % 2 ^ 32) in
    if p.page_dir != 0
    then record s { calls = paging_set_current_dir p.page_dir p.page_dir_phys ∷ stack ∷ s.calls }
    else record s { calls = stack ∷ s.calls }

-- `regs` is the address of the interrupted frame.
pub save_context : ℕ → Procs → Procs
save_context regs s = elim s.current_proc [
  | none ↦ s
  | some c ↦ put_slot c (record (slot s c) { context_esp = regs }) s
]

pub has_current : Procs → Bool
has_current s = elim s.current_proc [ none ↦ false | some c ↦ true ]

-- The part of proc_schedule behind the reaping.
pub schedule_next : ℕ → Bool → Procs → Bool × Procs
schedule_next regs save_current s = elim (proc_find_next s.current_index s.proc_table) [
  | none ↦ (false, s)
  | some next ↦
      if is_slot s.current_index next && has_current s
      then (false, s)
      else (let s1 = if save_current then save_context regs s else s in
          let s2 = install next (run_slot next (preempt s1)) in
          (true, record s2 { sched_next_esp = (slot s2 next).context_esp }))
]

-- `esp` is the stack pointer that proc_reap reads.
pub proc_schedule : ℕ → Bool → ℕ → Procs → Bool × Procs
proc_schedule regs save_current esp s =
    schedule_next regs save_current (if not s.proc_reaper_enabled then proc_reap esp s else s)

-- `regs` is none for NULL.
pub proc_make_current : ℕ → Option ℕ → Procs → Bool × Procs
proc_make_current i regs s = elim s.current_proc [
  | none ↦ (true, install i (run_slot i s))
  | some c ↦ if c == i then (true, install i (run_slot i s)) else (elim regs [
    | none ↦
        if (slot s c).context_esp == 0
        then (false, s)
        else (true, install i (run_slot i (preempt s)))
    | some frame ↦ (true, install i (run_slot i (preempt (save_context frame s))))
  ])
]

-- Whether the call handled a kill; whether the frame is sent to bin_exit_trampoline; the new state.
pub proc_handle_kill : ℕ → ℕ → Procs → Bool × Bool × Procs
proc_handle_kill regs esp s =
    if s.kill_requested_pid == 0 then (false, false, s) else (elim s.current_proc [
      | none ↦ (false, false, s)
      | some c ↦
          if (slot s c).pid != s.kill_requested_pid
          then (false, false, s)
          else (let foreground = proc_is_foreground_pid (slot s c).pid s in
              let s1 = proc_exit 0 (record s { kill_requested_pid = 0 }) in
              let (switched, s2) = proc_schedule regs false esp s1 in
              if foreground then (true, true, s1) else (true, not switched, s2))
    ])
