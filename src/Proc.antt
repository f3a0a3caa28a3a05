-- ===== src/Proc.antt =====
-- kernel/proc/proc.c and proc.h: the process table, lookups by pid, exit, kill and reaping.
pub mod Lifecycle
pub mod Switch
pub mod Create
pub mod Invariant
pub mod Lookup
mod Tests
use orion_os.Base.{
  ℕ, zero, suc, ◌+◌, ◌-◌, ◌^◌, ◌%◌, Bool, true, false, Option, none, some, List, [], ◌∷◌, ◌++◌, ltb,
  leb, ◌==◌, ◌!=◌, ◌&&◌, ◌||◌, not, if◌then◌else◌, get_or, set, replicate, map,
}

abbrev pub max_procs : ℕ
max_procs = 16

pub data ProcState : Type 0 where
  proc_unused proc_ready proc_running proc_blocked proc_exited : ProcState

abbrev pub is_unused : ProcState → Bool
is_unused proc_unused = true
is_unused _ = false

abbrev pub is_running : ProcState → Bool
is_running proc_running = true
is_running _ = false

abbrev pub is_blocked : ProcState → Bool
is_blocked proc_blocked = true
is_blocked _ = false

abbrev pub is_exited : ProcState → Bool
is_exited proc_exited = true
is_exited _ = false

-- process_t. Addresses are numbers, 0 for none; a name is empty where its first byte is 0.
pub record Process : Type 0 where
  pub pid : ℕ
  pub name : List ℕ
  pub entry : ℕ
  pub image_base : ℕ
  pub image_size : ℕ
  pub image_load_base : ℕ
  pub stack_base : ℕ
  pub stack_size : ℕ
  pub stack_kern_base : ℕ
  pub kstack_base : ℕ
  pub kstack_size : ℕ
  pub context_esp : ℕ
  pub exit_code : ℕ
  pub vfork_parent_pid : ℕ
  pub page_dir : ℕ
  pub page_dir_phys : ℕ
  pub state : ProcState
  pub is_kernel : Bool

-- A slot that memset has cleared.
abbrev pub no_process : Process
no_process = record {
  pid = 0;
  name = [];
  entry = 0;
  image_base = 0;
  image_size = 0;
  image_load_base = 0;
  stack_base = 0;
  stack_size = 0;
  stack_kern_base = 0;
  kstack_base = 0;
  kstack_size = 0;
  context_esp = 0;
  exit_code = 0;
  vfork_parent_pid = 0;
  page_dir = 0;
  page_dir_phys = 0;
  state = proc_unused;
  is_kernel = false;
}

-- The calls that the process code makes into other parts of the kernel.
pub data Call : Type 0 where
  sys_close_fds_for_pid kfree tss_set_kernel_stack : ℕ → Call
  paging_set_current_dir : ℕ → ℕ → Call
  bin_return_to_shell : Call

-- The static variables. A pointer into the table is the index of its slot, and `none` stands for
-- NULL and for the index -1. `calls` holds the calls made so far, the latest first.
pub record Procs : Type 0 where
  pub proc_table : List Process
  pub current_proc : Option ℕ
  pub next_pid : ℕ
  pub current_index : Option ℕ
  pub proc_reaper_enabled : Bool
  pub proc_reap_pending : Bool
  pub proc_reaper_pid : ℕ
  pub proc_watchdog_pid : ℕ
  pub sched_next_esp : ℕ
  pub kill_requested_pid : ℕ
  pub foreground_pid : ℕ
  pub calls : List Call

abbrev pub slot : Procs → ℕ → Process
slot s i = get_or s.proc_table i no_process

abbrev pub put_slot : ℕ → Process → Procs → Procs
put_slot i p s = record s { proc_table = set s.proc_table i p }

unfoldable pub proc_init : Procs
proc_init = record {
  proc_table = replicate max_procs no_process;
  current_proc = none;
  next_pid = 1;
  current_index = none;
  proc_reaper_enabled = false;
  proc_reap_pending = false;
  proc_reaper_pid = 0;
  proc_watchdog_pid = 0;
  sched_next_esp = 0;
  kill_requested_pid = 0;
  foreground_pid = 0;
  calls = [];
}

-- The first slot that passes a test: the loops over the table end at it.
unfoldable pub find_slot : (Process → Bool) → List Process → Option ℕ
find_slot test [] = none
find_slot test (p ∷ ps) =
    let rest = find_slot test ps in
    if test p then some 0 else (elim rest [ none ↦ none | some i ↦ some (suc i) ])

abbrev pub is_free : Process → Bool
is_free p = is_unused p.state || is_exited p.state

pub proc_pid_alive : ℕ → Procs → Bool
proc_pid_alive pid s =
    if pid == 0 then false else (elim (find_slot (λ p. p.pid == pid) s.proc_table) [
      | none ↦ false
      | some i ↦ not (is_unused (slot s i).state) && not (is_exited (slot s i).state)
    ])

pub proc_lookup : ℕ → Procs → Option ℕ
proc_lookup pid s = if pid == 0 then none else (elim (find_slot (λ p. p.pid == pid) s.proc_table) [
  | none ↦ none
  | some i ↦ if is_free (slot s i) then none else some i
])

-- The exit code, where the call answers true.
pub proc_pid_exited : ℕ → Procs → Option ℕ
proc_pid_exited pid s =
    if pid == 0 then none else (elim (find_slot (λ p. p.pid == pid) s.proc_table) [
      | none ↦ none
      | some i ↦ if not (is_exited (slot s i).state) then none else some (slot s i).exit_code
    ])

pub proc_pid_active : ℕ → Procs → Bool
proc_pid_active pid s =
    if pid == 0 then false else (elim (find_slot (λ p. p.pid == pid) s.proc_table) [
      | none ↦ false
      | some i ↦ if is_free (slot s i) then false else true
    ])
