-- ===== src/Proc/Create.antt =====
-- kernel/proc/proc.c: kernel threads are created, and the table is listed.
pub mod Thread
pub mod Listing
use orion_os.Base.{
  ℕ, zero, suc, ◌+◌, ◌-◌, ◌%◌, ◌^◌, Bool, true, false, Option, none, some, List, [], ◌∷◌, leb, ◌==◌,
  ◌&&◌, ◌||◌, not, if◌then◌else◌, take,
}
use orion_os.Proc.{
  Process, Procs, ProcState, slot, put_slot, no_process, find_slot, is_free, is_unused, is_exited,
  proc_ready, proc_running,
}
use orion_os.Proc.Lifecycle.{proc_cleanup}
use orion_os.Proc.Switch.{has_current}

abbrev pub proc_kstack_size : ℕ
proc_kstack_size = 65536

abbrev pub proc_name_max : ℕ
proc_name_max = 32

-- sizeof(registers_t), the frame at the top of a kernel stack.
abbrev pub frame_size : ℕ
frame_size = 64

-- What proc_create_kernel_common writes to the slot before it asks for a stack.
abbrev pub new_kernel_process : ℕ → ℕ → ℕ → ℕ → Process
new_kernel_process pid entry kernel_dir kernel_dir_phys = record no_process {
  pid = pid;
  entry = entry;
  page_dir = kernel_dir;
  page_dir_phys = kernel_dir_phys;
  kstack_size = proc_kstack_size;
  is_kernel = true;
}

-- strncpy of the name, if one is given, to the cleared field.
pub named : Option (List ℕ) → Process → Process
named none p = p
named (some name) p = record p { name = take (proc_name_max - 1) name }

-- The process with its stack. build_kernel_frame also writes a frame to the top of that stack, of
-- which only the address is modelled.
abbrev pub stacked : ℕ → Process → Process
stacked kstack p = record p {
  kstack_base = kstack;
  context_esp = ((kstack + proc_kstack_size) % 2 ^ 32 + 2 ^ 32 - frame_size) % 2 ^ 32;
  state = proc_ready;
}

-- The part of the function behind the allocation, `kstack` the address of the stack.
pub start_kernel_process : Option (List ℕ) → Bool → ℕ → ℕ → Procs → Procs
start_kernel_process name make_current kstack i s =
    let p = named name (stacked kstack (slot s i)) in
    if make_current && not (has_current s)
    then put_slot i (record p { state = proc_running })
        (record s { current_proc = some i; current_index = some i })
    else put_slot i p s

-- The new process, `none` for NULL. `kstack` is what kmalloc answers for the stack, 0 for NULL, and
-- `kernel_dir` and `kernel_dir_phys` what paging answers for the kernel's directory. `name` is a
-- text.
pub proc_create_kernel_common :
    Option (List ℕ) → ℕ → Bool → (kstack kernel_dir kernel_dir_phys : ℕ) → Procs → Option ℕ × Procs
proc_create_kernel_common name entry make_current kstack kernel_dir kernel_dir_phys s =
    elim (find_slot is_free s.proc_table) [
      | none ↦ (none, s)
      | some i ↦
          let p = new_kernel_process s.next_pid entry kernel_dir kernel_dir_phys in
          let s1 =
            put_slot i p (record (proc_cleanup i s) { next_pid = (s.next_pid + 1) % 2 ^ 32 }) in
          if kstack == 0
          then (none, s1)
          else (some i, start_kernel_process name make_current kstack i s1)
    ]

pub proc_spawn_kernel :
    Option (List ℕ) → ℕ → (kstack kernel_dir kernel_dir_phys : ℕ) → Procs → Option ℕ × Procs
proc_spawn_kernel name entry kstack kernel_dir kernel_dir_phys s =
    proc_create_kernel_common name entry false kstack kernel_dir kernel_dir_phys s

-- proc_info_t
pub record ProcInfo : Type 0 where
  pub pid : ℕ
  pub state : ProcState
  pub name : List ℕ

abbrev pub proc_info : Process → ProcInfo
proc_info p = record {
  pid = p.pid;
  state = p.state;
  name =
      take (proc_name_max - 1)
        (elim p.name [ [] ↦ b'u' ∷ b'n' ∷ b'n' ∷ b'a' ∷ b'm' ∷ b'e' ∷ b'd' ∷ [] | c ∷ n ↦ p.name ]);
}

-- The entries that proc_list writes; their number is what it answers.
pub proc_list : List Process → ℕ → List ProcInfo
proc_list ps zero = []
proc_list [] (suc max) = []
proc_list (p ∷ ps) (suc max) =
    let skipped = proc_list ps (suc max) in
    let rest = proc_list ps max in
    if is_unused p.state || is_exited p.state then skipped else proc_info p ∷ rest
