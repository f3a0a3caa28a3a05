-- ===== src/Proc/Create/Thread.antt =====
-- proc_spawn_kernel: what a new kernel thread finds, and the table that it leaves.
use orion_os.Base.{ℕ, ◌+◌, ◌%◌, ◌^◌, ◌<◌, ◌≡◌, ◌≢◌, true, false, Option, none, some, length}
use orion_os.Proc.{Procs, slot, is_free, is_running}
use orion_os.Proc.Invariant.{IsValid}
use orion_os.Proc.Lifecycle.{proc_cleanup}

-- A state that differs from `s` in the slot `i` alone, and in the pid to give next.
pub record Changes (i : ℕ) (s s' : Procs) : Type 0 where
  pub valid : IsValid s'
  pub current : s'.current_proc ≡ s.current_proc
  pub kept : (j : ℕ) → j ≢ i → slot s' j ≡ slot s j
  pub next : s'.next_pid ≡ (s.next_pid + 1) % 2 ^ 32

-- What a spawn answers.
pub data Spawned (entry kstack : ℕ) (s : Procs) : Option ℕ × Procs → Type 0 where
  full :
      ((i : ℕ) → i < length s.proc_table → is_free (slot s i) ≡ false)
      → Spawned entry kstack s (none, s)
  refused :
      (i : ℕ) (s' : Procs)
      → kstack ≡ 0
      → is_free (slot s i) ≡ true
      → is_free (slot s' i) ≡ true
      → Changes i s s'
      → Spawned entry kstack s (none, s')
  spawned :
      (i : ℕ) (s' : Procs)
      → kstack ≢ 0
      → is_free (slot s i) ≡ true
      → (slot s' i).pid ≡ s.next_pid
      → (slot s' i).entry ≡ entry
      → (slot s' i).kstack_base ≡ kstack
      → is_free (slot s' i) ≡ false
      → is_running (slot s' i).state ≡ false
      → Changes i s s'
      → Spawned entry kstack s (some i, s')

-- The state behind proc_cleanup, with the pid given out.
abbrev cleaned : ℕ → Procs → Procs
cleaned i s = record (proc_cleanup i s) { next_pid = (s.next_pid + 1) % 2 ^ 32 }
