-- ===== src/Proc/Lifecycle/Ends.antt =====
-- kernel/proc/proc.c: what a kill leaves in the slots of the table, the waking of a vfork's parent
-- included.
use orion_os.Base.{
  ℕ, ◌<◌, ◌≡◌, ◌≢◌, refl, sym, ap, ◌∙◌, true, arith, ◌==◌, ◌⊎◌, inl, inr, length, length-set,
  get_or-set_self, get_or-set_ne, if-both, some, Bool, Bool-cases, ==-eq, subst, false,
}
use orion_os.Proc.{
  Process, Procs, slot, put_slot, no_process, max_procs, is_blocked, proc_ready, proc_exited,
}
use orion_os.Proc.Invariant.{find_slot-lem}
use orion_os.Proc.Lifecycle.{
  note_exit, proc_wake_vfork_parent, leave_foreground, kill_slot, proc_is_foreground_pid,
}
use orion_os.Proc.Lifecycle.Exit.{wake-both, told, woken, parent_of, parent-lt}

-- The process in the slot `i` of `s` is an exited one in `w`. Of the others only the parent that
-- waits for it in a vfork may change: from blocked to ready.
pub record Ends (i : ℕ) (s w : Procs) : Type 0 where
  pub exited : (slot w i).state ≡ proc_exited
  pub current : w.current_proc ≡ s.current_proc
  pub others :
      (j : ℕ)
      → i ≢ j
      → (slot w j ≡ slot s j)
        ⊎ (((slot s j).pid ≡ (slot s i).vfork_parent_pid)
            × (is_blocked (slot s j).state ≡ true)
            × (slot w j ≡ record (slot s j) { state = proc_ready }))

same-Ends :
    {i : ℕ} {s w w' : Procs}
    → w'.proc_table ≡ w.proc_table
    → w'.current_proc ≡ w.current_proc
    → Ends i s w
    → Ends i s w'
same-Ends {i} {s} {w} {w'} t c e = record {
  exited = rw t e.exited;
  current = c ∙ e.current;
  others = rw t e.others;
}

leave_foreground-Ends :
    {i : ℕ} {s w : Procs} (b : Bool) → Ends i s w → Ends i s (leave_foreground b w)
unfolding leave_foreground
leave_foreground-Ends {i} {s} b e = if-both (Ends i s) b (same-Ends refl refl e) e

note_exit-Ends : {i : ℕ} {s w : Procs} → Ends i s w → Ends i s (note_exit w)
unfolding note_exit
note_exit-Ends {i} {s} {w} e = if-both (Ends i s) w.proc_reaper_enabled (same-Ends refl refl e) e

module _ (i : ℕ) (s : Procs) (size : length s.proc_table ≡ max_procs) (h : i < max_procs) where
  abbrev killed_at : Procs
  killed_at = put_slot i (record (slot s i) { exit_code = 0; state = proc_exited }) s

  here : slot killed_at i ≡ record (slot s i) { exit_code = 0; state = proc_exited }
  here = get_or-set_self s.proc_table i _ no_process (omega arith)

  size1 : length killed_at.proc_table ≡ max_procs
  size1 = length-set s.proc_table i _ ∙ size

  there : slot (told i killed_at) i ≡ record (slot killed_at i) { vfork_parent_pid = 0 }
  there = get_or-set_self killed_at.proc_table i _ no_process (omega (arith, size1))

  other1 : (j : ℕ) → i ≢ j → slot killed_at j ≡ slot s j
  other1 j ne = get_or-set_ne s.proc_table i j _ no_process ne

  other2 : (j : ℕ) → i ≢ j → slot (told i killed_at) j ≡ slot s j
  other2 j ne = get_or-set_ne killed_at.proc_table i j _ no_process ne ∙ other1 j ne

  apart : (j : ℕ) → is_blocked (slot (told i killed_at) j).state ≡ true → i ≢ j
  apart j blocked z =
      let bad : false ≡ true =
        sym (ap is_blocked (ap Process.state there ∙ ap Process.state here))
        ∙ ap (λ (k : ℕ). is_blocked (slot (told i killed_at) k).state) z
        ∙ blocked in
      ground arith

  parent :
      (j : ℕ)
      → parent_of i killed_at ≡ some j
      → is_blocked (slot (told i killed_at) j).state ≡ true
      → Ends i s (woken j (told i killed_at))
  parent j e blocked =
      let t = told i killed_at in
      let ne = apart j blocked in
      let lt = parent-lt i j killed_at size1 e in
      let same = other2 j ne in
      let (within, hit, before) = find_slot-lem _ t.proc_table j e in
      let names : (slot t j).pid ≡ (slot killed_at i).vfork_parent_pid = ==-eq _ _ hit in
      let filled =
        get_or-set_self t.proc_table j (record (slot t j) { state = proc_ready }) no_process
          within in
      let Other : ℕ → Type 0 = λ k.
        (slot (woken j t) k ≡ slot s k)
        ⊎ (((slot s k).pid ≡ (slot s i).vfork_parent_pid)
            × (is_blocked (slot s k).state ≡ true)
            × (slot (woken j t) k ≡ record (slot s k) { state = proc_ready })) in
      record {
        exited =
            ap Process.state (get_or-set_ne t.proc_table j i _ no_process (λ z. ne (sym z)))
            ∙ ap Process.state there
            ∙ ap Process.state here;
        current = refl;
        others = λ k other. elim (Bool-cases (j == k)) [
          | inl at ↦ subst Other (==-eq j k at) (
              inr (
                ap Process.pid (sym same) ∙ names ∙ ap Process.vfork_parent_pid here,
                ap (λ (p : Process). is_blocked p.state) (sym same) ∙ blocked,
                filled ∙ ap (λ (p : Process). record p { state = proc_ready }) same,
              ))
          | inr off ↦
              inl (get_or-set_ne t.proc_table j k _ no_process (λ z. ground arith) ∙ other2 k other)
        ];
      }

  wake-Ends : Ends i s (proc_wake_vfork_parent i killed_at)
  wake-Ends =
      wake-both (Ends i s) i killed_at
        (record {
          exited = ap Process.state here;
          current = refl;
          others = λ j ne. inl (other1 j ne);
        })
        (record {
          exited = ap Process.state there ∙ ap Process.state here;
          current = refl;
          others = λ j ne. inl (other2 j ne);
        })
        (λ j e blocked. parent j e blocked)

  pub kill_slot-Ends : (pid : ℕ) → Ends i s (kill_slot pid i s)
  unfolding kill_slot
  kill_slot-Ends pid =
      note_exit-Ends (leave_foreground-Ends (proc_is_foreground_pid pid s) wake-Ends)
