-- ===== src/Proc/Lifecycle/Reap.antt =====
-- proc_reap: which slots it clears.
use orion_os.Base.{
  ℕ, zero, suc, ◌+◌, ◌≤◌, ◌<◌, ◌≡◌, ◌≢◌, refl, sym, ap, subst, ◌∙◌, Bool, true, false, not, ◌&&◌,
  Option, none, some, ◌%◌, ◌^◌, List, arith, ltb, leb, ==-self, ◌==◌, ◌!=◌, if◌then◌else◌, if-both,
  if-each, ◌⊎◌, inl, inr, Bool-cases, get_or,
}
use orion_os.Proc.{Process, Procs, slot, put_slot, no_process, max_procs, is_exited}
use orion_os.Proc.Invariant.{IsValid, get_or-set, same-IsValid, put_slot-IsValid}
use orion_os.Proc.Lifecycle.{
  proc_stack_in_use, is_slot, proc_cleanup, reap_slot, reap_from, proc_reap,
}

-- The stack pointer lies on the kernel stack of the process, which is at an address other than 0 and
-- ends where 32 bits put its end.
abbrev pub on_stack : ℕ → Process → Bool
on_stack esp p =
    p.kstack_base != 0
    && p.kstack_size != 0
    && leb p.kstack_base esp
    && ltb esp ((p.kstack_base + p.kstack_size) % 2 ^ 32)

abbrev pub is_current : Option ℕ → ℕ → Bool
is_current none i = false
is_current (some c) i = c == i

-- An exited process that is not current and whose kernel stack is not the one in use.
unfoldable pub reapable : ℕ → Option ℕ → Process → ℕ → Bool
reapable esp current p i = is_exited p.state && not (is_current current i) && not (on_stack esp p)

-- The state in which proc_reap cleans a slot: the pids of the two kernel threads are forgotten.
forgotten : ℕ → Procs → Procs
forgotten i s =
    let p = slot s i in
    let s1 =
      if p.pid != 0 && p.pid == s.proc_reaper_pid then record s { proc_reaper_pid = 0 } else s in
    if p.pid != 0 && p.pid == s1.proc_watchdog_pid then record s1 { proc_watchdog_pid = 0 } else s1

-- A property of the table and of what is current survives the forgetting.
forgotten-both :
    (P : List Process → Option ℕ → Option ℕ → Type 0) (i : ℕ) (s : Procs)
    → P s.proc_table s.current_proc s.current_index
    → let s' = forgotten i s in P s'.proc_table s'.current_proc s'.current_index
unfolding forgotten
forgotten-both P i s h =
    let Q : Procs → Type 0 = λ (x : Procs). P x.proc_table x.current_proc x.current_index in
    let p : Process = slot s i in
    let first : Q
        (if p.pid != 0 && p.pid == s.proc_reaper_pid then record s { proc_reaper_pid = 0 } else s) =
      if-both Q (p.pid != 0 && p.pid == s.proc_reaper_pid) h h in
    if-both Q _ first first

reap_slot-eq :
    (esp i : ℕ) (s : Procs)
    → reap_slot esp i s
      ≡ (if reapable esp s.current_proc (slot s i) i then proc_cleanup i (forgotten i s) else s)
unfolding reap_slot reapable forgotten proc_stack_in_use
reap_slot-eq esp i s = ground arith

-- What a round leaves in each slot.
Reaped : ℕ → ℕ → Procs → Procs → Type 0
Reaped esp i s s' =
    IsValid s'
    × (s'.current_proc ≡ s.current_proc)
    × ((j : ℕ)
        → slot s' j
          ≡ (if (i == j) && reapable esp s.current_proc (slot s i) i then no_process else slot s j))

not_current :
    (esp i : ℕ) (s : Procs)
    → reapable esp s.current_proc (slot s i) i ≡ true
    → s.current_proc ≢ some i
unfolding reapable
not_current esp i s gone on =
    let self : is_slot s.current_proc i ≡ true = ap (λ c. is_slot c i) on ∙ ==-self i in
    absurd (ground (arith, self))

cleanup-Reaped :
    {s : Procs} (esp i : ℕ)
    → IsValid s
    → i < max_procs
    → reapable esp s.current_proc (slot s i) i ≡ true
    → Reaped esp i s (proc_cleanup i (forgotten i s))
unfolding Reaped proc_cleanup
cleanup-Reaped {s} esp i v h gone =
    let f : Procs = forgotten i s in
    let (table, current, index) =
      forgotten-both (λ t c x. (t ≡ s.proc_table) × (c ≡ s.current_proc) × (x ≡ s.current_index)) i
        s (refl, refl, refl) in
    let w : IsValid f = same-IsValid table current index v in
    let w' : IsValid (put_slot i no_process f) =
      put_slot-IsValid i no_process w h (λ r. absurd (ground arith))
        (λ on. absurd (not_current esp i s gone (sym current ∙ on))) in
    (
      same-IsValid refl refl refl w',
      current,
      λ j.
          get_or-set f.proc_table i j no_process (omega (arith, w.size))
          ∙ ap (λ (t : List Process). if i == j then no_process else get_or t j no_process) table
          ∙ rw gone (ground arith),
    )

reap_slot-Reaped :
    {s : Procs} (esp i : ℕ) → IsValid s → i < max_procs → Reaped esp i s (reap_slot esp i s)
unfolding Reaped proc_cleanup
reap_slot-Reaped {s} esp i v h = subst (Reaped esp i s) (sym (reap_slot-eq esp i s)) (
    if-each (Reaped esp i s) (reapable esp s.current_proc (slot s i) i)
      (λ gone. cleanup-Reaped esp i v h gone) (λ stays. (v, refl, λ j. rw stays (ground arith))))

-- The rounds from the slot `i` on.
ReapedFrom : ℕ → ℕ → ℕ → Procs → Procs → Type 0
ReapedFrom esp n i s s' =
    IsValid s'
    × (s'.current_proc ≡ s.current_proc)
    × ((j : ℕ)
        → slot s' j ≡ (
            if leb i j && ltb j (i + n) && reapable esp s.current_proc (slot s j) j
            then no_process
            else slot s j))

reap_from-lem :
    {s : Procs} (esp n i : ℕ)
    → IsValid s
    → i + n ≤ max_procs
    → ReapedFrom esp n i s (reap_from esp n i s)
unfolding reap_from Reaped ReapedFrom
reap_from-lem {s} esp zero i v h = (v, refl, λ j. ground arith)
reap_from-lem {s} esp (suc n) i v h =
    let (v1, cur1, slots1) : Reaped esp i s (reap_slot esp i s) =
      reap_slot-Reaped esp i v (omega arith) in
    let (v2, cur2, slots2) = reap_from-lem {s = reap_slot esp i s} esp n (i + 1) v1 (omega arith) in
    (v2, cur2 ∙ cur1, λ j. slots2 j ∙ rw cur1 (step j (slots1 j) (Bool-cases (i == j))))
  where
    step :
        {p : Process} (j : ℕ)
        → p
          ≡ (if (i == j) && reapable esp s.current_proc (slot s i) i then no_process else slot s j)
        → ((i == j) ≡ true) ⊎ ((i == j) ≡ false)
        → (if leb (i + 1) j && ltb j (i + 1 + n) && reapable esp s.current_proc p j
            then no_process
            else p)
          ≡ (if leb i j && ltb j (i + suc n) && reapable esp s.current_proc (slot s j) j
              then no_process
              else slot s j)
    step j e (inl hit) =
        let here : i ≡ j = ground arith in ground (arith, ap (λ (k : ℕ). slot s k) here, e)
    step {p = p} j e (inr miss) =
        let here : p ≡ slot s j = e ∙ rw miss refl in rw here (ground arith)

-- Reaping keeps a table valid and the current process current. It clears the slot of every exited
-- process, but for the current one and for one on whose kernel stack the code runs, and leaves all
-- other slots as they are.
pub proc_reap_lem :
    {s : Procs} (esp : ℕ)
    → IsValid s
    → let s' = proc_reap esp s in
      IsValid s'
      × (s'.current_proc ≡ s.current_proc)
      × ((j : ℕ)
          → j < max_procs
          → slot s' j ≡ (if reapable esp s.current_proc (slot s j) j then no_process else slot s j))
unfolding proc_reap ReapedFrom
proc_reap_lem {s} esp v =
    let (v', current, slots) = reap_from-lem esp 16 0 v (omega arith) in
    (v', current, λ j h. slots j ∙ ground (arith, h))
