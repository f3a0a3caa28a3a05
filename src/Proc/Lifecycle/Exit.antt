-- ===== src/Proc/Lifecycle/Exit.antt =====
-- Exit and the waking of a vfork's parent keep the invariant of the process table.
use orion_os.Base.{
  ℕ, ◌<◌, ◌≡◌, refl, sym, ap, subst, ◌∙◌, true, false, Option, none, some, arith, ◌==◌,
  if◌then◌else◌, if-both, if-each, inl, inr, Bool-cases, Option-cases, length, length-set,
}
use orion_os.Proc.{
  Process, Procs, slot, put_slot, max_procs, find_slot, is_running, is_blocked, proc_ready,
  proc_exited,
}
use orion_os.Proc.Invariant.{
  IsValid, IsIdle, get_or-set, same-IsValid, put_slot-IsValid, find_slot-lem,
}
use orion_os.Proc.Lifecycle.{note_exit, proc_wake_vfork_parent, proc_exit}

put_slot-IsIdle :
    {s : Procs} (i : ℕ) (p : Process)
    → IsIdle s
    → i < max_procs
    → is_running p.state ≡ false
    → IsIdle (put_slot i p s)
put_slot-IsIdle {s} i p v h rests = record {
  size = length-set s.proc_table i p ∙ v.size;
  idle = λ j.
      ap (λ (x : Process). is_running x.state)
        (get_or-set s.proc_table i j p (omega (arith, v.size)))
      ∙ if-both (λ (x : Process). is_running x.state ≡ false) (i == j) rests (v.idle j);
}

-- A child whose parent is told to go on.
abbrev pub told : ℕ → Procs → Procs
told i s = put_slot i (record (slot s i) { vfork_parent_pid = 0 }) s

abbrev pub parent_of : ℕ → Procs → Option ℕ
parent_of i s = find_slot (λ p. p.pid == (slot s i).vfork_parent_pid) (told i s).proc_table

abbrev pub woken : ℕ → Procs → Procs
woken j s = put_slot j (record (slot s j) { state = proc_ready }) s

-- What holds of each state that the waking may leave holds of the one that it leaves.
pub wake-both :
    (P : Procs → Type 0) (i : ℕ) (s : Procs)
    → P s
    → P (told i s)
    → ((j : ℕ)
        → parent_of i s ≡ some j
        → is_blocked (slot (told i s) j).state ≡ true
        → P (woken j (told i s)))
    → P (proc_wake_vfork_parent i s)
unfolding proc_wake_vfork_parent
wake-both P i s alone child parent =
    if-both P ((slot s i).vfork_parent_pid == 0) alone (go (parent_of i s) refl)
  where
    go :
        (r : Option ℕ)
        → parent_of i s ≡ r
        → P (elim r [
          | none ↦ told i s
          | some j ↦ if is_blocked (slot (told i s) j).state then woken j (told i s) else told i s
        ])
    go none e = child
    go (some j) e = elim (Bool-cases (is_blocked (slot (told i s) j).state)) [
      | inl yes1 ↦ rw yes1 (parent j e yes1)
      | inr no1 ↦ rw no1 child
    ]

pub parent-lt :
    (i j : ℕ) (s : Procs) → length s.proc_table ≡ max_procs → parent_of i s ≡ some j → j < max_procs
parent-lt i j s size e = omega (
  arith,
  size,
  length-set s.proc_table i (record (slot s i) { vfork_parent_pid = 0 }),
  (find_slot-lem _ (told i s).proc_table j e).0,
)

pub wake-IsValid :
    {s : Procs} (i : ℕ) → IsValid s → i < max_procs → IsValid (proc_wake_vfork_parent i s)
wake-IsValid {s} i v h =
    let v' : IsValid (told i s) = put_slot-IsValid i _ v h (v.only i) (v.live i) in
    wake-both IsValid i s v v' (λ j e b.
      put_slot-IsValid j _ v' (parent-lt i j s v.size e) (λ r. absurd (ground arith))
        (λ r. ground arith))

pub wake-IsIdle :
    {s : Procs} (i : ℕ) → IsIdle s → i < max_procs → IsIdle (proc_wake_vfork_parent i s)
wake-IsIdle {s} i v h =
    let v' : IsIdle (told i s) = put_slot-IsIdle i _ v h (v.idle i) in
    wake-both IsIdle i s v v'
      (λ j e b. put_slot-IsIdle j _ v' (parent-lt i j s v.size e) (ground arith))

-- The state of proc_exit before it takes the current process away.
ended : ℕ → ℕ → Procs → Procs
ended exit_code c s =
    let s1 = if s.foreground_pid == (slot s c).pid then record s { foreground_pid = 0 } else s in
    put_slot c (record (slot s1 c) { exit_code = exit_code; state = proc_exited }) s1

leave-IsIdle :
    {s : Procs} (c : ℕ) (p : Process)
    → IsValid s
    → s.current_proc ≡ some c
    → is_running p.state ≡ false
    → IsIdle (put_slot c p s)
leave-IsIdle {s} c p v on rests = record {
  size = length-set s.proc_table c p ∙ v.size;
  idle = λ j.
      ap (λ (x : Process). is_running x.state)
        (get_or-set s.proc_table c j p (omega (arith, v.size, v.inside c on)))
      ∙ if-each (λ (x : Process). is_running x.state ≡ false) (c == j) (λ hit. rests)
          (λ miss. elim (Bool-cases (is_running (slot s j).state)) [
            | inl run ↦ absurd (ground (arith, v.only j run))
            | inr rest ↦ rest
          ]);
}

ended-IsIdle :
    {s : Procs} (exit_code c : ℕ)
    → IsValid s
    → s.current_proc ≡ some c
    → IsIdle (ended exit_code c s)
unfolding ended
ended-IsIdle {s} exit_code c v on = elim (Bool-cases (s.foreground_pid == (slot s c).pid)) [
  | inl front ↦ simp front (leave-IsIdle c _ (same-IsValid refl refl refl v) on refl)
  | inr back ↦ simp back (leave-IsIdle c _ v on refl)
]

note_exit-IsIdle : {s : Procs} → IsIdle s → IsIdle (note_exit s)
unfolding note_exit
note_exit-IsIdle {s} w =
    if-both IsIdle s.proc_reaper_enabled (record { size = w.size; idle = w.idle }) w

pub note_exit-IsValid : {s : Procs} → IsValid s → IsValid (note_exit s)
unfolding note_exit
note_exit-IsValid {s} w = if-both IsValid s.proc_reaper_enabled (same-IsValid refl refl refl w) w

no_current-IsValid :
    {s : Procs} → IsIdle s → IsValid (record s { current_proc = none; current_index = none })
no_current-IsValid {s} v = record {
  size = v.size;
  same = refl;
  inside = λ c e. absurd (ground arith);
  live = λ c e. absurd (ground arith);
  only = λ i e. absurd (ground (arith, v.idle i));
}

proc_exit-some :
    (exit_code c : ℕ) (s : Procs)
    → s.current_proc ≡ some c
    → let s3 = proc_wake_vfork_parent c (ended exit_code c s) in
      proc_exit exit_code s ≡ record (note_exit s3) { current_proc = none; current_index = none }
unfolding proc_exit ended
proc_exit-some exit_code c s on = ground arith

proc_exit-none : (exit_code : ℕ) (s : Procs) → s.current_proc ≡ none → proc_exit exit_code s ≡ s
unfolding proc_exit
proc_exit-none exit_code s off = ground arith

-- The exit of the current process, the waking of the parent that waits for it included, leaves a
-- valid table valid.
pub proc_exit-IsValid : {s : Procs} (exit_code : ℕ) → IsValid s → IsValid (proc_exit exit_code s)
proc_exit-IsValid {s} exit_code v = elim (Option-cases s.current_proc) [
  | inl off ↦ subst IsValid (sym (proc_exit-none exit_code s off)) v
  | inr (c, on) ↦
      let w : IsIdle (proc_wake_vfork_parent c (ended exit_code c s)) =
        wake-IsIdle c (ended-IsIdle exit_code c v on) (v.inside c on) in
      subst IsValid (sym (proc_exit-some exit_code c s on))
        (no_current-IsValid (note_exit-IsIdle w))
]
