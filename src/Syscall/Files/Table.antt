-- ===== src/Syscall/Files/Table.antt =====
-- The table of descriptors of kernel/syscall.c: which slot alloc_fd takes, and which ones
-- sys_close_fds_for_pid clears.
use orion_os.Base.{
  ℕ, zero, suc, ◌+◌, ◌≤◌, ◌<◌, ◌≡◌, refl, ap, ◌∙◌, ◌≢◌, false, Option, none, some, [], arith, ◌==◌,
  ◌!=◌, ◌&&◌, if◌then◌else◌, if-each, length, length-set, set, get_or-set_self, get_or-set_ne,
  ==-eq, ==-ne,
}
use native.Mathlib.Decide.{dec_le}
use orion_os.Syscall.Files.{
  Fd, no_fd, Fds, slot, alloc_from, alloc_fd, close_from, sys_close_fds_for_pid,
}

-- The slot that a search from `i` over `n` slots takes: the first that is not in use.
pub record Taken (i n pid : ℕ) (t : Fds) (fd : ℕ) (t' : Fds) : Type 0 where
  pub from : i ≤ fd
  pub within : fd < i + n
  pub was_free : (slot t fd).in_use ≡ 0
  pub first_free : (k : ℕ) → i ≤ k → k < fd → (slot t k).in_use ≢ 0
  pub entry :
      t' ≡ set t fd (record { in_use = 1; owner_pid = pid; offset = 0; size = 0; path = [] })

abbrev pub Outcome : ℕ → ℕ → ℕ → Fds → Option (ℕ × Fds) → Type 0
Outcome i n pid t none = (k : ℕ) → i ≤ k → k < i + n → (slot t k).in_use ≢ 0
Outcome i n pid t (some (fd, t')) = Taken i n pid t fd t'

earlier :
    (i n pid : ℕ) (t : Fds) (r : Option (ℕ × Fds))
    → (slot t i).in_use ≢ 0
    → Outcome (i + 1) n pid t r
    → Outcome i (suc n) pid t r
earlier i n pid t none busy rest = λ k le lt. elim (dec_le (i + 1) k) [
  | yes later ↦ rest k later (omega arith)
  | no here ↦ let e : k ≡ i = omega arith in rw e busy
]
earlier i n pid t (some (fd, t')) busy rest =
    let from = rest.from in
    let within = rest.within in
    record {
      from = omega arith;
      within = omega arith;
      was_free = rest.was_free;
      first_free = λ k le lt. elim (dec_le (i + 1) k) [
        | yes later ↦ rest.first_free k later lt
        | no here ↦ let e : k ≡ i = omega arith in rw e busy
      ];
      entry = rest.entry;
    }

alloc_from_lem : (n i pid : ℕ) (t : Fds) → Outcome i n pid t (alloc_from n i pid t)
unfolding alloc_from
alloc_from_lem zero i pid t = λ k le lt. absurd (omega arith)
alloc_from_lem (suc n) i pid t =
    if-each (Outcome i (suc n) pid t) ((slot t i).in_use == 0)
      (λ free. record {
        from = omega arith;
        within = omega arith;
        was_free = ==-eq (slot t i).in_use 0 free;
        first_free = λ k le lt. absurd (omega arith);
        entry = refl;
      })
      (λ busy.
        earlier i n pid t (alloc_from n (i + 1) pid t) (λ e. ground arith)
          (alloc_from_lem n (i + 1) pid t))

-- alloc_fd takes the lowest of the 16 slots that is not in use, for the process and with no path,
-- and leaves the others alone; it fails only where all of them are in use.
pub alloc_fd_lem : (pid : ℕ) (t : Fds) → Outcome 0 16 pid t (alloc_fd pid t)
unfolding alloc_fd
alloc_fd_lem pid t = alloc_from_lem 16 0 pid t

-- The entry after the closing: cleared if it is in use by the process.
abbrev pub closed : ℕ → Fd → Fd
closed pid f = if (f.in_use != 0) && (f.owner_pid == pid) then no_fd else f

abbrev close_one : ℕ → ℕ → Fds → Fds
close_one i pid t =
    if (slot t i).in_use == 0 then t else if (slot t i).owner_pid != pid then t else set t i no_fd

close_one_self :
    (i pid : ℕ) (t : Fds) → i < length t → slot (close_one i pid t) i ≡ closed pid (slot t i)
close_one_self i pid t lt = ground (arith, get_or-set_self t i no_fd no_fd lt)

close_one_other : (i pid : ℕ) (t : Fds) (k : ℕ) → i ≢ k → slot (close_one i pid t) k ≡ slot t k
close_one_other i pid t k ne = ground (arith, get_or-set_ne t i k no_fd no_fd ne)

length-close_one : (i pid : ℕ) (t : Fds) → length (close_one i pid t) ≡ length t
length-close_one i pid t = ground (arith, length-set t i no_fd)

close_from-below :
    (n i pid : ℕ) (t : Fds) (k : ℕ) → k < i → slot (close_from n i pid t) k ≡ slot t k
unfolding close_from
close_from-below zero i pid t k lt = refl
close_from-below (suc n) i pid t k lt =
    close_from-below n (i + 1) pid (close_one i pid t) k (omega arith)
    ∙ close_one_other i pid t k (λ e. omega arith)

close_from_lem :
    (n i pid : ℕ) (t : Fds) (k : ℕ)
    → i + n ≤ length t
    → i ≤ k
    → k < i + n
    → slot (close_from n i pid t) k ≡ closed pid (slot t k)
unfolding close_from
close_from_lem zero i pid t k fits le lt = absurd (omega arith)
close_from_lem (suc n) i pid t k fits le lt = elim (dec_le (i + 1) k) [
  | yes later ↦
      close_from_lem n (i + 1) pid (close_one i pid t) k (omega (arith, length-close_one i pid t))
        later (omega arith)
      ∙ ap (closed pid) (close_one_other i pid t k (λ e. omega arith))
  | no here ↦
      let e : k ≡ i = omega arith in
      rw e (
        close_from-below n (i + 1) pid (close_one i pid t) i (omega arith)
        ∙ close_one_self i pid t (omega arith))
]

-- For a process other than the kernel's, sys_close_fds_for_pid clears exactly the slots that are in
-- use by it.
pub sys_close_fds_for_pid_lem :
    (pid : ℕ) (t : Fds)
    → pid ≢ 0
    → length t ≡ 16
    → (k : ℕ) → k < 16
    → slot (sys_close_fds_for_pid pid t) k ≡ closed pid (slot t k)
unfolding sys_close_fds_for_pid
sys_close_fds_for_pid_lem pid t h len k lt =
    let given : (pid == 0) ≡ false = ==-ne pid 0 h in
    rw given (close_from_lem 16 0 pid t k (omega arith) (omega arith) (omega arith))
