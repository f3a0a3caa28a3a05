-- ===== src/Syscall/Files/Isolation.antt =====
-- No call on files of kernel/syscall.c touches a descriptor of another process.
use orion_os.Base.{ℕ, ◌≡◌, ◌≢◌}
use orion_os.Syscall.Files.{Fds, slot}

-- The descriptors that other processes have in use are as they were.
abbrev pub Kept : ℕ → Fds → Fds → Type 0
Kept pid t t' = (k : ℕ) → (slot t k).in_use ≢ 0 → (slot t k).owner_pid ≢ pid → slot t' k ≡ slot t k
