-- ===== src/Syscall/Files.antt =====
-- The open files of kernel/syscall.c: the table of descriptors, and the calls open, read, write and
-- close on it, over the file system of fs/fscmd.c.
pub mod Table
pub mod Isolation
use orion_os.Base.{
  ℕ, zero, suc, ◌+◌, ◌-◌, ◌%◌, ◌^◌, Bool, true, false, Option, none, some, List, [], ◌∷◌, ◌++◌, ltb,
  leb, ◌==◌, ◌!=◌, if◌then◌else◌, not, take, length, get_or, set, fill, ◌&&◌, ◌||◌,
}
use orion_os.CString.{ℤ, pos, negsuc, strcasecmp}
use orion_os.Syscall.{minus_one, validate_user_buffer, copy_user_string}

abbrev pub max_open_files : ℕ
max_open_files = 16

abbrev pub max_path_len : ℕ
max_path_len = 256

-- syscall_fd_t; `path` is the text before its first 0.
pub record Fd : Type 0 where
  pub in_use : ℕ
  pub owner_pid : ℕ
  pub offset : ℕ
  pub size : ℕ
  pub path : List ℕ

abbrev pub no_fd : Fd
no_fd = record { in_use = 0; owner_pid = 0; offset = 0; size = 0; path = [] }

abbrev pub Fds : Type 0
Fds = List Fd

abbrev pub slot : Fds → ℕ → Fd
slot t i = get_or t i no_fd

-- The loop of alloc_fd with `n` slots left.
unfoldable pub alloc_from : ℕ → ℕ → ℕ → Fds → Option (ℕ × Fds)
alloc_from zero i pid t = none
alloc_from (suc n) i pid t =
    let later = alloc_from n (i + 1) pid t in
    if (slot t i).in_use == 0
    then some (i, set t i (record { in_use = 1; owner_pid = pid; offset = 0; size = 0; path = [] }))
    else later

-- `none` where the code returns -1.
unfoldable pub alloc_fd : ℕ → Fds → Option (ℕ × Fds)
alloc_fd pid t = alloc_from max_open_files 0 pid t

-- The index of the entry that the code points to.
unfoldable pub get_fd : ℕ → ℕ → Fds → Option ℕ
get_fd fd pid t =
    if leb max_open_files fd
    then none
    else if (slot t fd).in_use == 0
    then none
    else if (pid != 0) && ((slot t fd).owner_pid != pid)
    then none
    else some fd

unfoldable pub close_from : ℕ → ℕ → ℕ → Fds → Fds
close_from zero i pid t = t
close_from (suc n) i pid t =
    close_from n (i + 1) pid (
      if (slot t i).in_use == 0
      then t
      else if (slot t i).owner_pid != pid
      then t
      else set t i no_fd)

unfoldable pub sys_close_fds_for_pid : ℕ → Fds → Fds
sys_close_fds_for_pid pid t = if pid == 0 then t else close_from max_open_files 0 pid t

abbrev is_equal : ℤ → Bool
is_equal (pos n) = n == 0
is_equal (negsuc n) = false

-- The strings with their terminator.
abbrev console : List ℕ
console = b'c' ∷ b'o' ∷ b'n' ∷ b's' ∷ b'o' ∷ b'l' ∷ b'e' ∷ 0 ∷ []

abbrev dev_console : List ℕ
dev_console =
    b'/' ∷ b'd' ∷ b'e' ∷ b'v' ∷ b'/' ∷ b'c' ∷ b'o' ∷ b'n' ∷ b's' ∷ b'o' ∷ b'l' ∷ b'e' ∷ 0 ∷ []

unfoldable pub is_console_path : List ℕ → Bool
is_console_path path =
    is_equal (strcasecmp (path ++ (0 ∷ [])) console)
    || is_equal (strcasecmp (path ++ (0 ∷ [])) dev_console)

-- What the calls need of the file system; `read_file` answers `none` for a negative count.
pub record FileSystem {ℓ} (S : Type ℓ) : Type ℓ where
  pub exists : List ℕ → S → Bool
  pub write_file : List ℕ → List ℕ → S → Bool × S
  pub get_file_size : List ℕ → S → ℕ
  pub read_file : List ℕ → ℕ → ℕ → S → Option (List ℕ)

-- strncpy into `path` and its last byte.
abbrev pub named : Fd → List ℕ → ℕ → Fd
named f path size = record f { path = take (max_path_len - 1) path; size = size }

-- The bytes from an address on.
unfoldable pub bytes_at : (ℕ → ℕ) → ℕ → ℕ → List ℕ
bytes_at user addr zero = []
bytes_at user addr (suc n) = user addr ∷ bytes_at user ((addr + 1) % 2 ^ 32) n

abbrev accepted : Option Bool → Bool
accepted none = false
accepted (some ok) = ok

-- The calls on files with the registers that they read.
pub data FileCall : Type 0 where
  open_call : ℕ → FileCall
  read_call write_call : (fd buffer len : ℕ) → FileCall
  close_call : ℕ → FileCall

-- The calls of a program with the pid `pid`; the first part of a result is eax.
module _ {ℓ} {S : Type ℓ} (fs : FileSystem S) (mapped : ℕ → Bool) (user : ℕ → ℕ) (pid : ℕ) where
  unfoldable pub open_named : List ℕ → ℕ → Fds → S → ℕ × Fds × S
  open_named path size t s = elim (alloc_fd pid t) [
    | none ↦ (minus_one, t, s)
    | some (fd, t') ↦ (fd, set t' fd (named (slot t' fd) path size), s)
  ]

  unfoldable pub sys_open : ℕ → Fds → S → ℕ × Fds × S
  sys_open ebx t s = elim (copy_user_string mapped user ebx max_path_len) [
    | none ↦ (minus_one, t, s)
    | some path ↦
        let (written, s') = fs.write_file path [] s in
        if is_console_path path
        then open_named path 0 t s
        else if fs.exists path s
        then open_named path (fs.get_file_size (take (max_path_len - 1) path) s) t s
        else if written
        then open_named path (fs.get_file_size (take (max_path_len - 1) path) s') t s'
        else (minus_one, t, s')
  ]

  -- The second part is what the buffer gets.
  unfoldable pub read_open : ℕ → ℕ → Fds → S → ℕ × List ℕ × Fds
  read_open i len t s =
      let f = slot t i in
      if leb f.size f.offset
      then (0, [], t)
      else elim (fs.read_file f.path f.offset
          (if ltb len (f.size - f.offset) then len else f.size - f.offset) s) [
            | none ↦ (minus_one, [], t)
            | some bytes ↦ (
              length bytes,
              bytes,
              set t i (record f { offset = (f.offset + length bytes) % 2 ^ 32 }),
            )
          ]

  unfoldable pub sys_read : (fd buffer len : ℕ) → Fds → S → ℕ × List ℕ × Fds
  sys_read fd buffer len t s = elim (get_fd fd pid t) [
    | none ↦ (0, [], t)
    | some i ↦
        if (len == 0) || (buffer == 0)
        then (0, [], t)
        else if accepted (validate_user_buffer mapped buffer len)
        then read_open i len t s
        else (minus_one, [], t)
  ]

  -- The second part is what goes to the console.
  unfoldable pub write_open : (i buffer len : ℕ) → Fds → S → ℕ × List ℕ × Fds × S
  write_open i buffer len t s =
      let f = slot t i in
      let bytes = bytes_at user buffer len in
      let (written, s') = fs.write_file f.path bytes s in
      if is_console_path f.path
      then (len, bytes, t, s)
      else if written
      then (len, [], set t i (record f { size = len; offset = 0 }), s')
      else (minus_one, [], t, s')

  unfoldable pub sys_write : (fd buffer len : ℕ) → Fds → S → ℕ × List ℕ × Fds × S
  sys_write fd buffer len t s = elim (get_fd fd pid t) [
    | none ↦ (minus_one, [], t, s)
    | some i ↦
        if len == 0
        then (0, [], t, s)
        else if (buffer != 0) && accepted (validate_user_buffer mapped buffer len)
        then write_open i buffer len t s
        else (minus_one, [], t, s)
  ]

  unfoldable pub sys_close : ℕ → Fds → ℕ × Fds
  sys_close fd t = elim (get_fd fd pid t) [ none ↦ (minus_one, t) | some i ↦ (0, set t i no_fd) ]

  -- What a call leaves of the table and the file system.
  unfoldable pub file_call : FileCall → Fds → S → Fds × S
  file_call (open_call ebx) t s = let (eax, t', s') = sys_open ebx t s in (t', s')
  file_call (read_call fd buffer len) t s =
      let (eax, bytes, t') = sys_read fd buffer len t s in (t', s)
  file_call (write_call fd buffer len) t s =
      let (eax, printed, t', s') = sys_write fd buffer len t s in (t', s')
  file_call (close_call fd) t s = let (eax, t') = sys_close fd t in (t', s)
