-- ===== src/Syscall/Tests.antt =====
-- Runs of the system calls, and the theorems at concrete states.
use orion_os.Base.{
  ℕ, ◌+◌, ◌<◌, ◌≡◌, refl, ◌≢◌, ◌↔◌, Bool, true, some, [], ◌∷◌, arith, ◌==◌, ◌!=◌, if◌then◌else◌,
  fill, replicate, set,
}
use orion_os.Syscall.{validate_user_buffer, copy_user_string, copy_string_from, consed}
use orion_os.Syscall.Buffer.{Readable, validate_user_buffer_lem}
use orion_os.Syscall.Text.{StringAt, copy_user_string_lem}
use orion_os.Syscall.Files.{Fd, no_fd, Fds, slot, alloc_fd, sys_close_fds_for_pid, FileSystem}
use orion_os.Syscall.Files.Table.{Outcome, alloc_fd_lem, closed, sys_close_fds_for_pid_lem}
use orion_os.Syscall.Gui.{GuiMsg, no_msg, Gui, gui_send, gui_recv}
use orion_os.Syscall.Gui.Refine.{IsValid, contents, send, recv, gui_send_refines, gui_recv_refines}

-- Two pages are mapped, from 4096 on.
abbrev mapped : ℕ → Bool
mapped page = if page == 4096 then true else page == 8192

-- "hi" stands at the end of the first page, its terminator on the second.
abbrev user : ℕ → ℕ
user a = if a == 8190 then b'h' else if a == 8191 then b'i' else 0

validate_user_buffer_lem_example :
    (ok : Bool) × (validate_user_buffer mapped 8000 300 ≡ some ok)
    × (ok ≡ true ↔ Readable mapped 8000 300)
validate_user_buffer_lem_example =
    validate_user_buffer_lem mapped 8000 300 (omega arith) (omega arith)

copy_hi : copy_user_string mapped user 8190 256 ≡ some (b'h' ∷ b'i' ∷ [])
unfolding copy_user_string copy_string_from consed
copy_hi = refl

copy_user_string_lem_example :
    (copy_user_string mapped user 8190 256 ≡ some (b'h' ∷ b'i' ∷ []))
    ↔ ((◌≢◌ {A = ℕ} 8190 0) × StringAt mapped user 8190 (b'h' ∷ b'i' ∷ []) × (2 + 1 < 256))
copy_user_string_lem_example = copy_user_string_lem mapped user 8190 256 (b'h' ∷ b'i' ∷ [])

-- Slot 0 is open by process 7, slot 1 by process 9.
abbrev file : ℕ → Fd
file pid = record { in_use = 1; owner_pid = pid; offset = 2; size = 5; path = b'a' ∷ [] }

abbrev table : Fds
table = file 7 ∷ file 9 ∷ replicate 14 no_fd

alloc_fd_lem_example : Outcome 0 16 7 table (alloc_fd 7 table)
alloc_fd_lem_example = alloc_fd_lem 7 table

sys_close_fds_for_pid_lem_example : slot (sys_close_fds_for_pid 7 table) 1 ≡ closed 7 (file 9)
sys_close_fds_for_pid_lem_example =
    sys_close_fds_for_pid_lem 7 table (λ e. omega arith) refl 1 (omega arith)

-- A file system that counts its writes.
abbrev files : FileSystem ℕ
files = record {
  exists = λ path n. n != 0;
  write_file = λ path bytes n. (true, n + 1);
  get_file_size = λ path n. n;
  read_file = λ path offset len n. some [];
}

-- One message waits in the last slot, and 9 is the server.
abbrev greeting : GuiMsg
greeting = record { sender_pid = 4; kind = 1; a = 2; b = 3; c = 0; text = [] }

abbrev gui : Gui
gui = record {
  gui_queue = set (fill no_msg 64) 63 greeting;
  gui_queue_head = 0;
  gui_queue_tail = 63;
  gui_server_pid = 9;
}

gui-IsValid : IsValid gui
unfolding fill
gui-IsValid = record { slots = refl; head_in = omega arith; tail_in = omega arith }

gui_send_refines_example :
    let (eax, g) = gui_send true 4 greeting gui in
    ((eax, contents g) ≡ send greeting (contents gui))
    × IsValid g
    × (g.gui_server_pid ≡ 9)
    × (eax ≡ 0 → g ≡ gui)
gui_send_refines_example = gui_send_refines true 4 greeting gui-IsValid

gui_recv_refines_example :
    let (msg, g) = gui_recv true 9 gui in ((msg, contents g) ≡ recv (contents gui)) × IsValid g
gui_recv_refines_example = gui_recv_refines true 9 gui-IsValid
