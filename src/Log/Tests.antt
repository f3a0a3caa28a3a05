-- ===== src/Log/Tests.antt =====
-- Runs of the two logs, and the theorems at concrete logs.
use orion_os.Base.{ℕ, true, some, [], ◌∷◌, fill, length-fill}
use orion_os.Log.{Klog, Bootlog, klog_buf_size, log_buf_size, klog_add, klog_clear, bootlog_clear}
use orion_os.Log.Ring.{Holds, klog_add-Holds, klog_clear-Holds}
use orion_os.Log.Boot.{Shows, bootlog_clear-Shows}

-- The logs at startup: static arrays of zeros.
startup_klog : Klog
startup_klog = record { klog_buf = fill 0 klog_buf_size; klog_head = 0; klog_count = 0 }

startup_bootlog : Bootlog
startup_bootlog = record {
  bootlog_buf = fill 0 log_buf_size;
  bootlog_index = 0;
  bootlog_enabled = true;
}

cleared_klog : Klog
cleared_klog = klog_clear startup_klog

cleared_bootlog : Bootlog
cleared_bootlog = bootlog_clear startup_bootlog

cleared_klog-Holds : Holds [] cleared_klog
unfolding cleared_klog startup_klog
cleared_klog-Holds = klog_clear-Holds startup_klog (length-fill {A = ℕ} 0 klog_buf_size)

cleared_bootlog-Shows : Shows [] cleared_bootlog
unfolding cleared_bootlog startup_bootlog
cleared_bootlog-Shows = bootlog_clear-Shows startup_bootlog (length-fill {A = ℕ} 0 log_buf_size)

klog_add-Holds_example : Holds (b'o' ∷ b'k' ∷ []) (klog_add (some (b'o' ∷ b'k' ∷ [])) cleared_klog)
klog_add-Holds_example = klog_add-Holds (some (b'o' ∷ b'k' ∷ [])) [] cleared_klog-Holds
