-- ===== src/Timer/Ticks.antt =====
-- kernel/proc/timer_task.c: milliseconds to ticks, and the tick counter's wrap-around.
use orion_os.Base.{ℕ, ◌+◌, ◌/◌, ◌%◌, ◌^◌, ◌<◌, leb, ◌==◌, if◌then◌else◌, ◌≡◌, arith}
use orion_os.Timer.{ms_to_ticks, tick_elapsed}

-- The ticks for a 32-bit number of milliseconds are a tenth of it, rounded up, and one tick for
-- zero.
pub ms_to_ticks_lem :
    (ms : ℕ) → ms < 2 ^ 32 → ms_to_ticks ms ≡ (if ms == 0 then 1 else (ms + 9) / 10)
unfolding ms_to_ticks
ms_to_ticks_lem ms small = ground arith

-- A tick `d` after some start, within half the counter's range, has elapsed `k` ticks after that
-- start exactly when `d` is at most `k`, even where the counter has wrapped around in between.
pub tick_elapsed_lem :
    (start k d : ℕ)
    → start < 2 ^ 32
    → k < 2 ^ 31
    → d < 2 ^ 31
    → tick_elapsed ((start + k) % 2 ^ 32) ((start + d) % 2 ^ 32) ≡ leb d k
unfolding tick_elapsed
tick_elapsed_lem start k d start< k< d< = ground arith
