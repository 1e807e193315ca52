-- ===== src/Common/Util.antt =====
-- rocket/common/util.cc: the clock of the timers, and the numbers of process and thread. What
-- `gettimeofday` and the system calls give is an argument. `getInt32FromNetByte` stands with the
-- coder.
use my_rocket.Base.{ℕ, ◌+◌, ◌*◌, ◌/◌, ◌≤◌, ◌<◌, ◌≡◌, ◌⊎◌, inl, inr, ◌==◌, not, if◌then◌else◌, arith}

unfoldable pub get_now_ms : ℕ → ℕ → ℕ
get_now_ms sec usec = sec * 1000 + usec / 1000

-- The static number, which nothing ever sets, or else that of the system.
unfoldable pub get_pid : ℕ → ℕ → ℕ
get_pid g_pid pid = if not (g_pid == 0) then g_pid else pid

unfoldable pub get_thread_id : ℕ → ℕ → ℕ
get_thread_id t_thread_id id = if not (t_thread_id == 0) then t_thread_id else id

-- The milliseconds do not run back while the clock does not, if its microseconds are less than a
-- second: the hypothesis on the clock that an expiry of Net.Timer has.
pub get_now_ms_mono :
    (sec usec sec' usec' : ℕ)
    → usec < 1000000
    → (sec < sec') ⊎ ((sec ≡ sec') × (usec ≤ usec'))
    → get_now_ms sec usec ≤ get_now_ms sec' usec'
unfolding get_now_ms
get_now_ms_mono sec usec sec' usec' h (inl lt) = omega arith
get_now_ms_mono sec usec sec' usec' h (inr (e, le)) = omega (arith, e, le)
