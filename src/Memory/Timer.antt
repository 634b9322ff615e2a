-- ===== src/Memory/Timer.antt =====
-- csrc/utils/timer.c, and `rtc_read` of csrc/memory/mmio.cpp. What `gettimeofday` gives is an
-- argument, in microseconds.
use fpga_npc.Base.{
  ℕ, ◌+◌, ◌-◌, ◌*◌, ◌/◌, ◌%◌, ◌^◌, ◌≤◌, ◌<◌, ◌≡◌, ap, ◌||◌, ◌==◌, if◌then◌else◌, Outcome, done,
  aborted, u32, u64, sub64, arith,
}
use fpga_npc.Memory.{rtc_addr}

-- `get_time_internal`: `tv_sec * 1000000 + tv_usec`.
unfoldable pub get_time_internal : ℕ → ℕ → ℕ
get_time_internal tv_sec tv_usec = u64 (tv_sec * 1000000 + tv_usec)

-- `get_time`, with `boot_time`, a first reading of the clock, used where `boot_time` is 0, and a
-- second one: the result and `boot_time`.
unfoldable pub get_time : ℕ → ℕ → ℕ → ℕ × ℕ
get_time boot_time first now =
    let boot = if boot_time == 0 then first else boot_time in (sub64 now boot, boot)

-- `get_time() >> ((addr - RTC_ADDR) * 8)`, as an `int`.
unfoldable pub rtc_word : ℕ → ℕ → ℕ
rtc_word time addr = u32 (time / (if addr == rtc_addr then 1 else 2 ^ 32))

-- `rtc_read`, where `get_time` gives `time`.
unfoldable pub rtc_read : ℕ → ℕ → Outcome ℕ
unfolding rtc_word
rtc_read time raddr =
    if (raddr == rtc_addr) || (raddr == rtc_addr + 4) then done (rtc_word time raddr) else aborted

-- As long as the clock of the host does not go back, a second get_time gives the first result plus
-- the time in between, modulo 2 ^ 64, whether or not the first call set boot_time.
pub get_time-elapsed :
    (boot_time first now later : ℕ)
    → first < 2 ^ 64
    → boot_time < 2 ^ 64
    → now ≤ later
    → later < 2 ^ 64
    → let (time, boot) = get_time boot_time first now in
      u64 (time + (later - now)) ≡ (get_time boot first later).0
unfolding get_time
get_time-elapsed boot_time first now later a b c d = ground arith

-- The two words that rtc_read gives for a 64-bit time make up that time.
pub rtc_read-words :
    (time : ℕ)
    → time < 2 ^ 64
    → (lo : ℕ) × (hi : ℕ) × (rtc_read time rtc_addr ≡ done lo)
      × (rtc_read time (rtc_addr + 4) ≡ done hi)
      × (lo + 2 ^ 32 * hi ≡ time)
unfolding rtc_read
rtc_read-words time h =
    (time % 2 ^ 32, time / 2 ^ 32, ap done (omega arith), ap done (omega arith), omega arith)
