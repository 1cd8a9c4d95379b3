-- ===== src/Devices/Timer.antt =====
-- am/src/nemu/common/timer.c, with what the clock reads as an argument.
use nexus_am_ame.Base.{ℕ, ◌+◌, ◌-◌, ◌%◌, ◌^◌, ◌<◌, ◌≡◌, arith}

-- `_DEV_TIMER_UPTIME_t`
pub record Uptime : Type 0 where
  pub hi : ℕ
  pub lo : ℕ

-- `_DEV_TIMER_DATE_t`
pub record Date : Type 0 where
  pub year : ℕ
  pub month : ℕ
  pub day : ℕ
  pub hour : ℕ
  pub minute : ℕ
  pub second : ℕ

-- `__am_timer_init`: the new `boot_time`.
pub am_timer_init : ℕ → ℕ
am_timer_init rtc = rtc % 2 ^ 32

-- `__am_timer_read`, register UPTIME
pub read_uptime : ℕ → ℕ → Uptime
read_uptime boot_time rtc = record {
  hi = 0;
  lo = (rtc % 2 ^ 32 + 2 ^ 64 - boot_time) % 2 ^ 64 % 2 ^ 32;
}

-- `__am_timer_read`, register DATE
pub read_date : Date
read_date = record { year = 2018; month = 0; day = 0; hour = 0; minute = 0; second = 0 }

-- The time since the start, as long as it is below 2^32, also when the 32-bit clock wraps.
pub uptime_lem :
    (start elapsed : ℕ)
    → elapsed < 2 ^ 32
    → (read_uptime (am_timer_init start) (start + elapsed)).lo ≡ elapsed
unfolding read_uptime am_timer_init
uptime_lem start elapsed h = omega arith
