-- ===== src/Rtc.antt =====
-- targets/stm32-rtc-timing/base/stm32_rtc.cpp: the time base on the sub-second counter of the RTC.
pub mod Ticks
pub mod Micros
pub mod Wake
mod Tests
use lib_stm.Base.{
  ℕ, ◌+◌, ◌-◌, ◌*◌, ◌/◌, ◌%◌, ◌^◌, ◌==◌, ltb, if◌then◌else◌, Bool, true, false, bit_and, u32, sub32,
  min,
}

-- `state`: the counter at the last reading, and the ticks counted so far.
pub record Clock : Type 0 where
  pub last : ℕ
  pub mono : ℕ

abbrev pub reset_clock : Clock
reset_clock = record { last = 0; mono = 0 }

-- `_stm32_rtc_mono`, with the value of the register SSR: the new state and the ticks.
unfoldable pub rtc_mono : ℕ → Clock → Clock × ℕ
rtc_mono val s =
    let elapsed = bit_and (sub32 s.last val) 32767 in
    let s' = if elapsed == 0 then s else record { last = val; mono = u32 (s.mono + elapsed) } in
    (s', s'.mono)

-- The state of `_stm32_rtc_us`.
pub record Micro : Type 0 where
  pub last : ℕ
  pub t64 : ℕ

abbrev pub reset_micro : Micro
reset_micro = record { last = 0; t64 = 0 }

-- `((int64_t)1000000 << 32) / MONO_FREQUENCY`
unfoldable pub us_factor : ℕ → ℕ
us_factor frequency = 1000000 * 2 ^ 32 / frequency

-- `_stm32_rtc_us` behind its call of `_stm32_rtc_mono`: the new state and the microseconds.
unfoldable pub rtc_us : ℕ → ℕ → Micro → Micro × ℕ
rtc_us frequency mono s =
    let elapsed = sub32 mono s.last in
    let s' = if elapsed == 0 then s else record { last = mono; t64 = (s.t64 + elapsed) % 2 ^ 64 } in
    (s', u32 (s'.t64 * us_factor frequency % 2 ^ 64 / 2 ^ 32))

-- What `_stm32_rtc_setup_wake` leaves: the sub-second value of the alarm, and whether it triggered
-- an event at once.
pub record Alarm : Type 0 where
  pub wake_ssr : ℕ
  pub event : Bool

-- `_stm32_rtc_setup_wake`, with the value of SSR at its second half.
unfoldable pub setup_wake : ℕ → ℕ → Clock → Alarm
setup_wake wake_at ssr s =
    let sleep_ticks = sub32 wake_at s.mono in
    let ssr_sleep = min 32767 sleep_ticks in
    let wake_ssr = bit_and (sub32 s.last ssr_sleep) 32767 in
    let to_go = bit_and (u32 (sub32 wake_ssr ssr + 1)) 32767 in
    record { wake_ssr = wake_ssr; event = if ltb ssr_sleep 16383 then ltb to_go 16 else false }
