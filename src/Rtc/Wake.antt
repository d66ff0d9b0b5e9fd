-- ===== src/Rtc/Wake.antt =====
-- targets/stm32-rtc-timing/base/stm32_rtc.cpp: the alarm stands at the tick that was asked for.
