-- ===== src/Hal/Tests.antt =====
-- A deadline across the wrap of the timer.
use aer_handshake_firmware.Base.{◌+◌, ◌≤◌, ◌≡◌, ◌↔◌, true, u64, arith}
use aer_handshake_firmware.Hal.Time.{expired, deadline_us, expired-deadline_us}

-- 15 microseconds after the time 2^64 - 10.
expired-deadline_us_example :
    (expired (u64 (18446744073709551606 + 15)) (deadline_us 18446744073709551606 15) ≡ true)
    ↔ (15 ≤ 15)
expired-deadline_us_example =
    expired-deadline_us 18446744073709551606 15 15 (omega arith) (omega arith) (omega arith)
