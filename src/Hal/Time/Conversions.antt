-- ===== src/Hal/Time/Conversions.antt =====
-- Microseconds to cycles and back.
use native.Mathlib.Nat.{mul-div_cancel}
use aer_handshake_firmware.Base.{ℕ, ◌*◌, ◌^◌, ◌<◌, ◌≤◌, ◌≡◌, false, ◌==◌, arith}
use aer_handshake_firmware.Hal.Time.{clk_sys_hz, cycles_per_us, cycles_to_us, us_to_cycles}

-- At any clock that the SDK reports there is a cycle in a microsecond.
pub cycles_per_us_bounds :
    (reported : ℕ) → (1 ≤ cycles_per_us reported) × (cycles_per_us reported ≤ 4294)
unfolding cycles_per_us clk_sys_hz
cycles_per_us_bounds reported = ground arith

in_word : (per us : ℕ) → us * per < 2 ^ 32 → us_to_cycles per us ≡ us * per
unfolding us_to_cycles
in_word per us h = ground arith

back : (per us : ℕ) → 1 ≤ per → us * per < 2 ^ 32 → cycles_to_us per (us_to_cycles per us) ≡ us
unfolding cycles_to_us
back per us pos h =
    let nonzero : (per == 0) ≡ false = ground arith in
    rw (nonzero, in_word per us h, cycles_to_us) (mul-div_cancel us pos)

-- At any clock that the SDK reports: a number of microseconds whose cycles fit in 32 bits,
-- converted to cycles and back, is the same; and the clock gives from 1 to 4294 cycles for a
-- microsecond.
pub cycles_to_us-us_to_cycles :
    (reported us : ℕ)
    → us * cycles_per_us reported < 2 ^ 32
    → (cycles_to_us (cycles_per_us reported) (us_to_cycles (cycles_per_us reported) us) ≡ us)
      × (1 ≤ cycles_per_us reported)
      × (cycles_per_us reported ≤ 4294)
unfolding us_to_cycles cycles_to_us
cycles_to_us-us_to_cycles reported us h =
    let (some_cycles, few) = cycles_per_us_bounds reported in
    (back (cycles_per_us reported) us some_cycles h, some_cycles, few)
