-- ===== src/Hal/Time.antt =====
-- pico_aer_rx/hal/hal_time.c and hal_time.h: deadlines in 64-bit microseconds, and the cycle
-- counter. A value read from the timer of the SDK, `time_us_64()`, is an argument `now`, and one
-- read from the DWT counter an argument `cyccnt`.
pub mod Conversions
pub mod Spins
use aer_handshake_firmware.Base.{
  ℕ, ◌+◌, ◌-◌, ◌*◌, ◌/◌, ◌^◌, ◌<◌, ◌≤◌, ◌≡◌, ◌↔◌, Bool, true, false, not, ◌||◌, Option, none, some,
  List, [], ◌∷◌, if◌then◌else◌, ltb, leb, ◌==◌, u32, u64, arith,
}

-- `g_clk_sys_hz` and `g_cycles_per_us` after `hal_time_init`; the argument is what the SDK's
-- `clock_get_hz(clk_sys)` returns.
pub clk_sys_hz : ℕ → ℕ
clk_sys_hz reported = if u32 reported == 0 then 125000000 else u32 reported

pub cycles_per_us : ℕ → ℕ
cycles_per_us reported =
    let cycles = clk_sys_hz reported / 1000000 in if cycles == 0 then 1 else cycles

unfoldable pub deadline_us : ℕ → ℕ → ℕ
deadline_us now timeout_us = u64 (now + timeout_us)

-- The difference is read as an int64_t: it is at most 0 if it is 0 or its sign bit is set.
unfoldable pub expired : ℕ → ℕ → Bool
expired now deadline = let diff = u64 (deadline + 2 ^ 64 - now) in diff == 0 || leb (2 ^ 63) diff

pub remaining_us : ℕ → ℕ → ℕ
remaining_us now deadline =
    if leb deadline now
    then 0
    else let rem = u64 (deadline + 2 ^ 64 - now) in
      if ltb 0xFFFFFFFF rem then 0xFFFFFFFF else u32 rem

-- `g_dwt_ok` after `enable_dwt_cycle_counter_if_present`, from the two readings of the counter of a
-- chip that has it: whether it counts.
pub dwt_ok : Option (ℕ × ℕ) → Bool
dwt_ok none = false
dwt_ok (some (a, b)) = not (b == a)

-- The static variables after `hal_time_init`.
pub record Clock : Type 0 where
  pub hz : ℕ
  pub per_us : ℕ
  pub counts : Bool

pub init : ℕ → Option (ℕ × ℕ) → Clock
init reported dwt = record {
  hz = clk_sys_hz reported;
  per_us = cycles_per_us reported;
  counts = dwt_ok dwt;
}

-- `hal_cycles_now`: the DWT counter, or, without it, cycles derived from the time.
pub cycles_now : Clock → ℕ → ℕ → ℕ
cycles_now c cyccnt now = if c.counts then u32 cyccnt else u32 (u64 (now * c.per_us))

pub cycles_diff : ℕ → ℕ → ℕ
cycles_diff newer older = u32 (newer + 2 ^ 32 - older)

pub cycles_to_us : ℕ → ℕ → ℕ
cycles_to_us per_us cycles = if per_us == 0 then 0 else cycles / per_us

pub us_to_cycles : ℕ → ℕ → ℕ
us_to_cycles per_us us = let c = u64 (us * per_us) in if ltb 0xFFFFFFFF c then 0xFFFFFFFF else u32 c

-- `hal_time_wait_until`, on the times that it reads: those that are left when it returns, or `none`
-- where it still waits.
pub wait_until : ℕ → List ℕ → Option (List ℕ)
wait_until deadline [] = none
wait_until deadline (now ∷ later) =
    let rest = wait_until deadline later in if expired now deadline then some later else rest

-- The loop of `hal_time_spin_cycles`, on the counters that it reads.
pub spin_from : ℕ → ℕ → List ℕ → Option (List ℕ)
spin_from start cycles [] = none
spin_from start cycles (c ∷ later) =
    let rest = spin_from start cycles later in
    if ltb (cycles_diff c start) cycles then rest else some later

pub spin_cycles : ℕ → List ℕ → Option (List ℕ)
spin_cycles cycles [] = none
spin_cycles cycles (start ∷ later) = spin_from start cycles later

-- A deadline set at time `start` has expired at time `start + elapsed` exactly when `timeout`
-- microseconds have passed, also where the 64-bit time wraps between the two, as long as less than
-- 2^63 microseconds have passed.
pub expired-deadline_us :
    (start timeout elapsed : ℕ)
    → start < 2 ^ 64
    → timeout < 2 ^ 32
    → elapsed < 2 ^ 63
    → (expired (u64 (start + elapsed)) (deadline_us start timeout) ≡ true) ↔ (timeout ≤ elapsed)
unfolding expired deadline_us
expired-deadline_us start timeout elapsed hs ht he = ground arith
