-- ===== src/Hal/Time/Spins.antt =====
-- The busy waits of hal_time.c end at the first reading by which the time has passed.
use aer_handshake_firmware.Base.{
  ℕ, ◌+◌, ◌^◌, ◌<◌, ◌≤◌, ◌≡◌, ◌∙◌, false, some, List, [], ◌∷◌, ◌++◌, All, ltb, u32, u64, if_true,
  if_false, arith,
}
use aer_handshake_firmware.Hal.Time.{
  deadline_us, expired, expired-deadline_us, cycles_diff, wait_until, spin_from, spin_cycles,
}

-- What a counter of a width shows that started at `start`, after each number of ticks.
abbrev pub shown32 : ℕ → List ℕ → List ℕ
shown32 start [] = []
shown32 start (e ∷ es) = u32 (start + e) ∷ shown32 start es

abbrev pub shown64 : ℕ → List ℕ → List ℕ
shown64 start [] = []
shown64 start (e ∷ es) = u64 (start + e) ∷ shown64 start es

cycles_diff_lem :
    (start e : ℕ) → start < 2 ^ 32 → e < 2 ^ 32 → cycles_diff (u32 (start + e)) start ≡ e
unfolding cycles_diff
cycles_diff_lem start e hs he = omega arith

-- `hal_time_spin_cycles` returns at the first reading by which as many cycles have passed as it was
-- told, also where the 32-bit counter wraps, as long as less than 2^32 cycles have passed by then.
pub spin_cycles_ends :
    (start cycles : ℕ) (early : List ℕ) (e : ℕ) (later : List ℕ)
    → start < 2 ^ 32
    → cycles < 2 ^ 32
    → All (λ x. x < cycles) early
    → cycles ≤ e
    → e < 2 ^ 32
    → spin_cycles cycles (start ∷ shown32 start early ++ u32 (start + e) ∷ later) ≡ some later
unfolding spin_cycles spin_from
spin_cycles_ends start cycles [] e later hs hc waits enough fits =
    if_false (ltb (cycles_diff (u32 (start + e)) start) cycles) _ _ (late (omega arith))
  where
    late : cycles ≤ e → ltb (cycles_diff (u32 (start + e)) start) cycles ≡ false
    late h = rw (cycles_diff_lem start e hs fits) (ground arith)
spin_cycles_ends start cycles (x ∷ xs) e later hs hc waits enough fits =
    if_true (ltb (cycles_diff (u32 (start + x)) start) cycles) _ _
      (rw (cycles_diff_lem start x hs (omega arith)) (ground arith))
    ∙ spin_cycles_ends start cycles xs e later hs hc waits.1 enough fits

-- `hal_time_wait_until` with a deadline set at `start` returns at the first reading by which the
-- timeout has passed, also where the 64-bit time wraps, as long as less than 2^63 microseconds have
-- passed by then.
pub wait_until_ends :
    (start timeout : ℕ) (early : List ℕ) (e : ℕ) (later : List ℕ)
    → start < 2 ^ 64
    → timeout < 2 ^ 32
    → All (λ x. x < timeout) early
    → timeout ≤ e
    → e < 2 ^ 63
    → wait_until (deadline_us start timeout) (shown64 start early ++ u64 (start + e) ∷ later)
      ≡ some later
unfolding wait_until
wait_until_ends start timeout [] e later hs ht waits enough fits =
    if_true _ _ _ ((expired-deadline_us start timeout e hs ht fits).1 enough)
wait_until_ends start timeout (x ∷ xs) e later hs ht waits enough fits =
    if_false (expired (u64 (start + x)) (deadline_us start timeout)) _ _
      (let at_x = expired-deadline_us start timeout x hs ht (omega arith) in ground (arith, at_x))
    ∙ wait_until_ends start timeout xs e later hs ht waits.1 enough fits
