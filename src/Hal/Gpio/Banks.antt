-- ===== src/Hal/Gpio/Banks.antt =====
-- The masks that sio_write_pin of pico_aer_rx/hal/hal_gpio.c writes to the registers of the two
-- banks.
use aer_handshake_firmware.Base.{
  ℕ, suc, ◌+◌, ◌-◌, ◌/◌, ◌%◌, ◌^◌, ◌<◌, ◌≤◌, ◌≡◌, refl, ◌&&◌, ltb, ◌==◌, u32, bit_and_low,
  two_pow-add, arith,
}
use native.Mathlib.Nat.{
  one-le-pow, pow-le-pow_right, mul-div_cancel, mod-eq_of_lt, pow-suc, div-eq_of_lt, div_self,
}
use aer_handshake_firmware.Hal.Gpio.{read_pin}

-- A shifted 1, shifted back.
one_shifted-lt : (p q : ℕ) → p < q → 2 ^ p / 2 ^ q ≡ 0
one_shifted-lt p q lt =
    let small : 2 ^ (p + 1) ≤ 2 ^ q = pow-le-pow_right (omega arith) (omega arith) in
    div-eq_of_lt (omega (arith, two_pow-add p 1, small, one-le-pow p 2 (omega arith)))

one_shifted-eq : (p q : ℕ) → p ≡ q → 2 ^ p / 2 ^ q ≡ 1
one_shifted-eq p q e = rw e (div_self (one-le-pow q 2 (omega arith)))

one_shifted-gt : (p q : ℕ) → q < p → 2 ^ p / 2 ^ q % 2 ≡ 0
one_shifted-gt p q lt =
    let d = p - q - 1 in
    let split : p ≡ suc d + q = omega arith in
    rw (split, two_pow-add (suc d) q, mul-div_cancel (2 ^ suc d) (one-le-pow q 2 (omega arith)))
      (omega (arith, pow-suc 2 d))

-- A shifted 1 has its one bit at the pin.
read_pin-one : (p q : ℕ) → read_pin (2 ^ p) q ≡ (q == p)
unfolding read_pin
read_pin-one p q =
    rw (bit_and_low 1 (2 ^ p / 2 ^ q) 1 refl)
      (ground (arith, one_shifted-lt p q, one_shifted-eq p q, one_shifted-gt p q))

-- No bit is lost in a register.
u32-one : (p : ℕ) → p < 32 → u32 (2 ^ p) ≡ 2 ^ p
u32-one p low =
    let next : p + 1 ≤ 32 = omega arith in
    let fits : 2 ^ (p + 1) ≤ 2 ^ 32 = pow-le-pow_right (omega arith) next in
    mod-eq_of_lt (omega (arith, two_pow-add p 1, fits, one-le-pow p 2 (omega arith)))

-- The tests of the two banks, on the bit that is written to a register.
pub low_bank : (p q : ℕ) → p < 32 → (ltb q 32 && read_pin (u32 (2 ^ p)) q) ≡ (q == p)
low_bank p q low = rw (u32-one p low, read_pin-one p q) (ground arith)

pub high_bank :
    (p q : ℕ) → 32 ≤ p → p < 64 → (ltb 31 q && read_pin (u32 (2 ^ (p - 32))) (q - 32)) ≡ (q == p)
high_bank p q high low =
    rw (u32-one (p - 32) (omega arith), read_pin-one (p - 32) (q - 32)) (ground arith)
