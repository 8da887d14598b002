-- ===== src/Hal/Gpio.antt =====
-- pico_aer_rx/hal/hal_gpio.c and hal_gpio.h: the DATA pins as a packed word, and the ACK pin. The
-- calls of the SDK that set up and drive pins are a list in their order; a snapshot of the input
-- registers is an argument. The chip is an RP2350, with two input registers.
mod Tests
pub mod Sdk
pub mod Board
pub mod Banks
pub mod Pins
pub mod Drive
pub mod Ack
use aer_handshake_firmware.Base.{
  ℕ, zero, suc, ◌+◌, ◌-◌, ◌*◌, ◌/◌, ◌%◌, ◌^◌, ◌<◌, ◌≤◌, ◌≡◌, refl, ◌∙◌, ap, Bool, true, false, not,
  ◌||◌, Option, none, some, List, [], ◌∷◌, ◌++◌, if◌then◌else◌, ltb, leb, ◌==◌, u8, u32, u64,
  bit_and, bit_or, bit_and_low, bit_and_high, two_pow-add, arith,
}
use native.Mathlib.Nat.{one-le-pow, pow-le-pow_right, mul-div_cancel, mod-eq_of_lt}

-- `hal_gpio_cfg_t`
pub record GpioCfg : Type 0 where
  pub data_base : ℕ
  pub data_width : ℕ
  pub ack_pin : ℕ
  pub ack_active_high : Bool
  pub data_pull_down : Bool
  pub data_pull_up : Bool
  pub ack_deasserted_level : Bool

-- The static variables of the file.
pub record Gpio : Type 0 where
  pub cfg : GpioCfg
  pub inited : Bool
  pub data_mask64 : ℕ
  pub ack_mask64 : ℕ
  pub data_shift : ℕ

-- The calls of the SDK, and the write of one pin through the SIO registers.
pub data PinCall : Type 0 where
  gpio_init function_sio dir_in dir_out disable_pulls pull_down pull_up : ℕ → PinCall
  sio_write : ℕ → Bool → PinCall

-- `(1 << width) - 1`, shifted to the base pin.
pub data_mask : GpioCfg → ℕ
data_mask cfg = u64 (
    (if cfg.data_width == 64 then 2 ^ 64 - 1 else u64 (2 ^ cfg.data_width) - 1) * 2 ^ cfg.data_base)

-- `none` where the function spins for ever on a width of 0 or over 32.
pub compute_masks_from_cfg : Gpio → Option Gpio
compute_masks_from_cfg g =
    if g.cfg.data_width == 0 || ltb 32 g.cfg.data_width
    then none
    else some (record g {
      data_mask64 = data_mask g.cfg;
      ack_mask64 = u64 (2 ^ g.cfg.ack_pin);
      data_shift = g.cfg.data_base;
    })

pub ack_level_for_asserted : GpioCfg → Bool → Bool
ack_level_for_asserted cfg asserted = if cfg.ack_active_high then asserted else not asserted

-- The loop over the DATA pins in `hal_gpio_init`, with `n` pins to go from pin `i` on.
pub init_data_pins : GpioCfg → ℕ → ℕ → List PinCall
init_data_pins cfg zero i = []
init_data_pins cfg (suc n) i =
    let pin = u8 (cfg.data_base + i) in
    gpio_init pin
    ∷ function_sio pin
    ∷ dir_in pin
    ∷ disable_pulls pin
    ∷ ((if cfg.data_pull_down then pull_down pin ∷ [] else [])
        ++ ((if cfg.data_pull_up then pull_up pin ∷ [] else []) ++ init_data_pins cfg n (i + 1)))

-- The calls of `hal_gpio_init`.
abbrev init_calls : GpioCfg → List PinCall
init_calls cfg =
    init_data_pins cfg cfg.data_width 0
    ++ (gpio_init cfg.ack_pin
        ∷ function_sio cfg.ack_pin
        ∷ dir_out cfg.ack_pin
        ∷ sio_write cfg.ack_pin cfg.ack_deasserted_level
        ∷ [])

-- `hal_gpio_init`: the variables afterwards and the pin calls; `none` where it spins for ever.
pub init : Gpio → Option GpioCfg → Option (Gpio × List PinCall)
init g none = none
init g (some cfg) = elim (compute_masks_from_cfg (record g { cfg = cfg })) [
  | none ↦ none
  | some g' ↦ some (record g' { inited = true }, init_calls cfg)
]

-- The loop over the DATA pins in `hal_gpio_idle`.
pub idle_data_pins : GpioCfg → ℕ → ℕ → List PinCall
idle_data_pins cfg zero i = []
idle_data_pins cfg (suc n) i =
    let pin = u8 (cfg.data_base + i) in function_sio pin ∷ dir_in pin ∷ idle_data_pins cfg n (i + 1)

pub idle : Gpio → List PinCall
idle g =
    if not g.inited
    then []
    else idle_data_pins g.cfg g.cfg.data_width 0
      ++ (sio_write g.cfg.ack_pin g.cfg.ack_deasserted_level ∷ [])

-- One snapshot of the two input registers.
pub read_all : ℕ → ℕ → ℕ
read_all lo hi = bit_or lo (u64 (hi * 2 ^ 32))

pub read_data_raw : Gpio → ℕ → ℕ
read_data_raw g all = u32 (bit_and all g.data_mask64 / 2 ^ g.data_shift)

-- The level that `hal_gpio_ack_write` puts on the ACK pin.
pub ack_write : Gpio → Bool → Bool
ack_write g asserted = ack_level_for_asserted g.cfg asserted

-- `sio_read_pin`
pub read_pin : ℕ → ℕ → Bool
read_pin all pin = not (bit_and (all / 2 ^ pin) 1 == 0)

pub ack_is_asserted : Gpio → ℕ → Bool
ack_is_asserted g all =
    let level = read_pin all g.cfg.ack_pin in if g.cfg.ack_active_high then level else not level

-- What an initialisation that returns has set up.
init_fields :
    (g g' : Gpio) (cfg : GpioCfg) (calls : List PinCall)
    → init g (some cfg) ≡ some (g', calls)
    → (0 < cfg.data_width)
      × (cfg.data_width ≤ 32)
      × (g'.data_mask64 ≡ data_mask cfg)
      × (g'.data_shift ≡ cfg.data_base)
unfolding init compute_masks_from_cfg
init_fields g g' cfg calls e = ground arith

pub init-calls :
    (g g' : Gpio) (cfg : GpioCfg) (calls : List PinCall)
    → init g (some cfg) ≡ some (g', calls)
    → (calls ≡ init_calls cfg) × (g'.cfg ≡ cfg) × (g'.inited ≡ true)
unfolding init compute_masks_from_cfg
init-calls g g' cfg calls e = ground arith

pub init_returns :
    (g : Gpio) (cfg : GpioCfg)
    → 1 ≤ cfg.data_width
    → cfg.data_width ≤ 32
    → (g' : Gpio) × (calls : List PinCall) × (init g (some cfg) ≡ some (g', calls))
unfolding init compute_masks_from_cfg
init_returns g cfg some_pins narrow =
    let fits : (cfg.data_width == 0 || ltb 32 cfg.data_width) ≡ false = ground arith in
    (
      record {
        cfg = cfg;
        inited = true;
        data_mask64 = data_mask cfg;
        ack_mask64 = u64 (2 ^ cfg.ack_pin);
        data_shift = cfg.data_base;
      },
      init_calls cfg,
      rw (fits, init) refl,
    )

-- No shift of the mask loses a bit.
data_mask_lem :
    (cfg : GpioCfg) (ones : ℕ)
    → cfg.data_width ≤ 32
    → cfg.data_base + cfg.data_width ≤ 64
    → ones + 1 ≡ 2 ^ cfg.data_width
    → data_mask cfg ≡ ones * 2 ^ cfg.data_base
unfolding data_mask
data_mask_lem cfg ones narrow fits e =
    let q = 2 ^ cfg.data_base in
    let below : 2 ^ cfg.data_width ≤ 2 ^ 32 = pow-le-pow_right (omega arith) narrow in
    let within : 2 ^ (cfg.data_base + cfg.data_width) ≤ 2 ^ 64 =
      pow-le-pow_right (omega arith) fits in
    let product = two_pow-add cfg.data_base cfg.data_width in
    let split : q * 2 ^ cfg.data_width ≡ ones * q + q = rw (← e) (omega arith) in
    ground (arith, one-le-pow cfg.data_base 2, below, within, product, split)

-- The DATA word is the `data_width` pins from `data_base` on, packed: after an initialisation with
-- pins that exist, no other pin shows and no bit is lost.
pub read_data_raw_lem :
    (g g' : Gpio) (cfg : GpioCfg) (calls : List PinCall) (all : ℕ)
    → init g (some cfg) ≡ some (g', calls)
    → cfg.data_base + cfg.data_width ≤ 64
    → read_data_raw g' all ≡ all / 2 ^ cfg.data_base % 2 ^ cfg.data_width
unfolding init read_data_raw
read_data_raw_lem g g' cfg calls all e fits =
    let (some_pins, narrow, mask, shift) = init_fields g g' cfg calls e in
    let below : 2 ^ cfg.data_width ≤ 2 ^ 32 = pow-le-pow_right (omega arith) narrow in
    let pos : 1 ≤ 2 ^ cfg.data_width = one-le-pow cfg.data_width 2 (omega arith) in
    let ones = 2 ^ cfg.data_width - 1 in
    let q = 2 ^ cfg.data_base in
    let top : ones + 1 ≡ 2 ^ cfg.data_width = omega arith in
    rw
      (
        mask,
        shift,
        data_mask_lem cfg ones narrow fits top,
        bit_and_high cfg.data_base all ones,
        bit_and_low cfg.data_width (all / q) ones top,
        mul-div_cancel (all / q % 2 ^ cfg.data_width) (one-le-pow cfg.data_base 2 (omega arith)),
      )
      (mod-eq_of_lt (omega arith))
