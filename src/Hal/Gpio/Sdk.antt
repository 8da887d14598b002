-- ===== src/Hal/Gpio/Sdk.antt =====
-- What pico_aer_rx/hal/hal_gpio.c has the SDK and the SIO registers do to the pins. The chip is a
-- parameter: its calls, with what their documentation says of each pin.
use aer_handshake_firmware.Base.{
  ℕ, ◌-◌, ◌^◌, ◌≡◌, Bool, true, false, ◌&&◌, List, [], ◌∷◌, if◌then◌else◌, ltb, ◌==◌, u32,
}
use aer_handshake_firmware.Hal.Gpio.{PinCall, Gpio, ack_write, read_pin}

-- What is set of one pin: whether the SIO owns it, its direction, the level that is put out, and
-- its pulls.
pub record Pin : Type 0 where
  pub is_sio : Bool
  pub is_output : Bool
  pub level : Bool
  pub is_pulled_down : Bool
  pub is_pulled_up : Bool

-- The chip: the calls of the SDK, the four registers that set and clear levels by a mask, and what
-- each does to the pins.
pub record Chip : Type 1 where
  pub State : Type 0
  pub pin : State → ℕ → Pin
  pub gpio_init : ℕ → State → State
  pub gpio_set_function_sio : ℕ → State → State
  pub gpio_set_dir : ℕ → Bool → State → State
  pub gpio_disable_pulls : ℕ → State → State
  pub gpio_pull_down : ℕ → State → State
  pub gpio_pull_up : ℕ → State → State
  pub gpio_put : ℕ → Bool → State → State
  pub write_gpio_set : ℕ → State → State
  pub write_gpio_clr : ℕ → State → State
  pub write_gpio_hi_set : ℕ → State → State
  pub write_gpio_hi_clr : ℕ → State → State
  pub pin-gpio_init :
      (p : ℕ) (s : State) (q : ℕ)
      → pin (gpio_init p s) q ≡ (
          if q == p
          then record (pin s q) { is_sio = true; is_output = false; level = false }
          else pin s q)
  pub pin-gpio_set_function_sio :
      (p : ℕ) (s : State) (q : ℕ)
      → pin (gpio_set_function_sio p s) q
        ≡ (if q == p then record (pin s q) { is_sio = true } else pin s q)
  pub pin-gpio_set_dir :
      (p : ℕ) (out : Bool) (s : State) (q : ℕ)
      → pin (gpio_set_dir p out s) q
        ≡ (if q == p then record (pin s q) { is_output = out } else pin s q)
  pub pin-gpio_disable_pulls :
      (p : ℕ) (s : State) (q : ℕ)
      → pin (gpio_disable_pulls p s) q ≡ (
          if q == p
          then record (pin s q) { is_pulled_down = false; is_pulled_up = false }
          else pin s q)
  pub pin-gpio_pull_down :
      (p : ℕ) (s : State) (q : ℕ)
      → pin (gpio_pull_down p s) q ≡ (
          if q == p
          then record (pin s q) { is_pulled_down = true; is_pulled_up = false }
          else pin s q)
  pub pin-gpio_pull_up :
      (p : ℕ) (s : State) (q : ℕ)
      → pin (gpio_pull_up p s) q ≡ (
          if q == p
          then record (pin s q) { is_pulled_down = false; is_pulled_up = true }
          else pin s q)
  pub pin-gpio_put :
      (p : ℕ) (high : Bool) (s : State) (q : ℕ)
      → pin (gpio_put p high s) q ≡ (if q == p then record (pin s q) { level = high } else pin s q)
  pub pin-write_gpio_set :
      (mask : ℕ) (s : State) (q : ℕ)
      → pin (write_gpio_set mask s) q
        ≡ (if ltb q 32 && read_pin mask q then record (pin s q) { level = true } else pin s q)
  pub pin-write_gpio_clr :
      (mask : ℕ) (s : State) (q : ℕ)
      → pin (write_gpio_clr mask s) q
        ≡ (if ltb q 32 && read_pin mask q then record (pin s q) { level = false } else pin s q)
  pub pin-write_gpio_hi_set :
      (mask : ℕ) (s : State) (q : ℕ)
      → pin (write_gpio_hi_set mask s) q ≡ (
          if ltb 31 q && read_pin mask (q - 32) then record (pin s q) { level = true } else pin s q)
  pub pin-write_gpio_hi_clr :
      (mask : ℕ) (s : State) (q : ℕ)
      → pin (write_gpio_hi_clr mask s) q ≡ (
          if ltb 31 q && read_pin mask (q - 32)
          then record (pin s q) { level = false }
          else pin s q)

module _ (c : Chip) where
  open c use {
    State, gpio_init, gpio_set_function_sio, gpio_set_dir, gpio_disable_pulls, gpio_pull_down,
    gpio_pull_up, gpio_put, write_gpio_set, write_gpio_clr, write_gpio_hi_set, write_gpio_hi_clr,
  }

  -- `sio_write_pin`
  unfoldable pub sio_write_pin : ℕ → Bool → State → State
  sio_write_pin pin level s =
      if ltb pin 32
      then (let bit = u32 (2 ^ pin) in if level then write_gpio_set bit s else write_gpio_clr bit s)
      else (let bit = u32 (2 ^ (pin - 32)) in
          if level then write_gpio_hi_set bit s else write_gpio_hi_clr bit s)

  -- What one of the calls of `hal_gpio_init` and `hal_gpio_idle` does.
  unfoldable pub make_call : PinCall → State → State
  make_call (PinCall.gpio_init pin) s = gpio_init pin s
  make_call (PinCall.function_sio pin) s = gpio_set_function_sio pin s
  make_call (PinCall.dir_in pin) s = gpio_set_dir pin false s
  make_call (PinCall.dir_out pin) s = gpio_set_dir pin true s
  make_call (PinCall.disable_pulls pin) s = gpio_disable_pulls pin s
  make_call (PinCall.pull_down pin) s = gpio_pull_down pin s
  make_call (PinCall.pull_up pin) s = gpio_pull_up pin s
  make_call (PinCall.sio_write pin level) s = sio_write_pin pin level s

  unfoldable pub make_calls : List PinCall → State → State
  unfolding make_call
  make_calls [] s = s
  make_calls (call ∷ calls) s = make_calls calls (make_call call s)

  -- `hal_gpio_ack_write`
  unfoldable pub drive_ack : Gpio → Bool → State → State
  drive_ack g asserted s = gpio_put g.cfg.ack_pin (ack_write g asserted) s

  -- Writes of ACK, one after the other.
  unfoldable pub drive_acks : Gpio → List Bool → State → State
  drive_acks g [] s = s
  drive_acks g (asserted ∷ writes) s = drive_acks g writes (drive_ack g asserted s)
