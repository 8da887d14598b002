-- ===== src/Hal/Gpio/Drive.antt =====
-- What hal_gpio_init and hal_gpio_idle of pico_aer_rx/hal/hal_gpio.c leave on the pins of the chip.
use aer_handshake_firmware.Base.{
  ℕ, zero, suc, ◌+◌, ◌<◌, ◌≤◌, ◌≡◌, refl, Bool, true, false, ◌&&◌, some, List, if◌then◌else◌, ltb,
  leb, ◌==◌, u8, arith,
}
use native.Mathlib.Nat.{mod-eq_of_lt}
use aer_handshake_firmware.Hal.Gpio.{
  GpioCfg, Gpio, PinCall, init, init-calls, idle, init_data_pins, idle_data_pins,
}
use aer_handshake_firmware.Hal.Gpio.Sdk.{Pin, Chip, make_call, make_calls}
use aer_handshake_firmware.Hal.Gpio.Pins.{
  data_pin, pin-sio_write_pin, pin-init_data_pins, make_calls-append, set_up_ack,
}

-- The pins of the DATA bus.
abbrev pub is_data : GpioCfg → ℕ → Bool
is_data cfg q = leb cfg.data_base q && ltb q (cfg.data_base + cfg.data_width)

-- A pin after the initialisation, from what was set of it before.
abbrev pub pin_after_init : GpioCfg → ℕ → Pin → Pin
pin_after_init cfg q old =
    let x = if is_data cfg q then data_pin cfg else old in
    if q == cfg.ack_pin
    then record x { is_sio = true; is_output = true; level = cfg.ack_deasserted_level }
    else x

-- A pin after `hal_gpio_idle`.
abbrev pub pin_after_idle : GpioCfg → ℕ → Pin → Pin
pin_after_idle cfg q old =
    let x = if is_data cfg q then record old { is_sio = true; is_output = false } else old in
    if q == cfg.ack_pin then record x { level = cfg.ack_deasserted_level } else x

module _ (c : Chip) where
  open c use {
    State, pin, gpio_set_function_sio, gpio_set_dir, pin-gpio_set_function_sio, pin-gpio_set_dir,
  }

  init_loop :
      (cfg : GpioCfg) (s : State) (q : ℕ)
      → cfg.data_base + cfg.data_width ≤ 64
      → pin (make_calls c (init_data_pins cfg cfg.data_width 0) s) q
        ≡ (if is_data cfg q then data_pin cfg else pin s q)
  init_loop cfg s q fits =
      let base : cfg.data_base + 0 ≡ cfg.data_base = omega arith in
      let within : cfg.data_base + 0 + cfg.data_width ≤ 64 = omega arith in
      rw (pin-init_data_pins c cfg cfg.data_width 0 s q within) (rw base refl)

  -- What an initialisation that returns leaves of each pin, where the pins exist: a DATA pin is an
  -- input of the SIO, with the pull that the configuration asks for, the pull-up where it asks for
  -- both; the ACK pin is an output of the SIO at the deasserted level; the others are as before.
  pub init_pins :
      (g g' : Gpio) (cfg : GpioCfg) (calls : List PinCall) (s : State) (q : ℕ)
      → init g (some cfg) ≡ some (g', calls)
      → cfg.data_base + cfg.data_width ≤ 64
      → cfg.ack_pin < 64
      → pin (make_calls c calls s) q ≡ pin_after_init cfg q (pin s q)
  unfolding make_calls make_call
  init_pins g g' cfg calls s q e fits exists =
      let (is_calls, _, _) = init-calls g g' cfg calls e in
      rw
        (
          is_calls,
          make_calls-append c (init_data_pins cfg cfg.data_width 0) _ s,
          set_up_ack c cfg.ack_pin cfg.ack_deasserted_level _ q exists,
          init_loop cfg s q fits,
        )
        refl

  -- The loop over the DATA pins in `hal_gpio_idle`.
  pin-idle_data_pins :
      (cfg : GpioCfg) (n i : ℕ) (s : State) (q : ℕ)
      → cfg.data_base + i + n ≤ 64
      → pin (make_calls c (idle_data_pins cfg n i) s) q ≡ (
          if leb (cfg.data_base + i) q && ltb q (cfg.data_base + i + n)
          then record (pin s q) { is_sio = true; is_output = false }
          else pin s q)
  unfolding idle_data_pins make_calls make_call
  pin-idle_data_pins cfg zero i s q fits = ground arith
  pin-idle_data_pins cfg (suc n) i s q fits =
      let byte : u8 (cfg.data_base + i) ≡ cfg.data_base + i = mod-eq_of_lt (omega arith) in
      let next : cfg.data_base + (i + 1) + n ≤ 64 = omega arith in
      rw
        (
          byte,
          pin-idle_data_pins cfg n (i + 1) _ q next,
          pin-gpio_set_dir (cfg.data_base + i) false _ q,
          pin-gpio_set_function_sio (cfg.data_base + i) s q,
        )
        (ground arith)

  idle_loop :
      (cfg : GpioCfg) (s : State) (q : ℕ)
      → cfg.data_base + cfg.data_width ≤ 64
      → pin (make_calls c (idle_data_pins cfg cfg.data_width 0) s) q
        ≡ (if is_data cfg q then record (pin s q) { is_sio = true; is_output = false } else pin s q)
  idle_loop cfg s q fits =
      let base : cfg.data_base + 0 ≡ cfg.data_base = omega arith in
      let within : cfg.data_base + 0 + cfg.data_width ≤ 64 = omega arith in
      rw (pin-idle_data_pins cfg cfg.data_width 0 s q within) (rw base refl)

  -- What `hal_gpio_idle` leaves of each pin.
  pub idle_pins :
      (g : Gpio) (s : State) (q : ℕ)
      → g.inited ≡ true
      → g.cfg.data_base + g.cfg.data_width ≤ 64
      → g.cfg.ack_pin < 64
      → pin (make_calls c (idle g) s) q ≡ pin_after_idle g.cfg q (pin s q)
  unfolding idle make_calls make_call
  idle_pins g s q ready fits exists =
      rw
        (
          ready,
          make_calls-append c (idle_data_pins g.cfg g.cfg.data_width 0) _ s,
          pin-sio_write_pin c g.cfg.ack_pin g.cfg.ack_deasserted_level _ q exists,
          idle_loop g.cfg s q fits,
        )
        refl
