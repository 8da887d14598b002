-- ===== src/Hal/Gpio/Pins.antt =====
-- What the writes and the loops of pico_aer_rx/hal/hal_gpio.c do to each pin.
use aer_handshake_firmware.Base.{
  ℕ, zero, suc, ◌+◌, ◌-◌, ◌^◌, ◌<◌, ◌≤◌, ◌≡◌, refl, Bool, true, false, not, ◌&&◌, List, [], ◌∷◌,
  ◌++◌, if◌then◌else◌, ltb, leb, ◌==◌, Bool-cases, inl, inr, u8, u32, arith,
}
use native.Mathlib.Nat.{mod-eq_of_lt}
use aer_handshake_firmware.Hal.Gpio.{GpioCfg, PinCall, init_data_pins}
use aer_handshake_firmware.Hal.Gpio.Sdk.{Pin, Chip, sio_write_pin, make_call, make_calls}
use aer_handshake_firmware.Hal.Gpio.Banks.{low_bank, high_bank}

-- A DATA pin after the initialisation: an input, low where it is neither driven nor pulled; where
-- both pulls are asked for, the pull-up is set last.
abbrev pub data_pin : GpioCfg → Pin
data_pin cfg = record {
  is_sio = true;
  is_output = false;
  level = false;
  is_pulled_down = cfg.data_pull_down && not cfg.data_pull_up;
  is_pulled_up = cfg.data_pull_up;
}

module _ (c : Chip) where
  open c use {
    State, pin, gpio_init, gpio_set_function_sio, gpio_set_dir, gpio_disable_pulls, gpio_pull_down,
    gpio_pull_up, pin-gpio_init, pin-gpio_set_function_sio, pin-gpio_set_dir,
    pin-gpio_disable_pulls, pin-gpio_pull_down, pin-gpio_pull_up, pin-write_gpio_set,
    pin-write_gpio_clr, pin-write_gpio_hi_set, pin-write_gpio_hi_clr,
  }

  -- The write of one pin through the registers sets its level, and nothing else of any pin.
  pub pin-sio_write_pin :
      (p : ℕ) (high : Bool) (s : State) (q : ℕ)
      → p < 64
      → pin (sio_write_pin c p high s) q
        ≡ (if q == p then record (pin s q) { level = high } else pin s q)
  unfolding sio_write_pin
  pin-sio_write_pin p true s q exists = elim (Bool-cases (ltb p 32)) [
    | inl low ↦ rw (low, pin-write_gpio_set (u32 (2 ^ p)) s q, low_bank p q (ground arith)) refl
    | inr high ↦
        rw
          (
            high,
            pin-write_gpio_hi_set (u32 (2 ^ (p - 32))) s q,
            high_bank p q (ground arith) exists,
          )
          refl
  ]
  pin-sio_write_pin p false s q exists = elim (Bool-cases (ltb p 32)) [
    | inl low ↦ rw (low, pin-write_gpio_clr (u32 (2 ^ p)) s q, low_bank p q (ground arith)) refl
    | inr high ↦
        rw
          (
            high,
            pin-write_gpio_hi_clr (u32 (2 ^ (p - 32))) s q,
            high_bank p q (ground arith) exists,
          )
          refl
  ]

  pin-if :
      (b : Bool) (s t : State) (q : ℕ)
      → pin (if b then s else t) q ≡ (if b then pin s q else pin t q)
  pin-if true s t q = refl
  pin-if false s t q = refl

  -- The calls on one DATA pin in `hal_gpio_init`.
  abbrev set_up_pin : Bool → Bool → ℕ → State → State
  set_up_pin down up p s =
      let ready =
        gpio_disable_pulls p (gpio_set_dir p false (gpio_set_function_sio p (gpio_init p s))) in
      let pulled = if down then gpio_pull_down p ready else ready in
      if up then gpio_pull_up p pulled else pulled

  pin-set_up_pin :
      (down up : Bool) (p : ℕ) (s : State) (q : ℕ)
      → pin (set_up_pin down up p s) q ≡ (
          if q == p
          then record {
            is_sio = true;
            is_output = false;
            level = false;
            is_pulled_down = down && not up;
            is_pulled_up = up;
          }
          else pin s q)
  pin-set_up_pin down up p s q =
      simp
        (
          pin-if, pin-gpio_init, pin-gpio_set_function_sio, pin-gpio_set_dir,
          pin-gpio_disable_pulls, pin-gpio_pull_down, pin-gpio_pull_up,
        )
        (ground arith)

  make_calls-pulls :
      (down up : Bool) (p : ℕ) (rest : List PinCall) (s : State)
      → make_calls c
          ((if down then PinCall.pull_down p ∷ [] else [])
            ++ ((if up then PinCall.pull_up p ∷ [] else []) ++ rest))
          s
        ≡ make_calls c rest (
            let pulled = if down then gpio_pull_down p s else s in
            if up then gpio_pull_up p pulled else pulled)
  unfolding make_calls make_call
  make_calls-pulls true true p rest s = refl
  make_calls-pulls true false p rest s = refl
  make_calls-pulls false true p rest s = refl
  make_calls-pulls false false p rest s = refl

  -- One round of the loop over the DATA pins.
  make_calls-init_data_pins :
      (cfg : GpioCfg) (n i : ℕ) (s : State)
      → make_calls c (init_data_pins cfg (suc n) i) s
        ≡ make_calls c
            (init_data_pins cfg n (i + 1))
            (set_up_pin cfg.data_pull_down cfg.data_pull_up (u8 (cfg.data_base + i)) s)
  unfolding init_data_pins make_calls make_call
  make_calls-init_data_pins cfg n i s =
      make_calls-pulls cfg.data_pull_down cfg.data_pull_up (u8 (cfg.data_base + i)) _ _

  pub pin-init_data_pins :
      (cfg : GpioCfg) (n i : ℕ) (s : State) (q : ℕ)
      → cfg.data_base + i + n ≤ 64
      → pin (make_calls c (init_data_pins cfg n i) s) q ≡ (
          if leb (cfg.data_base + i) q && ltb q (cfg.data_base + i + n)
          then data_pin cfg
          else pin s q)
  unfolding init_data_pins make_calls
  pin-init_data_pins cfg zero i s q fits = ground arith
  pin-init_data_pins cfg (suc n) i s q fits =
      let byte : u8 (cfg.data_base + i) ≡ cfg.data_base + i = mod-eq_of_lt (omega arith) in
      let next : cfg.data_base + (i + 1) + n ≤ 64 = omega arith in
      rw
        (
          make_calls-init_data_pins cfg n i s,
          byte,
          pin-init_data_pins cfg n (i + 1)
              (set_up_pin cfg.data_pull_down cfg.data_pull_up (cfg.data_base + i) s) q next,
          pin-set_up_pin cfg.data_pull_down cfg.data_pull_up (cfg.data_base + i) s q,
        )
        (ground arith)

  pub make_calls-append :
      (xs ys : List PinCall) (s : State)
      → make_calls c (xs ++ ys) s ≡ make_calls c ys (make_calls c xs s)
  unfolding make_calls
  make_calls-append [] ys s = refl
  make_calls-append (x ∷ xs) ys s = make_calls-append xs ys (make_call c x s)

  -- The calls on the ACK pin in `hal_gpio_init`.
  pub set_up_ack :
      (p : ℕ) (high : Bool) (s : State) (q : ℕ)
      → p < 64
      → pin
          (sio_write_pin c p high (gpio_set_dir p true (gpio_set_function_sio p (gpio_init p s))))
          q
        ≡ (if q == p
            then record (pin s q) { is_sio = true; is_output = true; level = high }
            else pin s q)
  set_up_ack p high s q exists =
      rw (pin-sio_write_pin p high _ q exists)
        (simp (pin-gpio_init, pin-gpio_set_function_sio, pin-gpio_set_dir) (ground arith))
