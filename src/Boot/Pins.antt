-- ===== src/Boot/Pins.antt =====
-- What pico_aer_rx/pico_aer_rx.c leaves on the pins of the chip when it comes to the main loop.
mod Tests
use aer_handshake_firmware.Base.{
  ℕ, ◌<◌, ◌≡◌, refl, ◌∙◌, ap, Bool, true, false, not, ◌&&◌, ◌||◌, Option, some, List, [], ◌∷◌, ◌++◌,
  All, if◌then◌else◌, ltb, leb, ◌==◌, Bool-cases, inl, inr, arith,
}
use aer_handshake_firmware.Hal.Gpio.{Gpio}
use aer_handshake_firmware.Hal.Gpio.Sdk.{Pin, Chip, make_calls}
use aer_handshake_firmware.Hal.Gpio.Drive.{pin_after_init, init_pins}
use aer_handshake_firmware.Hal.Stdio.Log.{Log}
use aer_handshake_firmware.UsbStream.{Stream}
use aer_handshake_firmware.Boot.{
  Boot, Call, Round, gpio_init, gpio_out, gpio_put, reset_gpio, cdc_dtr_asserted, gpio_cfg, boot,
}
use aer_handshake_firmware.Boot.Dtr.{Blinks, dark, toggled}
use aer_handshake_firmware.Boot.Whole.{SetUp, boot-SetUp}

-- A pin that the CPU drives.
abbrev pub driven : Bool → Pin → Pin
driven high old = record old { is_sio = true; is_output = true; level = high }

-- A pin after the boot, from what was set of it before: DATA is on the pins 2 to 13, ACK on 14 and
-- RESET on 15.
abbrev pub pin_after_boot : ℕ → ℕ → Pin → Pin
pin_after_boot led q old =
    if q == 14 || q == 15
    then driven false old
    else if leb 2 q && ltb q 14
    then record {
      is_sio = true;
      is_output = false;
      level = false;
      is_pulled_down = true;
      is_pulled_up = false;
    }
    else if q == led
    then driven true old
    else old

init_after_boot :
    (led q : ℕ) (old : Pin)
    → (leb 2 led && ltb led 16) ≡ false
    → pin_after_init gpio_cfg q
        (if q == 15 then driven false old else if q == led then driven true old else old)
      ≡ pin_after_boot led q old
init_after_boot led q old apart = elim (Bool-cases (q == 14)) [
  | inl e ↦
      let no_reset : (q == 15) ≡ false = ground arith in
      let no_led : (q == led) ≡ false = ground arith in
      let no_data : (leb 2 q && ltb q 14) ≡ false = ground arith in
      rw (e, no_reset, no_led, no_data) refl
  | inr e ↦ elim (Bool-cases (q == 15)) [
    | inl f ↦ let no_data : (leb 2 q && ltb q 14) ≡ false = ground arith in rw (e, f, no_data) refl
    | inr f ↦ elim (Bool-cases (leb 2 q && ltb q 14)) [
      | inl d ↦ rw (e, f, d) refl
      | inr d ↦ rw (e, f, d) refl
    ]
  ]
]

module _ (c : Chip) where
  open c use {State, pin, pin-gpio_init, pin-gpio_set_dir, pin-gpio_put}

  -- What one of the calls of `main` outside hal_gpio.c does.
  make_boot_call : Call → State → State
  make_boot_call (gpio_init p) s = c.gpio_init p s
  make_boot_call (gpio_out p) s = c.gpio_set_dir p true s
  make_boot_call (gpio_put p high) s = c.gpio_put p high s

  -- Calls in a list that has the newest first.
  make_boot_calls : List Call → State → State
  make_boot_calls [] s = s
  make_boot_calls (call ∷ earlier) s = make_boot_call call (make_boot_calls earlier s)

  -- The pins when `main` comes to the ring.
  pub chip_after : Boot → State → State
  chip_after b s = make_calls c b.pin_calls (make_boot_calls b.calls s)

  -- The LED while the wait lasts.
  pin-Blinks :
      (led : ℕ) {level : Bool} {calls : List Call} (s : State) (q : ℕ)
      → Blinks led level calls
      → pin (make_boot_calls calls s) q ≡ (if q == led then driven level (pin s q) else pin s q)
  unfolding make_boot_calls make_boot_call
  pin-Blinks led s q dark = simp (pin-gpio_put, pin-gpio_set_dir, pin-gpio_init) (ground arith)
  pin-Blinks led s q (toggled {level} {calls} b) =
      rw (pin-gpio_put led (not level) (make_boot_calls calls s) q, pin-Blinks led s q b)
        (ground arith)

  -- The calls on the LED and on RESET in `main`.
  pin-boot_calls :
      (led : ℕ) {level : Bool} {blinks : List Call} (s : State) (q : ℕ)
      → Blinks led level blinks
      → pin
          (make_boot_calls
            (gpio_put reset_gpio false
              ∷ gpio_out reset_gpio
              ∷ gpio_init reset_gpio
              ∷ gpio_put led true
              ∷ blinks)
            s)
          q
        ≡ (if q == 15
            then driven false (pin s q)
            else if q == led
            then driven true (pin s q)
            else pin s q)
  unfolding make_boot_calls make_boot_call
  pin-boot_calls led s q b =
      rw
        (
          pin-gpio_put reset_gpio false _ q,
          pin-gpio_set_dir reset_gpio true _ q,
          pin-gpio_init reset_gpio _ q,
          pin-gpio_put led true _ q,
          pin-Blinks led s q b,
        )
        (ground arith)

  -- From the start of the firmware on, on a host that opens the port in some round of the wait,
  -- with the LED on none of the pins 2 to 15, and on any chip whose calls do what the documentation
  -- of the SDK says: the boot returns, with the pins 2 to 13 inputs that are pulled down, the pins
  -- 14 and 15, which are ACK and RESET, outputs at low, the LED on, and the other pins as before.
  pub boot_pins :
      (log : Log) (gpio : Gpio) (stream : Stream) (reported : ℕ) (dwt : Option (ℕ × ℕ))
      (led begin : ℕ) (before : List Round) (r : Round) (after : List Round) (s : State) (q : ℕ)
      → All (λ k. cdc_dtr_asserted k ≡ false) before
      → cdc_dtr_asserted r ≡ true
      → (leb 2 led && ltb led 16) ≡ false
      → (b : Boot) × (boot log gpio stream reported dwt led begin (before ++ r ∷ after) ≡ some b)
        × (pin (chip_after b s) q ≡ pin_after_boot led q (pin s q))
  unfolding chip_after
  boot_pins log gpio stream reported dwt led begin before r after s q none_yet seen apart =
      let (b, boots, set_up) =
        boot-SetUp log gpio stream reported dwt led begin before r after none_yet seen in
      let (level, blinks, lit, calls) = set_up.blinked in
      let t = make_boot_calls b.calls s in
      let before_hal = ap (λ k. pin (make_boot_calls k s) q) calls ∙ pin-boot_calls led s q lit in
      let after_hal =
        init_pins c gpio b.gpio gpio_cfg b.pin_calls t q set_up.inits (omega arith) (omega arith) in
      (b, boots, after_hal ∙ rw before_hal (init_after_boot led q (pin s q) apart))
