-- ===== src/Hal/Gpio/Board.antt =====
-- A chip for the examples, whose state is what is set of each pin.
use aer_handshake_firmware.Base.{ℕ, ◌-◌, refl, Bool, true, false, ◌&&◌, if◌then◌else◌, ltb, ◌==◌}
use aer_handshake_firmware.Hal.Gpio.{read_pin}
use aer_handshake_firmware.Hal.Gpio.Sdk.{Pin, Chip}

abbrev one_pin : ℕ → (Pin → Pin) → (ℕ → Pin) → ℕ → Pin
one_pin p change s q = if q == p then change (s q) else s q

abbrev bank : (ℕ → Bool) → Bool → (ℕ → Pin) → ℕ → Pin
bank written high s q = if written q then record (s q) { level = high } else s q

abbrev pub board : Chip
board = record {
  State = ℕ → Pin;
  pin = λ s q. s q;
  gpio_init =
      λ p s. one_pin p (λ x. record x { is_sio = true; is_output = false; level = false }) s;
  gpio_set_function_sio = λ p s. one_pin p (λ x. record x { is_sio = true }) s;
  gpio_set_dir = λ p out s. one_pin p (λ x. record x { is_output = out }) s;
  gpio_disable_pulls =
      λ p s. one_pin p (λ x. record x { is_pulled_down = false; is_pulled_up = false }) s;
  gpio_pull_down =
      λ p s. one_pin p (λ x. record x { is_pulled_down = true; is_pulled_up = false }) s;
  gpio_pull_up = λ p s. one_pin p (λ x. record x { is_pulled_down = false; is_pulled_up = true }) s;
  gpio_put = λ p high s. one_pin p (λ x. record x { level = high }) s;
  write_gpio_set = λ mask s. bank (λ q. ltb q 32 && read_pin mask q) true s;
  write_gpio_clr = λ mask s. bank (λ q. ltb q 32 && read_pin mask q) false s;
  write_gpio_hi_set = λ mask s. bank (λ q. ltb 31 q && read_pin mask (q - 32)) true s;
  write_gpio_hi_clr = λ mask s. bank (λ q. ltb 31 q && read_pin mask (q - 32)) false s;
  pin-gpio_init = λ p s q. refl;
  pin-gpio_set_function_sio = λ p s q. refl;
  pin-gpio_set_dir = λ p out s q. refl;
  pin-gpio_disable_pulls = λ p s q. refl;
  pin-gpio_pull_down = λ p s q. refl;
  pin-gpio_pull_up = λ p s q. refl;
  pin-gpio_put = λ p high s q. refl;
  pin-write_gpio_set = λ mask s q. refl;
  pin-write_gpio_clr = λ mask s q. refl;
  pin-write_gpio_hi_set = λ mask s q. refl;
  pin-write_gpio_hi_clr = λ mask s q. refl;
}

-- All pins low, out of the SIO.
abbrev pub at_reset : ℕ → Pin
at_reset q = record {
  is_sio = false;
  is_output = false;
  level = false;
  is_pulled_down = true;
  is_pulled_up = false;
}
