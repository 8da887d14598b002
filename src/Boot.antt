-- ===== src/Boot.antt =====
-- pico_aer_rx/pico_aer_rx.c, `main` up to the receiver: the wait for the host's terminal with a
-- blinking LED, the RESET pin, the pin map, and what the stream and the event sink are set up with.
pub mod Dtr
pub mod Whole
pub mod System
pub mod Screen
pub mod Pins
mod Tests
use aer_handshake_firmware.Base.{
  ℕ, ◌+◌, Bool, true, false, not, Option, none, some, List, [], ◌∷◌, if◌then◌else◌, leb, ◌==◌,
  bit_and,
}
use aer_handshake_firmware.Hal.Time
use aer_handshake_firmware.Hal.Time.{Clock}
use aer_handshake_firmware.Hal.Gpio
use aer_handshake_firmware.Hal.Gpio.{GpioCfg, Gpio, PinCall}
use aer_handshake_firmware.Hal.Stdio
use aer_handshake_firmware.Hal.Stdio.Log
use aer_handshake_firmware.Hal.Stdio.Log.{Log}
use aer_handshake_firmware.UsbStream
use aer_handshake_firmware.UsbStream.{Stream}
use aer_handshake_firmware.EventSink
use aer_handshake_firmware.EventSink.{Sink}

-- The pin map.
abbrev pub data_base_gpio : ℕ
data_base_gpio = 2

abbrev pub data_width_bits : ℕ
data_width_bits = 12

abbrev pub ack_gpio : ℕ
ack_gpio = 14

abbrev pub reset_gpio : ℕ
reset_gpio = 15

-- A call of the SDK on a pin outside hal_gpio.c.
pub data Call : Type 0 where
  gpio_init gpio_out : ℕ → Call
  gpio_put : ℕ → Bool → Call

-- What a round of the wait reads: TinyUSB's connection and line state, the time, and, where the LED
-- is toggled, the time again.
pub record Round : Type 0 where
  pub connected : Bool
  pub line_state : ℕ
  pub now : ℕ
  pub again : ℕ

pub cdc_dtr_asserted : Round → Bool
cdc_dtr_asserted r = if not r.connected then false else not (bit_and r.line_state 1 == 0)

-- The loop of `wait_for_usb_dtr_with_led`, with the calls so far, newest first; `none` where it
-- still waits. The times are microseconds of the SDK, which do not wrap.
pub wait_dtr : ℕ → ℕ → Bool → List Round → List Call → Option (List Call)
wait_dtr led next_toggle led_on [] calls = none
wait_dtr led next_toggle led_on (r ∷ rs) calls =
    let toggled =
      wait_dtr led (r.again + 200000) (not led_on) rs (gpio_put led (not led_on) ∷ calls) in
    let same = wait_dtr led next_toggle led_on rs calls in
    if cdc_dtr_asserted r
    then some (gpio_put led true ∷ calls)
    else if leb next_toggle r.now
    then toggled
    else same

-- `wait_for_usb_dtr_with_led` on a board with an LED, from the time at its start.
pub wait_for_usb_dtr_with_led : ℕ → ℕ → List Round → Option (List Call)
wait_for_usb_dtr_with_led led start rounds =
    wait_dtr led (start + 200000) false rounds
      (gpio_put led false ∷ gpio_out led ∷ gpio_init led ∷ [])

-- `gpio_cfg`
abbrev pub gpio_cfg : GpioCfg
gpio_cfg = record {
  data_base = data_base_gpio;
  data_width = data_width_bits;
  ack_pin = ack_gpio;
  ack_active_high = true;
  data_pull_down = true;
  data_pull_up = false;
  ack_deasserted_level = false;
}

-- What `main` has set up when it comes to the ring, with the calls on pins in hal_gpio.c, and the
-- others, newest first.
pub record Boot : Type 0 where
  pub log : Log
  pub clock : Clock
  pub gpio : Gpio
  pub stream : Stream
  pub sink : Sink
  pub calls : List Call
  pub pin_calls : List PinCall

-- From the variables of the files before, the clock that the SDK reports, the readings of the DWT
-- counter, and the rounds of the wait.
pub boot : Log → Gpio → Stream → ℕ → Option (ℕ × ℕ) → ℕ → ℕ → List Round → Option Boot
boot log gpio stream reported dwt led start rounds = elim (Stdio.init false 0 start []) [
  | none ↦ none
  | some _ ↦ elim (wait_for_usb_dtr_with_led led start rounds) [
    | none ↦ none
    | some calls ↦ elim (Gpio.init gpio (some gpio_cfg)) [
      | none ↦ none
      | some (gpio', pin_calls) ↦ some (record {
        log = Log.set_packetized true log;
        clock = Time.init reported dwt;
        gpio = gpio';
        stream =
            UsbStream.init
              (some (record { timestamps_enabled = true; data_width_bits = data_width_bits }))
              stream;
        sink = EventSink.init (some true);
        calls = gpio_put reset_gpio false ∷ gpio_out reset_gpio ∷ gpio_init reset_gpio ∷ calls;
        pin_calls = pin_calls;
      })
    ]
  ]
]
