-- ===== src/Hal/Gpio/Tests.antt =====
-- The pin map of `main`.
use aer_handshake_firmware.Base.{◌≡◌, refl, true, false, none, some, List, [], ◌∷◌, arith}
use aer_handshake_firmware.Hal.Gpio.{
  GpioCfg, Gpio, PinCall, init, compute_masks_from_cfg, data_mask, read_pin, ack_is_asserted,
  ack_write, ack_level_for_asserted, idle,
}
use aer_handshake_firmware.Hal.Gpio.Sdk.{make_calls, drive_ack, drive_acks}
use aer_handshake_firmware.Hal.Gpio.Board.{board, at_reset}
use aer_handshake_firmware.Hal.Gpio.Drive.{pin_after_init, init_pins}
use aer_handshake_firmware.Hal.Gpio.Ack.{drive_acks_lem}

abbrev pins : GpioCfg
pins = record {
  data_base = 2;
  data_width = 12;
  ack_pin = 14;
  ack_active_high = true;
  data_pull_down = true;
  data_pull_up = false;
  ack_deasserted_level = false;
}

abbrev unset : Gpio
unset = record { cfg = pins; inited = false; data_mask64 = 0; ack_mask64 = 0; data_shift = 0 }

abbrev set_up : Gpio
set_up = record {
  cfg = pins;
  inited = true;
  data_mask64 = 16380;
  ack_mask64 = 16384;
  data_shift = 2;
}

-- The calls that the initialisation makes.
pin_calls : List PinCall
pin_calls = elim (init unset (some pins)) [ none ↦ [] | some (_, calls) ↦ calls ]

unset-init : init unset (some pins) ≡ some (set_up, pin_calls)
unfolding init compute_masks_from_cfg data_mask pin_calls
unset-init = refl

-- Pin 14 is ACK.
init_pins_example : make_calls board pin_calls at_reset 14 ≡ pin_after_init pins 14 (at_reset 14)
init_pins_example =
    init_pins board unset set_up pins pin_calls at_reset 14 unset-init (omega arith) (omega arith)

shows_ack :
    read_pin 16384 14
    ≡ (drive_acks board set_up
        (true ∷ false ∷ true ∷ [])
        (make_calls board pin_calls at_reset)
        14).level
unfolding read_pin drive_acks drive_ack ack_write ack_level_for_asserted
shows_ack = refl

-- ACK raised after it has been raised and lowered, seen in a snapshot with pin 14 high.
drive_acks_lem_example :
    (ack_is_asserted set_up 16384 ≡ true)
    × (make_calls board
          (idle set_up)
          (drive_acks board set_up (true ∷ false ∷ true ∷ []) (make_calls board pin_calls at_reset))
          14
        ≡ make_calls board pin_calls at_reset 14)
drive_acks_lem_example =
    drive_acks_lem board unset set_up pins pin_calls at_reset (true ∷ false ∷ []) true 16384 14
      unset-init (omega arith) (omega arith) refl shows_ack
