-- ===== src/Boot/Pins/Tests.antt =====
-- The boot of Boot.Tests, on the chip of the examples.
use aer_handshake_firmware.Base.{◌≡◌, refl, some, [], ◌∷◌, ◌++◌}
use aer_handshake_firmware.Hal.Gpio.Board.{board, at_reset}
use aer_handshake_firmware.Hal.Stdio.Log.{log_at_boot}
use aer_handshake_firmware.Boot.{Boot, boot}
use aer_handshake_firmware.Boot.Tests.{
  closed, opened, unset_pins, stream, no_dwt, closed-waits, opened_lem,
}
use aer_handshake_firmware.Boot.Pins.{pin_after_boot, chip_after, boot_pins}

-- ACK.
boot_pins_example :
    (b : Boot) × (boot log_at_boot unset_pins stream 150000000 no_dwt 25 5 (closed ++ opened ∷ [])
      ≡ some b)
    × (chip_after board b at_reset 14 ≡ pin_after_boot 25 14 (at_reset 14))
boot_pins_example =
    boot_pins board log_at_boot unset_pins stream 150000000 no_dwt 25 5 closed opened [] at_reset 14
      closed-waits opened_lem refl
