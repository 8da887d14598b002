-- ===== src/Firmware/Delays/Tests.antt =====
-- A slow word, one that is cleared late, and one at once.
use aer_handshake_firmware.Base.{◌≡◌, refl, some, List, [], ◌∷◌, ◌++◌, false, arith}
use aer_handshake_firmware.Burst.{Event}
use aer_handshake_firmware.Link.{transmit, events}
use aer_handshake_firmware.RxPoll.Transmitter.{Run, ready}
use aer_handshake_firmware.Fixture.{zeros, length-zeros_lem, memory, sent, sent-Fits}
use aer_handshake_firmware.Firmware.{Firmware, deliver, passes, start}
use aer_handshake_firmware.Firmware.Transfer.{samples, rounds}
use aer_handshake_firmware.Firmware.Delays.{Delay, schedule, passes-schedule}

abbrev collect : List Event → Event → List Event
collect es e = es ++ e ∷ []

abbrev delays : List Delay
delays = record { before = 3; until_clear = 0 } ∷ record { before = 0; until_clear = 7 } ∷ []

passes-schedule_example :
    (s s' : Firmware (List Event)) × (start collect
        (zeros 2048)
        memory
        []
        (record { samples = samples (schedule (transmit sent) delays) []; clock = []; log = [] })
      ≡ some s)
    × (passes collect (rounds (schedule (transmit sent) delays)) s ≡ some s')
    × Run (transmit sent) s'.bus.log ready false []
    × (s'.user ≡ deliver collect [] (events sent))
passes-schedule_example =
    passes-schedule collect sent delays (zeros 2048) memory [] []
      (omega (arith, length-zeros_lem 2048)) refl sent-Fits
