-- ===== src/UsbStream/Converted/Tests.antt =====
-- An event in row 10 and column 5.
use aer_handshake_firmware.Base.{◌+◌, ◌≡◌, refl, true, false, some, [], ◌∷◌, u32}
use aer_handshake_firmware.Fixture.{online, in_full, port}
use aer_handshake_firmware.Hal.Stdio.{Port}
use aer_handshake_firmware.Hal.Stdio.Converted.{crlf}
use aer_handshake_firmware.UsbStream.{Stream, flag_on, send_event}
use aer_handshake_firmware.UsbStream.Converted.{send_event-row_10}
use aer_handshake_firmware.Viewer.{Framed, read_round}
use aer_handshake_firmware.Viewer.Events.{extract_on_events}

abbrev stream : Stream
stream = record {
  cfg = record { timestamps_enabled = false; data_width_bits = 12 };
  stats = record { events_sent = 4; events_dropped_not_connected = 0 };
}

send_event-row_10_example :
    (p' : Port) × (packet : Framed) × (send_event online in_full 10 5 flag_on 70000 (stream, port)
      ≡ ((record stream { stats = record stream.stats { events_sent = u32 (4 + 1) } }, p'), true))
    × (read_round [] p'.output ≡ (crlf (5 ∷ []), some packet))
    × (extract_on_events packet.payload ≡ (13, 10) ∷ [])
send_event-row_10_example =
    send_event-row_10 online in_full (λ n. refl) (λ n bs. refl) 5 70000 stream port refl refl
