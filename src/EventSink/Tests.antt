-- ===== src/EventSink/Tests.antt =====
-- One burst on its way to the host.
use aer_handshake_firmware.Base.{refl, true, [], ◌∷◌}
use aer_handshake_firmware.UsbStream.{Stream}
use aer_handshake_firmware.Fixture.{online, in_full, ticks_at, port}
use aer_handshake_firmware.Firmware.{deliver}
use aer_handshake_firmware.EventSink.{Outlet, on_event}
use aer_handshake_firmware.EventSink.Counts.{Balanced, deliver-Balanced}

abbrev stream : Stream
stream = record {
  cfg = record { timestamps_enabled = true; data_width_bits = 12 };
  stats = record { events_sent = 0; events_dropped_not_connected = 0 };
}

abbrev outlet : Outlet
outlet = record {
  sink = record {
    enabled = true;
    stats = record { events_emitted = 0; usb_sent_ok = 0; usb_send_failed = 0 };
  };
  stream = stream;
  port = port;
}

deliver-Balanced_example :
    Balanced (deliver (on_event online in_full ticks_at) outlet ((3, 5) ∷ (3, 6) ∷ [])).sink.stats
deliver-Balanced_example =
    deliver-Balanced online in_full ticks_at ((3, 5) ∷ (3, 6) ∷ []) outlet refl
