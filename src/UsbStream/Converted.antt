-- ===== src/UsbStream/Converted.antt =====
-- What the viewers read of an event in row 10 where stdout converts line feeds.
mod Tests
use aer_handshake_firmware.Base.{
  ℕ, ◌+◌, ◌≡◌, refl, ap, ◌∙◌, Bool, true, false, none, some, List, [], ◌∷◌, ◌++◌, length, u32,
  arith,
}
use aer_handshake_firmware.Hal.Stdio.{Port, event_bin, ask}
use aer_handshake_firmware.Hal.Stdio.Converted.{crlf, hal_stream_write-crlf}
use aer_handshake_firmware.UsbStream.{Stream, event_record, flag_on, send_event}
use aer_handshake_firmware.Viewer.{Framed, read_round}
use aer_handshake_firmware.Viewer.Pieces.{frame, whole_round}
use aer_handshake_firmware.Viewer.Events.{extract_on_events}
use aer_handshake_firmware.Viewer.Events.Records.{decode_and_print_events-payload_of}

-- The packet that the viewers make of it.
abbrev moved : Framed
moved = record { ver = 1; ptype = 2; payload = 1 ∷ 1 ∷ 13 ∷ 10 ∷ [] }

module _ (connected : ℕ → Bool) (fwrite : ℕ → List ℕ → List ℕ × ℕ)
    (all : (n : ℕ) → connected n ≡ true)
    (converted : (n : ℕ) (bs : List ℕ) → fwrite n bs ≡ (crlf bs, length bs)) where
  -- While the host is connected, on a stdout that puts a carriage return before each line feed and
  -- returns the count of the bytes that it is given: an event in row 10 and any column, sent
  -- without ticks on an empty output, is counted as sent, and the round of a viewer on the output
  -- returns a packet whose only pixel is the one in row 13 and column 10, and leaves the byte of
  -- the column in the buffer.
  pub send_event-row_10 :
      (col ticks : ℕ) (s : Stream) (p : Port)
      → s.cfg.timestamps_enabled ≡ false
      → p.output ≡ []
      → (p' : Port) × (packet : Framed) × (send_event connected fwrite 10 col flag_on ticks (s, p)
          ≡ (
            (
              record s { stats = record s.stats { events_sent = u32 (s.stats.events_sent + 1) } },
              p',
            ),
            true,
          ))
        × (read_round [] p'.output ≡ (crlf (col ∷ []), some packet))
        × (extract_on_events packet.payload ≡ (13, 10) ∷ [])
  unfolding send_event event_record
  send_event-row_10 col ticks s p off fresh =
      let (p', written, output) =
        hal_stream_write-crlf connected fwrite all converted event_bin 1 (flag_on ∷ 10 ∷ col ∷ [])
          (ask p) in
      (
        p',
        moved,
        rw (all p.queries, off, written, send_event) refl,
        ap (read_round []) (output ∙ ap (λ o. o ++ (frame moved ++ crlf (col ∷ []))) fresh)
            ∙ whole_round moved (crlf (col ∷ []))
                (record { version = refl; byte = omega arith; short = omega arith }),
        (decode_and_print_events-payload_of
            (record { flags = 1; row = 13; col = 10; ticks = none } ∷ []) false (tt, tt)).1,
      )
