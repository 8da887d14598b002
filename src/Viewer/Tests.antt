-- ===== src/Viewer/Tests.antt =====
-- Two packets in three pieces, the first of them cut within its magic.
use aer_handshake_firmware.Base.{
  ℕ, ◌-◌, ◌*◌, ◌/◌, ◌≡◌, ◌++◌, refl, if◌then◌else◌, leb, sym, true, false, none, some, List, [],
  ◌∷◌, All, length, arith,
}
use aer_handshake_firmware.Fixture.{online, in_full, in_full_lem}
use aer_handshake_firmware.Hal.Stdio.{Port, Plain}
use aer_handshake_firmware.Viewer.{Framed, packets}
use aer_handshake_firmware.Viewer.Events.{Record, decode_and_print_events, extract_on_events}
use aer_handshake_firmware.Viewer.Events.Records.{
  payload_of, lines_of, pixels_of, printed, decode_and_print_events-payload_of,
  extract_on_events-decode_and_print_events,
}
use aer_handshake_firmware.Viewer.Pump.{Grid, Turn, show_packet, pump}
use aer_handshake_firmware.Viewer.Pump.Buffered.{
  last_hit, Brought, nothing_more, brings, pump-one_piece,
}
use mathlib.Core.List.Perm
use aer_handshake_firmware.Viewer.Draw.{pos, Floats, Square, draw, decay_ms}
use aer_handshake_firmware.Viewer.Draw.Screen.{paint}
use aer_handshake_firmware.Viewer.Draw.Hits.{lit, picture}
use aer_handshake_firmware.Viewer.Draw.Picture.{shade, pump-draw}
use aer_handshake_firmware.Viewer.Written.{write_all, write_all-frames, packets-write_all}
use aer_handshake_firmware.Viewer.Pieces.{frame, frames, Writable, joined, nothing}

abbrev two : List Framed
two =
    record { ver = 1; ptype = 2; payload = 1 ∷ 1 ∷ 3 ∷ 5 ∷ [] }
    ∷ record { ver = 1; ptype = 4; payload = 65 ∷ 69 ∷ [] }
    ∷ []

two-Writable : All Writable two
two-Writable = (
  record { version = refl; byte = omega arith; short = omega arith },
  (record { version = refl; byte = omega arith; short = omega arith }, tt),
)

two-Plain : All (λ p. Plain true (frame p)) two
two-Plain = (refl, (refl, tt))

abbrev pieces : List (List ℕ)
pieces =
    (65 ∷ 69 ∷ [])
    ∷ (82 ∷ 83 ∷ 1 ∷ 2 ∷ 4 ∷ 0 ∷ 1 ∷ 1 ∷ 3 ∷ [])
    ∷ (5 ∷ 65 ∷ 69 ∷ 82 ∷ 83 ∷ 1 ∷ 4 ∷ 2 ∷ 0 ∷ 65 ∷ 69 ∷ [])
    ∷ []

abbrev port : Port
port = record { output = []; queries = 0; writes = 0 }

pieces_lem : joined pieces ≡ (write_all online in_full two port).output
pieces_lem = sym (write_all-frames online in_full true (λ n. refl) in_full_lem two port two-Plain)

packets-write_all_example : packets [] (pieces ++ nothing (length two)) ≡ two
packets-write_all_example =
    packets-write_all online in_full true (λ n. refl) in_full_lem two port pieces refl two-Writable
      two-Plain pieces_lem

-- Two records that are on and one that is off, and then a record of an unknown type.
abbrev three : List Record
three =
    record { flags = 1; row = 3; col = 5; ticks = some 70000 }
    ∷ record { flags = 2; row = 4; col = 5; ticks = none }
    ∷ record { flags = 3; row = 31; col = 0; ticks = none }
    ∷ []

decode_and_print_events-payload_of_example :
    (decode_and_print_events true (payload_of three) ≡ lines_of true three)
    × (extract_on_events (payload_of three) ≡ pixels_of three)
decode_and_print_events-payload_of_example =
    decode_and_print_events-payload_of three true (omega arith, (tt, (tt, tt)))

extract_on_events-decode_and_print_events_example :
    extract_on_events (1 ∷ 1 ∷ 3 ∷ 5 ∷ 7 ∷ 0 ∷ [])
    ≡ printed (decode_and_print_events false (1 ∷ 1 ∷ 3 ∷ 5 ∷ 7 ∷ 0 ∷ []))
extract_on_events-decode_and_print_events_example =
    extract_on_events-decode_and_print_events (1 ∷ 1 ∷ 3 ∷ 5 ∷ 7 ∷ 0 ∷ []) false

-- Rounds of the pump, at the times 100 and 101: an event packet in two pieces, then log text.
abbrev event_packet : Framed
event_packet = record { ver = 1; ptype = 2; payload = 1 ∷ 1 ∷ 3 ∷ 5 ∷ [] }

abbrev log_packet : Framed
log_packet = record { ver = 1; ptype = 1; payload = 65 ∷ [] }

abbrev first : Turn ℕ
first = record {
  late = false;
  in_waiting = 3;
  reads = (65 ∷ 69 ∷ 82 ∷ []) ∷ (83 ∷ 1 ∷ 2 ∷ 4 ∷ 0 ∷ 1 ∷ 1 ∷ 3 ∷ 5 ∷ []) ∷ [];
  now = 100;
}

abbrev second : Turn ℕ
second = record {
  late = false;
  in_waiting = 9;
  reads = (65 ∷ 69 ∷ 82 ∷ 83 ∷ 1 ∷ 1 ∷ 1 ∷ 0 ∷ 65 ∷ []) ∷ [];
  now = 101;
}

abbrev idle : Turn ℕ
idle = record { late = false; in_waiting = 0; reads = []; now = 102 }

abbrev unseen : Grid ℕ
unseen r c = none

event_packet-Writable : Writable event_packet
event_packet-Writable = record { version = refl; byte = omega arith; short = omega arith }

rounds-Brought : Brought (first ∷ second ∷ []) (event_packet ∷ log_packet ∷ [])
rounds-Brought =
    brings first event_packet event_packet-Writable
      (record { in_time = refl; waiting = omega arith; reads = refl })
      (brings second log_packet (record { version = refl; byte = omega arith; short = omega arith })
        (record { in_time = refl; waiting = omega arith; reads = refl }) nothing_more)

-- Times and intensities in whole numbers.
abbrev whole : Floats
whole = record {
  Float = ℕ;
  of_int = λ n. n;
  sub = λ a b. a - b;
  mul = λ a b. a * b;
  div = λ a b. a / b;
  ge = λ a b. leb b a;
  int = pos;
}

-- The pixel in row 3 and column 5, at the end of the first square of 16 by 16 points of its place.
pump-draw_example :
    (g : Grid ℕ) × (pump ((first ∷ second ∷ []) ++ idle ∷ []) [] unseen ≡ some ([], g))
    × ((squares : List Square) × (draw whole 16 200 103 g ≡ some squares)
        × (paint 95 63 squares (pos 0)
            ≡ shade whole 200 103
                (last_hit 3 5 (first ∷ second ∷ []) (event_packet ∷ log_packet ∷ []) none)))
    × ((squares : List Square) × (draw whole 16 (decay_ms true 200) 103 g ≡ some squares)
        × (paint 95 63 squares (pos 0)
            ≡ (if lit 3 5 (picture (log_packet ∷ event_packet ∷ [])) then pos 255 else pos 0)))
pump-draw_example =
    pump-draw whole 16 200 (omega arith) 103 (log_packet ∷ event_packet ∷ []) idle [] 95 63
      rounds-Brought refl (Perm.swap log_packet event_packet [])
      ((0, omega arith, refl), ((0, omega arith, refl), tt)) (omega arith) (omega arith)

-- Two event packets in one piece.
abbrev both : Turn ℕ
both = record {
  late = false;
  in_waiting = 24;
  reads = frames (event_packet ∷ (event_packet ∷ [])) ∷ [];
  now = 100;
}

pump-one_piece_example :
    (pump (both ∷ (idle ∷ [])) [] unseen
      ≡ some (frames (event_packet ∷ []), show_packet 100 unseen event_packet))
    × (pump (idle ∷ []) (frames (event_packet ∷ [])) (show_packet 100 unseen event_packet)
        ≡ some (frames (event_packet ∷ []), show_packet 100 unseen event_packet))
pump-one_piece_example =
    pump-one_piece both idle [] event_packet (event_packet ∷ []) unseen refl (omega arith) refl refl
      event_packet-Writable
