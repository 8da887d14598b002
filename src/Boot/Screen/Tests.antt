-- ===== src/Boot/Screen/Tests.antt =====
-- The session of Boot.Tests, whose output the viewer reads a packet at a time.
use aer_handshake_firmware.Base.{
  ℕ, ◌-◌, ◌*◌, ◌/◌, ◌≡◌, refl, ap, sym, ◌∙◌, true, false, none, some, List, [], ◌∷◌, ◌++◌, map, All,
  if◌then◌else◌, leb, append-nil, arith,
}
use aer_handshake_firmware.Burst
use aer_handshake_firmware.Burst.{Event}
use aer_handshake_firmware.Link.{events, receive}
use aer_handshake_firmware.RxPoll.Latched.{latched}
use aer_handshake_firmware.RxPoll.Transmitter.{ready, unsent}
use aer_handshake_firmware.Hal.Stdio.Log.{log_at_boot}
use aer_handshake_firmware.Fixture.{
  zeros, length-zeros_lem, memory, online, in_full, in_full_lem, ticks_at, sent, sent-Fits, clean,
}
use aer_handshake_firmware.Firmware.Transfer.{samples, rounds}
use aer_handshake_firmware.EventSink.{Outlet}
use aer_handshake_firmware.EventSink.Frames.{Packets, Packets-Writable, deliver-Packets}
use aer_handshake_firmware.Viewer.{Framed}
use aer_handshake_firmware.Viewer.Pieces.{frame, frames, Writable}
use aer_handshake_firmware.Viewer.Pump.{Grid, Turn, pump}
use aer_handshake_firmware.Viewer.Pump.Buffered.{hit, Brought, nothing_more, brings}
use aer_handshake_firmware.Viewer.Draw.{pos, Floats, Square, draw, decay_ms}
use aer_handshake_firmware.Viewer.Draw.Screen.{paint}
use aer_handshake_firmware.Boot.Tests.{
  closed, opened, unset_pins, stream, no_dwt, outlet, closed-waits, opened_lem, booted, session,
  session-Run,
}
use aer_handshake_firmware.Boot.Screen.{boot-drawn}

-- Times and intensities in whole numbers.
abbrev whole : Floats
whole = record {
  Float = ℕ;
  of_int = λ n. n;
  sub = λ a b. a - b;
  mul = λ a b. a * b;
  div = λ a b. a / b;
  ge = λ a b. leb b a;
  int = pos;
}

-- The packets of the session.
session_packets :
    (ps : List Framed) × (session.1.user.port.output ≡ frames ps) × Packets (events sent) ps
session_packets =
    let (ps, output, p) =
      deliver-Packets online in_full ticks_at true (λ n. refl) in_full_lem (λ n. refl) (events sent)
        outlet (refl, tt) booted.2.enabled in
    (ps, ap (λ (o : Outlet). o.port.output) session.4 ∙ output, p)

-- A round that reads a packet in one piece.
abbrev round_for : Framed → Turn ℕ
round_for p = record { late = false; in_waiting = 1; reads = frame p ∷ []; now = 7 }

rounds-Brought : (ps : List Framed) → All Writable ps → Brought (map round_for ps) ps
rounds-Brought [] w = nothing_more
rounds-Brought (p ∷ ps) w =
    brings (round_for p) p w.0
      (record { in_time = refl; waiting = omega arith; reads = append-nil (frame p) })
      (rounds-Brought ps w.1)

abbrev nothing_waits : Turn ℕ
nothing_waits = record { late = false; in_waiting = 0; reads = []; now = 8 }

-- The point in the middle of row 3 and column 5.
boot-drawn_example :
    (shown : List Event) × (g : Grid ℕ) × (events sent
      ≡ shown
        ++ (receive
            (receive (Burst.init memory) (latched session.1.bus.log)).0
            (unsent ready false [])).1)
    × (pump (map round_for session_packets.0 ++ nothing_waits ∷ []) [] (λ r c. none) ≡ some ([], g))
    × (squares : List Square) × (draw whole 16 (decay_ms true 200) 9 g ≡ some squares)
    × (paint 88 56 squares (pos 0) ≡ (if hit 3 5 shown then pos 255 else pos 0))
boot-drawn_example =
    boot-drawn online in_full ticks_at true (λ n. refl) in_full_lem (λ n. refl) whole 16 200
      (omega arith) 9 log_at_boot unset_pins stream 150000000 no_dwt 25 5 closed opened [] booted.0
      sent (zeros 2048) memory 0 0 (samples clean []) [] (rounds clean) session.0 session.1 ready
      false [] nothing_waits [] 88 56 closed-waits opened_lem booted.1
      (omega (arith, length-zeros_lem 2048)) refl sent-Fits (refl, tt) session.2 session.3
      session-Run (rounds-Brought session_packets.0 (Packets-Writable session_packets.2))
      (sym session_packets.1) refl (omega arith) (omega arith)
