-- ===== src/EventSink/Drawn.antt =====
-- From the transmitter on the bus to the screen of scripts/view_events.py.
use aer_handshake_firmware.Base.{
  ℕ, ◌+◌, ◌*◌, ◌/◌, ◌<◌, ◌≡◌, ◌≤◌, refl, ap, ap₂, sym, ◌∙◌, Bool, true, All-prefix, subst, some,
  none, List, [], ◌∷◌, ◌++◌, length, All, if◌then◌else◌, append-nil, arith,
}
use mathlib.Core.List.Perm
use aer_handshake_firmware.Burst
use aer_handshake_firmware.Burst.{Burst, Event}
use aer_handshake_firmware.Link.{RowBurst, Fits, transmit, events, receive}
use aer_handshake_firmware.RxPoll.Latched.{latched}
use aer_handshake_firmware.RxPoll.Transmitter.{Phase, Run, unsent}
use aer_handshake_firmware.Firmware.{Firmware, passes, start}
use aer_handshake_firmware.Firmware.ClosedLoop.{passes-Run}
use aer_handshake_firmware.Hal.Stdio.{Plain, bytes_u32}
use aer_handshake_firmware.UsbStream.Host.{PlainEvent}
use aer_handshake_firmware.EventSink.{Outlet, on_event}
use aer_handshake_firmware.EventSink.Frames.{
  Packets, no_packet, packet_for, Packets-Writable, deliver-Packets,
}
use aer_handshake_firmware.Viewer.{Framed}
use aer_handshake_firmware.Viewer.Pieces.{frames, Writable, packets_left}
use aer_handshake_firmware.Viewer.Events.Records.{extract_on_events-event_record}
use aer_handshake_firmware.Viewer.Pump.{Grid, Turn, pump}
use aer_handshake_firmware.Viewer.Pump.Buffered.{hit, Brought, nothing_more, brings}
use aer_handshake_firmware.Viewer.Draw.{pos, Floats, Square, draw, decay_ms}
use aer_handshake_firmware.Viewer.Draw.Screen.{paint}
use aer_handshake_firmware.Viewer.Draw.Hits.{events_of, lit-picture}
use aer_handshake_firmware.Viewer.Draw.Picture.{pump-persist}

events_of-Packets : {es : List Event} {ps : List Framed} → Packets es ps → events_of ps ≡ es
events_of-Packets no_packet = refl
events_of-Packets (packet_for timestamps (row, col) ticks p) =
    ap₂ ◌++◌ (extract_on_events-event_record timestamps row col ticks) (events_of-Packets p)

Brought-Writable :
    {T : Type 0} {ts : List (Turn T)} {ps : List Framed} → Brought ts ps → All Writable ps
Brought-Writable nothing_more = tt
Brought-Writable (brings t p w b more) = (w, Brought-Writable more)

-- The bytes of packets tell the packets.
same_packets :
    (ps qs : List Framed) → All Writable ps → All Writable qs → frames ps ≡ frames qs → ps ≡ qs
same_packets ps qs wp wq e =
    let quiet = length ps + length qs in
    let piece = append-nil (frames ps) in
    sym (packets_left ps (frames ps ∷ []) quiet [] wp piece (omega arith))
    ∙ packets_left qs (frames ps ∷ []) quiet [] wq (piece ∙ e) (omega arith)

module _ (connected : ℕ → Bool) (fwrite : ℕ → List ℕ → List ℕ × ℕ) (cycles : ℕ → ℕ)
    (converts : Bool) (all : (n : ℕ) → connected n ≡ true)
    (whole : (n : ℕ) (bs : List ℕ) → Plain converts bs → fwrite n bs ≡ (bs, length bs))
    (plain_ticks : (n : ℕ) → Plain converts (bytes_u32 (cycles n))) (fl : Floats) (scale decay : ℕ)
    (visible : 0 < scale) (now : fl.Float) where
  -- The same with view_events.py.
  pub passes-drawn :
      (ms : List RowBurst) (storage : List ℕ) (memory : Burst) (outlet : Outlet) (xs clock : List ℕ)
      (n : ℕ) (s s' : Firmware Outlet) (phase : Phase) (acked : Bool) (left : List ℕ)
      {ts : List (Turn fl.Float)} {ps : List Framed} (u : Turn fl.Float) (us : List (Turn fl.Float))
      (x y : ℕ)
      → outlet.sink.enabled ≡ true
      → outlet.port.output ≡ []
      → 2048 ≤ length storage
      → length memory.cols ≡ 32
      → All Fits ms
      → All (PlainEvent converts) (events ms)
      → start
          (on_event connected fwrite cycles)
          storage
          memory
          outlet
          (record { samples = xs; clock = clock; log = [] })
        ≡ some s
      → passes (on_event connected fwrite cycles) n s ≡ some s'
      → Run (transmit ms) s'.bus.log phase acked left
      → Brought ts ps
      → frames ps ≡ s'.user.port.output
      → u.in_waiting ≡ 0
      → x < 32 * scale
      → y < 32 * scale
      → (shown : List Event) × (g : Grid fl.Float) × (events ms
          ≡ shown
            ++ (receive
                (receive (Burst.init memory) (latched s'.bus.log)).0
                (unsent phase acked left)).1)
        × (pump (ts ++ u ∷ us) [] (λ r c. none) ≡ some ([], g))
        × (squares : List Square) × (draw fl scale (decay_ms true decay) now g ≡ some squares)
        × (paint x y squares (pos 0)
            ≡ (if hit (y / scale) (x / scale) shown then pos 255 else pos 0))
  passes-drawn ms storage memory outlet xs clock n s s' phase acked left {ts} {ps} u us x y on fresh
        hs hm fits plain starts run sent b read z inside above =
      let taken =
        passes-Run (on_event connected fwrite cycles) ms storage memory outlet xs clock n s s' phase
          acked left hs hm fits starts run sent in
      let shown = (receive (Burst.init memory) (latched s'.bus.log)).1 in
      let (qs, output, p) =
        deliver-Packets connected fwrite cycles converts all whole plain_ticks shown outlet
          (All-prefix (PlainEvent converts) shown _
            (subst (All (PlainEvent converts)) taken.prefix plain))
          on in
      let bytes =
        read
        ∙ ap (λ (o : Outlet). o.port.output) taken.user_is
        ∙ output
        ∙ ap (λ o. o ++ frames qs) fresh in
      let same = same_packets ps qs (Brought-Writable b) (Packets-Writable p) bytes in
      let (g, run', (squares, drawn, point)) =
        pump-persist fl scale decay visible now ps u us x y b z (Perm.refl ps) inside above in
      (
        shown,
        g,
        taken.prefix,
        run',
        squares,
        drawn,
        point
            ∙ ap (λ on. if on then pos 255 else pos 0)
                (lit-picture (y / scale) (x / scale) ps
                  ∙ ap (hit (y / scale) (x / scale)) (ap events_of same ∙ events_of-Packets p)),
      )
