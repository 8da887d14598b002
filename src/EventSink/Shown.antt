-- ===== src/EventSink/Shown.antt =====
-- From the transmitter on the bus to the lines that scripts/print_events.py prints.
use aer_handshake_firmware.Base.{
  ℕ, ◌≡◌, ◌≤◌, refl, ap, ap₂, sym, ◌∙◌, Bool, true, All-prefix, subst, some, List, [], ◌++◌, length,
  length-append, All, arith,
}
use aer_handshake_firmware.Burst
use aer_handshake_firmware.Burst.{Burst, Event}
use aer_handshake_firmware.Link.{RowBurst, Fits, transmit, events, receive}
use aer_handshake_firmware.RxPoll.Latched.{latched}
use aer_handshake_firmware.RxPoll.Transmitter.{Phase, Run, unsent}
use aer_handshake_firmware.Firmware.{Firmware, passes, start}
use aer_handshake_firmware.Firmware.ClosedLoop.{passes-Run}
use aer_handshake_firmware.Hal.Stdio.{Plain, bytes_u32}
use aer_handshake_firmware.UsbStream.Host.{PlainEvent}
use aer_handshake_firmware.EventSink.{Outlet, on_event}
use aer_handshake_firmware.EventSink.Frames.{
  event_packet, Packets, no_packet, packet_for, Packets-Writable, deliver-Packets,
}
use aer_handshake_firmware.Viewer.{Framed, packets}
use aer_handshake_firmware.Viewer.Pieces.{frames, joined, nothing, packets_left}
use aer_handshake_firmware.Viewer.Events.Records.{
  extract_on_events-event_record, extract_on_events-decode_and_print_events,
}
use aer_handshake_firmware.Viewer.Listen.{listen, events_shown, listen-cons, listen-nil}

length-Packets : {es : List Event} {ps : List Framed} → Packets es ps → length ps ≡ length es
length-Packets no_packet = refl
length-Packets (packet_for timestamps e ticks p) = omega (arith, length-Packets p)

listen-Packets :
    {es : List Event} {ps : List Framed} (show_non_events show_ticks : Bool)
    → Packets es ps
    → events_shown (listen show_non_events show_ticks ps) ≡ es
listen-Packets show_non_events show_ticks no_packet = listen-nil show_non_events show_ticks
listen-Packets show_non_events show_ticks (packet_for {es} {ps} timestamps (row, col) ticks p) =
    let first = event_packet timestamps (row, col) ticks in
    listen-cons show_non_events show_ticks first ps refl
    ∙ ap₂ ◌++◌
        (sym (extract_on_events-decode_and_print_events first.payload show_ticks)
          ∙ extract_on_events-event_record timestamps row col ticks)
        (listen-Packets show_non_events show_ticks p)

module _ (connected : ℕ → Bool) (fwrite : ℕ → List ℕ → List ℕ × ℕ) (cycles : ℕ → ℕ)
    (converts : Bool) (all : (n : ℕ) → connected n ≡ true)
    (whole : (n : ℕ) (bs : List ℕ) → Plain converts bs → fwrite n bs ≡ (bs, length bs))
    (plain_ticks : (n : ℕ) → Plain converts (bytes_u32 (cycles n))) where
  -- While the host is connected, on a stdout that converts line feeds, or does not, and passes on
  -- the other bytes, with no row, column and no byte of the ticks of 10 where it does, an enabled
  -- sink, no output yet and the 2048 words of ring storage: where the main loop has made any number
  -- of passes on a bus that is driven by the transmitter of README.md section 4, with any timing,
  -- and print_events.py reads the output in pieces of any size, and then has at least as many reads
  -- that time out as there are events, it prints, with any options, exactly the events of the
  -- bursts, in order, up to those that the assembler has still to make of the words not yet
  -- acknowledged.
  pub passes-events_shown :
      (ms : List RowBurst) (storage : List ℕ) (memory : Burst) (outlet : Outlet) (xs clock : List ℕ)
      (n : ℕ) (s s' : Firmware Outlet) (phase : Phase) (acked : Bool) (left : List ℕ)
      (pieces : List (List ℕ)) (quiet : ℕ) (show_non_events show_ticks : Bool)
      → outlet.sink.enabled ≡ true
      → outlet.port.output ≡ []
      → 2048 ≤ length storage
      → length memory.cols ≡ 32
      → All Fits ms
      → All (PlainEvent converts) (events ms)
      → start
          (on_event connected fwrite cycles)
          storage
          memory
          outlet
          (record { samples = xs; clock = clock; log = [] })
        ≡ some s
      → passes (on_event connected fwrite cycles) n s ≡ some s'
      → Run (transmit ms) s'.bus.log phase acked left
      → joined pieces ≡ s'.user.port.output
      → length (events ms) ≤ quiet
      → events ms
        ≡ events_shown (listen show_non_events show_ticks (packets [] (pieces ++ nothing quiet)))
          ++ (receive
              (receive (Burst.init memory) (latched s'.bus.log)).0
              (unsent phase acked left)).1
  passes-events_shown ms storage memory outlet xs clock n s s' phase acked left pieces quiet
        show_non_events show_ticks on fresh hs hm fits plain starts run sent read enough =
      let taken =
        passes-Run (on_event connected fwrite cycles) ms storage memory outlet xs clock n s s' phase
          acked left hs hm fits starts run sent in
      let got = receive (Burst.init memory) (latched s'.bus.log) in
      let later = (receive got.0 (unsent phase acked left)).1 in
      let (ps, output, p) =
        deliver-Packets connected fwrite cycles converts all whole plain_ticks got.1 outlet
          (All-prefix (PlainEvent converts) got.1 later
            (subst (All (PlainEvent converts)) taken.prefix plain))
          on in
      let bytes =
        read
        ∙ ap (λ (o : Outlet). o.port.output) taken.user_is
        ∙ output
        ∙ ap (λ o. o ++ frames ps) fresh in
      let all_read =
        packets_left ps pieces quiet [] (Packets-Writable p) bytes (
          omega (arith, length-Packets p, ap length taken.prefix, length-append {0} got.1 later)) in
      taken.prefix
      ∙ ap (λ es. es ++ later)
          (sym (
            ap (λ q. events_shown (listen show_non_events show_ticks q)) all_read
            ∙ listen-Packets show_non_events show_ticks p))
