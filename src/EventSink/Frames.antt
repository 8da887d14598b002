-- ===== src/EventSink/Frames.antt =====
-- The packets that the sink writes for the events that it gets, as the viewers read them.
use aer_handshake_firmware.Base.{
  ℕ, ◌≡◌, refl, ap, sym, ◌∙◌, Bool, true, false, length, List, [], ◌∷◌, ◌++◌, All, append-nil,
  append_assoc, u32, ◌+◌, arith,
}
use aer_handshake_firmware.Burst.{Event}
use aer_handshake_firmware.Hal.Stdio.{Port, Plain, bytes_u32, event_bin}
use aer_handshake_firmware.UsbStream.{Stream, flag_on, event_record}
use aer_handshake_firmware.UsbStream.Host.{PlainEvent, send_event_lem}
use aer_handshake_firmware.Firmware.{deliver}
use aer_handshake_firmware.EventSink.{Outlet, on_event}
use aer_handshake_firmware.EventSink.ToHost.{on_event_enabled}
use aer_handshake_firmware.Viewer.{Framed}
use aer_handshake_firmware.Viewer.Pieces.{frames, Writable}

-- The packet for an event, with the ticks that it carries where the stream sends them.
abbrev pub event_packet : Bool → Event → ℕ → Framed
event_packet timestamps (row, col) ticks = record {
  ver = 1;
  ptype = event_bin;
  payload = event_record timestamps flag_on row col ticks;
}

event_packet-Writable :
    (timestamps : Bool) (e : Event) (ticks : ℕ) → Writable (event_packet timestamps e ticks)
unfolding event_record
event_packet-Writable true e ticks = record {
  version = refl;
  byte = omega arith;
  short = omega arith;
}
event_packet-Writable false e ticks = record {
  version = refl;
  byte = omega arith;
  short = omega arith;
}

-- One packet for each event, in order, each with some ticks or none.
pub data Packets : List Event → List Framed → Type 0 where
  no_packet : Packets [] []
  packet_for :
      {es : List Event} {ps : List Framed} (timestamps : Bool) (e : Event) (ticks : ℕ)
      → Packets es ps
      → Packets (e ∷ es) (event_packet timestamps e ticks ∷ ps)

pub Packets-Writable : {es : List Event} {ps : List Framed} → Packets es ps → All Writable ps
Packets-Writable no_packet = tt
Packets-Writable (packet_for timestamps e ticks p) =
    (event_packet-Writable timestamps e ticks, Packets-Writable p)

module _ (connected : ℕ → Bool) (fwrite : ℕ → List ℕ → List ℕ × ℕ) (cycles : ℕ → ℕ)
    (converts : Bool) (all : (n : ℕ) → connected n ≡ true)
    (whole : (n : ℕ) (bs : List ℕ) → Plain converts bs → fwrite n bs ≡ (bs, length bs))
    (plain_ticks : (n : ℕ) → Plain converts (bytes_u32 (cycles n))) where
  -- An enabled sink, while the host is connected and `fwrite` passes on what is plain, writes
  -- one packet for each of plain events.
  pub deliver-Packets :
      (es : List Event) (o : Outlet)
      → All (PlainEvent converts) es
      → o.sink.enabled ≡ true
      → (ps : List Framed) × ((deliver (on_event connected fwrite cycles) o es).port.output
          ≡ o.port.output ++ frames ps)
        × Packets es ps
  deliver-Packets [] o plain on = ([], sym (append-nil o.port.output), no_packet)
  deliver-Packets ((row, col) ∷ es) o plain on =
      let ticks = cycles o.port.queries in
      let counted : Stream = record o.stream {
        stats = record o.stream.stats { events_sent = u32 (o.stream.stats.events_sent + 1) };
      } in
      let (p, sent, output) =
        send_event_lem connected fwrite converts all whole row col flag_on ticks o.stream o.port
          plain.0 (plain_ticks o.port.queries) in
      let (port_is, still_on) =
        on_event_enabled connected fwrite cycles o row col counted p on sent in
      let (ps, grown, packets) =
        deliver-Packets es (on_event connected fwrite cycles o (row, col)) plain.1 still_on in
      let first = event_packet o.stream.cfg.timestamps_enabled (row, col) ticks in
      (
        first ∷ ps,
        grown
            ∙ ap (λ (x : Port). x.output ++ frames ps) port_is
            ∙ ap (λ bs. bs ++ frames ps) output
            ∙ append_assoc o.port.output _ (frames ps),
        packet_for o.stream.cfg.timestamps_enabled (row, col) ticks packets,
      )
