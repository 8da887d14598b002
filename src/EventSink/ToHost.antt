-- ===== src/EventSink/ToHost.antt =====
-- The host reads the events that the sink gets.
use aer_handshake_firmware.Base.{
  ℕ, ◌+◌, ◌^◌, ◌<◌, ◌≡◌, refl, ap, sym, ◌∙◌, Bool, true, none, some, List, [], ◌∷◌, ◌++◌,
  append-nil, append_assoc, if◌then◌else◌, u32, All, length, Bool,
}
use aer_handshake_firmware.Burst.{Event}
use aer_handshake_firmware.Hal.Stdio.{Port, Plain, bytes_u32}
use aer_handshake_firmware.UsbStream.{Stream, flag_on, send_on_event}
use aer_handshake_firmware.UsbStream.Host.{PlainEvent, Seen, read_event, send_event-read_event}
use aer_handshake_firmware.Firmware.{deliver}
use aer_handshake_firmware.EventSink.{Outlet, on_event}

-- The host reads these events, and nothing more, from the bytes.
abbrev pub Reads : List ℕ → List Event → Type 0
Reads bytes [] = bytes ≡ []
Reads bytes (e ∷ es) =
    (seen : Seen) × (rest : List ℕ) × (read_event bytes ≡ some (seen, rest))
    × (seen.flags ≡ flag_on)
    × (seen.row ≡ e.0)
    × (seen.col ≡ e.1)
    × Reads rest es

module _ (connected : ℕ → Bool) (fwrite : ℕ → List ℕ → List ℕ × ℕ) (cycles : ℕ → ℕ) where
  pub on_event_enabled :
      (o : Outlet) (row col : ℕ) (stream : Stream) (port : Port)
      → o.sink.enabled ≡ true
      → send_on_event connected fwrite row col (cycles o.port.queries) (o.stream, o.port)
        ≡ ((stream, port), true)
      → (on_event connected fwrite cycles o (row, col)).port ≡ port
        × (on_event connected fwrite cycles o (row, col)).sink.enabled ≡ true
  unfolding on_event
  on_event_enabled o row col stream port on e = (rw on (ap (λ x. x.0.1) e), rw on refl)

  module _ (converts : Bool) (all : (n : ℕ) → connected n ≡ true)
      (whole : (n : ℕ) (bs : List ℕ) → Plain converts bs → fwrite n bs ≡ (bs, length bs))
      (plain_ticks : (n : ℕ) → Plain converts (bytes_u32 (cycles n)))
      (in_word : (n : ℕ) → cycles n < 2 ^ 32) where
    -- An enabled sink, while the host is connected, `fwrite` passes on what is plain and the cycle
    -- counter is a 32-bit number: for any plain events the output grows by bytes from which the
    -- host reads exactly these events, in order.
    pub deliver-Reads :
        (es : List Event) (o : Outlet)
        → All (PlainEvent converts) es
        → o.sink.enabled ≡ true
        → (bytes : List ℕ) × ((deliver (on_event connected fwrite cycles) o es).port.output
            ≡ o.port.output ++ bytes)
          × Reads bytes es
    deliver-Reads [] o plain on = ([], sym (append-nil o.port.output), refl)
    deliver-Reads ((row, col) ∷ es) o plain on =
        let send =
          send_event-read_event connected fwrite converts all whole row col flag_on
            (cycles o.port.queries) o.stream o.port in
        let counted : Stream = record o.stream {
          stats = record o.stream.stats { events_sent = u32 (o.stream.stats.events_sent + 1) };
        } in
        let (p0, _, sent0, _, _) =
          send [] (in_word o.port.queries) plain.0 (plain_ticks o.port.queries) in
        let (more, grown, reads) =
          deliver-Reads es (on_event connected fwrite cycles o (row, col)) plain.1
            (on_event_enabled o row col counted p0 on sent0).1 in
        let (p, packet, sent, output, read) =
          send more (in_word o.port.queries) plain.0 (plain_ticks o.port.queries) in
        (
          packet ++ more,
          grown
              ∙ ap (λ (x : Port). x.output ++ more) (on_event_enabled o row col counted p on sent).0
              ∙ ap (λ bs. bs ++ more) output
              ∙ append_assoc o.port.output packet more,
          (
            record {
              flags = flag_on;
              row = row;
              col = col;
              ticks =
                  if o.stream.cfg.timestamps_enabled then some (cycles o.port.queries) else none;
            },
            more,
            read,
            refl,
            refl,
            refl,
            reads,
          ),
        )
