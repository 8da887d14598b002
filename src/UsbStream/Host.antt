-- ===== src/UsbStream/Host.antt =====
-- The host's side of the event stream: the packet and record format that the viewers in scripts
-- read, as a parser, and that the firmware's packets parse to its events.
use aer_handshake_firmware.Base.{
  ℕ, ◌+◌, ◌*◌, ◌^◌, ◌<◌, ◌≡◌, refl, ap, Bool, true, false, Option, none, some, List, [], ◌∷◌, ◌++◌,
  length, if◌then◌else◌, u16, u32, arith,
}
use aer_handshake_firmware.Hal.Stdio.{Port, Plain, bytes_u32, stream_hdr, event_bin, ask}
use aer_handshake_firmware.Hal.Stdio.Packets.{strip}
use aer_handshake_firmware.Hal.Stdio.Writes.{hal_stream_write_lem}
use aer_handshake_firmware.UsbStream.{Stream, event_record, send_event}

-- An event as the host sees it: flags, row, column, and the ticks where it carries them.
pub record Seen : Type 0 where
  pub flags : ℕ
  pub row : ℕ
  pub col : ℕ
  pub ticks : Option ℕ

abbrev read_ticks : List ℕ → Option (Seen × List ℕ)
read_ticks (f ∷ (r ∷ (c ∷ (a ∷ (b ∷ (d ∷ (e ∷ rest))))))) = some (
  record { flags = f; row = r; col = c; ticks = some (a + 256 * b + 65536 * d + 16777216 * e) },
  rest,
)
read_ticks _ = none

abbrev read_nots : List ℕ → Option (Seen × List ℕ)
read_nots (f ∷ (r ∷ (c ∷ rest))) = some (record { flags = f; row = r; col = c; ticks = none }, rest)
read_nots _ = none

-- A packet with one event record, and the bytes after it: the magic, version 1, type 2, the length
-- of the record and its type, then its fields.
abbrev pub read_event : List ℕ → Option (Seen × List ℕ)
read_event bs = elim (strip (65 ∷ 69 ∷ 82 ∷ 83 ∷ 1 ∷ 2 ∷ 8 ∷ 0 ∷ 2 ∷ []) bs) [
  | some rest ↦ read_ticks rest
  | none ↦ elim (strip (65 ∷ 69 ∷ 82 ∷ 83 ∷ 1 ∷ 2 ∷ 4 ∷ 0 ∷ 1 ∷ []) bs) [
    | some rest ↦ read_nots rest
    | none ↦ none
  ]
]

-- The bytes of the packet for an event.
abbrev pub packet : Bool → ℕ → ℕ → ℕ → ℕ → List ℕ
packet timestamps flags row col ticks =
    let record_bytes = event_record timestamps flags row col ticks in
    stream_hdr event_bin (u16 (length record_bytes)) ++ record_bytes

abbrev seen : Bool → ℕ → ℕ → ℕ → ℕ → Seen
seen timestamps flags row col ticks = record {
  flags = flags;
  row = row;
  col = col;
  ticks = if timestamps then some ticks else none;
}

read_event-packet :
    (timestamps : Bool) (flags row col ticks : ℕ) (rest : List ℕ)
    → ticks < 2 ^ 32
    → read_event (packet timestamps flags row col ticks ++ rest)
      ≡ some (seen timestamps flags row col ticks, rest)
unfolding event_record
read_event-packet true flags row col ticks rest h =
    ap (λ t. some (record { flags = flags; row = row; col = col; ticks = some t }, rest))
      (omega arith)
read_event-packet false flags row col ticks rest h = refl

-- An event whose row and column are plain.
abbrev pub PlainEvent : Bool → ℕ × ℕ → Type 0
PlainEvent converts (row, col) = Plain converts (row ∷ col ∷ [])

-- The bytes of a packet for an event are plain where its flags, row, column and ticks are.
event_record-Plain :
    (converts timestamps : Bool) (flags row col ticks : ℕ)
    → Plain converts (flags ∷ row ∷ col ∷ [])
    → Plain converts (bytes_u32 ticks)
    → Plain converts
        (stream_hdr event_bin (u16 (length (event_record timestamps flags row col ticks))))
      × Plain converts (event_record timestamps flags row col ticks)
unfolding event_record
event_record-Plain true true flags row col ticks plain plain_ticks = (refl, ground arith)
event_record-Plain true false flags row col ticks plain plain_ticks = (refl, ground arith)
event_record-Plain false timestamps flags row col ticks plain plain_ticks = (refl, refl)

module _ (connected : ℕ → Bool) (fwrite : ℕ → List ℕ → List ℕ × ℕ) (converts : Bool)
    (all : (n : ℕ) → connected n ≡ true)
    (whole : (n : ℕ) (bs : List ℕ) → Plain converts bs → fwrite n bs ≡ (bs, length bs)) where
  -- The packet that an event gives.
  pub send_event_lem :
      (row col flags ticks : ℕ) (s : Stream) (p : Port)
      → Plain converts (flags ∷ row ∷ col ∷ [])
      → Plain converts (bytes_u32 ticks)
      → (p' : Port) × (send_event connected fwrite row col flags ticks (s, p) ≡ (
        (record s { stats = record s.stats { events_sent = u32 (s.stats.events_sent + 1) } }, p'),
        true,
      ))
        × (p'.output ≡ p.output ++ packet s.cfg.timestamps_enabled flags row col ticks)
  unfolding send_event
  send_event_lem row col flags ticks s p plain plain_ticks =
      let ts = s.cfg.timestamps_enabled in
      let (plain_hdr, plain_record) =
        event_record-Plain converts ts flags row col ticks plain plain_ticks in
      let (p', written, output) =
        hal_stream_write_lem connected fwrite converts all whole event_bin
          (event_record s.cfg.timestamps_enabled flags row col ticks) (ask p) plain_hdr
          plain_record in
      (p', rw (all p.queries, written, send_event) refl, output)

  -- While the host is connected and `fwrite` passes on what is plain, sending an event whose row,
  -- column, flags and ticks are plain succeeds, counts it as sent, and appends to the output the
  -- bytes of one packet, from which the host reads back the event, whatever follows: flags, row and
  -- column, and the ticks where they are enabled.
  pub send_event-read_event :
      (row col flags ticks : ℕ) (s : Stream) (p : Port) (rest : List ℕ)
      → ticks < 2 ^ 32
      → Plain converts (flags ∷ row ∷ col ∷ [])
      → Plain converts (bytes_u32 ticks)
      → (p' : Port) × (bytes : List ℕ) × (send_event connected fwrite row col flags ticks (s, p) ≡ (
        (record s { stats = record s.stats { events_sent = u32 (s.stats.events_sent + 1) } }, p'),
        true,
      ))
        × (p'.output ≡ p.output ++ bytes)
        × (read_event (bytes ++ rest)
            ≡ some (
              record {
                flags = flags;
                row = row;
                col = col;
                ticks = if s.cfg.timestamps_enabled then some ticks else none;
              },
              rest,
            ))
  send_event-read_event row col flags ticks s p rest h plain plain_ticks =
      let ts = s.cfg.timestamps_enabled in
      let (p', sent, output) = send_event_lem row col flags ticks s p plain plain_ticks in
      (
        p',
        packet ts flags row col ticks,
        sent,
        output,
        read_event-packet ts flags row col ticks rest h,
      )
