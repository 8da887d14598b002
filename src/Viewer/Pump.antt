-- ===== src/Viewer/Pump.antt =====
-- scripts/view_events.py: the pump of the main loop, which reads packets for a while and notes when
-- each pixel was last seen. The values of `time.time()` are of any type `T`.
pub mod Buffered
use aer_handshake_firmware.Base.{
  ℕ, zero, suc, ◌+◌, ◌≡◌, ◌≢◌, refl, ap, sym, ◌∙◌, Bool, true, false, ◌&&◌, Option, none, some,
  List, [], ◌∷◌, ◌++◌, All, if◌then◌else◌, ltb, ◌==◌, arith,
}
use aer_handshake_firmware.Burst.{Event}
use aer_handshake_firmware.Viewer.{Framed, read_round}
use aer_handshake_firmware.Viewer.Events.{extract_on_events}
use aer_handshake_firmware.Viewer.Pieces.{frame, frames, Writable}

-- `last_seen`, with `none` for -1.0.
abbrev pub Grid : Type 0 → Type 0
Grid T = ℕ → ℕ → Option T

-- What a round of the pump reads: whether its time is up, how many bytes are waiting, what the
-- reads of `read_packet` give, and the time after it.
pub record Turn (T : Type 0) : Type 0 where
  pub late : Bool
  pub in_waiting : ℕ
  pub reads : List (List ℕ)
  pub now : T

-- `read_packet`, on what it reads; `none` where the observation ends.
pub read_packet : List ℕ → List (List ℕ) → Option (List ℕ × Framed)
read_packet buf [] = none
read_packet buf (piece ∷ pieces) =
    let (buf', packet) = read_round buf piece in
    elim packet [ none ↦ read_packet buf' pieces | some p ↦ some (buf', p) ]

module _ {T : Type 0} where
  pub mark : T → Grid T → Event → Grid T
  mark now g (row, col) =
      if ltb row 32 && ltb col 32
      then (λ r c. if r == row && c == col then some now else g r c)
      else g

  abbrev pub mark_all : T → Grid T → List Event → Grid T
  mark_all now g [] = g
  mark_all now g (e ∷ es) = mark_all now (mark now g e) es

  -- What the pump does with a packet: those that are not of events are passed over.
  pub show_packet : T → Grid T → Framed → Grid T
  show_packet now g p = if p.ptype == 2 then mark_all now g (extract_on_events p.payload) else g

  -- The inner `while True`, with the buffer of the reader.
  pub pump : List (Turn T) → List ℕ → Grid T → Option (List ℕ × Grid T)
  pump [] buf g = none
  pump (t ∷ ts) buf g = elim t.late [
    | true ↦ some (buf, g)
    | false ↦ elim (t.in_waiting == 0) [
      | true ↦ some (buf, g)
      | false ↦ elim (read_packet buf t.reads) [
        | none ↦ none
        | some (buf', p) ↦ pump ts buf' (show_packet t.now g p)
      ]
    ]
  ]
