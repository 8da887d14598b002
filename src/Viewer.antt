-- ===== src/Viewer.antt =====
-- scripts/print_events.py, the reader of packets: what `FramedStreamReader.read_packet` takes from
-- the bytes of the serial port, which come in pieces of any size.
pub mod Pieces
pub mod Events
pub mod Listen
pub mod Pump
pub mod Draw
pub mod Written
mod Tests
use aer_handshake_firmware.Base.{
  ℕ, ◌+◌, ◌-◌, ◌*◌, Bool, true, false, Option, none, some, List, [], ◌∷◌, ◌++◌, length, take,
  if◌then◌else◌, ltb, leb,
}
use aer_handshake_firmware.Hal.Stdio.Packets.{strip, drop}

-- `MAGIC`
abbrev pub magic : List ℕ
magic = 65 ∷ 69 ∷ 82 ∷ 83 ∷ []

-- What `read_packet` returns.
pub record Framed : Type 0 where
  pub ver : ℕ
  pub ptype : ℕ
  pub payload : List ℕ

-- The buffer from the first magic on, `none` where there is none.
pub from_magic : List ℕ → Option (List ℕ)
from_magic [] = none
from_magic (b ∷ bs) =
    let later = from_magic bs in
    elim (strip magic (b ∷ bs)) [ some _ ↦ some (b ∷ bs) | none ↦ later ]

-- The last three bytes, in case the magic spans two reads.
pub keep_last : List ℕ → List ℕ
keep_last buf = if ltb 3 (length buf) then drop (length buf - 3) buf else buf

-- The header and the payload after the magic; `none` where they are not complete.
pub take_payload : ℕ → ℕ → ℕ → List ℕ → Option (Framed × List ℕ)
take_payload ver ptype plen bs =
    if ltb (length bs) plen
    then none
    else some (record { ver = ver; ptype = ptype; payload = take plen bs }, drop plen bs)

pub take_packet : List ℕ → Option (Framed × List ℕ)
take_packet (_ ∷ (_ ∷ (_ ∷ (_ ∷ (ver ∷ (ptype ∷ (lo ∷ (hi ∷ bs)))))))) =
    take_payload ver ptype (lo + 256 * hi) bs
take_packet _ = none

-- A round of the loop, on what is read: the buffer after it, and the packet that it returns.
pub read_round : List ℕ → List ℕ → List ℕ × Option Framed
read_round buf piece = elim (from_magic (buf ++ piece)) [
  | none ↦ (keep_last (buf ++ piece), none)
  | some buf' ↦ elim (take_packet buf') [
    | none ↦ (buf', none)
    | some (packet, rest) ↦ (rest, some packet)
  ]
]

-- The packets that the calls of `read_packet` return on the pieces that are read.
pub packets : List ℕ → List (List ℕ) → List Framed
packets buf [] = []
packets buf (piece ∷ pieces) =
    let (buf', packet) = read_round buf piece in
    elim packet [ none ↦ packets buf' pieces | some p ↦ p ∷ packets buf' pieces ]
