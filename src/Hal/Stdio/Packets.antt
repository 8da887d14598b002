-- ===== src/Hal/Stdio/Packets.antt =====
-- The host's side of the packets of pico_aer_rx/hal/hal_stdio.c: a reader of one packet, and that
-- it reads what `hal_stream_write` writes.
use aer_handshake_firmware.Base.{
  ℕ, zero, suc, ◌+◌, ◌*◌, ◌/◌, ◌%◌, ◌^◌, ◌<◌, ◌≡◌, refl, ap, ◌∙◌, Bool, true, Option, none, some,
  List, [], ◌∷◌, ◌++◌, length, take, if◌then◌else◌, ◌==◌, leb, u16, length-append, arith,
}
use aer_handshake_firmware.Hal.Stdio.{Port, Plain, stream_hdr, hal_stream_write}
use aer_handshake_firmware.Hal.Stdio.Writes.{hal_stream_write_lem}

-- What follows a prefix.
abbrev pub strip : List ℕ → List ℕ → Option (List ℕ)
strip [] bs = some bs
strip (x ∷ xs) [] = none
strip (x ∷ xs) (b ∷ bs) = let rest = strip xs bs in if x == b then rest else none

abbrev pub drop : ℕ → List ℕ → List ℕ
drop zero xs = xs
drop (suc n) [] = []
drop (suc n) (x ∷ xs) = drop n xs

-- A packet as the host sees it.
pub record Packet : Type 0 where
  pub type : ℕ
  pub payload : List ℕ

abbrev read_payload : ℕ → ℕ → List ℕ → Option (Packet × List ℕ)
read_payload type len bs =
    if leb len (length bs)
    then some (record { type = type; payload = take len bs }, drop len bs)
    else none

abbrev read_fields : List ℕ → Option (Packet × List ℕ)
read_fields (type ∷ (lo ∷ (hi ∷ bs))) = read_payload type (lo + 256 * hi) bs
read_fields _ = none

-- The magic, version 1, the type, the length in two bytes, the payload; and the bytes after it.
abbrev pub read_packet : List ℕ → Option (Packet × List ℕ)
read_packet bs = elim (strip (65 ∷ 69 ∷ 82 ∷ 83 ∷ 1 ∷ []) bs) [
  | none ↦ none
  | some fields ↦ read_fields fields
]

pub take-append : (xs ys : List ℕ) → take (length xs) (xs ++ ys) ≡ xs
take-append [] [] = refl
take-append [] (y ∷ ys) = refl
take-append (x ∷ xs) ys = ap (λ r. x ∷ r) (take-append xs ys)

pub drop-append : (xs ys : List ℕ) → drop (length xs) (xs ++ ys) ≡ ys
drop-append [] ys = refl
drop-append (x ∷ xs) ys = drop-append xs ys

read_payload-append :
    (type len : ℕ) (payload rest : List ℕ)
    → len ≡ length payload
    → read_payload type len (payload ++ rest)
      ≡ some (record { type = type; payload = payload }, rest)
read_payload-append type len payload rest e =
    rw (e, enough, take-append payload rest, drop-append payload rest) refl
  where
    enough : leb (length payload) (length (payload ++ rest)) ≡ true
    enough = rw (length-append payload rest) (ground arith)

-- The bytes of a packet read back.
read_packet-append :
    (type : ℕ) (payload rest : List ℕ)
    → type < 2 ^ 8
    → length payload < 2 ^ 16
    → read_packet ((stream_hdr type (u16 (length payload)) ++ payload) ++ rest)
      ≡ some (record { type = type; payload = payload }, rest)
read_packet-append type payload rest byte short =
    ap
      (λ t.
        read_payload t
          (length payload % 2 ^ 16 % 2 ^ 8 + 256 * (length payload % 2 ^ 16 / 2 ^ 8 % 2 ^ 8))
          (payload ++ rest))
      (omega arith)
    ∙ read_payload-append type _ payload rest (omega arith)

module _ (connected : ℕ → Bool) (fwrite : ℕ → List ℕ → List ℕ × ℕ) (converts : Bool)
    (all : (n : ℕ) → connected n ≡ true)
    (whole : (n : ℕ) (bs : List ℕ) → Plain converts bs → fwrite n bs ≡ (bs, length bs)) where
  -- While the host is connected and `fwrite` passes on what is plain, `hal_stream_write` of a plain
  -- payload, with a plain header, of less than 2^16 bytes and with a type of one byte, succeeds and
  -- appends to the output bytes from which the host reads back exactly the type and the payload,
  -- whatever follows.
  pub hal_stream_write-read_packet :
      (type : ℕ) (payload : List ℕ) (p : Port) (rest : List ℕ)
      → type < 2 ^ 8
      → length payload < 2 ^ 16
      → Plain converts (stream_hdr type (u16 (length payload)))
      → Plain converts payload
      → (p' : Port) × (bytes : List ℕ) × (hal_stream_write connected fwrite type payload p
          ≡ (p', true))
        × (p'.output ≡ p.output ++ bytes)
        × (read_packet (bytes ++ rest) ≡ some (record { type = type; payload = payload }, rest))
  hal_stream_write-read_packet type payload p rest byte short plain_hdr plain =
      let (p', written, output) =
        hal_stream_write_lem connected fwrite converts all whole type payload p plain_hdr plain in
      (
        p',
        stream_hdr type (u16 (length payload)) ++ payload,
        written,
        output,
        read_packet-append type payload rest byte short,
      )
