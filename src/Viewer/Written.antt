-- ===== src/Viewer/Written.antt =====
-- What the firmware writes through `hal_stream_write`, and the viewer reads.
use aer_handshake_firmware.Base.{
  ℕ, ◌≡◌, ap, sym, ◌∙◌, Bool, true, List, [], ◌∷◌, ◌++◌, length, All, u16, append-nil, append_assoc,
}
use aer_handshake_firmware.Hal.Stdio.{Port, Plain, stream_hdr, hal_stream_write}
use aer_handshake_firmware.Hal.Stdio.Writes.{Plain-append, hal_stream_write_lem}
use aer_handshake_firmware.Viewer.{Framed, packets}
use aer_handshake_firmware.Viewer.Pieces.{frame, frames, Writable, joined, nothing, packets-joined}

module _ (connected : ℕ → Bool) (fwrite : ℕ → List ℕ → List ℕ × ℕ) where
  -- One call of `hal_stream_write` for each packet.
  abbrev pub write_all : List Framed → Port → Port
  write_all [] port = port
  write_all (p ∷ ps) port =
      write_all ps (hal_stream_write connected fwrite p.ptype p.payload port).0

  module _ (converts : Bool) (all : (n : ℕ) → connected n ≡ true)
      (whole : (n : ℕ) (bs : List ℕ) → Plain converts bs → fwrite n bs ≡ (bs, length bs)) where
    pub write_all-frames :
        (ps : List Framed) (port : Port)
        → All (λ p. Plain converts (frame p)) ps
        → (write_all ps port).output ≡ port.output ++ frames ps
    write_all-frames [] port plain = sym (append-nil port.output)
    write_all-frames (p ∷ ps) port plain =
        let (plain_hdr, plain_payload) =
          Plain-append converts (stream_hdr p.ptype (u16 (length p.payload))) p.payload plain.0 in
        let (port', written, output) =
          hal_stream_write_lem connected fwrite converts all whole p.ptype p.payload port plain_hdr
            plain_payload in
        ap (λ (r : Port × Bool). (write_all ps r.0).output) written
        ∙ write_all-frames ps port' plain.1
        ∙ ap (λ bs. bs ++ frames ps) output
        ∙ append_assoc port.output _ (frames ps)

    -- While the host is connected and `fwrite` writes all that it is given, on a stdout that
    -- converts line feeds, or does not, and passes on the other bytes: where the firmware writes
    -- packets, without a line feed among their bytes if stdout converts it, of one-byte types and
    -- less than 2^16 bytes each by `hal_stream_write`, on an empty output, and the viewer, which
    -- starts with an empty buffer, reads the output in pieces of any size, and then, for each
    -- packet, once more without getting a byte, it returns exactly these packets, in order.
    pub packets-write_all :
        (ps : List Framed) (port : Port) (pieces : List (List ℕ))
        → port.output ≡ []
        → All Writable ps
        → All (λ p. Plain converts (frame p)) ps
        → joined pieces ≡ (write_all ps port).output
        → packets [] (pieces ++ nothing (length ps)) ≡ ps
    packets-write_all ps port pieces fresh w plain read =
        packets-joined ps pieces w
          (read ∙ write_all-frames ps port plain ∙ ap (λ bs. bs ++ frames ps) fresh)
