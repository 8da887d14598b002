-- ===== src/Hal/Stdio/Converted.antt =====
-- Framed writes on a stdout that puts a carriage return before each line feed, as the SDK
-- documents.
use aer_handshake_firmware.Base.{
  ℕ, suc, ◌≡◌, ap, Bool, true, false, List, [], ◌∷◌, ◌++◌, length, if◌then◌else◌, ◌==◌, u16,
  append_assoc, arith,
}
use aer_handshake_firmware.Hal.Stdio.{Port, ask, stream_hdr, write_bytes_locked, hal_stream_write}

-- A carriage return before each line feed.
abbrev pub crlf : List ℕ → List ℕ
crlf [] = []
crlf (b ∷ bs) = let rest = crlf bs in if b == 10 then 13 ∷ (10 ∷ rest) else b ∷ rest

module _ (connected : ℕ → Bool) (fwrite : ℕ → List ℕ → List ℕ × ℕ)
    (all : (n : ℕ) → connected n ≡ true)
    (converted : (n : ℕ) (bs : List ℕ) → fwrite n bs ≡ (crlf bs, length bs)) where
  abbrev wrote : List ℕ → Port → Port
  wrote buf p = record (ask p) { output = p.output ++ crlf buf; writes = suc p.writes }

  write_bytes_locked-crlf :
      (buf : List ℕ) (p : Port) → write_bytes_locked connected fwrite buf p ≡ (wrote buf p, true)
  unfolding write_bytes_locked
  write_bytes_locked-crlf buf p =
      rw (all p.queries, converted p.writes buf, write_bytes_locked)
        (ap (λ b. (wrote buf p, b)) (ground arith))

  -- The host gets the header and the payload with the carriage returns, and the count of bytes does
  -- not tell.
  pub hal_stream_write-crlf :
      (type b : ℕ) (bs : List ℕ) (p : Port)
      → (p' : Port) × (hal_stream_write connected fwrite type (b ∷ bs) p ≡ (p', true))
        × (p'.output
            ≡ p.output ++ (crlf (stream_hdr type (u16 (length (b ∷ bs)))) ++ crlf (b ∷ bs)))
  unfolding hal_stream_write
  hal_stream_write-crlf type b bs p =
      let hdr = stream_hdr type (u16 (length (b ∷ bs))) in
      let p1 = wrote hdr (ask p) in
      let some_bytes : (suc (length bs) == 0) ≡ false = ground arith in
      (
        wrote (b ∷ bs) p1,
        rw (all p.queries, write_bytes_locked-crlf hdr (ask p), some_bytes, hal_stream_write)
            (write_bytes_locked-crlf (b ∷ bs) p1),
        append_assoc p.output (crlf hdr) (crlf (b ∷ bs)),
      )
