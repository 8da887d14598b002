-- ===== src/Hal/Stdio/Writes.antt =====
-- Framed writes while the host is connected and libc writes all that it is given.
use aer_handshake_firmware.Base.{
  ℕ, suc, ◌≡◌, refl, ap, Bool, true, false, ◌||◌, List, [], ◌∷◌, ◌++◌, length, ◌==◌, u16,
  append_assoc, arith,
}
use aer_handshake_firmware.Hal.Stdio.{
  Port, Plain, has_lf, stream_hdr, write_bytes_locked, hal_stream_write, ask,
}

pub has_lf-append : (xs ys : List ℕ) → has_lf (xs ++ ys) ≡ (has_lf xs || has_lf ys)
has_lf-append [] ys = refl
has_lf-append (x ∷ xs) ys = ground (arith, has_lf-append xs ys)

pub Plain-append :
    (converts : Bool) (xs ys : List ℕ)
    → Plain converts (xs ++ ys)
    → Plain converts xs × Plain converts ys
Plain-append converts xs ys plain =
    (ground (arith, has_lf-append xs ys), ground (arith, has_lf-append xs ys))

-- While the host is connected and `fwrite` writes all that it is given, and passes on unchanged
-- what is plain.
module _ (connected : ℕ → Bool) (fwrite : ℕ → List ℕ → List ℕ × ℕ) (converts : Bool)
    (all : (n : ℕ) → connected n ≡ true)
    (whole : (n : ℕ) (bs : List ℕ) → Plain converts bs → fwrite n bs ≡ (bs, length bs)) where
  abbrev pub wrote : List ℕ → Port → Port
  wrote buf p = record (ask p) { output = p.output ++ buf; writes = suc p.writes }

  write_bytes_locked_lem :
      (buf : List ℕ) (p : Port)
      → Plain converts buf
      → write_bytes_locked connected fwrite buf p ≡ (wrote buf p, true)
  unfolding write_bytes_locked
  write_bytes_locked_lem buf p plain =
      rw (all p.queries, whole p.writes buf plain, write_bytes_locked)
        (ap (λ b. (wrote buf p, b)) (ground arith))

  pub hal_stream_write_lem :
      (type : ℕ) (payload : List ℕ) (p : Port)
      → Plain converts (stream_hdr type (u16 (length payload)))
      → Plain converts payload
      → (p' : Port) × (hal_stream_write connected fwrite type payload p ≡ (p', true))
        × (p'.output ≡ p.output ++ (stream_hdr type (u16 (length payload)) ++ payload))
  unfolding hal_stream_write
  hal_stream_write_lem type [] p plain_hdr plain =
      let hdr = stream_hdr type (u16 0) in
      (
        wrote hdr (ask p),
        rw (all p.queries, write_bytes_locked_lem hdr (ask p) plain_hdr, hal_stream_write) refl,
        refl,
      )
  hal_stream_write_lem type (b ∷ bs) p plain_hdr plain =
      let hdr = stream_hdr type (u16 (length (b ∷ bs))) in
      let p1 = wrote hdr (ask p) in
      let some_bytes : (suc (length bs) == 0) ≡ false = ground arith in
      (
        wrote (b ∷ bs) p1,
        rw
            (
              all p.queries,
              write_bytes_locked_lem hdr (ask p) plain_hdr,
              some_bytes,
              hal_stream_write,
            )
            (write_bytes_locked_lem (b ∷ bs) p1 plain),
        append_assoc p.output hdr (b ∷ bs),
      )
