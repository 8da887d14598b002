-- ===== src/Replay/Trace/Returns.antt =====
-- The loop of `aer_waveform_load_file` ends.
use aer_handshake_firmware.Base.{
  ℕ, zero, suc, ◌<◌, ◌≡◌, ◌≢◌, refl, Bool, true, false, Option, none, some, List, [], ◌∷◌, length,
  Option-cases, ◌⊎◌, sym, ◌∙◌, inl, inr, arith, ap,
}
use aer_handshake_firmware.Libc.{fgets}
use aer_handshake_firmware.Libc.Reads.{length-fgets}
use aer_handshake_firmware.Waveform.{Waveform}
use aer_handshake_firmware.Replay.Trace.{
  Loaded, returned, undefined, unfinished, load_line, load_lines, load_file,
}

-- Whether the outcome is one of the code.
abbrev is_outcome : Loaded → Bool
is_outcome (returned ok wf) = true
is_outcome undefined = true
is_outcome unfinished = false

line_cases : (l : List ℕ) → (l ≡ []) ⊎ ((c : ℕ) × (cs : List ℕ) × (l ≡ c ∷ cs))
line_cases [] = inl refl
line_cases (c ∷ cs) = inr (c, cs, refl)

differs : true ≡ false → ⊥
differs e = cc

module _ (realloc : ℕ → Bool) where
  load_lines-ends :
      (fuel : ℕ) (bs : List ℕ) (wf : Waveform)
      → length bs < fuel
      → is_outcome (load_lines realloc fuel bs wf) ≡ true
  unfolding load_lines
  load_lines-ends zero bs wf h = absurd (omega arith)
  load_lines-ends (suc fuel) bs wf h = elim (line_cases (fgets 255 bs).0) [
    | inl e ↦ rw (e, is_outcome, load_lines) refl
    | inr (c, cs, e) ↦
        let shorter : length (fgets 255 bs).1 < fuel =
          omega (arith, length-fgets 255 bs, ap length e) in
        elim (Option-cases (load_line realloc (c ∷ cs) wf)) [
          | inl bad ↦ rw (e, bad, is_outcome, load_lines) refl
          | inr ((wf', true), read) ↦
              rw (e, read, is_outcome, load_lines)
                (load_lines-ends fuel (fgets 255 bs).1 wf' shorter)
          | inr ((wf', false), read) ↦ rw (e, read, is_outcome, load_lines) refl
        ]
  ]

  -- On every file and every waveform the loader returns, or has read a number that C leaves
  -- undefined: its loop has as many rounds as it needs.
  pub load_file-ends :
      (file : Option (List ℕ)) (wf : Waveform) → load_file realloc file wf ≢ unfinished
  unfolding load_file
  load_file-ends none wf e = differs (ap is_outcome e)
  load_file-ends (some bs) wf e =
      differs (sym (load_lines-ends (suc (length bs)) bs wf (omega arith)) ∙ ap is_outcome e)
