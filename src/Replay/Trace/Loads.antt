-- ===== src/Replay/Trace/Loads.antt =====
-- The loader of host/aer_rx_replay.c gives back the samples of a printed trace.
use aer_handshake_firmware.Base.{
  ℕ, zero, suc, ◌+◌, ◌*◌, ◌^◌, ◌≤◌, ◌<◌, ◌≡◌, ◌≢◌, refl, ap, ap₂, sym, ◌∙◌, subst, Bool, Bool-cases,
  true, false, not, Option, none, some, List, [], ◌∷◌, ◌++◌, length, inl, inr, Option-cases,
  append_assoc, append-nil, length-append, All, All-map, indicator, ◌==◌, u32, u64, ltb,
  if◌then◌else◌, arith,
}
use aer_handshake_firmware.Hal.Stdio.{until_nul}
use aer_handshake_firmware.Libc.{matched, fgets, strtoul}
use aer_handshake_firmware.Libc.Reads.{Starts, fgets-line, fgets_end, strtoul-numeral}
use aer_handshake_firmware.Waveform.{Sample, Waveform, last, last-append}
use aer_handshake_firmware.Replay.{grow_raw, store_raw, wf_push_raw}
use aer_handshake_firmware.Replay.Trace.{
  skip_blanks, is_skipped, commas_to_spaces, Fields, scan_fields, returned, load_fields, load_line,
  load_lines, load_file,
}
use aer_handshake_firmware.Replay.Trace.Printed.{
  print_fields, print_trace, Plain, print_fields-Plain, print_fields-append, print_fields-Starts,
  length-print_fields-le, until_nul-Plain, commas_to_spaces-Plain, skip_blanks-Starts,
  is_skipped-Starts, scan_fields-print_fields,
}

-- The time of the last sample.
abbrev pub last_time : List Sample → ℕ
last_time ss = elim (last ss) [ none ↦ 0 | some l ↦ l.t ]

-- Times that do not go down, from a time on.
abbrev pub Later : ℕ → List Sample → Type 0
Later t [] = Unit
Later t (s ∷ ss) = (t ≤ s.t) × Later s.t ss

-- A time of 64 bits and a word of 32.
abbrev pub Fits : Sample → Type 0
Fits s = (s.t < 2 ^ 64) × (s.data_word < 2 ^ 32)

last_time-append : (ss : List Sample) (s : Sample) → last_time (ss ++ s ∷ []) ≡ s.t
last_time-append ss s = rw (last-append ss s, last_time) refl

Plain-no_newline : (c : ℕ) → Plain c → c ≢ 10
Plain-no_newline c (inl e) = λ e'. absurd (omega arith)
Plain-no_newline c (inr le) = λ e'. absurd (omega arith)

-- The sample that a printed line is read as.
abbrev reread : Sample → Sample
reread s = record { t = s.t; data_word = u32 s.data_word; ack = not (indicator s.ack == 0) }

ack_back : (b : Bool) → not (indicator b == 0) ≡ b
ack_back true = refl
ack_back false = refl

reread_lem : (s : Sample) → s.data_word < 2 ^ 32 → reread s ≡ s
reread_lem s small =
    ap₂ (λ d a. record { t = s.t; data_word = d; ack = a }) (omega arith) (ack_back s.ack)

store_raw_lem :
    (wf : Waveform) (s : Sample)
    → last_time wf.samples ≤ s.t
    → store_raw wf s ≡ (record wf { samples = wf.samples ++ s ∷ [] }, true)
unfolding store_raw
store_raw_lem wf s later = elim (Option-cases (last wf.samples)) [
  | inl e ↦ rw (e, store_raw) refl
  | inr (l, e) ↦ rw (e, in_order l e, store_raw) refl
]
  where
    in_order : (l : Sample) → last wf.samples ≡ some l → ltb s.t l.t ≡ false
    in_order l e =
        let later' : l.t ≤ s.t =
          subst (λ (o : Option Sample). elim o [ none ↦ 0 | some x ↦ x.t ] ≤ s.t) e later in
        ground (arith, later')

module _ (realloc : ℕ → Bool) (memory : (n : ℕ) → realloc n ≡ true) where
  grow_raw_lem :
      (wf : Waveform) → (cap : ℕ) × (grow_raw realloc wf ≡ (record wf { cap = cap }, true))
  unfolding grow_raw
  grow_raw_lem wf =
      let new_cap = if wf.cap == 0 then 128 else u64 (wf.cap * 2) in
      elim (Bool-cases (ltb wf.cap (u64 (length wf.samples + 1)))) [
        | inl full ↦ (new_cap, rw (full, memory new_cap, grow_raw) refl)
        | inr room ↦ (wf.cap, rw (room, grow_raw) refl)
      ]

  -- A sample that is not earlier than the last is appended.
  pub wf_push_raw_lem :
      (wf : Waveform) (s : Sample)
      → last_time wf.samples ≤ s.t
      → (wf' : Waveform) × (wf_push_raw realloc wf s ≡ (wf', true))
        × (wf'.samples ≡ wf.samples ++ s ∷ [])
  unfolding wf_push_raw
  wf_push_raw_lem wf s later =
      let (cap, grown) = grow_raw_lem wf in
      (
        record { samples = wf.samples ++ s ∷ []; cap = cap },
        rw (grown, wf_push_raw) (store_raw_lem (record wf { cap = cap }) s later),
        refl,
      )

  load_fields_lem :
      (p rest : List ℕ) (f : Fields) (v : ℕ) (wf wf' : Waveform)
      → scan_fields p ≡ matched f rest
      → strtoul f.data_str ≡ some v
      → wf_push_raw realloc wf (record { t = f.t; data_word = u32 v; ack = not (f.ack_u == 0) })
        ≡ (wf', true)
      → load_fields realloc p wf ≡ some (wf', true)
  unfolding load_fields
  load_fields_lem p rest f v wf wf' scanned number pushed =
      rw (scanned, number, load_fields) (ap some pushed)

  load_line_lem :
      (line p : List ℕ) (wf wf' : Waveform)
      → until_nul line ≡ p
      → skip_blanks p ≡ p
      → is_skipped p ≡ false
      → commas_to_spaces p ≡ p
      → load_fields realloc p wf ≡ some (wf', true)
      → load_line realloc line wf ≡ some (wf', true)
  unfolding load_line
  load_line_lem line p wf wf' whole start kept commas loaded =
      rw (whole, start, kept, commas, load_line) loaded

  load_lines_lem :
      (fuel : ℕ) (bs line rest : List ℕ) (wf wf' : Waveform)
      → fgets 255 bs ≡ (line, rest)
      → Starts line
      → load_line realloc line wf ≡ some (wf', true)
      → load_lines realloc (suc fuel) bs wf ≡ load_lines realloc fuel rest wf'
  unfolding load_lines
  load_lines_lem fuel bs [] rest wf wf' got start loaded = absurd start
  load_lines_lem fuel bs (c ∷ cs) rest wf wf' got start loaded =
      rw (got, loaded, load_lines)
        (ap (λ (r : List ℕ × List ℕ). load_lines realloc fuel r.1 wf') got)

  -- One printed line.
  load_line-print_fields :
      (s : Sample) (wf : Waveform)
      → Fits s
      → last_time wf.samples ≤ s.t
      → (wf' : Waveform) × (load_line realloc (print_fields s [] ++ 10 ∷ []) wf ≡ some (wf', true))
        × (wf'.samples ≡ wf.samples ++ s ∷ [])
  load_line-print_fields s wf fits later =
      let (wf', pushed, samples) = wf_push_raw_lem wf s later in
      let line = print_fields s [] ++ 10 ∷ [] in
      let start : Starts line =
        subst Starts (print_fields-append s (10 ∷ [])) (print_fields-Starts s (10 ∷ [])) in
      (
        wf',
        load_line_lem line line wf wf' (until_nul-Plain (print_fields s []) (print_fields-Plain s))
            (skip_blanks-Starts line start) (is_skipped-Starts line start)
            (commas_to_spaces-Plain (print_fields s []) (print_fields-Plain s))
            (load_fields_lem line (10 ∷ []) _ s.data_word wf wf'
              (ap scan_fields (sym (print_fields-append s (10 ∷ [])))
                ∙ scan_fields-print_fields s [] fits.0 fits.1)
              (strtoul-numeral 7 s.data_word (omega arith) (omega arith))
              (ap (wf_push_raw realloc wf) (reread_lem s fits.1) ∙ pushed)),
        samples,
      )

  load_lines-print_trace :
      (fuel : ℕ) (ss : List Sample) (wf : Waveform)
      → length (print_trace ss) < fuel
      → All Fits ss
      → Later (last_time wf.samples) ss
      → (wf' : Waveform) × (load_lines realloc fuel (print_trace ss) wf ≡ returned true wf')
        × (wf'.samples ≡ wf.samples ++ ss)
  unfolding load_lines
  load_lines-print_trace zero ss wf enough fits later = absurd (omega arith)
  load_lines-print_trace (suc fuel) [] wf enough fits later =
      (wf, rw (fgets_end 254, load_lines) refl, sym (append-nil wf.samples))
  load_lines-print_trace (suc fuel) (s ∷ ss) wf enough fits later =
      let (wf1, read, samples) = load_line-print_fields s wf fits.0 later.0 in
      let (wf', loaded, all) =
        load_lines-print_trace fuel ss wf1
          (omega (
            arith,
            ap length (print_fields-append s (10 ∷ print_trace ss)),
            length-append (print_fields s []) (10 ∷ print_trace ss),
          ))
          fits.1
          (subst (λ t. Later t ss) (sym (ap last_time samples ∙ last_time-append wf.samples s))
            later.1) in
      (
        wf',
        load_lines_lem fuel (print_fields s (10 ∷ print_trace ss)) (print_fields s [] ++ 10 ∷ [])
              (print_trace ss) wf wf1
              (ap (fgets 255) (print_fields-append s (10 ∷ print_trace ss))
                ∙ fgets-line 255 (print_fields s []) (print_trace ss)
                    (All-map Plain (λ c. c ≢ 10) (print_fields s []) Plain-no_newline
                      (print_fields-Plain s))
                    (omega (arith, length-print_fields-le s)))
              (subst Starts (print_fields-append s (10 ∷ [])) (print_fields-Starts s (10 ∷ [])))
              read
            ∙ loaded,
        all ∙ ap (λ ys. ys ++ ss) samples ∙ append_assoc wf.samples (s ∷ []) ss,
      )

  -- Where there is memory, the loader reads the printed trace of samples that fit their types, with
  -- times that do not go down from the last sample of the waveform on, and returns true with
  -- exactly these samples appended.
  pub load_file-print_trace :
      (ss : List Sample) (wf : Waveform)
      → All Fits ss
      → Later (last_time wf.samples) ss
      → (wf' : Waveform) × (load_file realloc (some (print_trace ss)) wf ≡ returned true wf')
        × (wf'.samples ≡ wf.samples ++ ss)
  unfolding load_file
  load_file-print_trace ss wf fits later =
      load_lines-print_trace (suc (length (print_trace ss))) ss wf (omega arith) fits later
