-- ===== src/Replay/Trace.antt =====
-- host/aer_rx_replay.c, `aer_waveform_load_file`: a trace file, a line for each sample, appended to
-- a waveform. A file is the list of its bytes; messages to stderr are left out.
pub mod Loads
pub mod Printed
pub mod Returns
mod Tests
use aer_handshake_firmware.Base.{
  ℕ, zero, suc, ◌^◌, Bool, true, false, not, ◌||◌, Option, none, some, List, [], ◌∷◌, length,
  if◌then◌else◌, ◌==◌, u32,
}
use aer_handshake_firmware.Libc.{
  fgets, Field, matched, mismatch, out_of_range, scan_unsigned, scan_word, strtoul,
}
use aer_handshake_firmware.Waveform.{Sample, Waveform}
use aer_handshake_firmware.Hal.Stdio.{until_nul}
use aer_handshake_firmware.Replay.{wf_push_raw}

-- The spaces and tabs at the start of a line.
pub skip_blanks : List ℕ → List ℕ
skip_blanks [] = []
skip_blanks (c ∷ cs) = let rest = skip_blanks cs in if c == 32 || c == 9 then rest else c ∷ cs

-- A blank line or a comment.
pub is_skipped : List ℕ → Bool
is_skipped [] = true
is_skipped (c ∷ cs) = c == 10 || c == 35

pub commas_to_spaces : List ℕ → List ℕ
commas_to_spaces [] = []
commas_to_spaces (c ∷ cs) = (if c == 44 then 32 else c) ∷ commas_to_spaces cs

-- The three fields of a line: the time, the text of DATA, and ACK.
pub record Fields : Type 0 where
  pub t : ℕ
  pub data_str : List ℕ
  pub ack_u : ℕ

-- `sscanf(p, "%llu %63s %u", ...)`; the rest of the line is ignored.
pub scan_fields : List ℕ → Field Fields
scan_fields p = elim (scan_unsigned (2 ^ 64) p) [
  | mismatch ↦ mismatch
  | out_of_range ↦ out_of_range
  | matched t p1 ↦ elim (scan_word 63 p1) [
    | mismatch ↦ mismatch
    | out_of_range ↦ out_of_range
    | matched data_str p2 ↦ elim (scan_unsigned (2 ^ 32) p2) [
      | mismatch ↦ mismatch
      | out_of_range ↦ out_of_range
      | matched ack_u p3 ↦ matched (record { t = t; data_str = data_str; ack_u = ack_u }) p3
    ]
  ]
]

-- What the loader does: it returns, or reads a number for which C defines no behaviour;
-- `unfinished` is the model's end of fuel.
pub data Loaded : Type 0 where
  returned : Bool → Waveform → Loaded
  undefined : Loaded
  unfinished : Loaded

-- Whether `realloc` gives memory for so many samples is a parameter.
module _ (realloc : ℕ → Bool) where
  -- The samples of a line that is no comment: whether the loop goes on, and `none` for a number out
  -- of range.
  pub load_fields : List ℕ → Waveform → Option (Waveform × Bool)
  load_fields p wf = elim (scan_fields p) [
    | mismatch ↦ some (wf, false)
    | out_of_range ↦ none
    | matched f rest ↦ elim (strtoul f.data_str) [
      | none ↦ some (wf, false)
      | some data_ul ↦ some (
          wf_push_raw realloc wf
            (record { t = f.t; data_word = u32 data_ul; ack = not (f.ack_u == 0) }))
    ]
  ]

  -- The body of the loop.
  pub load_line : List ℕ → Waveform → Option (Waveform × Bool)
  load_line line wf =
      let p = skip_blanks (until_nul line) in
      if is_skipped p then some (wf, true) else load_fields (commas_to_spaces p) wf

  pub load_lines : ℕ → List ℕ → Waveform → Loaded
  load_lines zero bs wf = unfinished
  load_lines (suc fuel) bs wf =
      let (line, rest) = fgets 255 bs in
      elim line [
        | [] ↦ returned true wf
        | c ∷ cs ↦ elim (load_line (c ∷ cs) wf) [
          | none ↦ undefined
          | some (wf', ok) ↦ elim ok [
            | true ↦ load_lines fuel rest wf'
            | false ↦ returned false wf'
          ]
        ]
      ]

  -- `aer_waveform_load_file` on a waveform and a file, `none` where the path is NULL or cannot be
  -- opened. A line has at least one byte.
  pub load_file : Option (List ℕ) → Waveform → Loaded
  load_file none wf = returned false wf
  load_file (some bs) wf = load_lines (suc (length bs)) bs wf
