-- ===== src/Hal/Stdio/Log.antt =====
-- pico_aer_rx/hal/hal_stdio.c, the log: lines above the threshold are dropped, the others are sent
-- as packets or printed.
pub mod Lines
use aer_handshake_firmware.Base.{
  ℕ, ◌+◌, ◌/◌, ◌^◌, ◌≤◌, ◌<◌, ◌≡◌, ◌≢◌, refl, ap, sym, Bool, true, false, Option, none, some, List,
  [], ◌∷◌, ◌++◌, suc, length, take, if◌then◌else◌, ◌==◌, leb, ltb, u16, u32, length-append, arith,
  append_assoc, Bool-cases, inl, inr, All,
}
use aer_handshake_firmware.Base.Decimal.{numeral}
use aer_handshake_firmware.Hal.Stdio.{Port, log_text, until_nul, hal_stream_write, ask, stream_hdr}

-- `hal_log_level_t`
abbrev pub log_error : ℕ
log_error = 0

abbrev pub log_warn : ℕ
log_warn = 1

abbrev pub log_info : ℕ
log_info = 2

abbrev pub log_debug : ℕ
log_debug = 3

abbrev pub log_trace : ℕ
log_trace = 4

-- `g_log_level` and `g_packetized`, with what they start with.
pub record Log : Type 0 where
  pub level : ℕ
  pub packetized : Bool

abbrev pub log_at_boot : Log
log_at_boot = record { level = log_info; packetized = true }

pub set_level : ℕ → Log → Log
set_level level log = record log { level = level }

unfoldable pub set_packetized : Bool → Log → Log
set_packetized enabled log = record log { packetized = enabled }

-- `lvl_tag`: "E", "W", "I", "D", "T", and "?" for any other level.
abbrev pub lvl_tag : ℕ → ℕ
lvl_tag level =
    if level == log_error
    then 69
    else if level == log_warn
    then 87
    else if level == log_info
    then 73
    else if level == log_debug
    then 68
    else if level == log_trace
    then 84
    else 63

-- `%lu`, of a number with at most 10 digits.
abbrev pub decimal : ℕ → List ℕ
decimal n = numeral 10 10 n

-- `msg`, from the text that `vsnprintf` has been asked for: a text that does not fit in 255 bytes
-- keeps 254 and ends with a period.
pub message : List ℕ → List ℕ
message formatted =
    until_nul (if leb 256 (length formatted) then take 254 formatted ++ 46 ∷ [] else formatted)

-- "[%lu][%s] %s"
pub log_line : ℕ → ℕ → List ℕ → List ℕ
log_line t_ms level msg = 91 ∷ decimal t_ms ++ 93 ∷ 91 ∷ lvl_tag level ∷ 93 ∷ 32 ∷ msg

-- What of a line the packet has: a line that does not fit in 319 bytes loses the rest.
abbrev pub clamp : List ℕ → List ℕ
clamp line = if leb 320 (length line) then until_nul (take 319 line) else line

-- `printf n text` is what the host gets where libc's `printf` writes `text` as the n-th write, and
-- `encodes line` whether `snprintf` can form the line.
module _ (connected : ℕ → Bool) (fwrite : ℕ → List ℕ → List ℕ × ℕ) (printf : ℕ → List ℕ → List ℕ)
    (encodes : List ℕ → Bool) where
  -- The packetized branch of `hal_vlogf`.
  pub log_packet : List ℕ → Port → Port
  log_packet line p =
      if encodes line then (hal_stream_write connected fwrite log_text (clamp line) p).0 else p

  -- The plain branch.
  pub log_plain : List ℕ → Port → Port
  log_plain line p =
      let text = line ++ 10 ∷ [] in
      if connected p.queries
      then record (ask p) { output = p.output ++ printf p.writes text; writes = suc p.writes }
      else ask p

  -- `hal_vlogf`, from the text that `vsnprintf` forms, `none` where it fails, at a time in
  -- microseconds.
  pub hal_vlogf : Log → ℕ → Option (List ℕ) → ℕ → Port → Port
  hal_vlogf log level none time_us p = p
  hal_vlogf log level (some formatted) time_us p =
      let line = log_line (u32 (time_us / 1000)) level (message formatted) in
      if ltb log.level level
      then p
      else if log.packetized
      then log_packet line p
      else log_plain line p
