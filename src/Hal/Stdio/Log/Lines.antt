-- ===== src/Hal/Stdio/Log/Lines.antt =====
-- pico_aer_rx/hal/hal_stdio.c, `hal_vlogf` in packets: the line that the host reads.
use aer_handshake_firmware.Base.{
  ℕ, zero, suc, ◌/◌, ◌^◌, ◌≤◌, ◌<◌, ◌≡◌, refl, ap, sym, subst, Bool, true, false, Option, none,
  some, List, [], ◌∷◌, ◌++◌, length, take, leb, ltb, u16, u32, ◌%◌, if◌then◌else◌, get_or,
  length-append, arith, Bool-cases, inl, inr,
}
use aer_handshake_firmware.Base.Decimal.{numeral, scan, scan-numeral, length-numeral-le}
use aer_handshake_firmware.Hal.Stdio.{Port, Plain, stream_hdr, log_text, until_nul}
use aer_handshake_firmware.Hal.Stdio.Packets.{strip, read_packet, hal_stream_write-read_packet}
use aer_handshake_firmware.Hal.Stdio.Writes.{Plain-append}
use aer_handshake_firmware.Hal.Stdio.Log.{
  Log, lvl_tag, decimal, message, log_line, log_packet, hal_vlogf,
}

-- A line of the log as its reader takes it apart.
pub record Entry : Type 0 where
  pub t_ms : ℕ
  pub tag : ℕ
  pub text : List ℕ

abbrev read_text : ℕ → ℕ → List ℕ → Option Entry
read_text t_ms tag bs = elim (strip (93 ∷ 32 ∷ []) bs) [
  | none ↦ none
  | some text ↦ some (record { t_ms = t_ms; tag = tag; text = text })
]

abbrev read_tag : ℕ → List ℕ → Option Entry
read_tag t_ms [] = none
read_tag t_ms (tag ∷ bs) = read_text t_ms tag bs

abbrev read_time : ℕ × List ℕ → Option Entry
read_time (t_ms, bs) = elim (strip (93 ∷ 91 ∷ []) bs) [ none ↦ none | some bs' ↦ read_tag t_ms bs' ]

-- "[", a decimal number, "][", a character, "] ", and the text.
abbrev pub read_line : List ℕ → Option Entry
read_line bs = elim (strip (91 ∷ []) bs) [ none ↦ none | some bs' ↦ read_time (scan 10 0 bs') ]

length-take-le : (n : ℕ) (xs : List ℕ) → length (take n xs) ≤ n
length-take-le zero xs = omega arith
length-take-le (suc n) [] = omega arith
length-take-le (suc n) (x ∷ xs) = omega (arith, length-take-le n xs)

length-until_nul-le : (xs : List ℕ) → length (until_nul xs) ≤ length xs
length-until_nul-le [] = omega arith
length-until_nul-le (x ∷ xs) = ground (arith, length-until_nul-le xs)

length-message-le : (formatted : List ℕ) → length (message formatted) ≤ 255
unfolding message
length-message-le formatted = elim (Bool-cases (leb 256 (length formatted))) [
  | inl e ↦
      rw (e, message)
        (omega (
          arith,
          length-until_nul-le (take 254 formatted ++ 46 ∷ []),
          length-append (take 254 formatted) (46 ∷ []),
          length-take-le 254 formatted,
        ))
  | inr e ↦ rw (e, message) (ground (arith, length-until_nul-le formatted))
]

-- The buffer of a log line is never too small.
length-log_line-le :
    (t_ms level : ℕ) (formatted : List ℕ) → length (log_line t_ms level (message formatted)) ≤ 271
unfolding log_line
length-log_line-le t_ms level formatted = omega (
  arith,
  length-append (decimal t_ms) (93 ∷ 91 ∷ lvl_tag level ∷ 93 ∷ 32 ∷ message formatted),
  length-numeral-le 10 10 t_ms (omega arith),
  length-message-le formatted,
)

-- The letters "E", "W", "I", "D" and "T" of the levels from 0 on, and "?" for any other level.
abbrev pub letter_of : ℕ → ℕ
letter_of level = get_or (69 ∷ 87 ∷ 73 ∷ 68 ∷ 84 ∷ []) level 63

-- The text up to its NUL; of more than 255 bytes, the first 254 and a period.
abbrev pub cut_text : List ℕ → List ℕ
cut_text formatted =
    until_nul (if ltb 255 (length formatted) then take 254 formatted ++ (46 ∷ []) else formatted)

-- "[", the time, "][", the letter, "] " and the text; and the packet of log text with it.
abbrev pub line_of : ℕ → ℕ → List ℕ → List ℕ
line_of t_ms letter text = 91 ∷ (numeral 10 10 t_ms ++ (93 ∷ (91 ∷ (letter ∷ (93 ∷ (32 ∷ text))))))

abbrev pub line_packet : ℕ → ℕ → List ℕ → List ℕ
line_packet t_ms letter text =
    stream_hdr 1 (u16 (length (line_of t_ms letter text))) ++ line_of t_ms letter text

lvl_tag-letter_of : (level : ℕ) → lvl_tag level ≡ letter_of level
lvl_tag-letter_of zero = refl
lvl_tag-letter_of (suc zero) = refl
lvl_tag-letter_of (suc (suc zero)) = refl
lvl_tag-letter_of (suc (suc (suc zero))) = refl
lvl_tag-letter_of (suc (suc (suc (suc zero)))) = refl
lvl_tag-letter_of (suc (suc (suc (suc (suc n))))) = ground arith

message-cut_text : (formatted : List ℕ) → message formatted ≡ cut_text formatted
unfolding message
message-cut_text formatted =
    let same : leb 256 (length formatted) ≡ ltb 255 (length formatted) = ground arith in
    ap (λ b. until_nul (if b then take 254 formatted ++ (46 ∷ []) else formatted)) same

log_line_lem :
    (t_ms level : ℕ) (formatted : List ℕ)
    → log_line t_ms level (message formatted) ≡ line_of t_ms (letter_of level) (cut_text formatted)
unfolding log_line
log_line_lem t_ms level formatted = rw (lvl_tag-letter_of level, message-cut_text formatted) refl

read_line-line_of :
    (t_ms letter : ℕ) (text : List ℕ)
    → t_ms < 2 ^ 32
    → read_line (line_of t_ms letter text)
      ≡ some (record { t_ms = t_ms; tag = letter; text = text })
read_line-line_of t_ms letter text h = ap read_time (
    scan-numeral 10 (omega arith) 10 t_ms (93 ∷ 91 ∷ letter ∷ 93 ∷ 32 ∷ text) (omega arith)
      (omega arith) refl)

module _ (connected : ℕ → Bool) (fwrite : ℕ → List ℕ → List ℕ × ℕ) (printf : ℕ → List ℕ → List ℕ)
    (encodes : List ℕ → Bool) (converts : Bool) (all : (n : ℕ) → connected n ≡ true)
    (whole : (n : ℕ) (bs : List ℕ) → Plain converts bs → fwrite n bs ≡ (bs, length bs))
    (can : (line : List ℕ) → encodes line ≡ true) where
  -- While the host is connected, `fwrite` writes all that it is given, on a stdout that converts
  -- line feeds, or does not, and passes on the other bytes, and `snprintf` succeeds: a call of
  -- `hal_vlogf` in packetized mode, at a level that is not above the threshold, where the packet
  -- has no line feed among its bytes if stdout converts it, appends to the output bytes from which
  -- the host reads one packet of log text of at most 271 bytes, whatever follows; it is the line of
  -- the time in milliseconds modulo 2^32, the letter of the level and the text up to its NUL, of
  -- which more than 255 bytes are cut to 254 and a period, and the host reads these back from it.
  pub hal_vlogf-read_line :
      (log : Log) (level : ℕ) (formatted : List ℕ) (time_us : ℕ) (p : Port) (rest : List ℕ)
      → log.packetized ≡ true
      → level ≤ log.level
      → Plain converts
          (line_packet (time_us / 1000 % 2 ^ 32) (letter_of level) (cut_text formatted))
      → (bytes line : List ℕ) × ((hal_vlogf connected fwrite printf encodes log level
            (some formatted)
            time_us
            p).output
          ≡ p.output ++ bytes)
        × (read_packet (bytes ++ rest) ≡ some (record { type = 1; payload = line }, rest))
        × (line ≡ line_of (time_us / 1000 % 2 ^ 32) (letter_of level) (cut_text formatted))
        × (length line ≤ 271)
        × (read_line line
            ≡ some (record {
              t_ms = time_us / 1000 % 2 ^ 32;
              tag = letter_of level;
              text = cut_text formatted;
            }))
  unfolding hal_vlogf log_packet
  hal_vlogf-read_line log level formatted time_us p rest packets wanted plain =
      let line = log_line (u32 (time_us / 1000)) level (message formatted) in
      let same = log_line_lem (u32 (time_us / 1000)) level formatted in
      let fits = length-log_line-le (u32 (time_us / 1000)) level formatted in
      let (plain_hdr, plain_line) =
        Plain-append converts (stream_hdr log_text (u16 (length line))) line (
          subst (λ l. Plain converts (stream_hdr log_text (u16 (length l)) ++ l)) (sym same)
            plain) in
      let (p', bytes, written, output, read) =
        hal_stream_write-read_packet connected fwrite converts all whole log_text line p rest
          (omega arith) (omega (arith, fits)) plain_hdr plain_line in
      let not_above : ltb log.level level ≡ false = ground arith in
      let short : leb 320 (length line) ≡ false = ground (arith, fits) in
      (
        bytes,
        line,
        rw (not_above, packets, can line, short, written, hal_vlogf) output,
        read,
        same,
        fits,
        rw same (read_line-line_of _ (letter_of level) (cut_text formatted) (omega arith)),
      )
