-- ===== src/Hal/Stdio.antt =====
-- pico_aer_rx/hal/hal_stdio.c and hal_stdio.h: the USB connection, and framed packets to the host.
pub mod Converted
pub mod Log
pub mod Packets
mod Tests
pub mod Writes
use aer_handshake_firmware.Base.{
  ℕ, suc, ◌+◌, ◌*◌, leb, ◌+◌, ◌/◌, ◌%◌, ◌^◌, Bool, true, false, not, ◌&&◌, ◌||◌, ◌≡◌, Option, none,
  some, List, [], ◌∷◌, ◌++◌, length, take, if◌then◌else◌, ◌==◌, u8, u16,
}

-- What the host has got from stdout, and how often the SDK has been asked for the connection and
-- libc's `fwrite` called.
pub record Port : Type 0 where
  pub output : List ℕ
  pub queries : ℕ
  pub writes : ℕ

-- The bytes of a uint16_t and of a uint32_t on the little-endian chip.
abbrev pub bytes_u16 : ℕ → List ℕ
bytes_u16 n = n % 2 ^ 8 ∷ n / 2 ^ 8 % 2 ^ 8 ∷ []

abbrev pub bytes_u32 : ℕ → List ℕ
bytes_u32 n = n % 2 ^ 8 ∷ n / 2 ^ 8 % 2 ^ 8 ∷ n / 2 ^ 16 % 2 ^ 8 ∷ n / 2 ^ 24 % 2 ^ 8 ∷ []

-- `hal_stream_type_t`
abbrev pub log_text : ℕ
log_text = 1

abbrev pub event_bin : ℕ
event_bin = 2

abbrev pub raw_bin : ℕ
raw_bin = 3

abbrev pub marker : ℕ
marker = 4

-- `hal_stream_hdr_t`, filled in: the magic "AERS", the version, the type and the length.
abbrev pub stream_hdr : ℕ → ℕ → List ℕ
stream_hdr type len = 65 ∷ 69 ∷ 82 ∷ 83 ∷ 1 ∷ u8 type ∷ bytes_u16 len

-- Whether the bytes have a line feed. The SDK's stdout converts one to a carriage return and a line
-- feed, unless this is turned off; it passes on what has none.
abbrev pub has_lf : List ℕ → Bool
has_lf [] = false
has_lf (b ∷ bs) = b == 10 || has_lf bs

-- Bytes that stdout passes on unchanged, where it converts line feeds or not.
abbrev pub Plain : Bool → List ℕ → Type 0
Plain converts bs = (converts && has_lf bs) ≡ false

-- The bytes of a text before its NUL.
abbrev pub until_nul : List ℕ → List ℕ
until_nul [] = []
until_nul (c ∷ cs) = if c == 0 then [] else c ∷ until_nul cs

-- What a round of a wait for the host reads: whether it is connected, and the time in microseconds.
pub record Poll : Type 0 where
  pub is_connected : Bool
  pub now : ℕ

-- The loop of `hal_stdio_wait_connected`, up to a time; `none` where it still waits when the
-- observation ends. The timer of the SDK does not wrap.
pub wait_loop : ℕ → ℕ → List Poll → Option Bool
wait_loop timeout_ms until [] = none
wait_loop timeout_ms until (r ∷ rs) =
    let later = wait_loop timeout_ms until rs in
    if r.is_connected
    then some true
    else if not (timeout_ms == 0) && leb until r.now
    then some false
    else later

-- `hal_stdio_wait_connected`, from the time at its start.
pub wait_connected : ℕ → ℕ → List Poll → Option Bool
wait_connected timeout_ms begin rounds = wait_loop timeout_ms (begin + timeout_ms * 1000) rounds

-- `hal_stdio_init`: it returns where the observation suffices, and ignores the outcome of the wait.
unfoldable pub init : Bool → ℕ → ℕ → List Poll → Option (Unit {0})
init wait_for_usb timeout_ms begin rounds =
    if wait_for_usb
    then elim (wait_connected timeout_ms begin rounds) [ none ↦ none | some _ ↦ some tt ]
    else some tt

-- The port after one more question for the connection.
abbrev pub ask : Port → Port
ask p = record p { queries = suc p.queries }

-- `connected n` is the SDK's answer to the n-th question whether the host is connected, and `fwrite
-- n buf` what the host gets where libc's `fwrite` to stdout is called with `buf` for the n-th time,
-- and what it returns. stdout is a text stream: the host need not get the bytes as they are.
module _ (connected : ℕ → Bool) (fwrite : ℕ → List ℕ → List ℕ × ℕ) where
  pub write_bytes_locked : List ℕ → Port → Port × Bool
  write_bytes_locked buf p =
      let (bytes, n) = fwrite p.writes buf in
      if not (connected p.queries)
      then (ask p, false)
      else (record (ask p) { output = p.output ++ bytes; writes = suc p.writes }, n == length buf)

  pub hal_stream_write : ℕ → List ℕ → Port → Port × Bool
  hal_stream_write type payload p =
      let (p', ok) = write_bytes_locked (stream_hdr type (u16 (length payload))) (ask p) in
      let sent = write_bytes_locked payload p' in
      if not (connected p.queries)
      then (ask p, false)
      else if ok && not (length payload == 0)
      then sent
      else (p', ok)

  -- `hal_stream_write_event_u16`: 12 bytes, the last three of them 0.
  pub hal_stream_write_event_u16 : ℕ → ℕ → ℕ → ℕ → Port → Port × Bool
  hal_stream_write_event_u16 row col t_us flags p =
      hal_stream_write event_bin
        (bytes_u16 row ++ bytes_u16 col ++ bytes_u32 t_us ++ u8 flags ∷ 0 ∷ 0 ∷ 0 ∷ []) p

  -- `hal_stream_marker`; the text is given with what follows it in memory.
  pub hal_stream_marker : Option (List ℕ) → Port → Port × Bool
  hal_stream_marker none p = (p, false)
  hal_stream_marker (some text) p = hal_stream_write marker (take 240 (until_nul text)) p
