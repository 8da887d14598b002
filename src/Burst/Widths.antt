-- ===== src/Burst/Widths.antt =====
-- The fields of `aer_burst_t` stay within their C types.
use aer_handshake_firmware.Base.{◌^◌, ◌<◌, true, bit_or-lt, arith}
use aer_handshake_firmware.Codec.{CodecResult}
use aer_handshake_firmware.Burst.{Burst, feed}
use aer_handshake_firmware.Burst.Branches.{
  feed_ignored, feed_row, feed_col, feed_overflow, feed_stray_tail, feed_end, Branch, ignored, row,
  col, overflow, stray, end, branch,
}
use aer_handshake_firmware.Burst.Inv.{IsValid, feed-IsValid}

-- A valid assembler, whose flags and counters are 32-bit numbers.
pub record InWidth (b : Burst) : Type 0 where
  pub valid : IsValid b
  pub flags : b.err_flags < 2 ^ 32
  pub bursts : b.bursts_completed < 2 ^ 32
  pub events : b.events_emitted < 2 ^ 32

abbrev Counters : Burst → Type 0
Counters b = (b.err_flags < 2 ^ 32) × (b.bursts_completed < 2 ^ 32) × (b.events_emitted < 2 ^ 32)

Branch-Counters :
    (b : Burst) (w : CodecResult) → Branch b w → InWidth b → Counters (feed b w true).0
Branch-Counters b w (ignored e) v = rw (feed_ignored b w true e) (v.flags, v.bursts, v.events)
Branch-Counters b w (row g i e) v = rw (feed_row b w true g i e) (v.flags, v.bursts, v.events)
Branch-Counters b w (col g i e r) v = rw (feed_col b w true g i e r) (v.flags, v.bursts, v.events)
Branch-Counters b w (overflow g i e r) v =
    rw (feed_overflow b w true g i e r)
      (bit_or-lt 32 b.err_flags (2 ^ 10) v.flags (omega arith), v.bursts, v.events)
Branch-Counters b w (stray g t e) v =
    rw (feed_stray_tail b w true g t e)
      (bit_or-lt 32 b.err_flags (2 ^ 0) v.flags (omega arith), v.bursts, v.events)
Branch-Counters b w (end g t e) v =
    rw (feed_end b w true (let few = v.valid.count_in in omega arith) g t e)
      (v.flags, omega arith, omega arith)

pub feed-InWidth : (b : Burst) (w : CodecResult) → InWidth b → InWidth (feed b w true).0
feed-InWidth b w v =
    let c = Branch-Counters b w (branch b w) v in
    record { valid = feed-IsValid b w true v.valid; flags = c.0; bursts = c.1; events = c.2 }
