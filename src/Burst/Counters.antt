-- ===== src/Burst/Counters.antt =====
-- The counters of the burst assembler against the calls of the callback.
use aer_handshake_firmware.Base.{
  ℕ, zero, suc, ◌+◌, ◌^◌, ◌<◌, ◌≡◌, refl, ap, true, List, [], ◌∷◌, length, length-append, u32,
  arith,
}
use aer_handshake_firmware.Codec.{CodecResult}
use aer_handshake_firmware.Burst.{Burst, feed, feed_all}
use aer_handshake_firmware.Burst.Branches.{
  slice, buffered, events_of, feed_ignored, feed_row, feed_col, feed_overflow, feed_stray_tail,
  feed_end, Branch, ignored, row, col, overflow, stray, end, branch,
}
use aer_handshake_firmware.Burst.Inv.{IsValid, feed-IsValid}

length-slice : (cols : List ℕ) (i n : ℕ) → length (slice cols i n) ≡ n
length-slice cols i zero = refl
length-slice cols i (suc n) = ap suc (length-slice cols (i + 1) n)

length-events_of : (r : ℕ) (cs : List ℕ) → length (events_of r cs) ≡ length cs
length-events_of r [] = refl
length-events_of r (c ∷ cs) = ap suc (length-events_of r cs)

-- One word: the return value is the number of calls, and the counter grows by it.
abbrev Counted : Burst → CodecResult → Type 0
Counted b w =
    ((feed b w true).2 ≡ length (feed b w true).1)
    × ((feed b w true).0.events_emitted ≡ u32 (b.events_emitted + length (feed b w true).1))

Branch-Counted :
    (b : Burst) (w : CodecResult) → Branch b w → IsValid b → b.events_emitted < 2 ^ 32 → Counted b w
Branch-Counted b w (ignored e) v h = rw (feed_ignored b w true e) (omega arith)
Branch-Counted b w (row g i e) v h = rw (feed_row b w true g i e) (omega arith)
Branch-Counted b w (col g i e r) v h = rw (feed_col b w true g i e r) (omega arith)
Branch-Counted b w (overflow g i e r) v h = rw (feed_overflow b w true g i e r) (omega arith)
Branch-Counted b w (stray g t e) v h = rw (feed_stray_tail b w true g t e) (omega arith)
Branch-Counted b w (end g t e) v h =
    rw (feed_end b w true (omega arith) g t e)
      (omega (arith, length-events_of b.row (buffered b), length-slice b.cols 0 b.col_count))

-- Over any stream, with counters in 32 bits: the event counter grows by the number of calls of the
-- callback.
pub feed_all-counts :
    (ws : List CodecResult) (b : Burst)
    → IsValid b
    → b.events_emitted < 2 ^ 32
    → (feed_all b ws true).0.events_emitted ≡ u32 (b.events_emitted + length (feed_all b ws true).1)
unfolding feed_all
feed_all-counts [] b v h = omega arith
feed_all-counts (w ∷ ws) b v h =
    let c = Branch-Counted b w (branch b w) v h in
    let b' = (feed b w true).0 in
    omega (
      arith,
      c.1,
      feed_all-counts ws b' (feed-IsValid b w true v) (let e = c.1 in omega arith),
      length-append {0} (feed b w true).1 (feed_all b' ws true).1,
    )
