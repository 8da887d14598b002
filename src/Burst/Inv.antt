-- ===== src/Burst/Inv.antt =====
-- The invariant of the burst assembler: indices below 32, at most 32 columns buffered.
use aer_handshake_firmware.Base.{
  ℕ, ◌%◌, ◌<◌, ◌≤◌, ◌≡◌, ◌∙◌, Bool, true, false, List, [], ◌∷◌, length, length-set, arith, All,
  All-append,
}
use aer_handshake_firmware.Codec.{CodecResult}
use aer_handshake_firmware.Burst.{Burst, Event, init, reset, feed, feed_all}
use aer_handshake_firmware.Burst.Branches.{
  buffered, slice-push, events_of, feed_ignored, feed_row, feed_col, feed_overflow, feed_stray_tail,
  feed_end, Branch, ignored, row, col, overflow, stray, end, branch,
}

pub record IsValid (b : Burst) : Type 0 where
  pub array : length b.cols ≡ 32
  pub row_in : b.row < 32
  pub count_in : b.col_count ≤ 32
  pub cols_in : All (λ c. c < 32) (buffered b)

Branch-IsValid :
    (b : Burst) (w : CodecResult) (has_cb : Bool)
    → Branch b w
    → IsValid b
    → IsValid (feed b w has_cb).0
Branch-IsValid b w cb (ignored e) v = rw (feed_ignored b w cb e) v
Branch-IsValid b w cb (row g i e) v =
    rw (feed_row b w cb g i e)
      (record { array = v.array; row_in = omega arith; count_in = omega arith; cols_in = tt })
Branch-IsValid b w cb (col g i e h) v = rw (feed_col b w cb g i e h) (record {
  array = length-set b.cols b.col_count (w.payload % 32) ∙ v.array;
  row_in = v.row_in;
  count_in = omega arith;
  cols_in =
      rw (slice-push b.cols (w.payload % 32) b.col_count (omega arith))
        (All-append (λ c. c < 32) (buffered b) (w.payload % 32 ∷ []) v.cols_in (omega arith, tt));
})
Branch-IsValid b w cb (overflow g i e h) v =
    rw (feed_overflow b w cb g i e h)
      (record { array = v.array; row_in = v.row_in; count_in = v.count_in; cols_in = v.cols_in })
Branch-IsValid b w cb (stray g i e) v =
    rw (feed_stray_tail b w cb g i e)
      (record { array = v.array; row_in = v.row_in; count_in = v.count_in; cols_in = v.cols_in })
Branch-IsValid b w cb (end g i e) v =
    rw (feed_end b w cb (omega arith) g i e)
      (record { array = v.array; row_in = v.row_in; count_in = omega arith; cols_in = tt })

pub feed-IsValid :
    (b : Burst) (w : CodecResult) (has_cb : Bool) → IsValid b → IsValid (feed b w has_cb).0
feed-IsValid b w has_cb v = Branch-IsValid b w has_cb (branch b w) v

-- `aer_burst_init` makes any memory valid that has room for 32 columns.
pub init-IsValid : (b : Burst) → length b.cols ≡ 32 → IsValid (init b)
unfolding init
init-IsValid b e = record { array = e; row_in = omega arith; count_in = omega arith; cols_in = tt }

pub reset-IsValid : (b : Burst) (clear : Bool) → length b.cols ≡ 32 → IsValid (reset b clear)
unfolding reset
reset-IsValid b true e = record {
  array = e;
  row_in = omega arith;
  count_in = omega arith;
  cols_in = tt;
}
reset-IsValid b false e = record {
  array = e;
  row_in = omega arith;
  count_in = omega arith;
  cols_in = tt;
}

-- An event on the sensor.
abbrev pub OnSensor : Event → Type 0
OnSensor (r, c) = (r < 32) × (c < 32)

events-OnSensor :
    (r : ℕ) (cs : List ℕ) → r < 32 → All (λ c. c < 32) cs → All OnSensor (events_of r cs)
events-OnSensor r [] h a = tt
events-OnSensor r (c ∷ cs) h a = ((h, a.0), events-OnSensor r cs h a.1)

Branch-OnSensor :
    (b : Burst) (w : CodecResult) (has_cb : Bool)
    → Branch b w
    → IsValid b
    → All OnSensor (feed b w has_cb).1
Branch-OnSensor b w cb (ignored e) v = rw (feed_ignored b w cb e) tt
Branch-OnSensor b w cb (row g i e) v = rw (feed_row b w cb g i e) tt
Branch-OnSensor b w cb (col g i e h) v = rw (feed_col b w cb g i e h) tt
Branch-OnSensor b w cb (overflow g i e h) v = rw (feed_overflow b w cb g i e h) tt
Branch-OnSensor b w cb (stray g i e) v = rw (feed_stray_tail b w cb g i e) tt
Branch-OnSensor b w true (end g i e) v =
    rw (feed_end b w true (omega arith) g i e)
      (events-OnSensor b.row (buffered b) v.row_in v.cols_in)
Branch-OnSensor b w false (end g i e) v = rw (feed_end b w false (omega arith) g i e) tt

-- From a valid assembler, any stream of words leaves a valid assembler, and the callback gets
-- events of the 32 by 32 sensor only.
pub feed_all-IsValid :
    (ws : List CodecResult) (b : Burst) (has_cb : Bool)
    → IsValid b
    → IsValid (feed_all b ws has_cb).0 × All OnSensor (feed_all b ws has_cb).1
unfolding feed_all
feed_all-IsValid [] b has_cb v = (v, tt)
feed_all-IsValid (w ∷ ws) b has_cb v =
    let (valid, on_sensor) =
      feed_all-IsValid ws (feed b w has_cb).0 has_cb (feed-IsValid b w has_cb v) in
    (valid, All-append OnSensor _ _ (Branch-OnSensor b w has_cb (branch b w) v) on_sensor)
