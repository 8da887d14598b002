-- ===== src/Burst/Scenarios.antt =====
-- The scenarios of tests/test_burst.c, on an assembler that aer_burst_init has set up.
use aer_handshake_firmware.Base.{
  ℕ, zero, suc, ◌+◌, ◌%◌, ◌≡◌, refl, true, false, List, [], ◌∷◌, ◌++◌, length,
}
use aer_handshake_firmware.Codec.{CodecResult}
use aer_handshake_firmware.Burst.{
  Burst, feed, feed_tail, feed_index, emit_and_clear, emit_from, feed_all, init, expect_col_or_tail,
  payload_to_index, err_tail_without_row, warn_col_overflow,
}

abbrev zeros : ℕ → List ℕ
zeros zero = []
zeros (suc n) = 0 ∷ zeros n

-- What the memory holds before does not matter but for the columns.
abbrev unset : Burst
unset = record {
  state = expect_col_or_tail;
  row = 9;
  cols = zeros 32;
  col_count = 4;
  err_flags = 1;
  bursts_completed = 6;
  events_emitted = 7;
}

abbrev make_ok_payload : ℕ → CodecResult
make_ok_payload p = record { ok = true; payload = p; is_tail = false; err_flags = 0 }

abbrev make_tail : CodecResult
make_tail = record { ok = true; payload = 63; is_tail = true; err_flags = 0 }

abbrev make_invalid : CodecResult
make_invalid = record { ok = false; payload = 0; is_tail = false; err_flags = 4 }

test_tail_without_row :
    feed (init unset) make_tail true
    ≡ (record (init unset) { err_flags = err_tail_without_row }, [], 0)
unfolding init feed feed_tail
test_tail_without_row = refl

-- The assembler after the burst, and its event.
test_single_col_burst :
    feed_all (init unset) (make_ok_payload 5 ∷ make_ok_payload 3 ∷ make_tail ∷ []) true ≡ (
      record (init unset) {
        row = 5;
        cols = 3 ∷ zeros 31;
        bursts_completed = 1;
        events_emitted = 1;
      },
      (5, 3) ∷ [],
    )
unfolding init feed_all feed feed_tail feed_index emit_and_clear emit_from payload_to_index
test_single_col_burst = refl

test_multi_col_burst :
    (feed_all
      (init unset)
      (make_ok_payload 5 ∷ make_ok_payload 3 ∷ make_ok_payload 7 ∷ make_tail ∷ [])
      true).1
    ≡ (5, 3) ∷ (5, 7) ∷ []
unfolding init feed_all feed feed_tail feed_index emit_and_clear emit_from payload_to_index
test_multi_col_burst = refl

test_invalid_words_ignored :
    (feed_all
      (init unset)
      (make_ok_payload 2 ∷ make_invalid ∷ make_ok_payload 9 ∷ make_tail ∷ [])
      true).1
    ≡ (2, 9) ∷ []
unfolding init feed_all feed feed_tail feed_index emit_and_clear emit_from payload_to_index
test_invalid_words_ignored = refl

-- `n` columns, numbered from `i` on and within the sensor.
abbrev columns : ℕ → ℕ → List CodecResult
columns zero i = []
columns (suc n) i = make_ok_payload (i % 32) ∷ columns n (i + 1)

abbrev overflow : Burst × List (ℕ × ℕ)
overflow = feed_all (init unset) (make_ok_payload 1 ∷ (columns 37 0 ++ (make_tail ∷ []))) true

test_col_overflow_warning : (length overflow.1 ≡ 32) × (overflow.0.err_flags ≡ warn_col_overflow)
unfolding init feed_all feed feed_tail feed_index emit_and_clear emit_from payload_to_index
test_col_overflow_warning = (refl, refl)
