-- ===== src/Burst/Tests.antt =====
-- A stream of one burst with a rejected word in it, on an empty assembler.
use aer_handshake_firmware.Base.{ℕ, suc, zero, ◌≡◌, refl, true, false, List, [], ◌∷◌, All, arith}
use aer_handshake_firmware.Codec.{CodecResult}
use aer_handshake_firmware.Burst.{
  Burst, feed, feed_tail, feed_index, emit_and_clear, emit_from, feed_all, expect_row,
  payload_to_index,
}
use aer_handshake_firmware.Burst.Inv.{IsValid, OnSensor, feed_all-IsValid}
use aer_handshake_firmware.Burst.Parse.{waiting, parse, tokens, feed_all-parse}

abbrev zeros : ℕ → List ℕ
zeros zero = []
zeros (suc n) = 0 ∷ zeros n

abbrev fresh : Burst
fresh = record {
  state = expect_row;
  row = 0;
  cols = zeros 32;
  col_count = 0;
  err_flags = 0;
  bursts_completed = 0;
  events_emitted = 0;
}

fresh-IsValid : IsValid fresh
fresh-IsValid = record { array = refl; row_in = omega arith; count_in = omega arith; cols_in = tt }

abbrev word : ℕ → CodecResult
word p = record { ok = true; payload = p; is_tail = false; err_flags = 0 }

abbrev rejected : CodecResult
rejected = record { ok = false; payload = 0; is_tail = false; err_flags = 8 }

abbrev last : CodecResult
last = record { ok = true; payload = 63; is_tail = true; err_flags = 0 }

-- Row 3 with the columns 5 and 9.
abbrev stream : List CodecResult
stream = word 3 ∷ word 5 ∷ rejected ∷ word 9 ∷ last ∷ []

stream_events : (feed_all fresh stream true).1 ≡ (3, 5) ∷ (3, 9) ∷ []
unfolding feed_all feed feed_tail feed_index emit_and_clear emit_from payload_to_index
stream_events = refl

feed_all-IsValid_example :
    IsValid (feed_all fresh stream true).0 × All OnSensor (feed_all fresh stream true).1
feed_all-IsValid_example = feed_all-IsValid stream fresh true fresh-IsValid

feed_all-parse_example : (feed_all fresh stream true).1 ≡ parse waiting (tokens stream)
feed_all-parse_example = feed_all-parse stream fresh waiting fresh-IsValid refl
