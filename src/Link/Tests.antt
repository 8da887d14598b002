-- ===== src/Link/Tests.antt =====
-- Two bursts sent to an assembler that has just been reset.
use aer_handshake_firmware.Base.{ℕ, suc, zero, ◌≡◌, refl, List, [], ◌∷◌, All, arith}
use aer_handshake_firmware.Burst.{Burst, expect_row}
use aer_handshake_firmware.Burst.Inv.{IsValid}
use aer_handshake_firmware.Link.{RowBurst, Fits, transmit, events, receive, receive-transmit}

abbrev zeros : ℕ → List ℕ
zeros zero = []
zeros (suc n) = 0 ∷ zeros n

abbrev fresh : Burst
fresh = record {
  state = expect_row;
  row = 0;
  cols = zeros 32;
  col_count = 0;
  err_flags = 0;
  bursts_completed = 0;
  events_emitted = 0;
}

fresh-IsValid : IsValid fresh
fresh-IsValid = record { array = refl; row_in = omega arith; count_in = omega arith; cols_in = tt }

abbrev sent : List RowBurst
sent = record { row = 3; cols = 5 ∷ 9 ∷ [] } ∷ record { row = 31; cols = 0 ∷ [] } ∷ []

sent-Fits : All Fits sent
sent-Fits = (
  record { row_in = omega arith; cols_in = (omega arith, (omega arith, tt)); few = omega arith },
  (record { row_in = omega arith; cols_in = (omega arith, tt); few = omega arith }, tt),
)

receive-transmit_example : (receive fresh (transmit sent)).1 ≡ events sent
receive-transmit_example = receive-transmit sent fresh sent-Fits fresh-IsValid refl
