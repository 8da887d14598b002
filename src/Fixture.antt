-- ===== src/Fixture.antt =====
-- The data that the examples of several parts share: memory as the firmware finds it, a host that
-- is there, and one burst.
use aer_handshake_firmware.Base.{
  ℕ, zero, suc, ◌≡◌, refl, ap, ◌==◌, Bool-cases, inl, inr, Bool, true, false, sym, subst, List, [],
  ◌∷◌, length, All, arith,
}
use aer_handshake_firmware.Codec.{encode_word, encode_groups}
use aer_handshake_firmware.Burst.{Burst, expect_row}
use aer_handshake_firmware.Link.{RowBurst, Fits, transmit}
use aer_handshake_firmware.Hal.Stdio.Converted.{crlf}
use aer_handshake_firmware.Hal.Stdio.{Port, Plain, has_lf}
use aer_handshake_firmware.RxPoll.{ack}
use aer_handshake_firmware.RxPoll.Transmitter.{ready, Run, begin, driven}
use aer_handshake_firmware.Firmware.Transfer.{Transfer, OnBus, history, words}
use aer_handshake_firmware.Firmware.Conforming.{Clean, history-Run}

abbrev pub zeros : ℕ → List ℕ
zeros zero = []
zeros (suc n) = 0 ∷ zeros n

pub length-zeros_lem : (n : ℕ) → length (zeros n) ≡ n
length-zeros_lem zero = refl
length-zeros_lem (suc n) = ap suc (length-zeros_lem n)

abbrev pub memory : Burst
memory = record {
  state = expect_row;
  row = 0;
  cols = zeros 32;
  col_count = 0;
  err_flags = 0;
  bursts_completed = 0;
  events_emitted = 0;
}

abbrev pub online : ℕ → Bool
online n = true

-- A stdout that converts line feeds, and takes all that it is given.
abbrev pub in_full : ℕ → List ℕ → List ℕ × ℕ
in_full n buf = (crlf buf, length buf)

crlf-Plain : (bs : List ℕ) → has_lf bs ≡ false → crlf bs ≡ bs
crlf-Plain [] plain = refl
crlf-Plain (b ∷ bs) plain = elim (Bool-cases (b == 10)) [
  | inl e ↦ absurd (ground arith)
  | inr e ↦ rw e (ap (λ r. b ∷ r) (crlf-Plain bs (ground arith)))
]

pub in_full_lem : (n : ℕ) (bs : List ℕ) → Plain true bs → in_full n bs ≡ (bs, length bs)
in_full_lem n bs plain = ap (λ r. (r, length bs)) (crlf-Plain bs plain)

abbrev pub ticks_at : ℕ → ℕ
ticks_at n = 70000

abbrev pub port : Port
port = record { output = []; queries = 0; writes = 0 }

-- Row 3 with column 5: the words 280, 290 and 2184.
abbrev pub sent : List RowBurst
sent = record { row = 3; cols = 5 ∷ [] } ∷ []

pub sent-Fits : All Fits sent
sent-Fits = (record { row_in = omega arith; cols_in = (omega arith, tt); few = omega arith }, tt)

pub transmit-sent : transmit sent ≡ 280 ∷ 290 ∷ 2184 ∷ []
unfolding encode_word encode_groups
transmit-sent = refl

-- The transmitter is fast at first, then slow to clear its word, then slow to send.
abbrev pub clean : List Transfer
clean =
    record { idle = 0 ∷ []; seen = 280; word = 280; held = [] }
    ∷ record { idle = []; seen = 290; word = 290; held = 290 ∷ 290 ∷ [] }
    ∷ record { idle = 0 ∷ 0 ∷ []; seen = 2184; word = 2184; held = 2184 ∷ [] }
    ∷ []

pub clean-OnBus : All OnBus clean
clean-OnBus = (
  record { neutral = (refl, tt); valid = omega arith; latched = omega arith; until = tt },
  (
    record {
      neutral = tt;
      valid = omega arith;
      latched = omega arith;
      until = (omega arith, (omega arith, tt));
    },
    (
      record {
        neutral = (refl, (refl, tt));
        valid = omega arith;
        latched = omega arith;
        until = (omega arith, tt);
      },
      tt,
    ),
  ),
)

clean-Clean : All Clean clean
clean-Clean = (
  record { neutral = (refl, tt); valid = omega arith; seen = refl; held = tt },
  (
    record { neutral = tt; valid = omega arith; seen = refl; held = (refl, (refl, tt)) },
    (
      record { neutral = (refl, (refl, tt)); valid = omega arith; seen = refl; held = (refl, tt) },
      tt,
    ),
  ),
)

pub words-clean : words clean ≡ transmit sent
words-clean = sym transmit-sent

-- Once ACK has been set up low, the transmitter sends the burst by these transfers.
pub clean-Run : Run (transmit sent) (history clean (ack false ∷ [])) ready false []
clean-Run =
    subst (λ ws. Run ws (history clean (ack false ∷ [])) ready false []) words-clean
      (history-Run clean (ack false ∷ []) [] clean-Clean (driven ready false false _ begin))
