-- ===== src/RxPoll/Strokes.antt =====
-- `aer_rx_poll_service` on a bus that brings words: its loop, handshake by handshake.

use aer_handshake_firmware.Base.{
  ℕ, ◌+◌, ◌<◌, ◌^◌, ◌≡◌, ◌≢◌, ap, ◌∙◌, true, false, some, List, [], ◌∷◌, ◌++◌, All, length, arith,
}
use aer_handshake_firmware.RxPoll.{Io, read, ack, Rx, store, over_budget, service_loop}
use aer_handshake_firmware.RxPoll.Waits.{reads}
use aer_handshake_firmware.RxPoll.Handshake.{store_timeouts, done, step_handshake}

-- A word on the bus: neutral samples, the word, other samples that are not neutral, and a neutral
-- one.
pub record Stroke : Type 0 where
  pub idle : List ℕ
  pub word : ℕ
  pub held : List ℕ

pub record Regular (s : Stroke) : Type 0 where
  pub neutral : All (λ x. x ≡ 0) s.idle
  pub valid : s.word ≢ 0
  pub until : All (λ x. x ≢ 0) s.held

abbrev pub strokes : List Stroke → List ℕ → List ℕ
strokes [] rest = rest
strokes (s ∷ ss) rest = s.idle ++ s.word ∷ (s.held ++ 0 ∷ strokes ss rest)

-- The receiver after it has taken the words.
abbrev pub taken : Rx → List Stroke → Rx
taken rx [] = rx
taken rx (s ∷ ss) = taken (done (store rx s.word)) ss

-- The log after it.
abbrev pub stroke_log : Stroke → List Io → List Io
stroke_log s log =
    ack false ∷ read 0 ∷ reads s.held (ack true ∷ read s.word ∷ reads s.idle (ack false ∷ log))

abbrev pub handshakes : List Stroke → List Io → List Io
handshakes [] log = log
handshakes (s ∷ ss) log = handshakes ss (stroke_log s log)

pub service_loop-strokes :
    (ss : List Stroke) (count : ℕ) (rx : Rx) (rest clock : List ℕ) (log : List Io)
    → rx.wait_valid_timeout_us ≡ 0
    → rx.wait_neutral_timeout_us ≡ 0
    → All Regular ss
    → count + length ss < 2 ^ 32
    → service_loop
        (length ss)
        0
        0
        count
        rx
        (record { samples = strokes ss rest; clock = clock; log = log })
      ≡ some (
        count + length ss,
        taken rx ss,
        record { samples = rest; clock = clock; log = handshakes ss log },
      )
unfolding service_loop over_budget
service_loop-strokes [] count rx rest clock log tv tn regular fits =
    ap (λ n. some (n, rx, record { samples = rest; clock = clock; log = log })) (omega arith)
service_loop-strokes (s ∷ ss) count rx rest clock log tv tn regular fits =
    let one =
      step_handshake rx s.idle s.held s.word (strokes ss rest) clock log tv tn regular.0.neutral
        regular.0.valid regular.0.until in
    let same = store_timeouts rx s.word in
    rw (one, service_loop)
      (ap
          (λ c.
            service_loop (length ss) 0 0 c (done (store rx s.word))
              (record { samples = strokes ss rest; clock = clock; log = stroke_log s log }))
          (omega arith)
        ∙ service_loop-strokes ss (count + 1) (done (store rx s.word)) rest clock (stroke_log s log)
            (same.0 ∙ tv) (same.1 ∙ tn) regular.1 (omega arith)
        ∙ ap
            (λ c. some (
              c,
              taken rx (s ∷ ss),
              record { samples = rest; clock = clock; log = handshakes (s ∷ ss) log },
            ))
            (omega arith))
