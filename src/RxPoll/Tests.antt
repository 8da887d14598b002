-- ===== src/RxPoll/Tests.antt =====
-- Handshakes on a ring of four words.
use aer_handshake_firmware.Base.{
  ◌≡◌, ◌⊎◌, refl, true, false, some, List, [], ◌∷◌, ◌++◌, inl, inr, All, arith,
}
use aer_handshake_firmware.Ringbuf.Inv.{IsValid}
use aer_handshake_firmware.Ringbuf.{Ringbuf}
use aer_handshake_firmware.RxPoll.{
  Rx, Bus, Io, read, ack, ok, timeout_wait_valid, no_stats, step, store, service,
}
use aer_handshake_firmware.RxPoll.Strokes.{Stroke, Regular, strokes, handshakes}
use aer_handshake_firmware.RxPoll.Batch.{Batch, service-Batch}
use aer_handshake_firmware.RxPoll.Latched.{latched}
use aer_handshake_firmware.RxPoll.Transmitter.{
  ready, driving, cleared, Run, begin, drive, clear, rest, sampled, driven, unsent, latched-Run,
}
use aer_handshake_firmware.RxPoll.Waits.{reads}
use aer_handshake_firmware.RxPoll.Handshake.{done, step_handshake}
use aer_handshake_firmware.RxPoll.Protocol.{FourPhase, level, step-FourPhase}

abbrev ring : Ringbuf
ring = record { buf = some (0 ∷ 0 ∷ 0 ∷ 0 ∷ []); capacity = 4; head = 0; tail = 0 }

abbrev receiver : Rx
receiver = record {
  rb = ring;
  wait_valid_timeout_us = 0;
  wait_neutral_timeout_us = 0;
  stats = no_stats;
}

-- DATA is neutral twice, valid three times and neutral again.
abbrev before : Bus
before = record { samples = 0 ∷ 0 ∷ 280 ∷ 280 ∷ 280 ∷ 0 ∷ 290 ∷ []; clock = []; log = [] }

abbrev after : Bus
after = record {
  samples = 290 ∷ [];
  clock = [];
  log =
      ack false
      ∷ read 0
      ∷ reads (280 ∷ 280 ∷ []) (ack true ∷ read 280 ∷ reads (0 ∷ 0 ∷ []) (ack false ∷ []));
}

step_run : step receiver before ≡ some (done (store receiver 280), ok, after)
step_run =
    step_handshake receiver (0 ∷ 0 ∷ []) (280 ∷ 280 ∷ []) 280 (290 ∷ []) [] [] refl refl
      (refl, (refl, tt)) (omega arith) (omega arith, (omega arith, tt))

step-FourPhase_example :
    FourPhase after.log × (level after.log ≡ false) × ((ok ≡ ok) ⊎ (ok ≡ timeout_wait_valid))
step-FourPhase_example =
    step-FourPhase receiver (done (store receiver 280)) before after ok refl tt refl step_run

ring-IsValid : IsValid ring
ring-IsValid = record {
  room = omega arith;
  two = omega arith;
  word = omega arith;
  head_in = omega arith;
  tail_in = omega arith;
}

-- Four words, one more than the ring takes.
abbrev four : List Stroke
four =
    record { idle = 0 ∷ []; word = 280; held = 280 ∷ [] }
    ∷ record { idle = []; word = 290; held = [] }
    ∷ record { idle = []; word = 34; held = 290 ∷ [] }
    ∷ record { idle = 0 ∷ 0 ∷ []; word = 2184; held = [] }
    ∷ []

four-Regular : All Regular four
four-Regular = (
  record { neutral = (refl, tt); valid = omega arith; until = (omega arith, tt) },
  (
    record { neutral = tt; valid = omega arith; until = tt },
    (
      record { neutral = tt; valid = omega arith; until = (omega arith, tt) },
      (record { neutral = (refl, (refl, tt)); valid = omega arith; until = tt }, tt),
    ),
  ),
)

abbrev busy : Bus
busy = record { samples = strokes four []; clock = []; log = [] }

service-Batch_example :
    (rx' : Rx) × (service receiver 4 0 busy
      ≡ some (4, rx', record { samples = []; clock = []; log = handshakes four [] }))
    × Batch receiver (280 ∷ 290 ∷ 34 ∷ 2184 ∷ []) rx'
service-Batch_example =
    service-Batch four receiver [] [] [] refl refl four-Regular (omega arith) ring-IsValid
      (omega arith)

service-Batch_result :
    (rx' : Rx) × (service receiver 4 0 busy
      ≡ some (4, rx', record { samples = []; clock = []; log = handshakes four [] }))
    × Batch receiver (280 ∷ 290 ∷ 34 ∷ 2184 ∷ []) rx'
service-Batch_result =
    service-Batch four receiver [] [] [] refl refl four-Regular (omega arith) ring-IsValid
      (omega arith)

abbrev served : Rx
served = service-Batch_result.0

-- A sensor that keeps its word on the bus for longer than 100 microseconds.
abbrev impatient : Rx
impatient = record receiver { wait_neutral_timeout_us = 100 }

abbrev hurried : Rx
hurried = record receiver { wait_valid_timeout_us = 100 }

-- A transmitter that sends three words: the second is on the bus and has been sampled, and ACK has
-- not risen yet.
abbrev halfway : List Io
halfway = read 290 ∷ ack false ∷ read 0 ∷ ack true ∷ read 280 ∷ read 0 ∷ ack false ∷ []

halfway-Run : Run (280 ∷ 290 ∷ 2184 ∷ []) halfway (driving 290) false (2184 ∷ [])
halfway-Run =
    let on_bus = sampled (driving 280) false (290 ∷ 2184 ∷ []) 280 refl (
      drive 280 (290 ∷ 2184 ∷ []) (omega arith)
        (sampled ready false _ 0 refl (driven ready false false _ begin))) in
    let acked = driven (driving 280) false true (290 ∷ 2184 ∷ []) on_bus in
    let neutral = sampled cleared true _ 0 refl (clear 280 (290 ∷ 2184 ∷ []) acked) in
    let over = rest (290 ∷ 2184 ∷ []) (driven cleared true false _ neutral) in
    sampled (driving 290) false (2184 ∷ []) 290 refl (drive 290 (2184 ∷ []) (omega arith) over)

halfway-FourPhase : FourPhase halfway
halfway-FourPhase = (inr refl, (refl, omega arith, (inl refl, tt)))

halfway_latched : 280 ∷ 290 ∷ 2184 ∷ [] ≡ latched halfway ++ unsent (driving 290) false (2184 ∷ [])
halfway_latched = latched-Run halfway-Run halfway-FourPhase
