-- ===== src/Replay/Trace/Tests.antt =====
-- A trace of the word 280, which a sensor holds until ACK falls.
use aer_handshake_firmware.Base.{
  ℕ, ◌≡◌, ◌≢◌, refl, Bool, true, false, Option, none, some, List, [], ◌∷◌, arith,
}
use aer_handshake_firmware.Burst.{Burst, expect_row}
use aer_handshake_firmware.Waveform.{Sample, Waveform, empty}
use aer_handshake_firmware.Replay.{FaultFn}
use aer_handshake_firmware.Replay.Trace.{returned, load_file, unfinished}
use aer_handshake_firmware.Replay.Trace.Printed.{print_trace}
use aer_handshake_firmware.Replay.Trace.Loads.{load_file-print_trace}
use aer_handshake_firmware.Replay.Trace.Returns.{load_file-ends}

abbrev any_size : ℕ → Bool
any_size n = true

abbrev recorded : List Sample
recorded =
    record { t = 0; data_word = 0; ack = false }
    ∷ record { t = 5; data_word = 280; ack = false }
    ∷ record { t = 6; data_word = 280; ack = true }
    ∷ []

-- What a file is that names no number: a comment and "x".
abbrev bad_file : List ℕ
bad_file = 35 ∷ 32 ∷ 120 ∷ 10 ∷ 120 ∷ []

load_file-ends_example : load_file any_size (some bad_file) empty ≢ unfinished
load_file-ends_example = load_file-ends any_size (some bad_file) empty

load_file-print_trace_example :
    (wf' : Waveform) × (load_file any_size (some (print_trace recorded)) empty ≡ returned true wf')
    × (wf'.samples ≡ recorded)
load_file-print_trace_example =
    load_file-print_trace any_size (λ n. refl) recorded empty
      ((omega arith, omega arith), ((omega arith, omega arith), ((omega arith, omega arith), tt)))
      (omega arith, (omega arith, (omega arith, tt)))

abbrev idle_burst : Burst
idle_burst = record {
  state = expect_row;
  row = 0;
  cols = [];
  col_count = 0;
  err_flags = 0;
  bursts_completed = 0;
  events_emitted = 0;
}

abbrev recording : Waveform
recording = record { samples = recorded; cap = 64 }

abbrev no_fault : Option (FaultFn ℕ)
no_fault = none
