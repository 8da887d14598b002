-- ===== src/RxPoll.antt =====
-- pico_aer_rx/aer_rx_poll.c and aer_rx_poll.h: the polling receiver, one 4-phase handshake at a
-- time. The bus and the timer are what the receiver observes: the successive values that
-- `hal_gpio_read_data_raw()` and `hal_time_us_now()` return. A loop that polls recurs on them, and
-- `none` says that it still polls where the observation ends.
pub mod Waits
pub mod Handshake
pub mod Protocol
pub mod Service
pub mod Strokes
pub mod Batch
pub mod AnyBus
pub mod Took
pub mod Widths
pub mod Latched
pub mod Transmitter
pub mod Timeouts
mod Tests
use aer_handshake_firmware.Base.{
  ℕ, zero, suc, ◌+◌, Bool, true, false, not, ◌&&◌, Option, none, some, List, [], ◌∷◌, if◌then◌else◌,
  ltb, ◌==◌, u32,
}
use aer_handshake_firmware.Hal.Time.{deadline_us, expired}
use aer_handshake_firmware.Ringbuf.{Ringbuf, is_full, push}

-- `aer_rx_poll_status_t`
pub data Status : Type 0 where
  ok no_space timeout_wait_valid timeout_wait_neutral : Status

-- `aer_rx_poll_stats_t`
pub record Stats : Type 0 where
  pub words_ok : ℕ
  pub dropped_full : ℕ
  pub timeouts_valid : ℕ
  pub timeouts_neutral : ℕ

abbrev pub no_stats : Stats
no_stats = record { words_ok = 0; dropped_full = 0; timeouts_valid = 0; timeouts_neutral = 0 }

-- `aer_rx_poll_t`, with the ring that `rb` points to.
pub record Rx : Type 0 where
  pub rb : Ringbuf
  pub wait_valid_timeout_us : ℕ
  pub wait_neutral_timeout_us : ℕ
  pub stats : Stats

-- What passes between the receiver and the bus: a sample of DATA, or a write of ACK.
pub data Io : Type 0 where
  read : ℕ → Io
  ack : Bool → Io

-- The samples of DATA and the times still to come, and what has passed, newest first.
pub record Bus : Type 0 where
  pub samples : List ℕ
  pub clock : List ℕ
  pub log : List Io

unfoldable pub write_ack : Bool → Bus → Bus
write_ack asserted h = record h { log = ack asserted ∷ h.log }

-- `aer_rx_poll_init` and `aer_rx_poll_reset`, on valid pointers.
unfoldable pub init : Ringbuf → ℕ → ℕ → Bus → Rx × Bus
init rb wait_valid_timeout_us wait_neutral_timeout_us h = (
  record {
    rb = rb;
    wait_valid_timeout_us = wait_valid_timeout_us;
    wait_neutral_timeout_us = wait_neutral_timeout_us;
    stats = no_stats;
  },
  write_ack false h,
)

pub reset : Rx → Bus → Rx × Bus
reset rx h = (record rx { stats = no_stats }, write_ack false h)

-- How a polling loop ends: with the sample that stops it, or at the deadline.
pub data Wait : Type 0 where
  got : ℕ → Wait
  timed_out : Wait

-- The two `for (;;)` loops of `aer_rx_poll_step`: poll DATA until `stop` holds of it, or, with a
-- timeout other than 0, until the deadline has expired.
pub poll : (ℕ → Bool) → ℕ → ℕ → List ℕ → List ℕ → List Io → Option (Wait × Bus)
poll stop timeout deadline [] clock log = none
poll stop timeout deadline (x ∷ xs) clock log = elim (stop x) [
  | true ↦ some (got x, record { samples = xs; clock = clock; log = read x ∷ log })
  | false ↦ elim (timeout == 0) [
    | true ↦ poll stop timeout deadline xs clock (read x ∷ log)
    | false ↦ elim clock [
      | [] ↦ none
      | now ∷ later ↦ elim (expired now deadline) [
        | true ↦ some (timed_out, record { samples = xs; clock = later; log = read x ∷ log })
        | false ↦ poll stop timeout deadline xs later (read x ∷ log)
      ]
    ]
  ]
]

-- Read the timer for the deadline and poll.
pub wait_timed : (ℕ → Bool) → ℕ → List ℕ → List ℕ → List Io → Option (Wait × Bus)
wait_timed stop timeout xs [] log = none
wait_timed stop timeout xs (now ∷ later) log =
    poll stop timeout (deadline_us now timeout) xs later log

-- The deadline is set where the timeout is other than 0.
pub wait_for : (ℕ → Bool) → ℕ → Bus → Option (Wait × Bus)
wait_for stop timeout h = elim (timeout == 0) [
  | true ↦ poll stop timeout 0 h.samples h.clock h.log
  | false ↦ wait_timed stop timeout h.samples h.clock h.log
]

abbrev pub is_valid : ℕ → Bool
is_valid raw = not (raw == 0)

abbrev pub is_neutral : ℕ → Bool
is_neutral raw = raw == 0

-- Push the latched word, or drop it.
unfoldable pub store : Rx → ℕ → Rx
store rx word =
    if is_full rx.rb
    then record rx { stats = record rx.stats { dropped_full = u32 (rx.stats.dropped_full + 1) } }
    else record rx { rb = (push rx.rb word).0 }

-- The second half of `aer_rx_poll_step`, after the push.
pub finish : Rx → Wait → Bus → Rx × Status × Bus
finish rx timed_out h = (
  record rx { stats = record rx.stats { timeouts_neutral = u32 (rx.stats.timeouts_neutral + 1) } },
  timeout_wait_neutral,
  write_ack false h,
)
finish rx (got _) h = (
  record rx { stats = record rx.stats { words_ok = u32 (rx.stats.words_ok + 1) } },
  ok,
  write_ack false h,
)

-- From the end of the first loop on.
pub latch : Rx → Wait → Bus → Option (Rx × Status × Bus)
latch rx timed_out h = some (
  record rx { stats = record rx.stats { timeouts_valid = u32 (rx.stats.timeouts_valid + 1) } },
  timeout_wait_valid,
  h,
)
latch rx (got word) h =
    let raised = write_ack true h in
    let rx' = store rx word in
    elim (wait_for is_neutral rx'.wait_neutral_timeout_us raised) [
      | none ↦ none
      | some (w, h') ↦ some (finish rx' w h')
    ]

-- `aer_rx_poll_step`
pub step : Rx → Bus → Option (Rx × Status × Bus)
step rx h = elim (wait_for is_valid rx.wait_valid_timeout_us (write_ack false h)) [
  | none ↦ none
  | some (w, h') ↦ latch rx w h'
]

-- The test for the time budget of `aer_rx_poll_service`: whether it is used up.
pub over_budget : ℕ → ℕ → Bus → Option (Bool × Bus)
over_budget budget deadline h = elim (budget == 0) [
  | true ↦ some (false, h)
  | false ↦ elim h.clock [
    | [] ↦ none
    | now ∷ later ↦ some (expired now deadline, record h { clock = later })
  ]
]

-- The loop of `aer_rx_poll_service`, with `n` of `max_words` to go.
pub service_loop : ℕ → ℕ → ℕ → ℕ → Rx → Bus → Option (ℕ × Rx × Bus)
service_loop zero budget deadline count rx h = some (count, rx, h)
service_loop (suc n) budget deadline count rx h = elim (over_budget budget deadline h) [
  | none ↦ none
  | some (over, h') ↦ elim over [
    | true ↦ some (count, rx, h')
    | false ↦ elim (step rx h') [
      | none ↦ none
      | some (rx', st, h'') ↦ elim st [
        | ok ↦ service_loop n budget deadline (u32 (count + 1)) rx' h''
        | _ ↦ some (count, rx', h'')
      ]
    ]
  ]
]

pub service : Rx → ℕ → ℕ → Bus → Option (ℕ × Rx × Bus)
service rx max_words time_budget_us h = elim (time_budget_us == 0) [
  | true ↦ service_loop max_words time_budget_us 0 0 rx h
  | false ↦ elim h.clock [
    | [] ↦ none
    | now ∷ later ↦
        service_loop max_words time_budget_us (deadline_us now time_budget_us) 0 rx
          (record h { clock = later })
  ]
]
