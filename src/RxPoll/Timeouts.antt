-- ===== src/RxPoll/Timeouts.antt =====
-- `aer_rx_poll_step` on a bus that does not become valid, or neutral, in time.
use aer_handshake_firmware.Base.{
  ℕ, ◌+◌, ◌≡◌, ◌≢◌, ◌∙◌, Bool, true, false, some, List, [], ◌∷◌, ◌++◌, All, ◌==◌, u32, arith,
}
use aer_handshake_firmware.Hal.Time.{deadline_us, expired}
use aer_handshake_firmware.RxPoll.{
  Io, read, ack, timed_out, Rx, timeout_wait_valid, poll, wait_timed, wait_for, is_valid, write_ack,
  latch, step,
}
use aer_handshake_firmware.RxPoll.Waits.{reads, poll_again, poll-expired}
use aer_handshake_firmware.RxPoll.Handshake.{step_wait}

-- A round of a wait: the sample and the time that it reads.
pub record Round : Type 0 where
  pub sample : ℕ
  pub now : ℕ

abbrev pub samples_of : List Round → List ℕ
samples_of [] = []
samples_of (r ∷ rs) = r.sample ∷ samples_of rs

abbrev pub times_of : List Round → List ℕ
times_of [] = []
times_of (r ∷ rs) = r.now ∷ times_of rs

-- A round that goes on.
abbrev pub Waits : (ℕ → Bool) → ℕ → Round → Type 0
Waits stop deadline r = (stop r.sample ≡ false) × (expired r.now deadline ≡ false)

poll_rounds :
    (stop : ℕ → Bool) (timeout deadline : ℕ) (rs : List Round) (last : Round) (rest later : List ℕ)
    (log : List Io)
    → timeout ≢ 0
    → All (Waits stop deadline) rs
    → stop last.sample ≡ false
    → expired last.now deadline ≡ true
    → poll stop timeout deadline
        (samples_of rs ++ last.sample ∷ rest)
        (times_of rs ++ last.now ∷ later)
        log
      ≡ some (
        timed_out,
        record {
          samples = rest;
          clock = later;
          log = read last.sample ∷ reads (samples_of rs) log;
        },
      )
poll_rounds stop timeout deadline [] last rest later log timed go still over =
    poll-expired stop timeout deadline last.sample rest log last.now later still timed over
poll_rounds stop timeout deadline (r ∷ rs) last rest later log timed go still over =
    poll_again stop timeout deadline r.sample (samples_of rs ++ last.sample ∷ rest) log r.now
      (times_of rs ++ last.now ∷ later) go.0.0 timed go.0.1
    ∙ poll_rounds stop timeout deadline rs last rest later (read r.sample ∷ log) timed go.1 still
        over

wait_for_rounds :
    (stop : ℕ → Bool) (timeout start : ℕ) (rs : List Round) (last : Round) (rest later : List ℕ)
    (log : List Io)
    → timeout ≢ 0
    → All (Waits stop (deadline_us start timeout)) rs
    → stop last.sample ≡ false
    → expired last.now (deadline_us start timeout) ≡ true
    → wait_for stop timeout (record {
      samples = samples_of rs ++ last.sample ∷ rest;
      clock = start ∷ times_of rs ++ last.now ∷ later;
      log = log;
    })
      ≡ some (
        timed_out,
        record {
          samples = rest;
          clock = later;
          log = read last.sample ∷ reads (samples_of rs) log;
        },
      )
unfolding wait_for wait_timed
wait_for_rounds stop timeout start rs last rest later log timed go still over =
    let t : (timeout == 0) ≡ false = ground arith in
    rw (t, wait_for)
      (poll_rounds stop timeout (deadline_us start timeout) rs last rest later log timed go still
        over)

abbrev pub late_valid : Rx → Rx
late_valid rx = record rx {
  stats = record rx.stats { timeouts_valid = u32 (rx.stats.timeouts_valid + 1) };
}

abbrev pub late_neutral : Rx → Rx
late_neutral rx = record rx {
  stats = record rx.stats { timeouts_neutral = u32 (rx.stats.timeouts_neutral + 1) };
}

-- With a timeout for a valid word, on a bus that is neutral at each sample up to the first at which
-- the deadline has expired, a step counts the timeout, reports it, stores nothing and leaves ACK
-- low.
pub step_timeout_valid :
    (rx : Rx) (start : ℕ) (rs : List Round) (last : Round) (rest later : List ℕ) (log : List Io)
    → rx.wait_valid_timeout_us ≢ 0
    → All (Waits is_valid (deadline_us start rx.wait_valid_timeout_us)) rs
    → last.sample ≡ 0
    → expired last.now (deadline_us start rx.wait_valid_timeout_us) ≡ true
    → step rx (record {
      samples = samples_of rs ++ last.sample ∷ rest;
      clock = start ∷ times_of rs ++ last.now ∷ later;
      log = log;
    })
      ≡ some (
        late_valid rx,
        timeout_wait_valid,
        record {
          samples = rest;
          clock = later;
          log = read last.sample ∷ reads (samples_of rs) (ack false ∷ log);
        },
      )
unfolding latch write_ack
step_timeout_valid rx start rs last rest later log timed go idle over = step_wait rx _ _ timed_out (
    wait_for_rounds is_valid rx.wait_valid_timeout_us start rs last rest later (ack false ∷ log)
      timed go (ground arith) over)
