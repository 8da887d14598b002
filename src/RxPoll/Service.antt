-- ===== src/RxPoll/Service.antt =====
-- `aer_rx_poll_service`: its count, and what it does on a bus that behaves.
use aer_handshake_firmware.Base.{ℕ, ◌+◌, ◌≤◌, ◌<◌, ◌^◌, ◌≡◌, Option, some, u32}
use aer_handshake_firmware.RxPoll.{Bus, Rx, Status, ok}

-- Whether a step has completed a handshake.
abbrev completed : Status → ℕ
completed ok = 1
completed _ = 0

-- The step counts what it reports.
abbrev Counted : Rx → Rx × Status × Bus → Type 0
Counted rx r = r.0.stats.words_ok ≡ u32 (rx.stats.words_ok + completed r.1)

-- The count, and the growth of the statistics, from `count` on with `n` words to go.
record Served (n count : ℕ) (rx : Rx) (k : ℕ) (rx' : Rx) : Type 0 where
  pub from : count ≤ k
  pub to : k ≤ count + n
  pub counted : u32 (rx'.stats.words_ok + count) ≡ u32 (rx.stats.words_ok + k)
  pub word : rx'.stats.words_ok < 2 ^ 32

abbrev returns : ℕ → Rx → Bus → Option (ℕ × Rx × Bus)
returns k rx h = some (k, rx, h)
