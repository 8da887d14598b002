-- ===== src/Firmware/Transfer.antt =====
-- Transfers of words on the bus, with any timing, and what a session of the main loop starts from.
use aer_handshake_firmware.Base.{
  ℕ, suc, ◌+◌, ◌≡◌, ◌≢◌, true, false, List, [], ◌∷◌, ◌++◌, length, All,
}
use aer_handshake_firmware.Ringbuf.Inv.{IsValid}
use aer_handshake_firmware.Ringbuf.Window.{contents}
use aer_handshake_firmware.RxPoll.{Io, read, ack}
use aer_handshake_firmware.RxPoll.Waits.{reads}
use aer_handshake_firmware.Firmware.{Firmware}

-- One word on the bus: the neutral samples before it, the sample at which the main loop sees that
-- DATA is nonzero, the sample that is latched, and the further samples until DATA is neutral again.
pub record Transfer : Type 0 where
  pub idle : List ℕ
  pub seen : ℕ
  pub word : ℕ
  pub held : List ℕ

pub record OnBus (t : Transfer) : Type 0 where
  pub neutral : All (λ x. x ≡ 0) t.idle
  pub valid : t.seen ≢ 0
  pub latched : t.word ≢ 0
  pub until : All (λ x. x ≢ 0) t.held

-- The samples of transfers in order, then `rest`.
abbrev pub samples : List Transfer → List ℕ → List ℕ
samples [] rest = rest
samples (t ∷ ts) rest = t.idle ++ t.seen ∷ (t.word ∷ (t.held ++ 0 ∷ samples ts rest))

abbrev pub words : List Transfer → List ℕ
words [] = []
words (t ∷ ts) = t.word ∷ words ts

-- The passes of the main loop: one for each idle sample, and one for the word.
abbrev pub rounds : List Transfer → ℕ
rounds [] = 0
rounds (t ∷ ts) = length t.idle + suc (rounds ts)

-- Between passes: the ring is valid and empty, and both timeouts are disabled.
pub record Ready {U : Type 0} (s : Firmware U) : Type 0 where
  pub ring_valid : IsValid s.rx.rb
  pub ring_empty : contents s.rx.rb ≡ []
  pub wait_valid : s.rx.wait_valid_timeout_us ≡ 0
  pub wait_neutral : s.rx.wait_neutral_timeout_us ≡ 0

-- The log of a word on the bus, with the neutral samples `before` it that the step reads.
abbrev pub logged_late : ℕ → List ℕ → ℕ → List ℕ → List Io → List Io
logged_late seen before w held log =
    ack false
    ∷ (read 0 ∷ reads held (ack true ∷ (read w ∷ reads before (ack false ∷ (read seen ∷ log)))))

abbrev pub logged : ℕ → ℕ → List ℕ → List Io → List Io
logged seen w held log = logged_late seen [] w held log

-- The log of transfers, after `log`.
abbrev pub history : List Transfer → List Io → List Io
history [] log = log
history (t ∷ ts) log = history ts (logged t.seen t.word t.held (reads t.idle log))

-- `s` with these samples to come.
abbrev pub with_bus : {U : Type 0} → Firmware U → List ℕ → List Io → Firmware U
with_bus s xs log = record s { bus = record { samples = xs; clock = s.bus.clock; log = log } }
