-- ===== src/Firmware/Conforming.antt =====
-- Transfers that the transmitter of README.md section 4 can have made.
use aer_handshake_firmware.Base.{ℕ, ◌≡◌, ◌≢◌, refl, true, false, List, [], ◌∷◌, ◌++◌, All, Bool}
use aer_handshake_firmware.RxPoll.{Io, read}
use aer_handshake_firmware.RxPoll.Waits.{reads}
use aer_handshake_firmware.RxPoll.Transmitter.{
  Phase, ready, driving, cleared, level_of, Run, drive, clear, rest, sampled, driven,
}
use aer_handshake_firmware.Firmware.Transfer.{Transfer, words, history, logged}

-- The word is all that is seen until DATA is neutral again.
pub record Clean (t : Transfer) : Type 0 where
  pub neutral : All (λ x. x ≡ 0) t.idle
  pub valid : t.word ≢ 0
  pub seen : t.seen ≡ t.word
  pub held : All (λ x. x ≡ t.word) t.held

reads-Run :
    {sent : List ℕ} (xs : List ℕ) (log : List Io) (phase : Phase) (acked : Bool) (left : List ℕ)
    → All (λ x. x ≡ level_of phase) xs
    → Run sent log phase acked left
    → Run sent (reads xs log) phase acked left
reads-Run [] log phase acked left h r = r
reads-Run (x ∷ xs) log phase acked left h r =
    reads-Run xs (read x ∷ log) phase acked left h.1 (sampled phase acked left x h.0 r)

transfer-Run :
    {sent : List ℕ} (t : Transfer) (log : List Io) (left : List ℕ)
    → Clean t
    → Run sent log ready false (t.word ∷ left)
    → Run sent (logged t.seen t.word t.held (reads t.idle log)) ready false left
transfer-Run t log left c r =
    let w = t.word in
    let before = reads-Run t.idle log ready false (w ∷ left) c.neutral r in
    let seen = sampled (driving w) false left t.seen c.seen (drive w left c.valid before) in
    let latched =
      sampled (driving w) false left w refl (driven (driving w) false false left seen) in
    let acked = driven (driving w) false true left latched in
    let held = reads-Run t.held _ (driving w) true left c.held acked in
    let neutral = sampled cleared true left 0 refl (clear w left held) in
    rest left (driven cleared true false left neutral)

-- Any transfers of that kind, with any timing.
pub history-Run :
    {sent : List ℕ} (ts : List Transfer) (log : List Io) (left : List ℕ)
    → All Clean ts
    → Run sent log ready false (words ts ++ left)
    → Run sent (history ts log) ready false left
history-Run [] log left c r = r
history-Run (t ∷ ts) log left c r =
    history-Run ts (logged t.seen t.word t.held (reads t.idle log)) left c.1
      (transfer-Run t log (words ts ++ left) c.0 r)
