-- ===== src/Firmware/Logs.antt =====
-- The log between two passes of the main loop, and what a pass adds to it.

use aer_handshake_firmware.Base.{
  ℕ, ◌≡◌, ◌≢◌, refl, ap, ◌∙◌, inl, inr, List, [], ◌∷◌, ◌++◌, true, false,
}
use aer_handshake_firmware.RxPoll.{Io, read, ack}
use aer_handshake_firmware.RxPoll.Waits.{reads}
use aer_handshake_firmware.RxPoll.Protocol.{FourPhase, level}
use aer_handshake_firmware.RxPoll.Latched.{latched, latched-reads, level-reads, reads-FourPhase}
use aer_handshake_firmware.Firmware.{Firmware}
use aer_handshake_firmware.Firmware.Transfer.{Ready, logged_late, with_bus}

-- A log of the 4-phase protocol that ends with ACK low.
pub record Between (log : List Io) : Type 0 where
  pub ordered : FourPhase log
  pub low : level log ≡ false

-- The log of a pass that sees a word: the word has been latched.
pub logged_late-Between :
    (seen : ℕ) (before : List ℕ) (w : ℕ) (held : List ℕ) (log : List Io)
    → w ≢ 0
    → Between log
    → Between (logged_late seen before w held log)
logged_late-Between seen before w held log nz b =
    let start : List Io = ack false ∷ (read seen ∷ log) in
    let up : List Io = ack true ∷ (read w ∷ reads before start) in
    record {
      ordered = (
        inr refl,
        reads-FourPhase held up
            (level-reads before start, nz, reads-FourPhase before start (inl b.low, b.ordered)),
      );
      low = refl;
    }

pub latched-logged_late :
    (seen : ℕ) (before : List ℕ) (w : ℕ) (held : List ℕ) (log : List Io)
    → latched (logged_late seen before w held log) ≡ latched log ++ w ∷ []
latched-logged_late seen before w held log =
    latched-reads held (ack true ∷ (read w ∷ reads before (ack false ∷ (read seen ∷ log))))
    ∙ ap (λ l. l ++ w ∷ []) (latched-reads before (ack false ∷ (read seen ∷ log)))

pub with_bus-Ready :
    {U : Type 0} (s : Firmware U) (xs : List ℕ) (log : List Io)
    → Ready s
    → Ready (with_bus s xs log)
with_bus-Ready s xs log r = record {
  ring_valid = r.ring_valid;
  ring_empty = r.ring_empty;
  wait_valid = r.wait_valid;
  wait_neutral = r.wait_neutral;
}

pub reading : (x : ℕ) (log : List Io) → Between log → Between (read x ∷ log)
reading x log b = record { ordered = b.ordered; low = b.low }
