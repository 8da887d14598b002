-- ===== src/RxPoll/Latched.antt =====
-- The words that a log shows to have been latched: for each rise of ACK, the sample right before
-- it.

use aer_handshake_firmware.Base.{ℕ, ◌≡◌, refl, ap, true, false, List, [], ◌∷◌, ◌++◌}
use aer_handshake_firmware.RxPoll.{Io, read, ack}
use aer_handshake_firmware.RxPoll.Waits.{reads}
use aer_handshake_firmware.RxPoll.Protocol.{FourPhase, level, LastRead}

-- The sample on top of a log, if there is one.
abbrev pub on_top : List Io → List ℕ
on_top [] = []
on_top (read x ∷ log) = x ∷ []
on_top (ack _ ∷ log) = []

-- In the order of time.
abbrev pub latched : List Io → List ℕ
latched [] = []
latched (read _ ∷ log) = latched log
latched (ack false ∷ log) = latched log
latched (ack true ∷ log) = latched log ++ on_top log

-- Samples change nothing in what a log says.
pub latched-reads : (xs : List ℕ) (log : List Io) → latched (reads xs log) ≡ latched log
latched-reads [] log = refl
latched-reads (x ∷ xs) log = latched-reads xs (read x ∷ log)

pub level-reads : (xs : List ℕ) (log : List Io) → level (reads xs log) ≡ level log
level-reads [] log = refl
level-reads (x ∷ xs) log = level-reads xs (read x ∷ log)

pub reads-FourPhase : (xs : List ℕ) (log : List Io) → FourPhase log → FourPhase (reads xs log)
reads-FourPhase [] log h = h
reads-FourPhase (x ∷ xs) log h = reads-FourPhase xs (read x ∷ log) h

pub on_top-LastRead : (log : List Io) (w : ℕ) → LastRead (λ x. x ≡ w) log → on_top log ≡ w ∷ []
on_top-LastRead [] w h = absurd h
on_top-LastRead (read x ∷ log) w h = ap (λ y. y ∷ []) h
on_top-LastRead (ack _ ∷ log) w h = absurd h
