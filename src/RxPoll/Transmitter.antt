-- ===== src/RxPoll/Transmitter.antt =====
-- The transmitter of README.md section 4, as the receiver meets it: it drives a word where ACK is
-- low, holds it until it sees ACK high, returns DATA to neutral, and goes on when ACK is low again.
-- Its moves come at any time between two samples.
use aer_handshake_firmware.Base.{
  ℕ, ◌≡◌, ◌≢◌, refl, ap, ◌∙◌, sym, Bool, inl, inr, ◌⊎◌, true, false, List, [], ◌∷◌, ◌++◌,
  append_assoc,
}
use aer_handshake_firmware.RxPoll.{Io, read, ack}
use aer_handshake_firmware.RxPoll.Protocol.{FourPhase, level, LastRead}
use aer_handshake_firmware.RxPoll.Latched.{latched, on_top-LastRead}

-- What it drives: nothing and ready to send, a word, or nothing until ACK is low.
pub data Phase : Type 0 where
  ready : Phase
  driving : ℕ → Phase
  cleared : Phase

abbrev pub level_of : Phase → ℕ
level_of ready = 0
level_of (driving w) = w
level_of cleared = 0

-- `Run sent log phase acked left`: of the words `sent`, those in `left` have not been driven yet,
-- ACK is at `acked`, and what has passed on the bus is `log`.
pub data Run (sent : List ℕ) : List Io → Phase → Bool → List ℕ → Type 0 where
  begin : Run sent [] ready false sent
  drive :
      {log : List Io} (w : ℕ) (left : List ℕ)
      → w ≢ 0
      → Run sent log ready false (w ∷ left)
      → Run sent log (driving w) false left
  clear :
      {log : List Io} (w : ℕ) (left : List ℕ)
      → Run sent log (driving w) true left
      → Run sent log cleared true left
  rest :
      {log : List Io} (left : List ℕ)
      → Run sent log cleared false left
      → Run sent log ready false left
  sampled :
      {log : List Io} (phase : Phase) (acked : Bool) (left : List ℕ) (x : ℕ)
      → x ≡ level_of phase
      → Run sent log phase acked left
      → Run sent (read x ∷ log) phase acked left
  driven :
      {log : List Io} (phase : Phase) (acked level : Bool) (left : List ℕ)
      → Run sent log phase acked left
      → Run sent (ack level ∷ log) phase level left

-- The words that have been driven or are still to be, and have not been acknowledged.
abbrev pub unsent : Phase → Bool → List ℕ → List ℕ
unsent (driving w) false left = w ∷ left
unsent _ _ left = left

abbrev Valid : List Io → Type 0
Valid log = LastRead (λ x. x ≢ 0) log

-- What the phase and ACK say of the last sample.
abbrev Agrees : Phase → Bool → List Io → Type 0
Agrees ready false log = ¬ Valid log
Agrees ready true log = ⊥
Agrees (driving w) false log = (w ≢ 0) × (Valid log → LastRead (λ x. x ≡ w) log)
Agrees (driving w) true log = (w ≢ 0) × (¬ LastRead (λ x. x ≡ 0) log)
Agrees cleared false log = ¬ Valid log
Agrees cleared true log = Unit

record Kept (sent : List ℕ) (log : List Io) (phase : Phase) (acked : Bool) (left : List ℕ)
    : Type 0 where
  acked_is : level log ≡ acked
  words : sent ≡ latched log ++ unsent phase acked left
  agrees : Agrees phase acked log

-- ACK rises while a word is driven, and that word is the one that has been sampled.
raised-Kept :
    {sent : List ℕ} {log : List Io} (phase : Phase) (acked : Bool) (left : List ℕ)
    → level log ≡ false
    → Valid log
    → Kept sent log phase acked left
    → Kept sent (ack true ∷ log) phase true left
raised-Kept ready false left low valid k = absurd (k.agrees valid)
raised-Kept ready true left low valid k = absurd (k.agrees)
raised-Kept {sent} {log} (driving w) false left low valid k = record {
  acked_is = refl;
  words =
      k.words
      ∙ sym (append_assoc (latched log) (w ∷ []) left)
      ∙ ap (λ l. (latched log ++ l) ++ left) (sym (on_top-LastRead log w (k.agrees.1 valid)));
  agrees = (k.agrees.0, λ h. h);
}
raised-Kept (driving w) true left low valid k = absurd (let e = k.acked_is in cc)
raised-Kept cleared false left low valid k = absurd (k.agrees valid)
raised-Kept cleared true left low valid k = absurd (let e = k.acked_is in cc)

-- ACK falls only where DATA has been cleared.
lowered-Kept :
    {sent : List ℕ} {log : List Io} (phase : Phase) (acked : Bool) (left : List ℕ)
    → (level log ≡ false) ⊎ LastRead (λ x. x ≡ 0) log
    → Kept sent log phase acked left
    → Kept sent (ack false ∷ log) phase false left
lowered-Kept ready false left how k = record { acked_is = refl; words = k.words; agrees = λ h. h }
lowered-Kept ready true left how k = absurd (k.agrees)
lowered-Kept (driving w) false left how k = record {
  acked_is = refl;
  words = k.words;
  agrees = (k.agrees.0, λ h. absurd h);
}
lowered-Kept (driving w) true left (inl low) k = absurd (let e = k.acked_is in cc)
lowered-Kept (driving w) true left (inr zero_last) k = absurd (k.agrees.1 zero_last)
lowered-Kept cleared false left how k = record { acked_is = refl; words = k.words; agrees = λ h. h }
lowered-Kept cleared true left how k = record { acked_is = refl; words = k.words; agrees = λ h. h }

-- A sample of what is driven.
sampled-Agrees :
    (log : List Io) (phase : Phase) (acked : Bool) (x : ℕ)
    → x ≡ level_of phase
    → Agrees phase acked log
    → Agrees phase acked (read x ∷ log)
sampled-Agrees log ready false x e a = λ nz. nz e
sampled-Agrees log ready true x e a = a
sampled-Agrees log (driving w) false x e a = (a.0, λ _. e)
sampled-Agrees log (driving w) true x e a = (a.0, λ z. a.0 (sym e ∙ z))
sampled-Agrees log cleared false x e a = λ nz. nz e
sampled-Agrees log cleared true x e a = tt

-- By the moves of the transmitter and the receiver.
Run-Kept :
    {sent : List ℕ} {log : List Io} {phase : Phase} {acked : Bool} {left : List ℕ}
    → Run sent log phase acked left
    → FourPhase log
    → Kept sent log phase acked left
Run-Kept begin p = record { acked_is = refl; words = refl; agrees = λ h. h }
Run-Kept (drive w left nz r) p =
    let k = Run-Kept r p in
    record {
      acked_is = k.acked_is;
      words = k.words;
      agrees = (nz, λ valid. absurd (k.agrees valid));
    }
Run-Kept (clear w left r) p =
    let k = Run-Kept r p in record { acked_is = k.acked_is; words = k.words; agrees = tt }
Run-Kept (rest left r) p =
    let k = Run-Kept r p in record { acked_is = k.acked_is; words = k.words; agrees = k.agrees }
Run-Kept (sampled phase acked left x e r) p =
    let k = Run-Kept r p in
    record {
      acked_is = k.acked_is;
      words = k.words;
      agrees = sampled-Agrees _ phase acked x e k.agrees;
    }
Run-Kept (driven phase acked true left r) p = raised-Kept phase acked left p.0 p.1 (Run-Kept r p.2)
Run-Kept (driven phase acked false left r) p = lowered-Kept phase acked left p.0 (Run-Kept r p.1)

-- Whatever the timing: where the log of a receiver that keeps the 4-phase order is one that the
-- transmitter can have met, the words latched are those that it has sent and that have been
-- acknowledged, each once and in order.
pub latched-Run :
    {sent : List ℕ} {log : List Io} {phase : Phase} {acked : Bool} {left : List ℕ}
    → Run sent log phase acked left
    → FourPhase log
    → sent ≡ latched log ++ unsent phase acked left
latched-Run r p = (Run-Kept r p).words
