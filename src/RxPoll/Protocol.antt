-- ===== src/RxPoll/Protocol.antt =====
-- The order of samples and ACK in the log of the receiver: README.md section 4.
use aer_handshake_firmware.Base.{
  ℕ, ◌≡◌, ◌≢◌, refl, ◌∙◌, Bool, inl, inr, ◌⊎◌, true, false, some, List, [], ◌∷◌, arith,
}
use aer_handshake_firmware.RxPoll.{
  Bus, Io, read, ack, Wait, got, timed_out, Rx, Status, ok, timeout_wait_valid, wait_for, is_valid,
  is_neutral, write_ack, store, finish, latch, step,
}
use aer_handshake_firmware.RxPoll.Waits.{
  Reads, none_read, one_more, Ended, wait_for-Ended, wait_for_untimed-got,
}
use aer_handshake_firmware.RxPoll.Handshake.{step_inv, latch_inv, store_timeouts}

-- The level that ACK was last driven to.
abbrev pub level : List Io → Bool
level [] = false
level (read _ ∷ log) = level log
level (ack b ∷ log) = b

-- The last thing that passed is a sample of DATA with this property.
abbrev pub LastRead : (ℕ → Type 0) → List Io → Type 0
LastRead P [] = ⊥
LastRead P (read x ∷ log) = P x
LastRead P (ack _ ∷ log) = ⊥

-- ACK rises only from low and right after a valid sample, and falls only right after a neutral one.
abbrev pub FourPhase : List Io → Type 0
FourPhase [] = Unit
FourPhase (read _ ∷ log) = FourPhase log
FourPhase (ack true ∷ log) = (level log ≡ false) × LastRead (λ x. x ≢ 0) log × FourPhase log
FourPhase (ack false ∷ log) = ((level log ≡ false) ⊎ LastRead (λ x. x ≡ 0) log) × FourPhase log

Reads-FourPhase :
    {log log' : List Io}
    → Reads log log'
    → FourPhase log
    → FourPhase log' × (level log' ≡ level log)
Reads-FourPhase (none_read log) p = (p, refl)
Reads-FourPhase (one_more x r) p = Reads-FourPhase r p

Ended-got :
    {stop : ℕ → Bool} {log : List Io} {x : ℕ} {h : Bus} (e : Ended stop log (got x) h)
    → (e.last ≡ x) × (stop e.last ≡ true)
Ended-got e = elim e.how [ inl (w, s) ↦ (cc w, s) | inr (w, s) ↦ absurd (cc w) ]

-- After the latch: ACK rises after the valid sample and falls after the neutral one.
latch-FourPhase :
    (rx : Rx) (x : ℕ) (h h' : Bus) (r : Rx × Status × Bus) (w : Wait)
    → rx.wait_neutral_timeout_us ≡ 0
    → LastRead (λ y. y ≢ 0) h.log
    → FourPhase h.log
    → level h.log ≡ false
    → wait_for is_neutral (store rx x).wait_neutral_timeout_us (write_ack true h) ≡ some (w, h')
    → r ≡ finish (store rx x) w h'
    → FourPhase r.2.log × (level r.2.log ≡ false) × (r.1 ≡ ok)
unfolding write_ack finish
latch-FourPhase rx x h h' r timed_out tn valid p low e q = absurd (
    wait_for_untimed-got is_neutral (store rx x).wait_neutral_timeout_us (write_ack true h)
      timed_out h' ((store_timeouts rx x).1 ∙ tn) e refl)
latch-FourPhase rx x h h' r (got y) tn valid p low e q =
    let timeout = (store rx x).wait_neutral_timeout_us in
    let w = wait_for-Ended is_neutral timeout (write_ack true h) (got y) h' e in
    let (p', _) = Reads-FourPhase w.grown (low, valid, p) in
    let stopped = (Ended-got w).1 in
    let zero_last : w.last ≡ 0 = ground arith in rw (q, w.log_is) ((inr zero_last, p'), refl, refl)

latch_timed_out :
    (rx rx' : Rx) (h h' : Bus) (st : Status)
    → latch rx timed_out h ≡ some (rx', st, h')
    → (h' ≡ h) × (st ≡ timeout_wait_valid)
unfolding latch
latch_timed_out rx rx' h h' st e = ground arith

-- With the neutral timeout disabled and ACK low, a step of the receiver that returns keeps the
-- 4-phase order in the log, whatever the bus does: ACK has risen only from low and right after a
-- valid sample, and has fallen only right after a neutral one. It ends with ACK low, and either
-- with a completed handshake or with the timeout for a valid word.
pub step-FourPhase :
    (rx rx' : Rx) (h h' : Bus) (st : Status)
    → rx.wait_neutral_timeout_us ≡ 0
    → FourPhase h.log
    → level h.log ≡ false
    → step rx h ≡ some (rx', st, h')
    → FourPhase h'.log × (level h'.log ≡ false) × ((st ≡ ok) ⊎ (st ≡ timeout_wait_valid))
unfolding write_ack
step-FourPhase rx rx' h h' st tn p low e =
    let (w, h1, waited, rest) = step_inv rx h (rx', st, h') e in go w h1 waited rest
  where
    go :
        (w : Wait) (h1 : Bus)
        → wait_for is_valid rx.wait_valid_timeout_us (write_ack false h) ≡ some (w, h1)
        → latch rx w h1 ≡ some (rx', st, h')
        → FourPhase h'.log × (level h'.log ≡ false) × ((st ≡ ok) ⊎ (st ≡ timeout_wait_valid))
    go timed_out h1 waited rest =
        let a =
          wait_for-Ended is_valid rx.wait_valid_timeout_us (write_ack false h) timed_out h1
            waited in
        let (p', l') = Reads-FourPhase a.grown (inl low, p) in
        let (same, status) = latch_timed_out rx rx' h1 h' st rest in
        rw (same, a.log_is) (p', l', inr status)
    go (got x) h1 waited rest =
        let a =
          wait_for-Ended is_valid rx.wait_valid_timeout_us (write_ack false h) (got x) h1 waited in
        let (p', l') = Reads-FourPhase a.grown (inl low, p) in
        let stopped = (Ended-got a).1 in
        let nonzero : a.last ≢ 0 = ground arith in
        let (w, h2, waited', r) = latch_inv rx x h1 (rx', st, h') rest in
        let (fp, lv, done) =
          latch-FourPhase rx x h1 h2 (rx', st, h') w tn (rw a.log_is nonzero) (rw a.log_is p')
            (rw a.log_is l') waited' r in
        (fp, lv, inl done)
