-- ===== src/RxPoll/Handshake.antt =====
-- One handshake of `aer_rx_poll_step` on a bus that behaves, and on one that stays valid too long.
use aer_handshake_firmware.Base.{
  ℕ, ◌+◌, ◌≡◌, ◌≢◌, refl, ap, sym, ◌∙◌, true, false, Option, none, some, List, [], ◌∷◌, ◌++◌, All,
  u32, arith,
}
use aer_handshake_firmware.RxPoll.{
  Bus, Io, read, ack, Wait, got, Rx, Status, ok, wait_for, is_valid, is_neutral, write_ack, store,
  finish, latch, step,
}
use aer_handshake_firmware.RxPoll.Waits.{reads, wait_for_untimed}

-- The two stages of a step.
pub step_wait :
    (rx : Rx) (h h' : Bus) (w : Wait)
    → wait_for is_valid rx.wait_valid_timeout_us (write_ack false h) ≡ some (w, h')
    → step rx h ≡ latch rx w h'
unfolding step
step_wait rx h h' w e = rw (e, step)

pub latch_wait :
    (rx : Rx) (word : ℕ) (h h' : Bus) (w : Wait)
    → wait_for is_neutral (store rx word).wait_neutral_timeout_us (write_ack true h) ≡ some (w, h')
    → latch rx (got word) h ≡ some (finish (store rx word) w h')
unfolding latch
latch_wait rx word h h' w e = rw (e, latch)

-- The stages of a step that returns.
pub step_inv :
    (rx : Rx) (h : Bus) (r : Rx × Status × Bus)
    → step rx h ≡ some r
    → (w : Wait) × (h' : Bus) × (wait_for is_valid rx.wait_valid_timeout_us (write_ack false h)
        ≡ some (w, h'))
      × (latch rx w h' ≡ some r)
unfolding step
step_inv rx h r e = go (wait_for is_valid rx.wait_valid_timeout_us (write_ack false h)) refl
  where
    go :
        (o : Option (Wait × Bus))
        → wait_for is_valid rx.wait_valid_timeout_us (write_ack false h) ≡ o
        → (w : Wait) × (h' : Bus) × (wait_for is_valid rx.wait_valid_timeout_us (write_ack false h)
            ≡ some (w, h'))
          × (latch rx w h' ≡ some r)
    go none q = absurd (let z = rw (q, step) at e in cc)
    go (some (w, h')) q = (w, h', q, sym (step_wait rx h h' w q) ∙ e)

pub latch_inv :
    (rx : Rx) (word : ℕ) (h : Bus) (r : Rx × Status × Bus)
    → latch rx (got word) h ≡ some r
    → (w : Wait) × (h' : Bus) × (wait_for is_neutral
          (store rx word).wait_neutral_timeout_us
          (write_ack true h)
        ≡ some (w, h'))
      × (r ≡ finish (store rx word) w h')
unfolding latch
latch_inv rx word h r e =
    go (wait_for is_neutral (store rx word).wait_neutral_timeout_us (write_ack true h)) refl
  where
    go :
        (o : Option (Wait × Bus))
        → wait_for is_neutral (store rx word).wait_neutral_timeout_us (write_ack true h) ≡ o
        → (w : Wait) × (h' : Bus) × (wait_for is_neutral
              (store rx word).wait_neutral_timeout_us
              (write_ack true h)
            ≡ some (w, h'))
          × (r ≡ finish (store rx word) w h')
    go none q = absurd (let z = rw (q, latch) at e in cc)
    go (some (w, h')) q = (w, h', q, cc (sym e ∙ latch_wait rx word h h' w q))

pub store_timeouts :
    (rx : Rx) (word : ℕ)
    → ((store rx word).wait_valid_timeout_us ≡ rx.wait_valid_timeout_us)
      × ((store rx word).wait_neutral_timeout_us ≡ rx.wait_neutral_timeout_us)
unfolding store
store_timeouts rx word = ground arith

pub is_valid_skip : (xs : List ℕ) → All (λ x. x ≡ 0) xs → All (λ x. is_valid x ≡ false) xs
is_valid_skip [] h = tt
is_valid_skip (x ∷ xs) h = (let e = h.0 in ground arith, is_valid_skip xs h.1)

pub is_neutral_skip : (xs : List ℕ) → All (λ x. x ≢ 0) xs → All (λ x. is_neutral x ≡ false) xs
is_neutral_skip [] h = tt
is_neutral_skip (x ∷ xs) h = (let ne = h.0 in ground arith, is_neutral_skip xs h.1)

-- The stats with one more completed handshake.
abbrev pub done : Rx → Rx
done rx = record rx { stats = record rx.stats { words_ok = u32 (rx.stats.words_ok + 1) } }

pub step_handshake :
    (rx : Rx) (idle held : List ℕ) (w : ℕ) (rest clock : List ℕ) (log : List Io)
    → rx.wait_valid_timeout_us ≡ 0
    → rx.wait_neutral_timeout_us ≡ 0
    → All (λ x. x ≡ 0) idle
    → w ≢ 0
    → All (λ x. x ≢ 0) held
    → step rx (record { samples = idle ++ w ∷ (held ++ 0 ∷ rest); clock = clock; log = log })
      ≡ some (
        done (store rx w),
        ok,
        record {
          samples = rest;
          clock = clock;
          log = ack false ∷ read 0 ∷ reads held (ack true ∷ read w ∷ reads idle (ack false ∷ log));
        },
      )
unfolding finish write_ack
step_handshake rx idle held w rest clock log tv tn hi hw hh =
    let start : Bus = record {
      samples = idle ++ w ∷ (held ++ 0 ∷ rest);
      clock = clock;
      log = log;
    } in
    let latched : Bus = record {
      samples = held ++ 0 ∷ rest;
      clock = clock;
      log = read w ∷ reads idle (ack false ∷ log);
    } in
    let neutral : Bus = record {
      samples = rest;
      clock = clock;
      log = read 0 ∷ reads held (ack true ∷ read w ∷ reads idle (ack false ∷ log));
    } in
    step_wait rx start latched (got w) (
      ap (λ t. wait_for is_valid t (write_ack false start)) tv
      ∙ wait_for_untimed is_valid idle w (held ++ 0 ∷ rest) clock (ack false ∷ log)
          (is_valid_skip idle hi) (ground arith))
    ∙ latch_wait rx w latched neutral (got 0) (
        ap (λ t. wait_for is_neutral t (write_ack true latched)) ((store_timeouts rx w).1 ∙ tn)
        ∙ wait_for_untimed is_neutral held 0 rest clock
            (ack true ∷ read w ∷ reads idle (ack false ∷ log)) (is_neutral_skip held hh) refl)
