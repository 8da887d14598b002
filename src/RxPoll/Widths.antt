-- ===== src/RxPoll/Widths.antt =====
-- The receiver's state stays within its C types, whatever the bus, the timer and the timeouts are.
use aer_handshake_firmware.Base.{
  ℕ, ◌^◌, ◌<◌, ◌≡◌, refl, true, false, sym, subst, Bool-cases, inl, inr, some, All, arith,
}
use aer_handshake_firmware.Ringbuf.{is_full}
use aer_handshake_firmware.Ringbuf.Inv.{IsValid, push-IsValid}
use aer_handshake_firmware.Ringbuf.Widths.{Word, Words, push-Words}
use aer_handshake_firmware.RxPoll.{
  Rx, Stats, Bus, Wait, got, timed_out, Status, is_valid, is_neutral, write_ack, store, finish,
  latch, step, timeout_wait_valid,
}
use aer_handshake_firmware.RxPoll.Timeouts.{late_valid}
use aer_handshake_firmware.RxPoll.Took.{Took, wait_for-Took, Took-All, Took-rest}
use aer_handshake_firmware.RxPoll.Handshake.{step_inv, latch_inv}

-- The counters are 32-bit numbers.
pub record Counters (st : Stats) : Type 0 where
  pub words_ok : st.words_ok < 2 ^ 32
  pub dropped_full : st.dropped_full < 2 ^ 32
  pub timeouts_valid : st.timeouts_valid < 2 ^ 32
  pub timeouts_neutral : st.timeouts_neutral < 2 ^ 32

-- The ring is valid, and its words and the counters are 32-bit numbers.
pub record InWidth (rx : Rx) : Type 0 where
  pub ring : IsValid rx.rb
  pub words : Words rx.rb
  pub counters : Counters rx.stats

store-InWidth : (rx : Rx) (w : ℕ) → InWidth rx → Word w → InWidth (store rx w)
unfolding store
store-InWidth rx w v h = elim (Bool-cases (is_full rx.rb)) [
  | inl full ↦
      rw full
        (record { ring = v.ring; words = v.words; counters = let c = v.counters in ground arith })
  | inr room ↦ rw room (record {
    ring = push-IsValid rx.rb w v.ring;
    words = push-Words rx.rb w v.words h;
    counters = v.counters;
  })
]

finish-InWidth : (rx : Rx) (w : Wait) (h : Bus) → InWidth rx → InWidth (finish rx w h).0
unfolding finish
finish-InWidth rx timed_out h v = record {
  ring = v.ring;
  words = v.words;
  counters = let c = v.counters in ground arith;
}
finish-InWidth rx (got x) h v = record {
  ring = v.ring;
  words = v.words;
  counters = let c = v.counters in ground arith;
}

finish-samples : (rx : Rx) (w : Wait) (h : Bus) → (finish rx w h).2.samples ≡ h.samples
unfolding finish write_ack
finish-samples rx timed_out h = refl
finish-samples rx (got x) h = refl

-- What a step returns on a bus of 32-bit words.
abbrev pub Sound : Rx × Status × Bus → Type 0
Sound r = InWidth r.0 × All Word r.2.samples

latch-Sound :
    (rx : Rx) (w : Wait) (h : Bus) (r : Rx × Status × Bus)
    → latch rx w h ≡ some r
    → InWidth rx
    → ((x : ℕ) → w ≡ got x → Word x)
    → All Word h.samples
    → Sound r
unfolding latch write_ack
latch-Sound rx timed_out h r e v word a =
    let same : (late_valid rx, timeout_wait_valid, h) ≡ r = cc in
    subst Sound same
      (record { ring = v.ring; words = v.words; counters = let c = v.counters in ground arith }, a)
latch-Sound rx (got x) h r e v word a =
    let (w, h', waited, same) = latch_inv rx x h r e in
    let stored = store-InWidth rx x v (word x refl) in
    subst Sound (sym same) (
      finish-InWidth (store rx x) w h' stored,
      subst (All Word) (sym (finish-samples (store rx x) w h')) (
          Took-rest Word h.samples w h'
            (wait_for-Took is_neutral (store rx x).wait_neutral_timeout_us (write_ack true h) w h'
              waited)
            a),
    )

-- From a state within its C types, on a bus of 32-bit words, whatever the timer and the timeouts
-- are: a step that returns leaves the state within its C types, with 32-bit words still to come.
pub step-Sound :
    (rx : Rx) (h : Bus) (r : Rx × Status × Bus)
    → step rx h ≡ some r
    → InWidth rx
    → All Word h.samples
    → Sound r
unfolding write_ack
step-Sound rx h r e v a =
    let (w, h', waited, rest) = step_inv rx h r e in
    let took = wait_for-Took is_valid rx.wait_valid_timeout_us (write_ack false h) w h' waited in
    latch-Sound rx w h' r rest v
      (λ x is_x. (Took-All Word h.samples x h' (subst (λ y. Took h.samples y h') is_x took) a).0)
      (Took-rest Word h.samples w h' took a)
