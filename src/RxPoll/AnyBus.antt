-- ===== src/RxPoll/AnyBus.antt =====
-- `aer_rx_poll_step` with both timeouts disabled, on any samples: either they hold a whole
-- handshake, or they end before one is complete.
use aer_handshake_firmware.Base.{
  ℕ, ◌≡◌, ◌≢◌, refl, ◌∙◌, ap, Bool, Bool-cases, inl, inr, true, false, none, List, [], ◌∷◌, ◌++◌,
  All, All-map, arith,
}
use aer_handshake_firmware.RxPoll.{
  Bus, Io, read, ack, got, Rx, poll, wait_for, is_valid, is_neutral, write_ack, store, latch, step,
}
use aer_handshake_firmware.RxPoll.Waits.{reads, poll_untimed, wait_for_untimed}
use aer_handshake_firmware.RxPoll.Handshake.{
  step_wait, store_timeouts, is_valid_skip, is_neutral_skip,
}

-- Where a test first holds in a list.
data Stops (stop : ℕ → Bool) : List ℕ → Type 0 where
  never : {xs : List ℕ} → All (λ x. stop x ≡ false) xs → Stops stop xs
  first :
      {xs : List ℕ} (skipped : List ℕ) (x : ℕ) (rest : List ℕ)
      → xs ≡ skipped ++ x ∷ rest
      → All (λ y. stop y ≡ false) skipped
      → stop x ≡ true
      → Stops stop xs

stops : (stop : ℕ → Bool) (xs : List ℕ) → Stops stop xs
stops stop [] = never tt
stops stop (x ∷ xs) = elim (Bool-cases (stop x)) [
  | inl s ↦ first [] x xs refl tt s
  | inr s ↦ elim (stops stop xs) [
    | never all ↦ never (s, all)
    | first skipped y rest e all t ↦ first (x ∷ skipped) y rest (ap (λ l. x ∷ l) e) (s, all) t
  ]
]

-- Samples that end before a handshake is complete: neutral all along, or still valid at the end.
pub data Cut : List ℕ → Type 0 where
  no_word : {xs : List ℕ} → All (λ x. x ≡ 0) xs → Cut xs
  still_valid :
      {xs : List ℕ} (idle : List ℕ) (w : ℕ) (held : List ℕ)
      → xs ≡ idle ++ w ∷ held
      → All (λ x. x ≡ 0) idle
      → w ≢ 0
      → All (λ x. x ≢ 0) held
      → Cut xs

-- Any samples end before a handshake is complete, or hold a whole one.
pub data Shape : List ℕ → Type 0 where
  cut : {xs : List ℕ} → Cut xs → Shape xs
  whole :
      {xs : List ℕ} (idle : List ℕ) (w : ℕ) (held rest : List ℕ)
      → xs ≡ idle ++ w ∷ (held ++ 0 ∷ rest)
      → All (λ x. x ≡ 0) idle
      → w ≢ 0
      → All (λ x. x ≢ 0) held
      → Shape xs

is_valid-false : (x : ℕ) → is_valid x ≡ false → x ≡ 0
is_valid-false x h = ground arith

is_neutral-false : (x : ℕ) → is_neutral x ≡ false → x ≢ 0
is_neutral-false x h = ground arith

pub shape : (xs : List ℕ) → Shape xs
shape xs = elim (stops is_valid xs) [
  | never all ↦ cut (no_word (All-map _ _ xs is_valid-false all))
  | first idle w later e all t ↦
      let zeros = All-map _ _ idle is_valid-false all in
      let nonzero : w ≢ 0 = ground arith in
      elim (stops is_neutral later) [
        | never on ↦
            cut (still_valid idle w later e zeros nonzero (All-map _ _ later is_neutral-false on))
        | first held z rest f on s ↦
            let zero_last : z ≡ 0 = ground arith in
            whole idle w held rest
              (e ∙ ap (λ l. idle ++ w ∷ l) (f ∙ ap (λ k. held ++ k ∷ rest) zero_last)) zeros nonzero
              (All-map _ _ held is_neutral-false on)
      ]
]

-- A wait without a timeout that meets no sample that stops it does not end.
wait_for-none :
    (stop : ℕ → Bool) (xs clock : List ℕ) (log : List Io)
    → All (λ x. stop x ≡ false) xs
    → wait_for stop 0 (record { samples = xs; clock = clock; log = log }) ≡ none
unfolding wait_for poll
wait_for-none stop xs clock log all = loop xs log all
  where
    loop :
        (ys : List ℕ) (l : List Io) → All (λ x. stop x ≡ false) ys → poll stop 0 0 ys clock l ≡ none
    loop [] l p = refl
    loop (y ∷ ys) l p = poll_untimed stop 0 0 y ys l clock p.0 refl ∙ loop ys (read y ∷ l) p.1

step-none :
    (rx : Rx) (h : Bus)
    → wait_for is_valid rx.wait_valid_timeout_us (write_ack false h) ≡ none
    → step rx h ≡ none
unfolding step
step-none rx h e = rw (e, step) refl

latch-none :
    (rx : Rx) (word : ℕ) (h : Bus)
    → wait_for is_neutral (store rx word).wait_neutral_timeout_us (write_ack true h) ≡ none
    → latch rx (got word) h ≡ none
unfolding latch
latch-none rx word h e = rw (e, latch) refl

-- On samples that end too early a step still polls where they end.
pub step-Cut :
    (rx : Rx) (xs clock : List ℕ) (log : List Io)
    → rx.wait_valid_timeout_us ≡ 0
    → rx.wait_neutral_timeout_us ≡ 0
    → Cut xs
    → step rx (record { samples = xs; clock = clock; log = log }) ≡ none
unfolding write_ack
step-Cut rx xs clock log tv tn (no_word zeros) =
    let start : Bus = record { samples = xs; clock = clock; log = log } in
    step-none rx start (
      ap (λ t. wait_for is_valid t (write_ack false start)) tv
      ∙ wait_for-none is_valid xs clock (ack false ∷ log) (is_valid_skip xs zeros))
step-Cut rx xs clock log tv tn (still_valid idle w held e zeros nonzero on) =
    let start : Bus = record { samples = idle ++ w ∷ held; clock = clock; log = log } in
    let latched : Bus = record {
      samples = held;
      clock = clock;
      log = read w ∷ reads idle (ack false ∷ log);
    } in
    ap (λ l. step rx (record { samples = l; clock = clock; log = log })) e
    ∙ step_wait rx start latched (got w) (
        ap (λ t. wait_for is_valid t (write_ack false start)) tv
        ∙ wait_for_untimed is_valid idle w held clock (ack false ∷ log) (is_valid_skip idle zeros)
            (ground arith))
    ∙ latch-none rx w latched (
        ap (λ t. wait_for is_neutral t (write_ack true latched)) ((store_timeouts rx w).1 ∙ tn)
        ∙ wait_for-none is_neutral held clock (ack true ∷ read w ∷ reads idle (ack false ∷ log))
            (is_neutral_skip held on))
