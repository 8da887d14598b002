-- ===== src/RxPoll/Waits.antt =====
-- What the polling loops of `aer_rx_poll_step` see before they end.
use mathlib.Core.Path.{subst}
use native.Mathlib.Decide.{ℕ_discrete}
use aer_handshake_firmware.Base.{
  ℕ, ◌≡◌, ◌≢◌, refl, sym, ◌∙◌, Bool, Bool-cases, inl, inr, ◌⊎◌, true, false, none, some, List, [],
  ◌∷◌, ◌++◌, All, ◌==◌, arith,
}
use aer_handshake_firmware.Hal.Time.{deadline_us, expired}
use aer_handshake_firmware.RxPoll.{Bus, Io, read, Wait, got, timed_out, poll, wait_timed, wait_for}

-- The log after the samples `xs` have been read.
abbrev pub reads : List ℕ → List Io → List Io
reads [] log = log
reads (x ∷ xs) log = reads xs (read x ∷ log)

-- One round of the polling loop, by what it meets.
module _ (stop : ℕ → Bool) (timeout deadline x : ℕ) (xs : List ℕ) (log : List Io) where
  pub poll_stop :
      (clock : List ℕ)
      → stop x ≡ true
      → poll stop timeout deadline (x ∷ xs) clock log
        ≡ some (got x, record { samples = xs; clock = clock; log = read x ∷ log })
  unfolding poll
  poll_stop clock h = rw (h, poll)

  pub poll_untimed :
      (clock : List ℕ)
      → stop x ≡ false
      → timeout ≡ 0
      → poll stop timeout deadline (x ∷ xs) clock log
        ≡ poll stop timeout deadline xs clock (read x ∷ log)
  unfolding poll
  poll_untimed clock h z = let t : (timeout == 0) ≡ true = ground arith in rw (h, poll) (rw t)

  pub poll_no_time :
      stop x ≡ false → timeout ≢ 0 → poll stop timeout deadline (x ∷ xs) [] log ≡ none
  unfolding poll
  poll_no_time h nz = let t : (timeout == 0) ≡ false = ground arith in rw (h, poll) (rw t)

  pub poll-expired :
      (now : ℕ) (later : List ℕ)
      → stop x ≡ false
      → timeout ≢ 0
      → expired now deadline ≡ true
      → poll stop timeout deadline (x ∷ xs) (now ∷ later) log
        ≡ some (timed_out, record { samples = xs; clock = later; log = read x ∷ log })
  unfolding poll
  poll-expired now later h nz over =
      let t : (timeout == 0) ≡ false = ground arith in rw (h, poll) (rw t (rw over))

  pub poll_again :
      (now : ℕ) (later : List ℕ)
      → stop x ≡ false
      → timeout ≢ 0
      → expired now deadline ≡ false
      → poll stop timeout deadline (x ∷ xs) (now ∷ later) log
        ≡ poll stop timeout deadline xs later (read x ∷ log)
  unfolding poll
  poll_again now later h nz on =
      let t : (timeout == 0) ≡ false = ground arith in rw (h, poll) (rw t (rw on))

-- With no timeout, polling passes over the samples that do not stop it and ends at the first that
-- does.
pub wait_for_untimed :
    (stop : ℕ → Bool) (skipped : List ℕ) (x : ℕ) (rest clock : List ℕ) (log : List Io)
    → All (λ y. stop y ≡ false) skipped
    → stop x ≡ true
    → wait_for stop 0 (record { samples = skipped ++ x ∷ rest; clock = clock; log = log })
      ≡ some (got x, record { samples = rest; clock = clock; log = read x ∷ reads skipped log })
unfolding wait_for
wait_for_untimed stop skipped x rest clock log pass h = loop skipped log pass
  where
    loop :
        (ys : List ℕ) (l : List Io)
        → All (λ y. stop y ≡ false) ys
        → poll stop 0 0 (ys ++ x ∷ rest) clock l
          ≡ some (got x, record { samples = rest; clock = clock; log = read x ∷ reads ys l })
    loop [] l p = poll_stop stop 0 0 x rest l clock h
    loop (y ∷ ys) l p =
        poll_untimed stop 0 0 y (ys ++ x ∷ rest) l clock p.0 refl ∙ loop ys (read y ∷ l) p.1

-- How a wait that ends has ended: at a sample that stops it, or at the deadline after one that does
-- not; `Reads` says that the log has grown by samples only, the last on top.
pub data Reads : List Io → List Io → Type 0 where
  none_read : (log : List Io) → Reads log log
  one_more : {log log' : List Io} (x : ℕ) → Reads log log' → Reads log (read x ∷ log')

pub record Ended (stop : ℕ → Bool) (log : List Io) (w : Wait) (h : Bus) : Type 0 where
  pub last : ℕ
  pub before : List Io
  pub grown : Reads log before
  pub log_is : h.log ≡ read last ∷ before
  pub how : ((w ≡ got last) × (stop last ≡ true)) ⊎ ((w ≡ timed_out) × (stop last ≡ false))

-- By the rounds of the loop.
poll-Ended :
    (stop : ℕ → Bool) (timeout deadline : ℕ) (xs clock : List ℕ) (log0 log : List Io) (w : Wait)
    (h : Bus)
    → Reads log0 log
    → poll stop timeout deadline xs clock log ≡ some (w, h)
    → Ended stop log0 w h
unfolding poll
poll-Ended stop timeout deadline [] clock log0 log w h r e = absurd (cc)
poll-Ended stop timeout deadline (x ∷ xs) clock log0 log w h r e = elim (Bool-cases (stop x)) [
  | inl s ↦
      let f = sym (poll_stop stop timeout deadline x xs log clock s) ∙ e in
      record {
        last = x;
        before = log;
        grown = r;
        log_is = ground arith;
        how = inl (ground arith, s);
      }
  | inr s ↦ elim (ℕ_discrete timeout 0) [
    | yes z ↦
        poll-Ended stop timeout deadline xs clock log0 (read x ∷ log) w h (one_more x r)
          (sym (poll_untimed stop timeout deadline x xs log clock s z) ∙ e)
    | no nz ↦
        timed clock
          (λ l. poll-Ended stop timeout deadline xs l log0 (read x ∷ log) w h (one_more x r)) s nz e
  ]
]
  where
    timed :
        (c : List ℕ)
        → ((l : List ℕ)
            → poll stop timeout deadline xs l (read x ∷ log) ≡ some (w, h)
            → Ended stop log0 w h)
        → stop x ≡ false
        → timeout ≢ 0
        → poll stop timeout deadline (x ∷ xs) c log ≡ some (w, h)
        → Ended stop log0 w h
    timed [] rec s nz e' =
        absurd (let f = sym (poll_no_time stop timeout deadline x xs log s nz) ∙ e' in cc)
    timed (now ∷ later) rec s nz e' = elim (Bool-cases (expired now deadline)) [
      | inl over ↦
          let f = sym (poll-expired stop timeout deadline x xs log now later s nz over) ∙ e' in
          record {
            last = x;
            before = log;
            grown = r;
            log_is = ground arith;
            how = inr (ground arith, s);
          }
      | inr on ↦ rec later (sym (poll_again stop timeout deadline x xs log now later s nz on) ∙ e')
    ]

wait_timed-Ended :
    (stop : ℕ → Bool) (timeout : ℕ) (xs clock : List ℕ) (log : List Io) (w : Wait) (h : Bus)
    → wait_timed stop timeout xs clock log ≡ some (w, h)
    → Ended stop log w h
unfolding wait_timed
wait_timed-Ended stop timeout xs [] log w h e = absurd (cc)
wait_timed-Ended stop timeout xs (now ∷ later) log w h e =
    poll-Ended stop timeout (deadline_us now timeout) xs later log log w h (none_read log) e

pub wait_for-Ended :
    (stop : ℕ → Bool) (timeout : ℕ) (h0 : Bus) (w : Wait) (h : Bus)
    → wait_for stop timeout h0 ≡ some (w, h)
    → Ended stop h0.log w h
unfolding wait_for
wait_for-Ended stop timeout h0 w h e = elim (Bool-cases (timeout == 0)) [
  | inl z ↦
      poll-Ended stop timeout 0 h0.samples h0.clock h0.log h0.log w h (none_read h0.log)
        (rw (z, wait_for) at e)
  | inr nz ↦ wait_timed-Ended stop timeout h0.samples h0.clock h0.log w h (rw (nz, wait_for) at e)
]

-- With the timeout disabled, a wait ends at a sample that stops it.
poll_untimed-got :
    (stop : ℕ → Bool) (deadline : ℕ) (xs clock : List ℕ) (log : List Io) (w : Wait) (h : Bus)
    → poll stop 0 deadline xs clock log ≡ some (w, h)
    → w ≢ timed_out
unfolding poll
poll_untimed-got stop deadline [] clock log w h e = λ _. cc
poll_untimed-got stop deadline (x ∷ xs) clock log w h e = elim (Bool-cases (stop x)) [
  | inl s ↦ let f = sym (poll_stop stop 0 deadline x xs log clock s) ∙ e in ground arith
  | inr s ↦
      poll_untimed-got stop deadline xs clock (read x ∷ log) w h
        (sym (poll_untimed stop 0 deadline x xs log clock s refl) ∙ e)
]

pub wait_for_untimed-got :
    (stop : ℕ → Bool) (timeout : ℕ) (h0 : Bus) (w : Wait) (h : Bus)
    → timeout ≡ 0
    → wait_for stop timeout h0 ≡ some (w, h)
    → w ≢ timed_out
unfolding wait_for
wait_for_untimed-got stop timeout h0 w h z e =
    poll_untimed-got stop 0 h0.samples h0.clock h0.log w h
      (subst (λ t. wait_for stop t h0 ≡ some (w, h)) z e)
