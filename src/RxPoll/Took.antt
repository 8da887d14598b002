-- ===== src/RxPoll/Took.antt =====
-- Which samples a wait of `aer_rx_poll_step` takes, with any timeout.
use native.Mathlib.Decide.{ℕ_discrete}
use aer_handshake_firmware.Base.{
  ℕ, ◌≡◌, ◌≢◌, ap, sym, ◌∙◌, Bool, Bool-cases, inl, inr, ◌⊎◌, false, some, List, [], ◌∷◌, ◌++◌, All,
  ◌==◌, arith, subst,
}
use aer_handshake_firmware.Hal.Time.{deadline_us, expired}
use aer_handshake_firmware.RxPoll.{Bus, Io, read, Wait, got, timed_out, poll, wait_timed, wait_for}
use aer_handshake_firmware.RxPoll.Waits.{
  poll_stop, poll_untimed, poll_no_time, poll-expired, poll_again,
}

-- The wait has taken samples from the front, the last of which is what it ends with, if not at the
-- deadline.
pub record Took (xs : List ℕ) (w : Wait) (h : Bus) : Type 0 where
  pub skipped : List ℕ
  pub last : ℕ
  pub split : xs ≡ skipped ++ last ∷ h.samples
  pub how : (w ≡ got last) ⊎ (w ≡ timed_out)

Took-cons : (x : ℕ) (xs : List ℕ) (w : Wait) (h : Bus) → Took xs w h → Took (x ∷ xs) w h
Took-cons x xs w h t = record {
  skipped = x ∷ t.skipped;
  last = t.last;
  split = ap (λ l. x ∷ l) t.split;
  how = t.how;
}

module _ (stop : ℕ → Bool) (timeout deadline : ℕ) where
  -- A round with a timeout on a sample that does not stop it.
  round-Took :
      (x : ℕ) (xs clock : List ℕ) (log : List Io) (w : Wait) (h : Bus)
      → ((later : List ℕ)
          → poll stop timeout deadline xs later (read x ∷ log) ≡ some (w, h)
          → Took xs w h)
      → stop x ≡ false
      → timeout ≢ 0
      → poll stop timeout deadline (x ∷ xs) clock log ≡ some (w, h)
      → Took (x ∷ xs) w h
  round-Took x xs [] log w h rec s nz e =
      absurd (let f = sym (poll_no_time stop timeout deadline x xs log s nz) ∙ e in cc)
  round-Took x xs (now ∷ later) log w h rec s nz e = elim (Bool-cases (expired now deadline)) [
    | inl over ↦
        let f = sym (poll-expired stop timeout deadline x xs log now later s nz over) ∙ e in
        record { skipped = []; last = x; split = ground arith; how = inr (ground arith) }
    | inr on ↦
        Took-cons x xs w h
          (rec later (sym (poll_again stop timeout deadline x xs log now later s nz on) ∙ e))
  ]

  poll-Took :
      (xs clock : List ℕ) (log : List Io) (w : Wait) (h : Bus)
      → poll stop timeout deadline xs clock log ≡ some (w, h)
      → Took xs w h
  unfolding poll
  poll-Took [] clock log w h e = absurd (cc)
  poll-Took (x ∷ xs) clock log w h e = elim (Bool-cases (stop x)) [
    | inl s ↦
        let f = sym (poll_stop stop timeout deadline x xs log clock s) ∙ e in
        record { skipped = []; last = x; split = ground arith; how = inl (ground arith) }
    | inr s ↦ elim (ℕ_discrete timeout 0) [
      | yes z ↦ Took-cons x xs w h (
          poll-Took xs clock (read x ∷ log) w h
            (sym (poll_untimed stop timeout deadline x xs log clock s z) ∙ e))
      | no nz ↦ round-Took x xs clock log w h (λ l. poll-Took xs l (read x ∷ log) w h) s nz e
    ]
  ]

wait_timed-Took :
    (stop : ℕ → Bool) (timeout : ℕ) (xs clock : List ℕ) (log : List Io) (w : Wait) (h : Bus)
    → wait_timed stop timeout xs clock log ≡ some (w, h)
    → Took xs w h
unfolding wait_timed
wait_timed-Took stop timeout xs [] log w h e = absurd (cc)
wait_timed-Took stop timeout xs (now ∷ later) log w h e =
    poll-Took stop timeout (deadline_us now timeout) xs later log w h e

pub wait_for-Took :
    (stop : ℕ → Bool) (timeout : ℕ) (h0 : Bus) (w : Wait) (h : Bus)
    → wait_for stop timeout h0 ≡ some (w, h)
    → Took h0.samples w h
unfolding wait_for
wait_for-Took stop timeout h0 w h e = elim (Bool-cases (timeout == 0)) [
  | inl z ↦ poll-Took stop timeout 0 h0.samples h0.clock h0.log w h (rw (z, wait_for) at e)
  | inr nz ↦ wait_timed-Took stop timeout h0.samples h0.clock h0.log w h (rw (nz, wait_for) at e)
]

-- What holds of all samples holds of the one that a wait ends with, and of those that are left.
pub Took-All :
    (P : ℕ → Type 0) (xs : List ℕ) (x : ℕ) (h : Bus)
    → Took xs (got x) h
    → All P xs
    → P x × All P h.samples
Took-All P xs x h t a = elim t.how [
  | inl e ↦
      let same : t.last ≡ x = cc (sym e) in
      let (p, rest) = split_all t.skipped (subst (All P) t.split a) in (subst P same p, rest)
  | inr e ↦ absurd (cc e)
]
  where
    split_all : (ys : List ℕ) → All P (ys ++ t.last ∷ h.samples) → P t.last × All P h.samples
    split_all [] q = (q.0, q.1)
    split_all (y ∷ ys) q = split_all ys q.1

pub Took-rest :
    (P : ℕ → Type 0) (xs : List ℕ) (w : Wait) (h : Bus) → Took xs w h → All P xs → All P h.samples
Took-rest P xs w h t a = split_rest t.skipped (subst (All P) t.split a)
  where
    split_rest : (ys : List ℕ) → All P (ys ++ t.last ∷ h.samples) → All P h.samples
    split_rest [] q = q.1
    split_rest (y ∷ ys) q = split_rest ys q.1
