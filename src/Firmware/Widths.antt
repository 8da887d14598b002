-- ===== src/Firmware/Widths.antt =====
-- The main loop on any bus and with any timeouts: its state stays within its C types, and only the
-- receiver waits.
use aer_handshake_firmware.Base.{
  ℕ, zero, suc, ◌<◌, ◌≡◌, ◌≢◌, refl, ap, sym, subst, ◌∙◌, inl, inr, ◌⊎◌, Option, none, some, List,
  [], ◌∷◌, true, false, ◌==◌, All, Option-cases, arith,
}
use native.Mathlib.Decide.{ℕ_discrete}
use aer_handshake_firmware.Codec.{decode_word}
use aer_handshake_firmware.Burst
use aer_handshake_firmware.Burst.{Burst, Event}
use aer_handshake_firmware.Burst.Widths
use aer_handshake_firmware.Link.{receive}
use aer_handshake_firmware.Ringbuf
use aer_handshake_firmware.Ringbuf.{Ringbuf}
use aer_handshake_firmware.Ringbuf.Widths.{Word, Words, pop-Words}
use aer_handshake_firmware.Ringbuf.Window.{contents}
use aer_handshake_firmware.Ringbuf.Refine.{length-contents}
use aer_handshake_firmware.RxPoll
use aer_handshake_firmware.RxPoll.{Rx, Status, Bus, read}
use aer_handshake_firmware.RxPoll.Widths.{step-Sound}
use aer_handshake_firmware.Firmware.{Firmware, take_word, drain, handshake, pass, pass_on, passes}
use aer_handshake_firmware.Firmware.Session.{passes-suc}
use aer_handshake_firmware.Firmware.Drain.{drain_empty, drain_word, drain-Received}

-- The receiver and the assembler are within their C types, and so is what the bus will show.
pub record InWidth {U : Type 0} (s : Firmware U) : Type 0 where
  pub rx : RxPoll.Widths.InWidth s.rx
  pub burst : Burst.Widths.InWidth s.burst
  pub samples : All Word s.bus.samples

receive-InWidth :
    (ws : List ℕ) (b : Burst) → Burst.Widths.InWidth b → Burst.Widths.InWidth (receive b ws).0
unfolding receive Burst.feed_all
receive-InWidth [] b v = v
receive-InWidth (w ∷ ws) b v =
    receive-InWidth ws (Burst.feed b (decode_word w) true).0
      (Burst.Widths.feed-InWidth b (decode_word w) v)

-- What holds the receiver up: the bus has not been sampled further.
pub data Waiting {U : Type 0} (s : Firmware U) : Type 0 where
  before_pass : s.bus.samples ≡ [] → Waiting s
  in_handshake :
      (x : ℕ) (xs : List ℕ)
      → s.bus.samples ≡ x ∷ xs
      → x ≢ 0
      → RxPoll.step s.rx (record { samples = xs; clock = s.bus.clock; log = read x ∷ s.bus.log })
        ≡ none
      → Waiting s

module _ {U : Type 0} (on_event : U → Event → U) where
  -- Draining writes no cell of the ring.
  drain-Words :
      (fuel : ℕ) (s s' : Firmware U)
      → drain on_event fuel s ≡ some s'
      → Words s.rx.rb
      → Words s'.rx.rb
  unfolding drain take_word
  drain-Words zero s s' e h = absurd (cc)
  drain-Words (suc fuel) s s' e h =
      let popped = pop-Words s.rx.rb h in
      elim (Option-cases (Ringbuf.pop s.rx.rb true).1) [
        | inl empty ↦
            let same : record s { rx = record s.rx { rb = (Ringbuf.pop s.rx.rb true).0 } } ≡ s' =
              cc (sym (drain_empty on_event fuel s empty) ∙ e) in
            subst (λ (t : Firmware U). Words t.rx.rb) same popped
        | inr (raw, out) ↦
            drain-Words fuel (take_word on_event s (Ringbuf.pop s.rx.rb true).0 raw) s'
              (sym (drain_word on_event fuel s raw out) ∙ e) popped
      ]

  -- How a pass ends that starts within the C types.
  abbrev pub Passed : Firmware U → Type 0
  Passed s =
      ((s' : Firmware U) × (pass on_event s ≡ some s') × InWidth s')
      ⊎ ((pass on_event s ≡ none) × Waiting s)

  -- The state of a pass that has sampled DATA.
  abbrev sampled : Firmware U → ℕ → List ℕ → Firmware U
  sampled s x xs = record s { bus = record s.bus { samples = xs; log = read x ∷ s.bus.log } }

  pass_on-nil : (s : Firmware U) → pass_on on_event [] s ≡ none
  unfolding pass_on
  pass_on-nil s = refl

  pass_on-zero :
      (s : Firmware U) (x : ℕ) (xs : List ℕ)
      → x ≡ 0
      → pass_on on_event (x ∷ xs) s ≡ some (sampled s x xs)
  unfolding pass_on
  pass_on-zero s x xs z = let t : (x == 0) ≡ true = ground arith in rw (t, pass_on) refl

  pass_on-valid :
      (s : Firmware U) (x : ℕ) (xs : List ℕ)
      → x ≢ 0
      → pass_on on_event (x ∷ xs) s ≡ handshake on_event (sampled s x xs)
  unfolding pass_on
  pass_on-valid s x xs nz = let t : (x == 0) ≡ false = ground arith in rw (t, pass_on) refl

  handshake-none : (s : Firmware U) → RxPoll.step s.rx s.bus ≡ none → handshake on_event s ≡ none
  unfolding handshake
  handshake-none s e = rw (e, handshake) refl

  handshake-some :
      (s : Firmware U) (rx : Rx) (st : Status) (bus : Bus)
      → RxPoll.step s.rx s.bus ≡ some (rx, st, bus)
      → handshake on_event s ≡ drain on_event rx.rb.capacity (record s { rx = rx; bus = bus })
  unfolding handshake
  handshake-some s rx st bus e = rw (e, handshake) refl

  -- After the handshake the drain loop returns.
  drain-InWidth :
      (s : Firmware U)
      → InWidth s
      → (s' : Firmware U) × (drain on_event s.rx.rb.capacity s ≡ some s') × InWidth s'
  drain-InWidth s v =
      let ring = v.rx.ring in
      let (s', ends, got) =
        drain-Received on_event s.rx.rb.capacity s (contents s.rx.rb) ring refl
          (ground (arith, length-contents s.rx.rb)) in
      (
        s',
        ends,
        record {
          rx = record {
            ring = got.ring_valid;
            words = drain-Words s.rx.rb.capacity s s' ends v.rx.words;
            counters = subst RxPoll.Widths.Counters (sym got.stats) v.rx.counters;
          };
          burst =
              subst Burst.Widths.InWidth (sym got.burst)
                (receive-InWidth (contents s.rx.rb) s.burst v.burst);
          samples = subst (λ (b : Bus). All Word b.samples) (sym got.bus) v.samples;
        },
      )

  handshake-InWidth :
      (s : Firmware U) (x : ℕ) (xs : List ℕ)
      → InWidth s
      → s.bus.samples ≡ x ∷ xs
      → x ≢ 0
      → (o : Option (Rx × Status × Bus)) → RxPoll.step s.rx (sampled s x xs).bus ≡ o
      → Passed s
  unfolding pass
  handshake-InWidth s x xs v e nz none polls = inr (
    ap (λ l. pass_on on_event l s) e
        ∙ pass_on-valid s x xs nz
        ∙ handshake-none (sampled s x xs) polls,
    in_handshake x xs e nz polls,
  )
  handshake-InWidth s x xs v e nz (some (rx, st, bus)) steps =
      let all : All Word (x ∷ xs) = subst (All Word) e v.samples in
      let (rx_in, left) = step-Sound s.rx (sampled s x xs).bus (rx, st, bus) steps v.rx all.1 in
      let (s', ends, in_width) =
        drain-InWidth (record s { rx = rx; bus = bus })
          (record { rx = rx_in; burst = v.burst; samples = left }) in
      inl (
        s',
        ap (λ l. pass_on on_event l s) e
            ∙ pass_on-valid s x xs nz
            ∙ handshake-some (sampled s x xs) rx st bus steps
            ∙ ends,
        in_width,
      )

  pass-InWidth : (s : Firmware U) → InWidth s → Passed s
  unfolding pass
  pass-InWidth s v = by_samples s.bus.samples refl
    where
      by_samples : (l : List ℕ) → s.bus.samples ≡ l → Passed s
      by_samples [] e = inr (ap (λ l. pass_on on_event l s) e ∙ pass_on-nil s, before_pass e)
      by_samples (x ∷ xs) e = elim (ℕ_discrete x 0) [
        | yes z ↦ inl (
          sampled s x xs,
          ap (λ l. pass_on on_event l s) e ∙ pass_on-zero s x xs z,
          record {
            rx = v.rx;
            burst = v.burst;
            samples = (let all : All Word (x ∷ xs) = subst (All Word) e v.samples in all.1);
          },
        )
        | no nz ↦ handshake-InWidth s x xs v e nz (RxPoll.step s.rx (sampled s x xs).bus) refl
      ]

  -- Whatever the bus, as long as it shows 32-bit words, the timer and the timeouts are: from a
  -- state within its C types, any number of passes return and leave the state within its C types,
  -- or the first of them do and then the bus is not sampled further or the receiver waits for it.
  -- The ring need not be empty at the start.
  pub passes-InWidth :
      (n : ℕ) (s : Firmware U)
      → InWidth s
      → ((s' : Firmware U) × (passes on_event n s ≡ some s') × InWidth s')
        ⊎ ((m : ℕ) × (s' : Firmware U) × (m < n)
            × (passes on_event m s ≡ some s')
            × InWidth s'
            × (pass on_event s' ≡ none)
            × Waiting s')
  unfolding passes
  passes-InWidth zero s v = inl (s, refl, v)
  passes-InWidth (suc n) s v = elim (pass-InWidth s v) [
    | inr (stuck, waiting) ↦ inr (zero, s, omega arith, refl, v, stuck, waiting)
    | inl (s1, one, v1) ↦ elim (passes-InWidth n s1 v1) [
      | inl (s', more, v') ↦ inl (s', passes-suc on_event n s s1 one ∙ more, v')
      | inr (m, s', h, more, v', stuck, waiting) ↦
          inr (suc m, s', omega arith, passes-suc on_event m s s1 one ∙ more, v', stuck, waiting)
    ]
  ]
