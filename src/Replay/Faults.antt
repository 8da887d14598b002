-- ===== src/Replay/Faults.antt =====
-- The injectors of host/aer_rx_replay.c: a fault that leaves ACK alone, and DATA at the samples
-- where ACK rises, does not change what a replay does.
pub mod Injectors
mod Tests
use aer_handshake_firmware.Base.{
  ℕ, ◌+◌, ◌≡◌, ◌⊎◌, ◌&&◌, refl, ap, ap₂, sym, ◌∙◌, Bool, Bool-cases, inl, inr, true, false, not,
  Option, none, some, List, [], ◌∷◌, ◌++◌, if◌then◌else◌, if_true, if_false, arith,
}
use aer_handshake_firmware.Codec.{decode_word}
use aer_handshake_firmware.Burst
use aer_handshake_firmware.Burst.{Burst, Event}
use aer_handshake_firmware.Waveform.{Sample, Waveform}
use aer_handshake_firmware.Replay.{
  FaultFn, ReplayCfg, ReplayStats, no_stats, Run, latch_word, take_sample, see, replay_loop,
  replay_run,
}

-- What an injector may do from a state on: it keeps ACK, and DATA where ACK rises. `low` is whether
-- the sample before had ACK low.
abbrev pub Harmless : {S : Type 0} → FaultFn S → Bool → S → List Sample → Type 0
Harmless f low s [] = Unit
Harmless f low s (x ∷ xs) =
    ((d : ℕ) × ((f s x.t x.data_word x.ack).1 ≡ some (d, x.ack))
      × (low ≡ true → x.ack ≡ true → d ≡ x.data_word))
    × Harmless f (not x.ack) (f s x.t x.data_word x.ack).0 xs

abbrev pub armed : Run → Bool
armed r = r.have_last && not r.last_ack

abbrev with_data : ℕ → Run → Run
with_data d r = record r { last_data = d }

module _ (cfg : ReplayCfg) (has_cb : Bool) where
  abbrev rises : Run → Bool → Bool
  rises r ack = r.have_last && (cfg.latch_on_ack_rise && (not r.last_ack && ack))

  -- The end of a round.
  abbrev wrap : ℕ → Bool → Run → Run
  wrap d ack r = record r { last_data = d; last_ack = ack; have_last = true }

  latch_word-with_data :
      (d z : ℕ) (r : Run)
      → latch_word cfg has_cb d (with_data z r) ≡ with_data z (latch_word cfg has_cb d r)
  unfolding latch_word
  latch_word-with_data d z r =
      let skipped = cfg.ignore_invalid_words && not (decode_word d).ok in
      elim (Bool-cases skipped) [
        | inl e ↦ if_true skipped _ _ e ∙ sym (ap (with_data z) (if_true skipped _ _ e))
        | inr e ↦ if_false skipped _ _ e ∙ sym (ap (with_data z) (if_false skipped _ _ e))
      ]

  -- The last DATA is not used.
  take_sample-with_data :
      (d : ℕ) (ack : Bool) (z : ℕ) (r : Run)
      → take_sample cfg has_cb d ack (with_data z r) ≡ take_sample cfg has_cb d ack r
  unfolding take_sample
  take_sample-with_data d ack z r = elim (Bool-cases (rises r ack)) [
    | inl e ↦
        ap (wrap d ack) (if_true (rises r ack) _ _ e ∙ latch_word-with_data d z r)
        ∙ sym (ap (wrap d ack) (if_true (rises r ack) _ _ e))
    | inr e ↦
        ap (wrap d ack) (if_false (rises r ack) _ _ e)
        ∙ sym (ap (wrap d ack) (if_false (rises r ack) _ _ e))
  ]

  quiet :
      (have last latch ack : Bool)
      → ((have && not last) ≡ false) ⊎ (ack ≡ false)
      → (have && (latch && (not last && ack))) ≡ false
  quiet false last latch ack h = refl
  quiet true last false ack h = refl
  quiet true true true ack h = refl
  quiet true false true false h = refl
  quiet true false true true (inl e) = absurd (cc)
  quiet true false true true (inr e) = absurd (cc)

  -- Without a rise of ACK, a round only notes the sample.
  pub take_sample_idle :
      (d : ℕ) (ack : Bool) (r : Run)
      → (armed r ≡ false) ⊎ (ack ≡ false)
      → take_sample cfg has_cb d ack r
        ≡ record r { last_data = d; last_ack = ack; have_last = true }
  unfolding take_sample
  take_sample_idle d ack r h =
      let e = quiet r.have_last r.last_ack cfg.latch_on_ack_rise ack h in
      ap (wrap d ack) (if_false (rises r ack) _ _ e)

  take_sample_quiet :
      (d d' : ℕ) (ack : Bool) (r : Run)
      → (armed r ≡ false) ⊎ (ack ≡ false)
      → take_sample cfg has_cb d ack r ≡ with_data d (take_sample cfg has_cb d' ack r)
  take_sample_quiet d d' ack r h =
      take_sample_idle d ack r h ∙ sym (ap (with_data d) (take_sample_idle d' ack r h))

  round-Harmless :
      (d d' : ℕ) (ack : Bool) (z : ℕ) (r : Run)
      → (armed r ≡ true → ack ≡ true → d ≡ d')
      → take_sample cfg has_cb d ack (with_data z r) ≡ with_data d (take_sample cfg has_cb d' ack r)
  unfolding take_sample
  round-Harmless d d' ack z r kept = take_sample-with_data d ack z r ∙ elim (Bool-cases (armed r)) [
    | inr e ↦ take_sample_quiet d d' ack r (inl e)
    | inl e ↦ elim (Bool-cases ack) [
      | inr a ↦ take_sample_quiet d d' ack r (inr a)
      | inl a ↦ ap (λ x. with_data d (take_sample cfg has_cb x ack r)) (kept e a)
    ]
  ]

-- Before the loop.
abbrev pub fresh : Burst → Run
fresh b = record {
  st = no_stats;
  burst = Burst.reset b false;
  events = [];
  last_data = 0;
  last_ack = false;
  have_last = false;
}

-- What a replay returns at the end of its loop.
abbrev pub results : Run × Bool → Burst × List Event × Option ReplayStats
results (r, done) = (
  r.burst,
  r.events,
  if done
      then some (record r.st {
        bursts_completed = r.burst.bursts_completed;
        events_emitted = r.burst.events_emitted;
      })
      else none,
)

module _ {S S' : Type 0} (cfg : ReplayCfg) (has_cb : Bool) (f : FaultFn S) (s' : S') where
  abbrev plain_loop : List Sample → Run → Run × Bool
  plain_loop xs r = replay_loop {S = S'} cfg none has_cb xs s' r

  loop-Harmless :
      (xs : List Sample) (s : S) (r : Run) (z : ℕ)
      → Harmless f (armed r) s xs
      → (z' : ℕ) × (replay_loop cfg (some f) has_cb xs s (with_data z r)
          ≡ (with_data z' (plain_loop xs r).0, true))
        × ((plain_loop xs r).1 ≡ true)
  unfolding replay_loop take_sample
  loop-Harmless [] s r z h = (z, refl, refl)
  loop-Harmless (x ∷ xs) s r z ((d, injected, kept), rest) =
      let (z', same, done) =
        loop-Harmless xs (f s x.t x.data_word x.ack).0
          (take_sample cfg has_cb x.data_word x.ack (see r)) d rest in
      (
        z',
        rw (injected, replay_loop)
              (ap (replay_loop cfg (some f) has_cb xs (f s x.t x.data_word x.ack).0)
                (round-Harmless cfg has_cb d x.data_word x.ack z (see r) kept))
            ∙ same,
        done,
      )

  -- Whatever the configuration, a fault that leaves ACK alone, and DATA at the samples where ACK
  -- rises, changes nothing in what a replay returns: the assembler, the events and the statistics
  -- are those of the replay without it.
  pub replay_run-Harmless :
      (wf : Waveform) (s : S) (b : Burst)
      → Harmless f false s wf.samples
      → replay_run cfg (some f) has_cb wf s b ≡ replay_run {S = S'} cfg none has_cb wf s' b
  unfolding replay_run
  replay_run-Harmless wf s b h =
      let (z, same, done) = loop-Harmless wf.samples s (fresh b) 0 h in
      ap results same ∙ ap (λ ok. results ((plain_loop wf.samples (fresh b)).0, ok)) (sym done)
