-- ===== src/Replay/Sent.antt =====
-- The replay of what the sensor model records gives the words that the model was told to send.
use aer_handshake_firmware.Base.{
  ℕ, ◌+◌, ◌*◌, ◌^◌, ◌<◌, ◌≡◌, ◌≢◌, refl, ap, ap₂, sym, ◌∙◌, Bool, inl, inr, true, false, none, some,
  List, [], ◌∷◌, ◌++◌, length, append_assoc, append-nil, u32, All, arith,
}
use aer_handshake_firmware.Codec.{decode_word}
use aer_handshake_firmware.Burst
use aer_handshake_firmware.Burst.{Burst, Event, feed}
use aer_handshake_firmware.Link.{receive, receive-cons}
use aer_handshake_firmware.Waveform.{Sample, Waveform, empty}
use aer_handshake_firmware.Replay.Samples.{
  count_word_latched, latch_word_lem, take_quiet, take_rise,
}
use aer_handshake_firmware.TxModel
use aer_handshake_firmware.TxModel.{Cfg, TxModel}
use aer_handshake_firmware.TxModel.Emit.{period, strokes, wave, emit_words_lem}
use aer_handshake_firmware.Replay.{
  cfg_default, ReplayStats, no_stats, Run, count_word, take_sample, see, replay_loop, replay_run,
}

-- What has changed from `r` to `r'` is that the words have been latched and fed.
record Took (r : Run) (ws : List ℕ) (r' : Run) : Type 0 where
  pub burst : r'.burst ≡ (receive r.burst ws).0
  pub events : r'.events ≡ r.events ++ (receive r.burst ws).1
  pub words_latched : r'.st.words_latched ≡ u32 (r.st.words_latched + length ws)

module _ {S : Type 0} (s : S) where
  abbrev loop : List Sample → Run → Run × Bool
  loop xs r = replay_loop cfg_default none true xs s r

  -- The four transitions of a word latch it once.
  loop-strokes :
      (c : Cfg) (t w : ℕ) (xs : List Sample) (r : Run)
      → (r' : Run) × (loop (strokes c t w ++ xs) r ≡ loop xs r') × Took r (w ∷ []) r'
  unfolding replay_loop receive Burst.feed_all
  loop-strokes c t w xs r =
      let n = c.neutral_word in
      let take = take_sample cfg_default true in
      let r1 : Run = record (see r) { last_data = w; last_ack = false; have_last = true } in
      let fed : Run = record (see r1) {
        st = count_word cfg_default (decode_word w) (see r1).st;
        burst = (feed r.burst (decode_word w) true).0;
        events = r.events ++ (feed r.burst (decode_word w) true).1;
        last_data = w;
        last_ack = true;
        have_last = true;
      } in
      let r3 : Run = record (see fed) { last_data = n; last_ack = true; have_last = true } in
      let r4 : Run = record (see r3) { last_data = n; last_ack = false; have_last = true } in
      let first = take_quiet w false (see r) (inr refl) in
      let second : take w true (see r1) ≡ fed =
        take_rise w (see r1) refl refl
        ∙ ap (λ (x : Run). record x { last_data = w; last_ack = true; have_last = true })
            (latch_word_lem w (see r1)) in
      let third = take_quiet n true (see fed) (inl refl) in
      let fourth = take_quiet n false (see r3) (inr refl) in
      (
        r4,
        ap (λ x. loop xs (take n false (see (take n true (see (take w true (see x))))))) first
            ∙ ap (λ x. loop xs (take n false (see (take n true (see x))))) second
            ∙ ap (λ x. loop xs (take n false (see x))) third
            ∙ ap (loop xs) fourth,
        record {
          burst = refl;
          events =
              ap (λ es. r.events ++ es) (sym (append-nil (feed r.burst (decode_word w) true).1));
          words_latched = count_word_latched w (see r1).st;
        },
      )

  Took-cons :
      (r r1 r' : Run) (w : ℕ) (ws : List ℕ)
      → Took r (w ∷ []) r1
      → Took r1 ws r'
      → Took r (w ∷ ws) r'
  Took-cons r r1 r' w ws a b = record {
    burst = b.burst ∙ ap (λ x. (receive x ws).0) a.burst ∙ sym (receive-cons r.burst w ws).0;
    events =
        b.events
        ∙ ap₂ (λ es x. es ++ (receive x ws).1) a.events a.burst
        ∙ append_assoc r.events (receive r.burst (w ∷ [])).1
            (receive (receive r.burst (w ∷ [])).0 ws).1
        ∙ ap (λ es. r.events ++ es) (sym (receive-cons r.burst w ws).1);
    words_latched = let x = a.words_latched in let y = b.words_latched in omega arith;
  }

  loop-wave :
      (c : Cfg) (ws : List ℕ) (t : ℕ) (r : Run)
      → r.st.words_latched < 2 ^ 32
      → (r' : Run) × (loop (wave c t ws) r ≡ (r', true)) × Took r ws r'
  unfolding replay_loop receive Burst.feed_all
  loop-wave c [] t r small = (
    r,
    refl,
    record { burst = refl; events = sym (append-nil r.events); words_latched = omega arith },
  )
  loop-wave c (w ∷ ws) t r small =
      let (r1, one, a) = loop-strokes c t w (wave c (t + period c) ws) r in
      let (r', more, b) =
        loop-wave c ws (t + period c) r1 (let x = a.words_latched in omega arith) in
      (r', one ∙ more, Took-cons r r1 r' w ws a b)

  -- Before the loop.
  abbrev fresh : Burst → Run
  fresh b = record {
    st = no_stats;
    burst = Burst.reset b false;
    events = [];
    last_data = 0;
    last_ack = false;
    have_last = false;
  }

  replay_run-loop :
      (wf : Waveform) (b : Burst) (r : Run)
      → loop wf.samples (fresh b) ≡ (r, true)
      → replay_run cfg_default none true wf s b ≡ (
        r.burst,
        r.events,
        some (record r.st {
          bursts_completed = r.burst.bursts_completed;
          events_emitted = r.burst.events_emitted;
        }),
      )
  unfolding replay_run
  replay_run-loop wf b r e = rw (e, replay_run)

  -- The sensor model, with memory for its waveform, ACK low at the start and times within 64 bits,
  -- sends any words other than its neutral word, and the default replay of the waveform that it has
  -- recorded returns true; the assembler, reset, and the callback have got exactly these words, in
  -- order, and as many words are counted as latched.
  pub replay_run-emit_words :
      (realloc : ℕ → Bool) (c : Cfg) (t0 : ℕ) (ws : List ℕ) (b : Burst)
      → ((n : ℕ) → realloc n ≡ true)
      → c.initial_ack ≡ false
      → All (λ w. w ≢ c.neutral_word) ws
      → t0 + length ws * period c < 2 ^ 64
      → (m : TxModel) × (wf : Waveform) × (st : ReplayStats) × (TxModel.emit_words realloc
            (TxModel.init realloc (some c) (some empty) t0)
            ws
          ≡ (m, true))
        × (m.out ≡ some wf)
        × (replay_run cfg_default none true wf s b
            ≡ ((receive (Burst.reset b false) ws).0, (receive (Burst.reset b false) ws).1, some st))
        × (st.words_latched ≡ u32 (length ws))
  unfolding replay_loop
  replay_run-emit_words realloc c t0 ws b memory low ne fits =
      let n = c.neutral_word in
      let (m, wf, sent, out, recorded) = emit_words_lem realloc memory c t0 ws low ne fits in
      let r0 : Run = record (see (fresh b)) { last_data = n; last_ack = false; have_last = true } in
      let (r, run, took) = loop-wave c ws t0 r0 (omega arith) in
      let st : ReplayStats = record r.st {
        bursts_completed = r.burst.bursts_completed;
        events_emitted = r.burst.events_emitted;
      } in
      (
        m,
        wf,
        st,
        sent,
        out,
        replay_run-loop wf b r (
              ap (λ xs. loop xs (fresh b)) recorded
              ∙ ap (loop (wave c t0 ws)) (take_quiet n false (see (fresh b)) (inr refl))
              ∙ run)
            ∙ ap₂ (λ b' es. (b', es, some st)) took.burst took.events,
        (let x = took.words_latched in omega arith),
      )
