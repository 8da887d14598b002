-- ===== src/Replay/Faults/Injectors.antt =====
-- The three injectors of host/aer_rx_replay.c and what the replay makes of them.
use aer_handshake_firmware.Base.{
  ℕ, ◌+◌, ◌≤◌, ◌<◌, ◌≡◌, ◌≢◌, ◌⊎◌, ◌&&◌, refl, ap, sym, ◌∙◌, subst, ◌^◌, Bool, Bool-cases, inl, inr,
  true, false, not, Option, none, some, List, [], ◌∷◌, length, if◌then◌else◌, if_true, if_false,
  leb, ◌==◌, u32, All, bit_xor, arith,
}
use aer_handshake_firmware.Burst
use aer_handshake_firmware.Burst.{Burst, Event}
use aer_handshake_firmware.Waveform.{Sample, Waveform}
use aer_handshake_firmware.Replay.{
  ReplayCfg, ReplayStats, no_stats, Run, take_sample, see, replay_loop, replay_run, Glitch,
  fault_glitch_data, StuckAck, fault_stuck_ack, fault_drop_neutral,
}
use aer_handshake_firmware.Replay.Faults.{
  Harmless, replay_run-Harmless, take_sample_idle, fresh, results,
}

-- No sample where ACK rises has a property.
abbrev pub AtRises : (Sample → Type 0) → Bool → List Sample → Type 0
AtRises P low [] = Unit
AtRises P low (x ∷ xs) = (low ≡ true → x.ack ≡ true → P x) × AtRises P (not x.ack) xs

-- A sample outside the window of a glitch.
abbrev pub Outside : Glitch → Sample → Type 0
Outside g x = (x.t < g.start_t) ⊎ (g.end_t < x.t)

abbrev pub NonzeroData : Sample → Type 0
NonzeroData x = x.data_word ≢ 0

Outside-leb :
    (g : Glitch) (x : Sample) → Outside g x → (leb g.start_t x.t && leb x.t g.end_t) ≡ false
Outside-leb g x (inl before) = ground arith
Outside-leb g x (inr after) = ground arith

glitch-Harmless :
    (g : Glitch) (low : Bool) (xs : List Sample)
    → AtRises (Outside g) low xs
    → Harmless fault_glitch_data low (some g) xs
unfolding fault_glitch_data
glitch-Harmless g low [] h = tt
glitch-Harmless g low (x ∷ xs) h = (
  (
    if leb g.start_t x.t && leb x.t g.end_t then bit_xor x.data_word g.xor_mask else x.data_word,
    refl,
    λ a b. if_false (leb g.start_t x.t && leb x.t g.end_t) _ _ (Outside-leb g x (h.0 a b)),
  ),
  glitch-Harmless g (not x.ack) xs h.1,
)

drop_neutral_step :
    (low : Bool) (x : Sample) (xs : List Sample) (before after d : ℕ)
    → fault_drop_neutral (some true, before) x.t x.data_word x.ack
      ≡ ((some true, after), some (d, x.ack))
    → (low ≡ true → x.ack ≡ true → d ≡ x.data_word)
    → Harmless fault_drop_neutral (not x.ack) (some true, after) xs
    → Harmless fault_drop_neutral low (some true, before) (x ∷ xs)
drop_neutral_step low x xs before after d e kept rest = (
  (d, ap (λ r. r.1) e, kept),
  subst (λ s. Harmless fault_drop_neutral (not x.ack) s xs) (sym (ap (λ r. r.0) e)) rest,
)

drop_neutral-Harmless :
    (last_nonzero : ℕ) (low : Bool) (xs : List Sample)
    → AtRises NonzeroData low xs
    → Harmless fault_drop_neutral low (some true, last_nonzero) xs
unfolding fault_drop_neutral
drop_neutral-Harmless last_nonzero low [] h = tt
drop_neutral-Harmless last_nonzero low (x ∷ xs) h = elim (Bool-cases (not (x.data_word == 0))) [
  | inl e ↦
      drop_neutral_step low x xs last_nonzero x.data_word x.data_word
        (if_true (not (x.data_word == 0)) _ _ e) (λ a b. refl)
        (drop_neutral-Harmless x.data_word (not x.ack) xs h.1)
  | inr e ↦
      drop_neutral_step low x xs last_nonzero last_nonzero
        (if not (last_nonzero == 0) then last_nonzero else x.data_word)
        (if_false (not (x.data_word == 0)) _ _ e) (λ a b. absurd (h.0 a b (zero_word e)))
        (drop_neutral-Harmless last_nonzero (not x.ack) xs h.1)
]
  where
    zero_word : not (x.data_word == 0) ≡ false → x.data_word ≡ 0
    zero_word e = ground arith

-- A glitch in a window of times that no rise of ACK falls into changes nothing in what a replay
-- returns, in any configuration, whatever bits it flips.
pub replay_run-fault_glitch_data :
    (cfg : ReplayCfg) (has_cb : Bool) (wf : Waveform) (g : Glitch) (b : Burst)
    → AtRises (Outside g) false wf.samples
    → replay_run cfg (some fault_glitch_data) has_cb wf (some g) b
      ≡ replay_run {S = Option Glitch} cfg none has_cb wf none b
replay_run-fault_glitch_data cfg has_cb wf g b h =
    replay_run-Harmless cfg has_cb fault_glitch_data none wf (some g) b
      (glitch-Harmless g false wf.samples h)

-- A bus that loses its neutral word, so that a zero is read as the last word that was not, changes
-- nothing in what a replay returns, in any configuration, where DATA is not zero when ACK rises.
pub replay_run-fault_drop_neutral :
    (cfg : ReplayCfg) (has_cb : Bool) (wf : Waveform) (last_nonzero : ℕ) (b : Burst)
    → AtRises NonzeroData false wf.samples
    → replay_run cfg (some fault_drop_neutral) has_cb wf (some true, last_nonzero) b
      ≡ replay_run {S = Unit {0}} cfg none has_cb wf tt b
replay_run-fault_drop_neutral cfg has_cb wf last_nonzero b h =
    replay_run-Harmless cfg has_cb fault_drop_neutral tt wf (some true, last_nonzero) b
      (drop_neutral-Harmless last_nonzero false wf.samples h)

-- What a replay has counted that has latched nothing.
abbrev pub only_seen : ℕ → Burst → ReplayStats
only_seen n b = record no_stats {
  samples_seen = n;
  bursts_completed = b.bursts_completed;
  events_emitted = b.events_emitted;
}

held :
    (have last level : Bool)
    → (have ≡ false) ⊎ (last ≡ level)
    → ((have && not last) ≡ false) ⊎ (level ≡ false)
held false last level h = inl refl
held true true level h = inl refl
held true false false h = inr refl
held true false true (inl e) = absurd (cc)
held true false true (inr e) = absurd (cc)

module _ (cfg : ReplayCfg) (has_cb : Bool) (level : Bool) (start : ℕ) where
  abbrev stuck : Option StuckAck
  stuck = some (record { start_t = start; level = level })

  -- With ACK held from the start there is no rise.
  stuck_loop :
      (xs : List Sample) (r : Run)
      → All (λ x. start ≤ x.t) xs
      → (r.have_last ≡ false) ⊎ (r.last_ack ≡ level)
      → r.st.samples_seen < 2 ^ 32
      → (r' : Run) × (replay_loop cfg (some fault_stuck_ack) has_cb xs stuck r ≡ (r', true))
        × (r'.burst ≡ r.burst)
        × (r'.events ≡ r.events)
        × (r'.st ≡ record r.st { samples_seen = u32 (r.st.samples_seen + length xs) })
  unfolding replay_loop fault_stuck_ack
  stuck_loop [] r late quiet small =
      (r, refl, refl, refl, ap (λ n. record r.st { samples_seen = n }) (omega arith))
  stuck_loop (x ∷ xs) r late quiet small =
      let noted : Run = record (see r) {
        last_data = x.data_word;
        last_ack = level;
        have_last = true;
      } in
      let from = replay_loop cfg (some fault_stuck_ack) has_cb xs stuck in
      let (r', run, burst, events, st) = stuck_loop xs noted late.1 (inr refl) (omega arith) in
      let is_late : leb start x.t ≡ true = ground (arith, late) in
      (
        r',
        ap (λ ack. from (take_sample cfg has_cb x.data_word ack (see r)))
              (if_true (leb start x.t) _ _ is_late)
            ∙ ap from (
                take_sample_idle cfg has_cb x.data_word level (see r)
                  (held r.have_last r.last_ack level quiet))
            ∙ run,
        burst,
        events,
        st ∙ ap (λ n. record r.st { samples_seen = n }) (omega arith),
      )

  -- With ACK held at either level from the first sample on, a replay returns true, in any
  -- configuration, with no event and nothing latched: the assembler is as after its reset, and of
  -- the statistics only the samples are counted.
  pub replay_run-fault_stuck_ack :
      (wf : Waveform) (b : Burst)
      → All (λ x. start ≤ x.t) wf.samples
      → replay_run cfg (some fault_stuck_ack) has_cb wf stuck b ≡ (
        Burst.reset b false,
        [],
        some (only_seen (u32 (length wf.samples)) (Burst.reset b false)),
      )
  unfolding replay_run
  replay_run-fault_stuck_ack wf b late =
      let (r, run, burst, events, st) =
        stuck_loop wf.samples (fresh b) late (inl refl) (omega arith) in
      let done : Burst → List Event → ReplayStats → Burst × List Event × Option ReplayStats =
        λ b' es st'. results (record r { burst = b'; events = es; st = st' }, true) in
      ap results run
      ∙ ap (λ b'. done b' r.events r.st) burst
      ∙ ap (λ es. done (Burst.reset b false) es r.st) events
      ∙ ap (λ st'. done (Burst.reset b false) [] st') st
      ∙ ap (λ n. (Burst.reset b false, [], some (only_seen n (Burst.reset b false)))) (omega arith)
