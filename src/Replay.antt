-- ===== src/Replay.antt =====
-- host/aer_rx_replay.c: the replay of a waveform into the decoder and the burst assembler, and the
-- fault injectors.
pub mod Samples
pub mod Faults
pub mod Sent
pub mod Trace
mod Tests
use aer_handshake_firmware.Base.{
  ℕ, ◌+◌, ◌*◌, ◌<◌, ◌≡◌, Bool, true, false, not, ◌&&◌, ◌||◌, Option, none, some, List, [], ◌∷◌,
  ◌++◌, length, if◌then◌else◌, ltb, leb, ◌==◌, u32, u64, bit_and, bit_xor,
}
use aer_handshake_firmware.Codec.{CodecResult, decode_word, err_neutral}
use aer_handshake_firmware.Burst
use aer_handshake_firmware.Burst.{Burst, Event, feed}
use aer_handshake_firmware.Waveform.{Sample, Waveform, last}

-- `aer_rx_fault_fn_t`: from the injector's state, a time, DATA and ACK to its new state and DATA
-- and ACK, or `none` where it asks to abort.
abbrev pub FaultFn : Type 0 → Type 0
FaultFn S = S → ℕ → ℕ → Bool → S × Option (ℕ × Bool)

-- `aer_rx_replay_cfg_t`, without the injector.
pub record ReplayCfg : Type 0 where
  pub latch_on_ack_rise : Bool
  pub ignore_invalid_words : Bool
  pub count_neutral_as_error : Bool

abbrev pub cfg_default : ReplayCfg
cfg_default = record {
  latch_on_ack_rise = true;
  ignore_invalid_words = true;
  count_neutral_as_error = false;
}

-- `aer_rx_replay_stats_t`
pub record ReplayStats : Type 0 where
  pub samples_seen : ℕ
  pub ack_rises : ℕ
  pub words_latched : ℕ
  pub codec_ok : ℕ
  pub codec_invalid : ℕ
  pub codec_neutral : ℕ
  pub bursts_completed : ℕ
  pub events_emitted : ℕ
  pub protocol_issues : ℕ

abbrev pub no_stats : ReplayStats
no_stats = record {
  samples_seen = 0;
  ack_rises = 0;
  words_latched = 0;
  codec_ok = 0;
  codec_invalid = 0;
  codec_neutral = 0;
  bursts_completed = 0;
  events_emitted = 0;
  protocol_issues = 0;
}

-- The variables of the loop of `aer_rx_replay_run`, with the calls of the callback so far.
pub record Run : Type 0 where
  pub st : ReplayStats
  pub burst : Burst
  pub events : List Event
  pub last_data : ℕ
  pub last_ack : Bool
  pub have_last : Bool

-- The counters at a latched word.
pub count_word : ReplayCfg → CodecResult → ReplayStats → ReplayStats
count_word cfg cr st =
    let rise = record st {
      ack_rises = u32 (st.ack_rises + 1);
      words_latched = u32 (st.words_latched + 1);
    } in
    let sorted =
      if cr.ok
      then record rise { codec_ok = u32 (st.codec_ok + 1) }
      else record rise { codec_invalid = u32 (st.codec_invalid + 1) } in
    let neutral = record sorted { codec_neutral = u32 (st.codec_neutral + 1) } in
    if bit_and cr.err_flags err_neutral == 0
    then sorted
    else if cfg.count_neutral_as_error
    then record neutral { protocol_issues = u32 (st.protocol_issues + 1) }
    else neutral

-- The body of the latch in the loop.
pub latch_word : ReplayCfg → Bool → ℕ → Run → Run
latch_word cfg has_cb latched r =
    let cr = decode_word latched in
    let counted = record r { st = count_word cfg cr r.st } in
    let (burst, events, _) = feed r.burst cr has_cb in
    if cfg.ignore_invalid_words && not cr.ok
    then counted
    else record counted { burst = burst; events = r.events ++ events }

-- One round of the loop, after the fault injection.
pub take_sample : ReplayCfg → Bool → ℕ → Bool → Run → Run
take_sample cfg has_cb data_word ack r =
    let latched = latch_word cfg has_cb data_word r in
    let r' =
      if r.have_last && (cfg.latch_on_ack_rise && (not r.last_ack && ack)) then latched else r in
    record r' { last_data = data_word; last_ack = ack; have_last = true }

abbrev pub see : Run → Run
see r = record r { st = record r.st { samples_seen = u32 (r.st.samples_seen + 1) } }

module _ {S : Type 0} (cfg : ReplayCfg) (fault_fn : Option (FaultFn S)) (has_cb : Bool) where
  abbrev pub inject : S → Sample → S × Option (ℕ × Bool)
  inject s x = elim fault_fn [
    | none ↦ (s, some (x.data_word, x.ack))
    | some f ↦ f s x.t x.data_word x.ack
  ]

  -- The loop; the flag is false where the injector has aborted it.
  pub replay_loop : List Sample → S → Run → Run × Bool
  replay_loop [] s r = (r, true)
  replay_loop (x ∷ xs) s r =
      let (s', injected) = inject s x in
      elim injected [
        | none ↦ (see r, false)
        | some (data_word, ack) ↦ replay_loop xs s' (take_sample cfg has_cb data_word ack (see r))
      ]

  -- `aer_rx_replay_run` on valid pointers: the assembler, the calls of the callback, and the stats
  -- that are written where it returns true.
  pub replay_run : Waveform → S → Burst → Burst × List Event × Option ReplayStats
  replay_run wf s burst =
      let r : Run = record {
        st = no_stats;
        burst = Burst.reset burst false;
        events = [];
        last_data = 0;
        last_ack = false;
        have_last = false;
      } in
      let (r', done) = replay_loop wf.samples s r in
      (
        r'.burst,
        r'.events,
        if done
            then some (record r'.st {
              bursts_completed = r'.burst.bursts_completed;
              events_emitted = r'.burst.events_emitted;
            })
            else none,
      )

-- The growth in `wf_push_raw`, by doubling from 128.
pub grow_raw : (ℕ → Bool) → Waveform → Waveform × Bool
grow_raw realloc wf =
    let new_cap = if wf.cap == 0 then 128 else u64 (wf.cap * 2) in
    if ltb wf.cap (u64 (length wf.samples + 1))
    then if realloc new_cap then (record wf { cap = new_cap }, true) else (wf, false)
    else (wf, true)

-- The rest of `wf_push_raw`.
pub store_raw : Waveform → Sample → Waveform × Bool
store_raw wf s =
    let appended = record wf { samples = wf.samples ++ s ∷ [] } in
    elim (last wf.samples) [
      | none ↦ (appended, true)
      | some l ↦ if ltb s.t l.t then (wf, false) else (appended, true)
    ]

pub wf_push_raw : (ℕ → Bool) → Waveform → Sample → Waveform × Bool
wf_push_raw realloc wf s =
    let (wf', ok) = grow_raw realloc wf in
    let stored = store_raw wf' s in if ok then stored else (wf', false)

-- The fault injectors, with the structure that `user` points to as their state.
pub record Glitch : Type 0 where
  pub start_t : ℕ
  pub end_t : ℕ
  pub xor_mask : ℕ

pub fault_glitch_data : FaultFn (Option Glitch)
fault_glitch_data none t data_word ack = (none, some (data_word, ack))
fault_glitch_data (some g) t data_word ack = (
  some g,
  some (if leb g.start_t t && leb t g.end_t then bit_xor data_word g.xor_mask else data_word, ack),
)

pub record StuckAck : Type 0 where
  pub start_t : ℕ
  pub level : Bool

pub fault_stuck_ack : FaultFn (Option StuckAck)
fault_stuck_ack none t data_word ack = (none, some (data_word, ack))
fault_stuck_ack (some s) t data_word ack =
    (some s, some (data_word, if leb s.start_t t then s.level else ack))

-- The flag `enabled`, `none` for NULL, and the static variable `last_nonzero`.
pub fault_drop_neutral : FaultFn (Option Bool × ℕ)
fault_drop_neutral (none, last_nonzero) t data_word ack =
    ((none, last_nonzero), some (data_word, ack))
fault_drop_neutral (some false, last_nonzero) t data_word ack =
    ((some false, last_nonzero), some (data_word, ack))
fault_drop_neutral (some true, last_nonzero) t data_word ack =
    if not (data_word == 0) then ((some true, data_word), some (data_word, ack)) else (
      (some true, last_nonzero),
      some (if not (last_nonzero == 0) then last_nonzero else data_word, ack),
    )
