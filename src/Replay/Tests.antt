-- ===== src/Replay/Tests.antt =====
-- The three words of a burst, sent by the default sensor model and replayed.
use aer_handshake_firmware.Base.{
  ℕ, suc, zero, ◌≡◌, refl, Bool, true, false, none, some, List, [], ◌∷◌, length, u32, arith,
}
use aer_handshake_firmware.Burst
use aer_handshake_firmware.Burst.{Burst, expect_col_or_tail}
use aer_handshake_firmware.Link.{receive}
use aer_handshake_firmware.Waveform.{Waveform, empty}
use aer_handshake_firmware.TxModel
use aer_handshake_firmware.TxModel.{TxModel}
use aer_handshake_firmware.Replay.{cfg_default, ReplayStats, replay_run, fault_glitch_data}
use aer_handshake_firmware.Replay.Sent.{replay_run-emit_words}

abbrev zeros : ℕ → List ℕ
zeros zero = []
zeros (suc n) = 0 ∷ zeros n

-- In the middle of a burst, which the replay forgets.
abbrev used : Burst
used = record {
  state = expect_col_or_tail;
  row = 7;
  cols = zeros 32;
  col_count = 2;
  err_flags = 0;
  bursts_completed = 1;
  events_emitted = 4;
}

abbrev any_size : ℕ → Bool
any_size n = true

-- There is no injector; this would be its state.
abbrev unused : ℕ
unused = 0

abbrev sent : List ℕ
sent = 280 ∷ 290 ∷ 2184 ∷ []

replay_run-emit_words_example :
    (m : TxModel) × (wf : Waveform) × (st : ReplayStats) × (TxModel.emit_words any_size
        (TxModel.init any_size (some TxModel.cfg_default) (some empty) 5)
        sent
      ≡ (m, true))
    × (m.out ≡ some wf)
    × (replay_run cfg_default none true wf unused used ≡ (
      (receive (Burst.reset used false) sent).0,
      (receive (Burst.reset used false) sent).1,
      some st,
    ))
    × (st.words_latched ≡ u32 (length sent))
replay_run-emit_words_example =
    replay_run-emit_words unused any_size TxModel.cfg_default 5 sent used (λ n. refl) refl
      (omega arith, (omega arith, (omega arith, tt))) (omega arith)

-- A glitch flips a wire from time 3 to time 4.
glitch_in_window :
    fault_glitch_data (some (record { start_t = 3; end_t = 4; xor_mask = 1 })) 4 280 true
    ≡ (some (record { start_t = 3; end_t = 4; xor_mask = 1 }), some (281, true))
unfolding fault_glitch_data
glitch_in_window = refl
