-- ===== src/Replay/Faults/Tests.antt =====
-- Faults on a recording in which the word 280 is latched at time 6.
use aer_handshake_firmware.Base.{
  ◌≡◌, inl, inr, true, false, Option, none, some, [], ◌∷◌, length, u32, arith,
}
use aer_handshake_firmware.Burst
use aer_handshake_firmware.Burst.{Burst, expect_col_or_tail}
use aer_handshake_firmware.Waveform.{Waveform}
use aer_handshake_firmware.Replay.{
  cfg_default, replay_run, Glitch, fault_glitch_data, fault_stuck_ack, fault_drop_neutral,
}
use aer_handshake_firmware.Replay.Faults.Injectors.{
  only_seen, replay_run-fault_glitch_data, replay_run-fault_drop_neutral,
  replay_run-fault_stuck_ack,
}

abbrev recording : Waveform
recording = record {
  samples =
      record { t = 0; data_word = 0; ack = false }
      ∷ record { t = 5; data_word = 280; ack = false }
      ∷ record { t = 6; data_word = 280; ack = true }
      ∷ record { t = 8; data_word = 0; ack = true }
      ∷ record { t = 9; data_word = 0; ack = false }
      ∷ [];
  cap = 64;
}

abbrev used : Burst
used = record {
  state = expect_col_or_tail;
  row = 7;
  cols = 1 ∷ 2 ∷ [];
  col_count = 2;
  err_flags = 0;
  bursts_completed = 1;
  events_emitted = 4;
}

-- It flips a wire while the word settles.
abbrev early : Glitch
early = record { start_t = 4; end_t = 5; xor_mask = 1 }

replay_run-fault_glitch_data_example :
    replay_run cfg_default (some fault_glitch_data) true recording (some early) used
    ≡ replay_run {S = Option Glitch} cfg_default none true recording none used
replay_run-fault_glitch_data_example =
    replay_run-fault_glitch_data cfg_default true recording early used (
      λ low high. inl (omega arith),
      (
        λ low high. absurd (cc),
        (
          λ low high. inr (omega arith),
          (λ low high. inr (omega arith), (λ low high. inr (omega arith), tt)),
        ),
      ),
    )

replay_run-fault_drop_neutral_example :
    replay_run cfg_default (some fault_drop_neutral) true recording (some true, 0) used
    ≡ replay_run {S = Unit {0}} cfg_default none true recording tt used
replay_run-fault_drop_neutral_example =
    replay_run-fault_drop_neutral cfg_default true recording 0 used (
      λ low high. absurd (cc),
      (
        λ low high. absurd (cc),
        (
          λ low high z. absurd (omega arith),
          (λ low high. absurd (cc), (λ low high. absurd (cc), tt)),
        ),
      ),
    )

replay_run-fault_stuck_ack_example :
    replay_run cfg_default
      (some fault_stuck_ack)
      true
      recording
      (some (record { start_t = 0; level = true }))
      used
    ≡ (
      Burst.reset used false,
      [],
      some (only_seen (u32 (length recording.samples)) (Burst.reset used false)),
    )
replay_run-fault_stuck_ack_example =
    replay_run-fault_stuck_ack cfg_default true true 0 recording used
      (omega arith, (omega arith, (omega arith, (omega arith, (omega arith, tt)))))
