-- ===== src/TxModel.antt =====
-- host/aer_tx_model.c: the model of a sensor that sends words by 4-phase handshakes, as a waveform.
pub mod Emit
use aer_handshake_firmware.Base.{
  ℕ, ◌+◌, Bool, true, false, Option, none, some, List, [], ◌∷◌, if◌then◌else◌, u64,
}
use aer_handshake_firmware.Waveform.{Sample, Waveform, wf_push_transition}

-- `aer_tx_model_cfg_t`
pub record Cfg : Type 0 where
  pub ack_rise_delay : ℕ
  pub data_clear_delay : ℕ
  pub ack_fall_delay : ℕ
  pub neutral_word : ℕ
  pub initial_ack : Bool

abbrev pub cfg_default : Cfg
cfg_default = record {
  ack_rise_delay = 1;
  data_clear_delay = 0;
  ack_fall_delay = 1;
  neutral_word = 0;
  initial_ack = false;
}

-- `aer_tx_model_t`, with the waveform that `out` points to.
pub record TxModel : Type 0 where
  pub cfg : Cfg
  pub t : ℕ
  pub cur_data : ℕ
  pub cur_ack : Bool
  pub out : Option Waveform

abbrev or_default : Option Cfg → Cfg
or_default none = cfg_default
or_default (some c) = c

module _ (realloc : ℕ → Bool) where
  -- Append to `m->out`; the flag says whether that has worked.
  pub put : TxModel → ℕ → ℕ → Bool → TxModel × Bool
  put m t data_word ack = elim m.out [
    | none ↦ (m, false)
    | some wf ↦
        let (wf', ok) =
          wf_push_transition realloc wf (record { t = t; data_word = data_word; ack = ack }) in
        (record m { out = some wf' }, ok)
  ]

  -- `aer_tx_model_init`; the result of the push is ignored.
  pub init : Option Cfg → Option Waveform → ℕ → TxModel
  init cfg out t0 =
      let cfg' = or_default cfg in
      let m : TxModel = record {
        cfg = cfg';
        t = t0;
        cur_data = cfg'.neutral_word;
        cur_ack = cfg'.initial_ack;
        out = out;
      } in
      (put m t0 cfg'.neutral_word cfg'.initial_ack).0

  -- The four steps of `aer_tx_model_emit_word`, last first.
  pub drop_ack : TxModel → ℕ → TxModel × Bool
  drop_ack m t_ack_lo =
      let (m', ok) = put m t_ack_lo m.cur_data false in
      if ok then (record m' { cur_ack = false; t = t_ack_lo }, true) else (m', false)

  pub clear_data : TxModel → ℕ → TxModel × Bool
  clear_data m t_neutral =
      let (m', ok) = put m t_neutral m.cfg.neutral_word m.cur_ack in
      let next =
        drop_ack (record m' { cur_data = m.cfg.neutral_word })
          (u64 (t_neutral + m.cfg.ack_fall_delay)) in
      if ok then next else (m', false)

  pub raise_ack : TxModel → ℕ → TxModel × Bool
  raise_ack m t_ack_hi =
      let (m', ok) = put m t_ack_hi m.cur_data true in
      let next =
        clear_data (record m' { cur_ack = true }) (u64 (t_ack_hi + m.cfg.data_clear_delay)) in
      if ok then next else (m', false)

  -- `aer_tx_model_emit_word`
  pub emit_word : TxModel → ℕ → TxModel × Bool
  emit_word m word =
      let (m', ok) = put m m.t word m.cur_ack in
      let next = raise_ack (record m' { cur_data = word }) (u64 (m.t + m.cfg.ack_rise_delay)) in
      if ok then next else (m', false)

  -- The loop of `aer_tx_model_emit_words`.
  pub emit_all : TxModel → List ℕ → TxModel × Bool
  emit_all m [] = (m, true)
  emit_all m (w ∷ ws) =
      let (m', ok) = emit_word m w in let rest = emit_all m' ws in if ok then rest else (m', false)

  -- `aer_tx_model_emit_words`, on a valid `words` pointer.
  pub emit_words : TxModel → List ℕ → TxModel × Bool
  emit_words m ws = elim m.out [ none ↦ (m, false) | some _ ↦ emit_all m ws ]
