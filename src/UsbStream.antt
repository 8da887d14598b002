-- ===== src/UsbStream.antt =====
-- pico_aer_rx/usb_stream.c: event records as packets to the host.
pub mod Converted
pub mod Host
use aer_handshake_firmware.Base.{
  ℕ, suc, ◌+◌, ◌/◌, ◌%◌, ◌^◌, ◌≡◌, Bool, true, false, not, ◌&&◌, Option, none, some, List, [], ◌∷◌,
  ◌++◌, length, take, if◌then◌else◌, ◌==◌, u16, u32, u8,
}
use aer_handshake_firmware.Hal.Stdio.{Port, bytes_u32, event_bin, hal_stream_write, ask}

-- `USB_EVT_REC_V1_NOTS`, `USB_EVT_REC_V1_TICKS`, `USB_EVT_FLAG_ON`
abbrev pub rec_v1_nots : ℕ
rec_v1_nots = 1

abbrev pub rec_v1_ticks : ℕ
rec_v1_ticks = 2

abbrev pub flag_on : ℕ
flag_on = 1

-- `usb_stream_cfg_t`, `usb_stream_stats_t`, and the two static variables.
pub record StreamCfg : Type 0 where
  pub timestamps_enabled : Bool
  pub data_width_bits : ℕ

pub record StreamStats : Type 0 where
  pub events_sent : ℕ
  pub events_dropped_not_connected : ℕ

pub record Stream : Type 0 where
  pub cfg : StreamCfg
  pub stats : StreamStats

unfoldable pub init : Option StreamCfg → Stream → Stream
init none s = record s { stats = record { events_sent = 0; events_dropped_not_connected = 0 } }
init (some cfg) s = record {
  cfg = cfg;
  stats = record { events_sent = 0; events_dropped_not_connected = 0 };
}

pub set_timestamps_enabled : Bool → Stream → Stream
set_timestamps_enabled enabled s = record s { cfg = record s.cfg { timestamps_enabled = enabled } }

pub event_record_type : Stream → ℕ
event_record_type s = if s.cfg.timestamps_enabled then rec_v1_ticks else rec_v1_nots

-- `usb_evt_v1_ticks_t` or `usb_evt_v1_nots_t`, filled in; `ticks` is what `hal_cycles_now` returns.
unfoldable pub event_record : Bool → ℕ → ℕ → ℕ → ℕ → List ℕ
event_record true flags row col ticks = rec_v1_ticks ∷ flags ∷ row ∷ col ∷ bytes_u32 ticks
event_record false flags row col ticks = rec_v1_nots ∷ flags ∷ row ∷ col ∷ []

module _ (connected : ℕ → Bool) (fwrite : ℕ → List ℕ → List ℕ × ℕ) where
  -- `usb_stream_send_event`, with the value of the cycle counter.
  pub send_event : ℕ → ℕ → ℕ → ℕ → Stream × Port → (Stream × Port) × Bool
  send_event row col flags ticks (s, p) =
      let (p', ok) =
        hal_stream_write connected fwrite event_bin
          (event_record s.cfg.timestamps_enabled flags row col ticks) (ask p) in
      let dropped = record s.stats {
        events_dropped_not_connected = u32 (s.stats.events_dropped_not_connected + 1);
      } in
      let counted = record s.stats { events_sent = u32 (s.stats.events_sent + 1) } in
      if not (connected p.queries)
      then ((record s { stats = dropped }, ask p), false)
      else if ok
      then ((record s { stats = counted }, p'), true)
      else ((s, p'), false)

  abbrev pub send_on_event : ℕ → ℕ → ℕ → Stream × Port → (Stream × Port) × Bool
  send_on_event row col ticks = send_event row col flag_on ticks
