-- ===== src/EventSink.antt =====
-- pico_aer_rx/aer_event_sink.c: the callback that forwards the events of the burst assembler to the
-- USB stream.
pub mod Counts
pub mod ToHost
pub mod Sensor
pub mod Frames
pub mod Shown
pub mod Drawn
mod Tests
use aer_handshake_firmware.Base.{
  ℕ, ◌+◌, Bool, true, false, Option, none, some, List, if◌then◌else◌, u32,
}
use aer_handshake_firmware.Burst.{Event}
use aer_handshake_firmware.Hal.Stdio.{Port}
use aer_handshake_firmware.UsbStream.{Stream, send_on_event}

-- `aer_event_sink_stats_t`
pub record SinkStats : Type 0 where
  pub events_emitted : ℕ
  pub usb_sent_ok : ℕ
  pub usb_send_failed : ℕ

-- `aer_event_sink_t`
pub record Sink : Type 0 where
  pub enabled : Bool
  pub stats : SinkStats

abbrev pub no_stats : SinkStats
no_stats = record { events_emitted = 0; usb_sent_ok = 0; usb_send_failed = 0 }

-- The argument is `cfg->enabled`, or `none` for NULL.
unfoldable pub init : Option Bool → Sink
init none = record { enabled = true; stats = no_stats }
init (some enabled) = record { enabled = enabled; stats = no_stats }

pub reset : Sink → Sink
reset s = record s { stats = no_stats }

pub set_enabled : Bool → Sink → Sink
set_enabled enabled s = record s { enabled = enabled }

-- What an event works on: the sink that `user` points to, and the stream and port behind it.
pub record Outlet : Type 0 where
  pub sink : Sink
  pub stream : Stream
  pub port : Port

abbrev pub count_sent : Bool → SinkStats → SinkStats
count_sent ok st =
    if ok
    then record st { usb_sent_ok = u32 (st.usb_sent_ok + 1) }
    else record st { usb_send_failed = u32 (st.usb_send_failed + 1) }

-- `cycles n` is the value of the cycle counter after the n-th question for the connection.
module _ (connected : ℕ → Bool) (fwrite : ℕ → List ℕ → List ℕ × ℕ) (cycles : ℕ → ℕ) where
  -- `aer_event_sink_on_event`
  pub on_event : Outlet → Event → Outlet
  on_event o (row, col) =
      let emitted = record o.sink.stats {
        events_emitted = u32 (o.sink.stats.events_emitted + 1);
      } in
      let ((stream, port), ok) =
        send_on_event connected fwrite row col (cycles o.port.queries) (o.stream, o.port) in
      if o.sink.enabled
      then record {
        sink = record o.sink { stats = count_sent ok emitted };
        stream = stream;
        port = port;
      }
      else record o { sink = record o.sink { stats = count_sent false emitted } }
