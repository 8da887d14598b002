-- ===== src/Boot/Screen.antt =====
-- The firmware from its start, with the transmitter of README.md section 4 on the one side and the
-- screen of scripts/view_events.py on the other.
mod Tests
use aer_handshake_firmware.Base.{
  ℕ, ◌*◌, ◌/◌, ◌<◌, ◌≡◌, ◌≤◌, refl, Bool, true, false, ◌&&◌, ◌||◌, ◌==◌, Option, some, none, List,
  [], ◌∷◌, ◌++◌, length, All, if◌then◌else◌,
}
use aer_handshake_firmware.Burst
use aer_handshake_firmware.Burst.{Burst, Event}
use aer_handshake_firmware.Link.{RowBurst, Fits, transmit, events, receive}
use aer_handshake_firmware.RxPoll.Latched.{latched}
use aer_handshake_firmware.RxPoll.Transmitter.{Phase, Run, unsent}
use aer_handshake_firmware.Hal.Gpio.{Gpio}
use aer_handshake_firmware.Hal.Stdio.Log.{Log}
use aer_handshake_firmware.UsbStream.{Stream}
use aer_handshake_firmware.Firmware.{Firmware, passes, start}
use aer_handshake_firmware.Hal.Stdio.{Plain, bytes_u32}
use aer_handshake_firmware.UsbStream.Host.{PlainEvent}
use aer_handshake_firmware.EventSink.{Outlet, on_event}
use aer_handshake_firmware.EventSink.Drawn.{passes-drawn}
use aer_handshake_firmware.Viewer.{Framed}
use aer_handshake_firmware.Viewer.Pieces.{frames}
use aer_handshake_firmware.Viewer.Pump.{Grid, Turn, pump}
use aer_handshake_firmware.Viewer.Pump.Buffered.{hit, Brought}
use aer_handshake_firmware.Viewer.Draw.{pos, Floats, Square, draw, decay_ms}
use aer_handshake_firmware.Viewer.Draw.Screen.{paint}
use aer_handshake_firmware.Boot.{Boot, Round, cdc_dtr_asserted, boot}
use aer_handshake_firmware.Boot.System.{boot_enabled}

module _ (connected : ℕ → Bool) (fwrite : ℕ → List ℕ → List ℕ × ℕ) (cycles : ℕ → ℕ)
    (converts : Bool) (all : (n : ℕ) → connected n ≡ true)
    (whole : (n : ℕ) (bs : List ℕ) → Plain converts bs → fwrite n bs ≡ (bs, length bs))
    (plain_ticks : (n : ℕ) → Plain converts (bytes_u32 (cycles n))) (fl : Floats) (scale decay : ℕ)
    (visible : 0 < scale) (now : fl.Float) where
  -- From the start of the firmware on, on a host that opens the port in some round of the wait and
  -- stays connected, with the 2048 words of ring storage, on a stdout that converts line feeds, as
  -- that of the SDK does unless it is turned off, or does not, and passes on the other bytes, where
  -- it does with no row or column of the events that is 10, and no byte of the ticks: where the
  -- boot has returned, the main loop has made any number of passes on a bus that is driven by the
  -- transmitter of README.md section 4, with any timing, and each round of the pump of
  -- view_events.py, which starts with no pixel seen, reads one packet of the output of these
  -- passes, in pieces of any size, until nothing is waiting any more, and the pixels have a size:
  -- with `--persist` the next drawing returns, and a point of the window of 32 by 32 pixels is
  -- white after it where its pixel has been hit by an event of the bursts, and black elsewhere; the
  -- events are all but those that the assembler has still to make of the words not yet
  -- acknowledged.
  pub boot-drawn :
      (log : Log) (gpio : Gpio) (stream : Stream) (reported : ℕ) (dwt : Option (ℕ × ℕ))
      (led begin : ℕ) (before : List Round) (r : Round) (after : List Round) (b : Boot)
      (ms : List RowBurst) (storage : List ℕ) (memory : Burst) (queries writes : ℕ)
      (xs clock : List ℕ) (n : ℕ) (s s' : Firmware Outlet) (phase : Phase) (acked : Bool)
      (left : List ℕ) {ts : List (Turn fl.Float)} {ps : List Framed} (u : Turn fl.Float)
      (us : List (Turn fl.Float)) (x y : ℕ)
      → All (λ k. cdc_dtr_asserted k ≡ false) before
      → cdc_dtr_asserted r ≡ true
      → boot log gpio stream reported dwt led begin (before ++ r ∷ after) ≡ some b
      → 2048 ≤ length storage
      → length memory.cols ≡ 32
      → All Fits ms
      → All (PlainEvent converts) (events ms)
      → start
          (on_event connected fwrite cycles)
          storage
          memory
          (record {
            sink = b.sink;
            stream = b.stream;
            port = record { output = []; queries = queries; writes = writes };
          })
          (record { samples = xs; clock = clock; log = [] })
        ≡ some s
      → passes (on_event connected fwrite cycles) n s ≡ some s'
      → Run (transmit ms) s'.bus.log phase acked left
      → Brought ts ps
      → frames ps ≡ s'.user.port.output
      → u.in_waiting ≡ 0
      → x < 32 * scale
      → y < 32 * scale
      → (shown : List Event) × (g : Grid fl.Float) × (events ms
          ≡ shown
            ++ (receive
                (receive (Burst.init memory) (latched s'.bus.log)).0
                (unsent phase acked left)).1)
        × (pump (ts ++ u ∷ us) [] (λ r c. none) ≡ some ([], g))
        × (squares : List Square) × (draw fl scale (decay_ms true decay) now g ≡ some squares)
        × (paint x y squares (pos 0)
            ≡ (if hit (y / scale) (x / scale) shown then pos 255 else pos 0))
  boot-drawn log gpio stream reported dwt led begin before r after b ms storage memory queries
        writes xs clock n s s' phase acked left u us x y none_yet seen boots =
      passes-drawn connected fwrite cycles converts all whole plain_ticks fl scale decay visible now
        ms storage memory
        (record {
          sink = b.sink;
          stream = b.stream;
          port = record { output = []; queries = queries; writes = writes };
        })
        xs clock n s s' phase acked left u us x y
        (boot_enabled log gpio stream reported dwt led begin before r after b none_yet seen boots)
        refl
