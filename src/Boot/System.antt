-- ===== src/Boot/System.antt =====
-- The firmware from its start, with the transmitter of README.md section 4 on the one side and
-- scripts/print_events.py on the other.
use aer_handshake_firmware.Base.{
  ℕ, ◌≡◌, ◌≤◌, refl, sym, subst, ◌∙◌, Bool, true, false, Option, some, List, [], ◌∷◌, ◌++◌, length,
  All,
}
use aer_handshake_firmware.Burst
use aer_handshake_firmware.Burst.{Burst}
use aer_handshake_firmware.Link.{RowBurst, Fits, transmit, events, receive}
use aer_handshake_firmware.RxPoll.Latched.{latched}
use aer_handshake_firmware.RxPoll.Transmitter.{Phase, Run, unsent}
use aer_handshake_firmware.Hal.Gpio.{Gpio}
use aer_handshake_firmware.Hal.Stdio.Log.{Log}
use aer_handshake_firmware.UsbStream.{Stream}
use aer_handshake_firmware.Firmware.{Firmware, passes, start}
use aer_handshake_firmware.Hal.Stdio.{Plain, bytes_u32}
use aer_handshake_firmware.UsbStream.Host.{PlainEvent}
use aer_handshake_firmware.EventSink.{Outlet, on_event}
use aer_handshake_firmware.EventSink.Shown.{passes-events_shown}
use aer_handshake_firmware.Viewer.{packets}
use aer_handshake_firmware.Viewer.Pieces.{joined, nothing}
use aer_handshake_firmware.Viewer.Listen.{listen, events_shown}
use aer_handshake_firmware.Boot.{Boot, Round, cdc_dtr_asserted, boot}
use aer_handshake_firmware.Boot.Whole.{boot-SetUp}

-- What a boot that returns after the host has opened the port has set up.
pub boot_enabled :
    (log : Log) (gpio : Gpio) (stream : Stream) (reported : ℕ) (dwt : Option (ℕ × ℕ))
    (led begin : ℕ) (before : List Round) (r : Round) (after : List Round) (b : Boot)
    → All (λ x. cdc_dtr_asserted x ≡ false) before
    → cdc_dtr_asserted r ≡ true
    → boot log gpio stream reported dwt led begin (before ++ r ∷ after) ≡ some b
    → b.sink.enabled ≡ true
boot_enabled log gpio stream reported dwt led begin before r after b none_yet seen boots =
    let (b', boots', set_up) =
      boot-SetUp log gpio stream reported dwt led begin before r after none_yet seen in
    let same : b' ≡ b = cc (sym boots' ∙ boots) in
    subst (λ (x : Boot). x.sink.enabled ≡ true) same set_up.enabled

module _ (connected : ℕ → Bool) (fwrite : ℕ → List ℕ → List ℕ × ℕ) (cycles : ℕ → ℕ)
    (converts : Bool) (all : (n : ℕ) → connected n ≡ true)
    (whole : (n : ℕ) (bs : List ℕ) → Plain converts bs → fwrite n bs ≡ (bs, length bs))
    (plain_ticks : (n : ℕ) → Plain converts (bytes_u32 (cycles n))) where
  -- From the start of the firmware on, on a host that opens the port in some round of the wait and
  -- stays connected, with the 2048 words of ring storage, on a stdout that converts line feeds, as
  -- that of the SDK does unless it is turned off, or does not, and passes on the other bytes, where
  -- it does with no row or column of the events that is 10, and no byte of the ticks: where the
  -- boot has returned, the main loop has made any number of passes on a bus that is driven by the
  -- transmitter of README.md section 4, with any timing, and print_events.py reads the output of
  -- these passes in pieces of any size, and then has at least as many reads that time out as there
  -- are events, it prints, with any options, exactly the events of the bursts, in order, up to
  -- those that the assembler has still to make of the words not yet acknowledged.
  pub boot-events_shown :
      (log : Log) (gpio : Gpio) (stream : Stream) (reported : ℕ) (dwt : Option (ℕ × ℕ))
      (led begin : ℕ) (before : List Round) (r : Round) (after : List Round) (b : Boot)
      (ms : List RowBurst) (storage : List ℕ) (memory : Burst) (queries writes : ℕ)
      (xs clock : List ℕ) (n : ℕ) (s s' : Firmware Outlet) (phase : Phase) (acked : Bool)
      (left : List ℕ) (pieces : List (List ℕ)) (quiet : ℕ) (show_non_events show_ticks : Bool)
      → All (λ x. cdc_dtr_asserted x ≡ false) before
      → cdc_dtr_asserted r ≡ true
      → boot log gpio stream reported dwt led begin (before ++ r ∷ after) ≡ some b
      → 2048 ≤ length storage
      → length memory.cols ≡ 32
      → All Fits ms
      → All (PlainEvent converts) (events ms)
      → start
          (on_event connected fwrite cycles)
          storage
          memory
          (record {
            sink = b.sink;
            stream = b.stream;
            port = record { output = []; queries = queries; writes = writes };
          })
          (record { samples = xs; clock = clock; log = [] })
        ≡ some s
      → passes (on_event connected fwrite cycles) n s ≡ some s'
      → Run (transmit ms) s'.bus.log phase acked left
      → joined pieces ≡ s'.user.port.output
      → length (events ms) ≤ quiet
      → events ms
        ≡ events_shown (listen show_non_events show_ticks (packets [] (pieces ++ nothing quiet)))
          ++ (receive
              (receive (Burst.init memory) (latched s'.bus.log)).0
              (unsent phase acked left)).1
  boot-events_shown log gpio stream reported dwt led begin before r after b ms storage memory
        queries writes xs clock n s s' phase acked left pieces quiet show_non_events show_ticks
        none_yet seen boots hs hm fits plain starts run sent read enough =
      passes-events_shown connected fwrite cycles converts all whole plain_ticks ms storage memory
        (record {
          sink = b.sink;
          stream = b.stream;
          port = record { output = []; queries = queries; writes = writes };
        })
        xs clock n s s' phase acked left pieces quiet show_non_events show_ticks
        (boot_enabled log gpio stream reported dwt led begin before r after b none_yet seen boots)
        refl hs hm fits plain starts run sent read enough
