-- ===== src/Boot/Whole.antt =====
-- The firmware from its start to the host.
use aer_handshake_firmware.Base.{
  ℕ, ◌/◌, ◌%◌, ◌^◌, ◌<◌, ◌≤◌, ◌≡◌, refl, Bool, true, false, Option, some, List, ◌∷◌, ◌++◌, All,
  length, arith,
}
use aer_handshake_firmware.Burst.{Burst}
use aer_handshake_firmware.Link.{RowBurst, Fits, transmit, events}
use aer_handshake_firmware.RxPoll.{Io}
use aer_handshake_firmware.Hal.Gpio.{
  Gpio, init as hal_gpio_init, read_data_raw, read_data_raw_lem, init_returns,
}
use aer_handshake_firmware.Hal.Stdio.{Port, Plain, bytes_u32}
use aer_handshake_firmware.Hal.Time
use aer_handshake_firmware.Hal.Stdio
use aer_handshake_firmware.Hal.Stdio.Log
use aer_handshake_firmware.Hal.Stdio.Log.{Log}
use aer_handshake_firmware.UsbStream
use aer_handshake_firmware.UsbStream.{Stream}
use aer_handshake_firmware.Firmware.{Firmware, passes, start}
use aer_handshake_firmware.Firmware.Transfer.{Transfer, OnBus, samples, words, rounds}
use aer_handshake_firmware.EventSink
use aer_handshake_firmware.UsbStream.Host.{PlainEvent}
use aer_handshake_firmware.EventSink.{Outlet, Sink, on_event}
use aer_handshake_firmware.EventSink.ToHost.{Reads}
use aer_handshake_firmware.EventSink.Sensor.{passes-Reads}
use aer_handshake_firmware.Boot.{
  Boot, Call, Round, gpio_put, gpio_out, gpio_init, reset_gpio, data_width_bits, cdc_dtr_asserted,
  gpio_cfg, boot,
}
use aer_handshake_firmware.Boot.Dtr.{Blinks, wait_for_usb_dtr_with_led-Blinks}

-- What the boot has set up, and the calls that it has made on pins.
pub record SetUp (led : ℕ) (gpio : Gpio) (b : Boot) : Type 0 where
  pub enabled : b.sink.enabled ≡ true
  pub ticks : b.stream.cfg.timestamps_enabled ≡ true
  pub packets : b.log.packetized ≡ true
  pub data_pins : (all : ℕ) → read_data_raw b.gpio all ≡ all / 2 ^ 2 % 2 ^ 12
  pub inits : hal_gpio_init gpio (some gpio_cfg) ≡ some (b.gpio, b.pin_calls)
  pub blinked :
      (level : Bool) × (blinks : List Call) × Blinks led level blinks
      × (b.calls
          ≡ gpio_put reset_gpio false
            ∷ gpio_out reset_gpio
            ∷ gpio_init reset_gpio
            ∷ gpio_put led true
            ∷ blinks)

pub boot-SetUp :
    (log : Log) (gpio : Gpio) (stream : Stream) (reported : ℕ) (dwt : Option (ℕ × ℕ))
    (led begin : ℕ) (before : List Round) (r : Round) (after : List Round)
    → All (λ x. cdc_dtr_asserted x ≡ false) before
    → cdc_dtr_asserted r ≡ true
    → (b : Boot) × (boot log gpio stream reported dwt led begin (before ++ r ∷ after) ≡ some b)
      × SetUp led gpio b
unfolding boot Stdio.init Log.set_packetized UsbStream.init EventSink.init
boot-SetUp log gpio stream reported dwt led begin before r after none_yet seen =
    let (_, (level, blinks, lit, waited)) =
      wait_for_usb_dtr_with_led-Blinks led begin before r after none_yet seen in
    let (gpio', pin_calls, pins) = init_returns gpio gpio_cfg (omega arith) (omega arith) in
    (
      record {
        log = Log.set_packetized true log;
        clock = Time.init reported dwt;
        gpio = gpio';
        stream =
            UsbStream.init
              (some (record { timestamps_enabled = true; data_width_bits = data_width_bits }))
              stream;
        sink = EventSink.init (some true);
        calls =
            gpio_put reset_gpio false
            ∷ gpio_out reset_gpio
            ∷ gpio_init reset_gpio
            ∷ gpio_put led true
            ∷ blinks;
        pin_calls = pin_calls;
      },
      rw (waited, pins, boot) refl,
      record {
        enabled = refl;
        ticks = refl;
        packets = refl;
        data_pins = λ all. read_data_raw_lem gpio gpio' gpio_cfg pin_calls all pins (omega arith);
        inits = pins;
        blinked = (level, blinks, lit, refl);
      },
    )

-- From the start of the firmware on: on a host that opens the port in some round of the wait, with
-- a 32-bit cycle counter and the 2048 words of ring storage, on a stdout that converts line feeds,
-- as that of the SDK does unless it is turned off, or does not, and passes on the other bytes,
-- where it does with no row or column of the events that is 10, and no byte of the ticks: the boot
-- returns, with the DATA word read as the 12 pins from pin 2 on; and a sensor that sends the words
-- of bursts that fit it, by transfers with any timing on the bus, has the main loop write bytes
-- from which the host reads exactly the events of the bursts, in order.
pub boot-Reads :
    (connected : ℕ → Bool) (fwrite : ℕ → List ℕ → List ℕ × ℕ) (cycles : ℕ → ℕ) (converts : Bool)
    (log : Log) (gpio : Gpio) (stream : Stream) (reported : ℕ) (dwt : Option (ℕ × ℕ))
    (led begin : ℕ) (before : List Round) (r : Round) (after : List Round) (ms : List RowBurst)
    (ts : List Transfer) (rest storage : List ℕ) (memory : Burst) (port : Port) (clock : List ℕ)
    (bus_log : List Io)
    → ((n : ℕ) → connected n ≡ true)
    → ((n : ℕ) (bs : List ℕ) → Plain converts bs → fwrite n bs ≡ (bs, length bs))
    → ((n : ℕ) → Plain converts (bytes_u32 (cycles n)))
    → ((n : ℕ) → cycles n < 2 ^ 32)
    → All (λ x. cdc_dtr_asserted x ≡ false) before
    → cdc_dtr_asserted r ≡ true
    → 2048 ≤ length storage
    → length memory.cols ≡ 32
    → All Fits ms
    → All (PlainEvent converts) (events ms)
    → All OnBus ts
    → words ts ≡ transmit ms
    → (b : Boot) × (s s' : Firmware Outlet) × (bytes : List ℕ) × (boot log gpio stream reported dwt
          led begin
          (before ++ r ∷ after)
        ≡ some b)
      × ((all : ℕ) → read_data_raw b.gpio all ≡ all / 2 ^ 2 % 2 ^ 12)
      × (start
            (on_event connected fwrite cycles)
            storage
            memory
            (record { sink = b.sink; stream = b.stream; port = port })
            (record { samples = samples ts rest; clock = clock; log = bus_log })
          ≡ some s)
      × (passes (on_event connected fwrite cycles) (rounds ts) s ≡ some s')
      × (s'.user.port.output ≡ port.output ++ bytes)
      × Reads bytes (events ms)
boot-Reads connected fwrite cycles converts log gpio stream reported dwt led begin before r after ms
      ts rest storage memory port clock bus_log all whole plain_ticks in_word none_yet seen hs hm
      fits plain on_bus sent =
    let (b, boots, set_up) =
      boot-SetUp log gpio stream reported dwt led begin before r after none_yet seen in
    let (s, s', bytes, starts, runs, output, reads) =
      passes-Reads connected fwrite cycles converts ms ts rest storage memory
        (record { sink = b.sink; stream = b.stream; port = port }) clock bus_log all whole
        plain_ticks in_word set_up.enabled hs hm fits plain on_bus sent in
    (b, s, s', bytes, boots, set_up.data_pins, starts, runs, output, reads)
