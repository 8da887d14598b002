-- ===== src/Boot/Tests.antt =====
-- The firmware from its start, with a host that opens the port in the third round, and one burst.
use aer_handshake_firmware.Base.{
  ℕ, ◌/◌, ◌%◌, ◌^◌, ◌≡◌, refl, ap, sym, subst, u32, append-nil, true, false, Option, none, some,
  List, [], ◌∷◌, ◌++◌, length, All, arith,
}
use aer_handshake_firmware.Burst.{Burst, expect_row}
use aer_handshake_firmware.Link.{transmit, events, receive}
use aer_handshake_firmware.Burst
use aer_handshake_firmware.RxPoll.{ack, no_stats, Bus}
use aer_handshake_firmware.RxPoll.Latched.{latched}
use aer_handshake_firmware.RxPoll.Transmitter.{Run, ready, unsent}
use aer_handshake_firmware.Viewer.{packets}
use aer_handshake_firmware.Viewer.Pieces.{nothing}
use aer_handshake_firmware.Viewer.Listen.{listen, events_shown}
use aer_handshake_firmware.Firmware.EndToEnd.{passes-transmit}
use aer_handshake_firmware.Hal.Gpio.{Gpio, read_data_raw}
use aer_handshake_firmware.Hal.Stdio.Log.{log_at_boot}
use aer_handshake_firmware.UsbStream.{Stream}
use aer_handshake_firmware.Fixture.{
  zeros, length-zeros_lem, memory, online, in_full, in_full_lem, ticks_at, port, sent, sent-Fits,
  transmit-sent, clean, clean-OnBus, words-clean, clean-Run,
}
use aer_handshake_firmware.Firmware.{Firmware, passes, start, deliver}
use aer_handshake_firmware.Firmware.Transfer.{
  Transfer, OnBus, samples, words, rounds, history, Ready,
}
use aer_handshake_firmware.EventSink.{Outlet, on_event}
use aer_handshake_firmware.EventSink.ToHost.{Reads}
use aer_handshake_firmware.Boot.{Boot, Round, cdc_dtr_asserted, gpio_cfg, boot}
use aer_handshake_firmware.Boot.Whole.{SetUp, boot-SetUp, boot-Reads}
use aer_handshake_firmware.Boot.System.{boot-events_shown}

abbrev pub closed : List Round
closed =
    record { connected = false; line_state = 0; now = 100000; again = 0 }
    ∷ record { connected = true; line_state = 2; now = 300000; again = 300001 }
    ∷ []

abbrev pub opened : Round
opened = record { connected = true; line_state = 3; now = 310000; again = 0 }

pub closed-waits : All (λ x. cdc_dtr_asserted x ≡ false) closed
unfolding cdc_dtr_asserted
closed-waits = (refl, (refl, tt))

pub opened_lem : cdc_dtr_asserted opened ≡ true
unfolding cdc_dtr_asserted
opened_lem = refl

abbrev pub unset_pins : Gpio
unset_pins = record {
  cfg = gpio_cfg;
  inited = false;
  data_mask64 = 0;
  ack_mask64 = 0;
  data_shift = 0;
}

abbrev pub stream : Stream
stream = record {
  cfg = record { timestamps_enabled = false; data_width_bits = 0 };
  stats = record { events_sent = 0; events_dropped_not_connected = 0 };
}

abbrev pub no_dwt : Option (ℕ × ℕ)
no_dwt = none

abbrev transfers : List Transfer
transfers =
    record { idle = []; seen = 280; word = 280; held = [] }
    ∷ record { idle = 0 ∷ []; seen = 34; word = 290; held = [] }
    ∷ record { idle = []; seen = 2184; word = 2184; held = 8 ∷ [] }
    ∷ []

transfers-OnBus : All OnBus transfers
transfers-OnBus = (
  record { neutral = tt; valid = omega arith; latched = omega arith; until = tt },
  (
    record { neutral = (refl, tt); valid = omega arith; latched = omega arith; until = tt },
    (
      record {
        neutral = tt;
        valid = omega arith;
        latched = omega arith;
        until = (omega arith, tt);
      },
      tt,
    ),
  ),
)

words-sent : words transfers ≡ transmit sent
words-sent = sym transmit-sent

boot-Reads_example :
    (b : Boot) × (s s' : Firmware Outlet) × (bytes : List ℕ) × (boot log_at_boot unset_pins stream
        150000000 no_dwt 25 5
        (closed ++ opened ∷ [])
      ≡ some b)
    × ((all : ℕ) → read_data_raw b.gpio all ≡ all / 2 ^ 2 % 2 ^ 12)
    × (start
          (on_event online in_full ticks_at)
          (zeros 2048)
          memory
          (record { sink = b.sink; stream = b.stream; port = port })
          (record { samples = samples transfers []; clock = []; log = [] })
        ≡ some s)
    × (passes (on_event online in_full ticks_at) (rounds transfers) s ≡ some s')
    × (s'.user.port.output ≡ port.output ++ bytes)
    × Reads bytes (events sent)
boot-Reads_example =
    boot-Reads online in_full ticks_at true log_at_boot unset_pins stream 150000000 no_dwt 25 5
      closed opened [] sent transfers [] (zeros 2048) memory port [] [] (λ n. refl) in_full_lem
      (λ n. refl) (λ n. omega arith) closed-waits opened_lem (omega (arith, length-zeros_lem 2048))
      refl sent-Fits (refl, tt) transfers-OnBus words-sent

-- What the boot has set up, and a session of the main loop on the burst.
pub booted :
    (b : Boot) × (boot log_at_boot unset_pins stream 150000000 no_dwt 25 5 (closed ++ opened ∷ [])
      ≡ some b)
    × SetUp 25 unset_pins b
booted =
    boot-SetUp log_at_boot unset_pins stream 150000000 no_dwt 25 5 closed opened [] closed-waits
      opened_lem

abbrev pub outlet : Outlet
outlet = record { sink = booted.0.sink; stream = booted.0.stream; port = port }

pub session :
    (s s' : Firmware Outlet) × (start
        (on_event online in_full ticks_at)
        (zeros 2048)
        memory
        outlet
        (record { samples = samples clean []; clock = []; log = [] })
      ≡ some s)
    × (passes (on_event online in_full ticks_at) (rounds clean) s ≡ some s')
    × (s'.user ≡ deliver (on_event online in_full ticks_at) outlet (events sent))
    × (s'.rx.stats ≡ record no_stats { words_ok = u32 (length (transmit sent)) })
    × (s'.bus ≡ record { samples = []; clock = []; log = history clean (ack false ∷ []) })
    × Ready s'
session =
    passes-transmit (on_event online in_full ticks_at) sent clean [] (zeros 2048) memory outlet []
      [] (omega (arith, length-zeros_lem 2048)) refl sent-Fits clean-OnBus words-clean

pub session-Run : Run (transmit sent) session.1.bus.log ready false []
session-Run =
    subst (λ log. Run (transmit sent) log ready false []) (sym (ap (λ (b : Bus). b.log) session.6))
      clean-Run

-- The output is read in one piece.
abbrev pieces : List (List ℕ)
pieces = session.1.user.port.output ∷ []

boot-events_shown_example :
    events sent
    ≡ events_shown (listen true true (packets [] (pieces ++ nothing 2)))
      ++ (receive
          (receive (Burst.init memory) (latched session.1.bus.log)).0
          (unsent ready false [])).1
boot-events_shown_example =
    boot-events_shown online in_full ticks_at true (λ n. refl) in_full_lem (λ n. refl) log_at_boot
      unset_pins stream 150000000 no_dwt 25 5 closed opened [] booted.0 sent (zeros 2048) memory 0 0
      (samples clean []) [] (rounds clean) session.0 session.1 ready false [] pieces 2 true true
      closed-waits opened_lem booted.1 (omega (arith, length-zeros_lem 2048)) refl sent-Fits
      (refl, tt) session.2 session.3 session-Run (append-nil session.1.user.port.output)
      (omega arith)
