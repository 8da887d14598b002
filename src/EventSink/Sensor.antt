-- ===== src/EventSink/Sensor.antt =====
-- From the sensor to the host: the main loop with the event sink as its callback.
use aer_handshake_firmware.Base.{
  ℕ, ◌^◌, ◌<◌, ◌≤◌, ◌≡◌, ap, ◌∙◌, Bool, true, some, List, ◌++◌, length, All,
}
use aer_handshake_firmware.Burst.{Burst}
use aer_handshake_firmware.Link.{RowBurst, Fits, transmit, events}
use aer_handshake_firmware.RxPoll.{Io}
use aer_handshake_firmware.Firmware.{Firmware, passes, start}
use aer_handshake_firmware.Firmware.Transfer.{Transfer, OnBus, samples, words, rounds}
use aer_handshake_firmware.Firmware.EndToEnd.{passes-transmit}
use aer_handshake_firmware.Hal.Stdio.{Plain, bytes_u32}
use aer_handshake_firmware.UsbStream.Host.{PlainEvent}
use aer_handshake_firmware.EventSink.{Outlet, on_event}
use aer_handshake_firmware.EventSink.ToHost.{Reads, deliver-Reads}

-- Given a connected host, a stdout that converts line feeds, or does not, and passes on the other
-- bytes, with no row, column and no byte of the ticks of 10 where it does, a 32-bit cycle counter
-- and an enabled sink: from `main`'s initialisation on, with the 2048 words of ring storage, a
-- sensor that sends the words of bursts that fit it, by transfers with any timing on the bus, has
-- the main loop write bytes from which the host reads exactly the events of the bursts, in order,
-- once the loop has made one pass for each sample that it has found neutral and one for each word.
pub passes-Reads :
    (connected : ℕ → Bool) (fwrite : ℕ → List ℕ → List ℕ × ℕ) (cycles : ℕ → ℕ) (converts : Bool)
    (ms : List RowBurst) (ts : List Transfer) (rest storage : List ℕ) (memory : Burst)
    (outlet : Outlet) (clock : List ℕ) (log : List Io)
    → ((n : ℕ) → connected n ≡ true)
    → ((n : ℕ) (bs : List ℕ) → Plain converts bs → fwrite n bs ≡ (bs, length bs))
    → ((n : ℕ) → Plain converts (bytes_u32 (cycles n)))
    → ((n : ℕ) → cycles n < 2 ^ 32)
    → outlet.sink.enabled ≡ true
    → 2048 ≤ length storage
    → length memory.cols ≡ 32
    → All Fits ms
    → All (PlainEvent converts) (events ms)
    → All OnBus ts
    → words ts ≡ transmit ms
    → (s s' : Firmware Outlet) × (bytes : List ℕ) × (start
          (on_event connected fwrite cycles)
          storage
          memory
          outlet
          (record { samples = samples ts rest; clock = clock; log = log })
        ≡ some s)
      × (passes (on_event connected fwrite cycles) (rounds ts) s ≡ some s')
      × (s'.user.port.output ≡ outlet.port.output ++ bytes)
      × Reads bytes (events ms)
passes-Reads connected fwrite cycles converts ms ts rest storage memory outlet clock log all whole
      plain_ticks in_word on hs hm fits plain on_bus sent =
    let (s, s', starts, runs, user, _, _, _) =
      passes-transmit (on_event connected fwrite cycles) ms ts rest storage memory outlet clock log
        hs hm fits on_bus sent in
    let (bytes, output, reads) =
      deliver-Reads connected fwrite cycles converts all whole plain_ticks in_word (events ms)
        outlet plain on in
    (s, s', bytes, starts, runs, ap (λ (o : Outlet). o.port.output) user ∙ output, reads)
