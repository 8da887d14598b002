-- ===== src/Firmware/EndToEnd.antt =====
-- The whole firmware, from `main`'s initialisation on: a sensor sends bursts of events as words on
-- the bus, and the callback gets the events.
use aer_handshake_firmware.Base.{
  ℕ, false, ◌≤◌, ◌≡◌, refl, ap, ◌∙◌, some, List, ◌∷◌, length, arith, All, u32,
}
use aer_handshake_firmware.Burst
use aer_handshake_firmware.Burst.{Burst, Event, expect_row}
use aer_handshake_firmware.Burst.Inv
use aer_handshake_firmware.Link.{RowBurst, Fits, transmit, events, receive, receive-transmit}
use aer_handshake_firmware.Ringbuf
use aer_handshake_firmware.Ringbuf.{Ringbuf}
use aer_handshake_firmware.RxPoll
use aer_handshake_firmware.RxPoll.{Rx, Stats, Bus, Io, ack, write_ack, no_stats}
use aer_handshake_firmware.Firmware.{Firmware, deliver, passes, start}
use aer_handshake_firmware.Firmware.Transfer.{
  Transfer, OnBus, samples, words, rounds, history, Ready,
}
use aer_handshake_firmware.Firmware.Session.{passes-samples}

module _ {U : Type 0} (on_event : U → Event → U) where
  -- What `start` leads to with storage for the ring.
  abbrev pub started : List ℕ → Burst → U → Bus → Firmware U
  started storage memory user bus = record {
    rx =
        (RxPoll.init (record { buf = some storage; capacity = 2048; head = 0; tail = 0 }) 0 0
          bus).0;
    burst = Burst.init memory;
    user = user;
    bus = write_ack false bus;
  }

  pub start_lem :
      (storage : List ℕ) (memory : Burst) (user : U) (bus : Bus)
      → start on_event storage memory user bus ≡ some (started storage memory user bus)
  unfolding start Ringbuf.init Ringbuf.reset RxPoll.init
  start_lem storage memory user bus = refl

  pub started-Ready :
      (storage : List ℕ) (memory : Burst) (user : U) (bus : Bus)
      → 2048 ≤ length storage
      → Ready (started storage memory user bus)
  unfolding RxPoll.init
  started-Ready storage memory user bus h = record {
    ring_valid = record {
      room = h;
      two = omega arith;
      word = omega arith;
      head_in = omega arith;
      tail_in = omega arith;
    };
    ring_empty = refl;
    wait_valid = refl;
    wait_neutral = refl;
  }

  -- From `main`'s initialisation on, with the 2048 words of ring storage: a sensor that sends the
  -- words of bursts that fit it, by transfers with any timing on the bus, has had the callback
  -- called on exactly the events of the bursts, in order, after one pass of the main loop for each
  -- sample that the loop has found neutral and one for each word; every word has been counted and
  -- none dropped, and the firmware is ready for more.
  pub passes-transmit :
      (ms : List RowBurst) (ts : List Transfer) (rest storage : List ℕ) (memory : Burst) (user : U)
      (clock : List ℕ) (log : List Io)
      → 2048 ≤ length storage
      → length memory.cols ≡ 32
      → All Fits ms
      → All OnBus ts
      → words ts ≡ transmit ms
      → (s s' : Firmware U) × (start on_event storage memory user
            (record { samples = samples ts rest; clock = clock; log = log })
          ≡ some s)
        × (passes on_event (rounds ts) s ≡ some s')
        × (s'.user ≡ deliver on_event user (events ms))
        × (s'.rx.stats ≡ record no_stats { words_ok = u32 (length (transmit ms)) })
        × (s'.bus ≡ record { samples = rest; clock = clock; log = history ts (ack false ∷ log) })
        × Ready s'
  unfolding RxPoll.init Burst.init write_ack
  passes-transmit ms ts rest storage memory user clock log hs hm fits on_bus sent =
      let bus : Bus = record { samples = samples ts rest; clock = clock; log = log } in
      let s : Firmware U = started storage memory user bus in
      let (s', run, after) =
        passes-samples on_event ts s rest (ack false ∷ log)
          (started-Ready storage memory user bus hs) (omega arith) on_bus in
      let got : (receive (Burst.init memory) (words ts)).1 ≡ events ms =
        ap (λ ws. (receive (Burst.init memory) ws).1) sent
        ∙ receive-transmit ms (Burst.init memory) fits (Burst.Inv.init-IsValid memory hm) refl in
      (
        s,
        s',
        start_lem storage memory user bus,
        run,
        after.user ∙ ap (deliver on_event user) got,
        after.stats
            ∙ ap (λ n. record no_stats { words_ok = n }) (let same = ap length sent in omega arith),
        after.bus_is,
        after.ready,
      )
