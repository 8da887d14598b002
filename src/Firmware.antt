-- ===== src/Firmware.antt =====
-- pico_aer_rx/pico_aer_rx.c: the main loop. `tud_task()`, the SDK's USB service, does nothing that
-- the loop reads, and is left out. The callback and its `user` pointer are a parameter: a function
-- on the state that `user` points to.
pub mod Drain
pub mod Transfer
pub mod Session
pub mod Logs
pub mod AnyBus
pub mod Widths
pub mod Conforming
pub mod Delays
pub mod ClosedLoop
pub mod EndToEnd
mod Tests
use aer_handshake_firmware.Base.{ℕ, zero, suc, ◌==◌, true, false, Option, none, some, List, [], ◌∷◌}
use aer_handshake_firmware.Codec.{decode_word}
use aer_handshake_firmware.Burst
use aer_handshake_firmware.Burst.{Burst, Event}
use aer_handshake_firmware.Ringbuf
use aer_handshake_firmware.Ringbuf.{Ringbuf}
use aer_handshake_firmware.RxPoll
use aer_handshake_firmware.RxPoll.{Rx, Bus, read}

abbrev pub ring_capacity : ℕ
ring_capacity = 2048

-- What the loop works on: `rx`, with the ring `raw_rb` that `rx.rb` points to, `burst`, the state
-- behind `user`, and the bus.
pub record Firmware (U : Type 0) : Type 0 where
  pub rx : Rx
  pub burst : Burst
  pub user : U
  pub bus : Bus

module _ {U : Type 0} (on_event : U → Event → U) where
  -- The calls of the callback, in order.
  abbrev pub deliver : U → List Event → U
  deliver u [] = u
  deliver u (e ∷ es) = deliver (on_event u e) es

  -- The body of the drain loop, on a word from the ring.
  pub take_word : Firmware U → Ringbuf → ℕ → Firmware U
  take_word s rb raw =
      let (burst, events, _) = Burst.feed s.burst (decode_word raw) true in
      record s { rx = record s.rx { rb = rb }; burst = burst; user = deliver s.user events }

  -- `while (ringbuf_u32_pop(...))`; `none` where the fuel runs out first.
  pub drain : ℕ → Firmware U → Option (Firmware U)
  drain zero s = none
  drain (suc fuel) s =
      let (rb, out) = Ringbuf.pop s.rx.rb true in
      elim out [
        | none ↦ some (record s { rx = record s.rx { rb = rb } })
        | some raw ↦ drain fuel (take_word s rb raw)
      ]

  -- The rest of a pass, once DATA has been seen to be nonzero. The ring holds fewer words than its
  -- capacity, which is the fuel of the drain.
  pub handshake : Firmware U → Option (Firmware U)
  handshake s = elim (RxPoll.step s.rx s.bus) [
    | none ↦ none
    | some (rx, _, bus) ↦ drain rx.rb.capacity (record s { rx = rx; bus = bus })
  ]

  -- One pass of `while (true)`, by the samples to come; `none` where the observation ends.
  pub pass_on : List ℕ → Firmware U → Option (Firmware U)
  pass_on [] s = none
  pass_on (x ∷ xs) s =
      let s' : Firmware U = record s {
        bus = record s.bus { samples = xs; log = read x ∷ s.bus.log };
      } in
      elim (x == 0) [ true ↦ some s' | false ↦ handshake s' ]

  pub pass : Firmware U → Option (Firmware U)
  pass s = pass_on s.bus.samples s

  -- `n` passes.
  pub passes : ℕ → Firmware U → Option (Firmware U)
  passes zero s = some s
  passes (suc n) s = elim (pass s) [ none ↦ none | some s' ↦ passes n s' ]

  -- What `main` sets up before the loop, from the ring's storage and the memory of the assembler.
  pub start : List ℕ → Burst → U → Bus → Option (Firmware U)
  start storage memory user bus =
      elim (Ringbuf.init (some uninitialised) (some storage) ring_capacity).0 [
        | none ↦ none
        | some rb ↦
            let (rx, bus') = RxPoll.init (Ringbuf.reset rb) 0 0 bus in
            some (record { rx = rx; burst = Burst.init memory; user = user; bus = bus' })
      ]
    where
      uninitialised : Ringbuf
      uninitialised = record { buf = none; capacity = 0; head = 0; tail = 0 }
