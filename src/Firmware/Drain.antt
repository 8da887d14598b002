-- ===== src/Firmware/Drain.antt =====
-- The drain loop feeds every word of the ring to the burst assembler, and leaves the ring empty.
use aer_handshake_firmware.Base.{
  ℕ, zero, suc, ◌<◌, ◌≡◌, refl, ap, sym, ◌∙◌, true, none, some, List, [], ◌∷◌, ◌++◌, length, arith,
}
use aer_handshake_firmware.Codec.{decode_word}
use aer_handshake_firmware.Fifo.{front, rest}
use aer_handshake_firmware.Burst
use aer_handshake_firmware.Burst.{Burst, Event}
use aer_handshake_firmware.Link.{receive}
use aer_handshake_firmware.Ringbuf
use aer_handshake_firmware.Ringbuf.{Ringbuf}
use aer_handshake_firmware.Ringbuf.Inv.{IsValid, pop-IsValid}
use aer_handshake_firmware.Ringbuf.Window.{contents}
use aer_handshake_firmware.Ringbuf.Calls.{pop_lem}
use aer_handshake_firmware.Firmware.{Firmware, deliver, take_word, drain}

module _ {U : Type 0} (on_event : U → Event → U) where
  pub deliver-append :
      (u : U) (xs ys : List Event)
      → deliver on_event u (xs ++ ys) ≡ deliver on_event (deliver on_event u xs) ys
  deliver-append u [] ys = refl
  deliver-append u (x ∷ xs) ys = deliver-append (on_event u x) xs ys

  -- From `s` to `s'` the words have been received and nothing else has changed but the ring, which
  -- is empty.
  pub record Received (s : Firmware U) (words : List ℕ) (s' : Firmware U) : Type 0 where
    pub burst : s'.burst ≡ (receive s.burst words).0
    pub user : s'.user ≡ deliver on_event s.user (receive s.burst words).1
    pub ring_valid : IsValid s'.rx.rb
    pub ring_empty : contents s'.rx.rb ≡ []
    pub stats : s'.rx.stats ≡ s.rx.stats
    pub wait_valid : s'.rx.wait_valid_timeout_us ≡ s.rx.wait_valid_timeout_us
    pub wait_neutral : s'.rx.wait_neutral_timeout_us ≡ s.rx.wait_neutral_timeout_us
    pub bus : s'.bus ≡ s.bus

  pub drain_empty :
      (fuel : ℕ) (s : Firmware U)
      → (Ringbuf.pop s.rx.rb true).1 ≡ none
      → drain on_event (suc fuel) s
        ≡ some (record s { rx = record s.rx { rb = (Ringbuf.pop s.rx.rb true).0 } })
  unfolding drain
  drain_empty fuel s e = rw (e, drain)

  pub drain_word :
      (fuel : ℕ) (s : Firmware U) (raw : ℕ)
      → (Ringbuf.pop s.rx.rb true).1 ≡ some raw
      → drain on_event (suc fuel) s
        ≡ drain on_event fuel (take_word on_event s (Ringbuf.pop s.rx.rb true).0 raw)
  unfolding drain
  drain_word fuel s raw e = rw (e, drain)

  -- One word more in front.
  Received-cons :
      (s s' : Firmware U) (rb : Ringbuf) (raw : ℕ) (words : List ℕ)
      → Received (take_word on_event s rb raw) words s'
      → Received s (raw ∷ words) s'
  unfolding take_word receive Burst.feed_all
  Received-cons s s' rb raw words r = record {
    burst = r.burst;
    user =
        r.user
        ∙ sym (
            deliver-append s.user (Burst.feed s.burst (decode_word raw) true).1
              (receive (Burst.feed s.burst (decode_word raw) true).0 words).1);
    ring_valid = r.ring_valid;
    ring_empty = r.ring_empty;
    stats = r.stats;
    wait_valid = r.wait_valid;
    wait_neutral = r.wait_neutral;
    bus = r.bus;
  }

  -- With fuel for one round more than there are words the drain loop ends, and has received exactly
  -- the words of the ring, in order.
  pub drain-Received :
      (fuel : ℕ) (s : Firmware U) (words : List ℕ)
      → IsValid s.rx.rb
      → contents s.rx.rb ≡ words
      → length words < fuel
      → (s' : Firmware U) × (drain on_event fuel s ≡ some s') × Received s words s'
  unfolding receive Burst.feed_all take_word
  drain-Received zero s words v e h = absurd (omega arith)
  drain-Received (suc fuel) s [] v e h =
      let (out, left, _) = pop_lem s.rx.rb v in
      (
        record s { rx = record s.rx { rb = (Ringbuf.pop s.rx.rb true).0 } },
        drain_empty fuel s (out ∙ ap front e),
        record {
          burst = refl;
          user = refl;
          ring_valid = pop-IsValid s.rx.rb true v;
          ring_empty = left ∙ ap rest e;
          stats = refl;
          wait_valid = refl;
          wait_neutral = refl;
          bus = refl;
        },
      )
  drain-Received (suc fuel) s (w ∷ ws) v e h =
      let (out, left, _) = pop_lem s.rx.rb v in
      let rb = (Ringbuf.pop s.rx.rb true).0 in
      let (s', ends, received) =
        drain-Received fuel (take_word on_event s rb w) ws (pop-IsValid s.rx.rb true v)
          (left ∙ ap rest e) (omega arith) in
      (s', drain_word fuel s w (out ∙ ap front e) ∙ ends, Received-cons s s' rb w ws received)
