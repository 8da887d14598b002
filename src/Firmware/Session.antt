-- ===== src/Firmware/Session.antt =====
-- A session of the main loop with a sensor: any number of transfers, with any timing on the bus.
use aer_handshake_firmware.Base.{
  ℕ, suc, ◌+◌, ◌^◌, ◌<◌, ◌≡◌, ◌≢◌, refl, ap, ap₂, sym, ◌∙◌, true, false, ◌==◌, some, List, [], ◌∷◌,
  ◌++◌, length, arith, All, u32,
}
use aer_handshake_firmware.Burst
use aer_handshake_firmware.Burst.{Burst, Event}
use aer_handshake_firmware.Link.{receive, receive-cons}
use aer_handshake_firmware.Ringbuf.{push}
use aer_handshake_firmware.Ringbuf.Inv.{IsValid, push-IsValid}
use aer_handshake_firmware.Ringbuf.Window.{contents}
use aer_handshake_firmware.Ringbuf.Calls.{push_empty}
use aer_handshake_firmware.RxPoll
use aer_handshake_firmware.RxPoll.{Rx, Stats, Bus, Io, read, ack, Status, ok, store}
use aer_handshake_firmware.RxPoll.Waits.{reads}
use aer_handshake_firmware.RxPoll.Handshake.{done, step_handshake}
use aer_handshake_firmware.Firmware.{Firmware, deliver, drain, handshake, pass, pass_on, passes}
use aer_handshake_firmware.Firmware.Transfer.{
  Transfer, OnBus, samples, words, rounds, Ready, logged, logged_late, history, with_bus,
}
use aer_handshake_firmware.Firmware.Drain.{drain-Received, deliver-append}

module _ {U : Type 0} (on_event : U → Event → U) where
  pub pass_idle :
      (s : Firmware U) (xs : List ℕ) (log : List Io) (n x : ℕ)
      → x ≡ 0
      → passes on_event (suc n) (with_bus s (x ∷ xs) log)
        ≡ passes on_event n (with_bus s xs (read x ∷ log))
  unfolding passes pass pass_on
  pass_idle s xs log n x z = let t : (x == 0) ≡ true = ground arith in rw (t, passes, pass, pass_on)

  idle_lem :
      (s : Firmware U) (idle more : List ℕ) (log : List Io) (n : ℕ)
      → All (λ x. x ≡ 0) idle
      → passes on_event (length idle + n) (with_bus s (idle ++ more) log)
        ≡ passes on_event n (with_bus s more (reads idle log))
  idle_lem s [] more log n h = ap (λ k. passes on_event k (with_bus s more log)) (omega arith)
  idle_lem s (x ∷ idle) more log n h =
      ap (λ k. passes on_event k (with_bus s (x ∷ (idle ++ more)) log)) (omega arith)
      ∙ pass_idle s (idle ++ more) log (length idle + n) x h.0
      ∙ idle_lem s idle more (read x ∷ log) n h.1

  store_empty :
      (rx : Rx) (w : ℕ)
      → IsValid rx.rb
      → contents rx.rb ≡ []
      → store rx w ≡ record rx { rb = (push rx.rb w).0 }
  unfolding store
  store_empty rx w v e = ground (arith, push_empty rx.rb w v e)

  -- A pass that sees a nonzero sample.
  pub pass-step :
      (s : Firmware U) (x : ℕ) (xs : List ℕ) (log : List Io) (rx : Rx) (st : Status) (bus : Bus)
      → x ≢ 0
      → RxPoll.step s.rx (record { samples = xs; clock = s.bus.clock; log = read x ∷ log })
        ≡ some (rx, st, bus)
      → pass on_event (with_bus s (x ∷ xs) log)
        ≡ drain on_event rx.rb.capacity (record s { rx = rx; bus = bus })
  unfolding pass pass_on handshake
  pass-step s x xs log rx st bus nz e =
      let f : (x == 0) ≡ false = ground arith in rw (f, pass, pass_on) (rw (e, handshake))

  -- What has changed from `s` once the words have been received, with the bus `bus`.
  pub record After (s : Firmware U) (ws : List ℕ) (bus : Bus) (s' : Firmware U) : Type 0 where
    pub burst : s'.burst ≡ (receive s.burst ws).0
    pub user : s'.user ≡ deliver on_event s.user (receive s.burst ws).1
    pub stats : s'.rx.stats ≡ record s.rx.stats { words_ok = u32 (s.rx.stats.words_ok + length ws) }
    pub ready : Ready s'
    pub bus_is : s'.bus ≡ bus

  -- The pass that sees a word, which DATA may leave again for a while before it is latched.
  pub pass_word :
      (s : Firmware U) (seen : ℕ) (before : List ℕ) (w : ℕ) (held rest : List ℕ) (log : List Io)
      → Ready s
      → seen ≢ 0
      → All (λ x. x ≡ 0) before
      → w ≢ 0
      → All (λ x. x ≢ 0) held
      → (s' : Firmware U) × (pass on_event
            (with_bus s (seen ∷ (before ++ w ∷ (held ++ 0 ∷ rest))) log)
          ≡ some s')
        × After s
            (w ∷ [])
            (record {
              samples = rest;
              clock = s.bus.clock;
              log = logged_late seen before w held log;
            })
            s'
  pass_word s seen before w held rest log r nz hb hw hh =
      let bus : Bus = record {
        samples = rest;
        clock = s.bus.clock;
        log = logged_late seen before w held log;
      } in
      let stored : Rx = record s.rx { rb = (push s.rx.rb w).0 } in
      let (_, cont, cap) = push_empty s.rx.rb w r.ring_valid r.ring_empty in
      let mid : Firmware U = record s { rx = done stored; bus = bus } in
      let (s', ends, got) =
        drain-Received on_event (push s.rx.rb w).0.capacity mid (w ∷ [])
          (push-IsValid s.rx.rb w r.ring_valid) cont (let two = r.ring_valid.two in omega arith) in
      (
        s',
        pass-step s seen (before ++ w ∷ (held ++ 0 ∷ rest)) log (done stored) ok bus nz (
              step_handshake s.rx before held w rest s.bus.clock (read seen ∷ log) r.wait_valid
                r.wait_neutral hb hw hh
              ∙ ap (λ x. some (done x, ok, bus)) (store_empty s.rx w r.ring_valid r.ring_empty))
            ∙ ends,
        record {
          burst = got.burst;
          user = got.user;
          stats = got.stats;
          ready = record {
            ring_valid = got.ring_valid;
            ring_empty = got.ring_empty;
            wait_valid = got.wait_valid ∙ r.wait_valid;
            wait_neutral = got.wait_neutral ∙ r.wait_neutral;
          };
          bus_is = got.bus;
        },
      )

  -- Once more from `s`: the state is the one with its own bus.
  own_bus :
      (s : Firmware U) (xs clock : List ℕ) (log : List Io)
      → s.bus ≡ record { samples = xs; clock = clock; log = log }
      → s ≡ with_bus s xs log
  own_bus s xs clock log e =
      ap (λ b. record s { bus = b })
        (e
          ∙ ap (λ c. record { samples = xs; clock = c; log = log })
              (sym (ap (λ (b : Bus). b.clock) e)))

  pub passes-suc :
      (n : ℕ) (s s' : Firmware U)
      → pass on_event s ≡ some s'
      → passes on_event (suc n) s ≡ passes on_event n s'
  unfolding passes
  passes-suc n s s' e = rw (e, passes)

  pub After-nil :
      (s : Firmware U) (xs : List ℕ) (log : List Io)
      → Ready s
      → s.rx.stats.words_ok < 2 ^ 32
      → After s [] (record { samples = xs; clock = s.bus.clock; log = log }) (with_bus s xs log)
  unfolding receive Burst.feed_all
  After-nil s xs log r h = record {
    burst = refl;
    user = refl;
    stats = ap (λ k. record s.rx.stats { words_ok = k }) (ground arith);
    ready = record {
      ring_valid = r.ring_valid;
      ring_empty = r.ring_empty;
      wait_valid = r.wait_valid;
      wait_neutral = r.wait_neutral;
    };
    bus_is = refl;
  }

  pub After-cons :
      (s s1 s' : Firmware U) (w : ℕ) (ws : List ℕ) (bus1 bus bus' : Bus)
      → After s (w ∷ []) bus1 s1
      → After s1 ws bus s'
      → bus ≡ bus'
      → After s (w ∷ ws) bus' s'
  After-cons s s1 s' w ws bus1 bus bus' a b same = record {
    burst = b.burst ∙ ap (λ x. (receive x ws).0) a.burst ∙ sym (receive-cons s.burst w ws).0;
    user =
        b.user
        ∙ ap₂ (λ u e. deliver on_event u (receive e ws).1) a.user a.burst
        ∙ sym (
            deliver-append on_event s.user (receive s.burst (w ∷ [])).1
              (receive (receive s.burst (w ∷ [])).0 ws).1)
        ∙ ap (deliver on_event s.user) (sym (receive-cons s.burst w ws).1);
    stats =
        b.stats
        ∙ ap (λ (x : Stats). record x { words_ok = u32 (x.words_ok + length ws) }) a.stats
        ∙ ap (λ k. record s.rx.stats { words_ok = k }) (omega arith);
    ready = b.ready;
    bus_is = b.bus_is ∙ same;
  }

  -- The main loop, with both timeouts disabled and the ring empty, on any number of transfers with
  -- any timing: after one pass for each sample that it sees between transfers it has received
  -- exactly the latched words, in order, its events are delivered, the counter of words has grown
  -- by their number, no word was dropped, and it is ready for more.
  pub passes-samples :
      (ts : List Transfer) (s : Firmware U) (rest : List ℕ) (log : List Io)
      → Ready s
      → s.rx.stats.words_ok < 2 ^ 32
      → All OnBus ts
      → (s' : Firmware U) × (passes on_event (rounds ts) (with_bus s (samples ts rest) log)
          ≡ some s')
        × After s
            (words ts)
            (record { samples = rest; clock = s.bus.clock; log = history ts log })
            s'
  unfolding passes
  passes-samples [] s rest log r h all = (with_bus s rest log, refl, After-nil s rest log r h)
  passes-samples (t ∷ ts) s rest log r h all =
      let log' = logged t.seen t.word t.held (reads t.idle log) in
      let (s1, one, a) =
        pass_word s t.seen [] t.word t.held (samples ts rest) (reads t.idle log) r all.0.valid tt
          all.0.latched all.0.until in
      let (s', more, b) =
        passes-samples ts s1 rest log' a.ready
          (let e = ap (λ (x : Stats). x.words_ok) a.stats in omega arith) all.1 in
      (
        s',
        idle_lem s t.idle (t.seen ∷ (t.word ∷ (t.held ++ 0 ∷ samples ts rest))) log
              (suc (rounds ts)) all.0.neutral
            ∙ passes-suc (rounds ts)
                (with_bus s (t.seen ∷ (t.word ∷ (t.held ++ 0 ∷ samples ts rest)))
                  (reads t.idle log))
                s1 one
            ∙ ap (passes on_event (rounds ts))
                (own_bus s1 (samples ts rest) s.bus.clock log' a.bus_is)
            ∙ more,
        After-cons s s1 s' t.word (words ts)
            (record { samples = samples ts rest; clock = s.bus.clock; log = log' })
            (record { samples = rest; clock = s1.bus.clock; log = history ts log' })
            (record { samples = rest; clock = s.bus.clock; log = history ts log' }) a b
            (ap (λ (x : Bus). record { samples = rest; clock = x.clock; log = history ts log' })
              a.bus_is),
      )
