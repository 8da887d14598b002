-- ===== src/Firmware/Tests.antt =====
-- Two bursts, from the initialisation of `main` on; `on_event` collects the events.
use aer_handshake_firmware.Base.{
  ℕ, ap, sym, ◌≡◌, refl, subst, none, ◌⊎◌, ◌<◌, ◌^◌, ◌-◌, some, List, [], ◌∷◌, ◌++◌, false, length,
  u32, arith,
}
use aer_handshake_firmware.Burst.{Event}
use aer_handshake_firmware.Link.{transmit, events}
use aer_handshake_firmware.RxPoll.{ack, no_stats, Bus}
use aer_handshake_firmware.RxPoll.Latched.{latched}
use aer_handshake_firmware.RxPoll.Transmitter.{Run, ready, unsent}
use aer_handshake_firmware.Fixture.{
  zeros, length-zeros_lem, memory, sent, sent-Fits, clean, clean-OnBus, words-clean, clean-Run,
}
use aer_handshake_firmware.Firmware.{Firmware, deliver, pass, passes, start}
use aer_handshake_firmware.Firmware.Transfer.{samples, rounds, history, Ready, with_bus}
use aer_handshake_firmware.Firmware.AnyBus.{Outcome, passes-Outcome}
use aer_handshake_firmware.Firmware.ClosedLoop.{Taken, passes-Run}
use aer_handshake_firmware.Firmware.Widths.{InWidth, Waiting, passes-InWidth}
use aer_handshake_firmware.Firmware.EndToEnd.{passes-transmit}

abbrev collect : List Event → Event → List Event
collect es e = es ++ e ∷ []

-- Between passes, with a ring of four words.
abbrev idling : Firmware (List Event)
idling = record {
  rx = record {
    rb = record { buf = some (zeros 4); capacity = 4; head = 2; tail = 2 };
    wait_valid_timeout_us = 0;
    wait_neutral_timeout_us = 0;
    stats = no_stats;
  };
  burst = memory;
  user = [];
  bus = record { samples = []; clock = []; log = [] };
}

idling-Ready : Ready idling
idling-Ready = record {
  ring_valid = record {
    room = omega arith;
    two = omega arith;
    word = omega arith;
    head_in = omega arith;
    tail_in = omega arith;
  };
  ring_empty = refl;
  wait_valid = refl;
  wait_neutral = refl;
}

-- The loop with the transmitter, from the initialisation of `main` on.
session :
    (s s' : Firmware (List Event)) × (start collect
        (zeros 2048)
        memory
        []
        (record { samples = samples clean []; clock = []; log = [] })
      ≡ some s)
    × (passes collect (rounds clean) s ≡ some s')
    × (s'.user ≡ deliver collect [] (events sent))
    × (s'.rx.stats ≡ record no_stats { words_ok = u32 (length (transmit sent)) })
    × (s'.bus ≡ record { samples = []; clock = []; log = history clean (ack false ∷ []) })
    × Ready s'
session =
    passes-transmit collect sent clean [] (zeros 2048) memory [] [] []
      (omega (arith, length-zeros_lem 2048)) refl sent-Fits clean-OnBus words-clean

session-Run : Run (transmit sent) session.1.bus.log ready false []
session-Run =
    subst (λ log. Run (transmit sent) log ready false []) (sym (ap (λ (b : Bus). b.log) session.6))
      clean-Run

passes-Run_example :
    Taken collect sent memory [] (latched session.1.bus.log) (unsent ready false []) session.1
passes-Run_example =
    passes-Run collect sent (zeros 2048) memory [] (samples clean []) [] (rounds clean) session.0
      session.1 ready false [] (omega (arith, length-zeros_lem 2048)) refl sent-Fits session.2
      session.3 session-Run

-- Two words and part of a third: the samples end while the third is still valid.
passes-Outcome_example :
    Outcome collect 5
      (with_bus idling (0 ∷ 280 ∷ 0 ∷ 280 ∷ 280 ∷ 0 ∷ 290 ∷ 34 ∷ 0 ∷ 8 ∷ 2184 ∷ 2184 ∷ []) [])
passes-Outcome_example =
    passes-Outcome collect 5 idling
      (0 ∷ 280 ∷ 0 ∷ 280 ∷ 280 ∷ 0 ∷ 290 ∷ 34 ∷ 0 ∷ 8 ∷ 2184 ∷ 2184 ∷ []) [] idling-Ready
      (omega arith) (record { ordered = tt; low = refl })

-- Two words in the ring, which goes round, both timeouts enabled, a counter that is about to wrap,
-- and a bus that stays valid for too long.
abbrev loaded : Firmware (List Event)
loaded = record {
  rx = record {
    rb = record { buf = some (290 ∷ 0 ∷ 0 ∷ 280 ∷ []); capacity = 4; head = 1; tail = 3 };
    wait_valid_timeout_us = 100;
    wait_neutral_timeout_us = 50;
    stats = record no_stats { words_ok = 2 ^ 32 - 1 };
  };
  burst = memory;
  user = [];
  bus = record {
    samples = 0 ∷ 2184 ∷ 2184 ∷ 2184 ∷ 2184 ∷ 2184 ∷ [];
    clock = 1000 ∷ 1010 ∷ 1020 ∷ 1080 ∷ [];
    log = [];
  };
}

loaded-InWidth : InWidth loaded
loaded-InWidth = record {
  rx = record {
    ring = record {
      room = omega arith;
      two = omega arith;
      word = omega arith;
      head_in = omega arith;
      tail_in = omega arith;
    };
    words = omega arith;
    counters = record {
      words_ok = omega arith;
      dropped_full = omega arith;
      timeouts_valid = omega arith;
      timeouts_neutral = omega arith;
    };
  };
  burst = record {
    valid = record { array = refl; row_in = omega arith; count_in = omega arith; cols_in = tt };
    flags = omega arith;
    bursts = omega arith;
    events = omega arith;
  };
  samples = omega arith;
}

passes-InWidth_example :
    ((s' : Firmware (List Event)) × (passes collect 2 loaded ≡ some s') × InWidth s')
    ⊎ ((m : ℕ) × (s' : Firmware (List Event)) × (m < 2)
        × (passes collect m loaded ≡ some s')
        × InWidth s'
        × (pass collect s' ≡ none)
        × Waiting s')
passes-InWidth_example = passes-InWidth collect 2 loaded loaded-InWidth
