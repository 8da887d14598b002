-- ===== src/Firmware/ClosedLoop.antt =====
-- The whole firmware against the transmitter of README.md section 4: any number of passes, with any
-- timing of the two.
use aer_handshake_firmware.Base.{
  ℕ, ◌≤◌, ◌<◌, ◌≡◌, refl, ap, sym, subst, ◌∙◌, Bool, true, ◌^◌, inl, some, List, [], ◌∷◌, ◌++◌,
  append_assoc, length, arith, All, u32,
}
use aer_handshake_firmware.Codec.{decode_word}
use aer_handshake_firmware.Burst
use aer_handshake_firmware.Burst.{Burst, Event}
use aer_handshake_firmware.Burst.Inv
use aer_handshake_firmware.Link.{RowBurst, Fits, transmit, events, receive, receive-transmit}
use aer_handshake_firmware.RxPoll
use aer_handshake_firmware.RxPoll.{Stats, Bus, Io, ack, no_stats, write_ack}
use aer_handshake_firmware.RxPoll.Latched.{latched}
use aer_handshake_firmware.RxPoll.Transmitter.{Phase, Run, unsent, latched-Run}
use aer_handshake_firmware.Firmware.{Firmware, deliver, passes, start}
use aer_handshake_firmware.Firmware.Transfer.{Ready}
use aer_handshake_firmware.Firmware.EndToEnd.{started, start_lem, started-Ready}
use aer_handshake_firmware.Firmware.Logs.{Between}
use aer_handshake_firmware.Firmware.AnyBus.{Latches, Outcome, ran, starved, passes-Outcome}

pub receive-append :
    (b : Burst) (xs ys : List ℕ)
    → (receive b (xs ++ ys)).1 ≡ (receive b xs).1 ++ (receive (receive b xs).0 ys).1
unfolding receive Burst.feed_all
receive-append b [] ys = refl
receive-append b (x ∷ xs) ys =
    ap (λ es. (Burst.feed b (decode_word x) true).1 ++ es)
      (receive-append (Burst.feed b (decode_word x) true).0 xs ys)
    ∙ sym (append_assoc (Burst.feed b (decode_word x) true).1 _ _)

module _ {U : Type 0} (on_event : U → Event → U) where
  -- What passes that return have done.
  pub passes-Latches :
      (n : ℕ) (s s' : Firmware U)
      → Ready s
      → s.rx.stats.words_ok < 2 ^ 32
      → Between s.bus.log
      → passes on_event n s ≡ some s'
      → (words : List ℕ) × Latches on_event s words s'
  passes-Latches n s s' r h b run =
      by_outcome (passes-Outcome on_event n s s.bus.samples s.bus.log r h b)
    where
      by_outcome : Outcome on_event n s → (words : List ℕ) × Latches on_event s words s'
      by_outcome (ran s1 words e l) =
          let same : s1 ≡ s' = cc (sym e ∙ run) in (words, subst (Latches on_event s words) same l)
      by_outcome (starved m s1 words h1 e l st none_left) =
          absurd (let f = sym none_left ∙ run in cc)

  -- What the firmware has made of the words sent, where it has latched `got` of them.
  pub record Taken (ms : List RowBurst) (memory : Burst) (user : U) (got later : List ℕ)
      (s' : Firmware U) : Type 0 where
    pub words : transmit ms ≡ got ++ later
    pub user_is : s'.user ≡ deliver on_event user (receive (Burst.init memory) got).1
    pub prefix :
        events ms
        ≡ (receive (Burst.init memory) got).1
          ++ (receive (receive (Burst.init memory) got).0 later).1
    pub stats : s'.rx.stats ≡ record no_stats { words_ok = u32 (length got) }
    pub ready : Ready s'

  -- From the initialisation of `main` on, with the 2048 words of ring storage: where any number of
  -- passes has been made on a bus that is driven by the transmitter of README.md section 4, with
  -- any timing, the words that it has sent are those that have been latched and then those that
  -- have not been acknowledged; the callback has been called on the events of the latched words,
  -- which start the events of the bursts, the words are counted and none is dropped, and the
  -- firmware is ready for more.
  pub passes-Run :
      (ms : List RowBurst) (storage : List ℕ) (memory : Burst) (user : U) (xs clock : List ℕ)
      (n : ℕ) (s s' : Firmware U) (phase : Phase) (acked : Bool) (left : List ℕ)
      → 2048 ≤ length storage
      → length memory.cols ≡ 32
      → All Fits ms
      → start on_event storage memory user (record { samples = xs; clock = clock; log = [] })
        ≡ some s
      → passes on_event n s ≡ some s'
      → Run (transmit ms) s'.bus.log phase acked left
      → Taken ms memory user (latched s'.bus.log) (unsent phase acked left) s'
  unfolding RxPoll.init Burst.init write_ack
  passes-Run ms storage memory user xs clock n s s' phase acked left hs hm fits starts run sent =
      let bus : Bus = record { samples = xs; clock = clock; log = [] } in
      let s0 : Firmware U = started on_event storage memory user bus in
      let same : s ≡ s0 = cc (sym starts ∙ start_lem on_event storage memory user bus) in
      let (words, l) =
        passes-Latches n s0 s' (started-Ready on_event storage memory user bus hs) (omega arith)
          (record { ordered = (inl refl, tt); low = refl })
          (ap (passes on_event n) (sym same) ∙ run) in
      let all_sent = latched-Run sent l.between.ordered in
      record {
        words = all_sent;
        user_is =
            l.after.user
            ∙ ap (λ ws. deliver on_event user (receive (Burst.init memory) ws).1) (sym l.log);
        prefix =
            sym
              (receive-transmit ms (Burst.init memory) fits (Burst.Inv.init-IsValid memory hm) refl)
            ∙ ap (λ ws. (receive (Burst.init memory) ws).1) all_sent
            ∙ receive-append (Burst.init memory) (latched s'.bus.log) (unsent phase acked left);
        stats =
            l.after.stats
            ∙ ap (λ n. record no_stats { words_ok = n })
                (let same = ap length l.log in omega arith);
        ready = l.after.ready;
      }
