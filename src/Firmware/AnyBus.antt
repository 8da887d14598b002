-- ===== src/Firmware/AnyBus.antt =====
-- The main loop on any bus: what the passes do whatever the samples of DATA are.
use mathlib.Core.List.{append_assoc, append-nil}
use aer_handshake_firmware.Base.{
  ℕ, zero, suc, ◌^◌, ◌<◌, ◌≡◌, ◌≢◌, refl, ap, sym, subst, ◌∙◌, none, some, List, [], ◌∷◌, ◌++◌,
  false, ◌==◌, arith, All,
}
use native.Mathlib.Decide.{ℕ_discrete}
use aer_handshake_firmware.Burst.{Event}
use aer_handshake_firmware.RxPoll.{Stats, Bus, Io, read}
use aer_handshake_firmware.RxPoll.Latched.{latched}
use aer_handshake_firmware.RxPoll.AnyBus.{Cut, cut, whole, shape, step-Cut}
use aer_handshake_firmware.Firmware.{Firmware, handshake, pass, pass_on, passes}
use aer_handshake_firmware.Firmware.Transfer.{Ready, with_bus}
use aer_handshake_firmware.Firmware.Session.{
  After, After-nil, After-cons, pass_word, pass_idle, passes-suc,
}
use aer_handshake_firmware.Firmware.Logs.{
  Between, logged_late-Between, latched-logged_late, with_bus-Ready, reading,
}

module _ {U : Type 0} (on_event : U → Event → U) where
  -- From `s` to `s'` the receiver has latched the words, which the log shows, and has taken them
  -- in.
  pub record Latches (s : Firmware U) (words : List ℕ) (s' : Firmware U) : Type 0 where
    pub after : After on_event s words s'.bus s'
    pub log : latched s'.bus.log ≡ latched s.bus.log ++ words
    pub between : Between s'.bus.log

  -- The samples to come end within a pass: the bus has been seen valid and no handshake follows.
  abbrev pub Starved : List ℕ → Type 0
  Starved [] = Unit
  Starved (x ∷ xs) = (x ≢ 0) × Cut xs

  -- How far `n` passes get.
  pub data Outcome (n : ℕ) (s : Firmware U) : Type 0 where
    ran :
        (s' : Firmware U) (words : List ℕ)
        → passes on_event n s ≡ some s'
        → Latches s words s'
        → Outcome n s
    starved :
        (m : ℕ) (s' : Firmware U) (words : List ℕ)
        → m < n
        → passes on_event m s ≡ some s'
        → Latches s words s'
        → Starved s'.bus.samples
        → passes on_event n s ≡ none
        → Outcome n s

  Latches-nil :
      (s : Firmware U) → Ready s → s.rx.stats.words_ok < 2 ^ 32 → Between s.bus.log → Latches s [] s
  Latches-nil s r h b = record {
    after = After-nil on_event s s.bus.samples s.bus.log r h;
    log = sym (append-nil (latched s.bus.log));
    between = b;
  }

  -- A pass that sees a neutral bus changes only the bus.
  Latches-idle :
      (s s' : Firmware U) (x : ℕ) (xs words : List ℕ) (log : List Io)
      → Latches (with_bus s xs (read x ∷ log)) words s'
      → Latches (with_bus s (x ∷ xs) log) words s'
  Latches-idle s s' x xs words log l = record {
    after = record {
      burst = l.after.burst;
      user = l.after.user;
      stats = l.after.stats;
      ready = l.after.ready;
      bus_is = l.after.bus_is;
    };
    log = l.log;
    between = l.between;
  }

  pass-Starved :
      (s : Firmware U) (xs : List ℕ) (log : List Io)
      → Ready s
      → Starved xs
      → pass on_event (with_bus s xs log) ≡ none
  unfolding pass pass_on handshake
  pass-Starved s [] log r h = refl
  pass-Starved s (x ∷ xs) log r h =
      let nz = h.0 in
      let f : (x == 0) ≡ false = ground arith in
      rw (f, pass, pass_on)
        (rw (step-Cut s.rx xs s.bus.clock (read x ∷ log) r.wait_valid r.wait_neutral h.1, handshake)
          refl)

  passes-none : (n : ℕ) (s : Firmware U) → pass on_event s ≡ none → passes on_event (suc n) s ≡ none
  unfolding passes
  passes-none n s e = rw (e, passes) refl

  -- One pass at a word, then the rest.
  Latches-cons :
      (s s1 s' : Firmware U) (w : ℕ) (words : List ℕ)
      → Latches s (w ∷ []) s1
      → Latches s1 words s'
      → Latches s (w ∷ words) s'
  Latches-cons s s1 s' w words a b = record {
    after = After-cons on_event s s1 s' w words s1.bus s'.bus s'.bus a.after b.after refl;
    log = b.log ∙ ap (λ l. l ++ words) a.log ∙ append_assoc (latched s.bus.log) (w ∷ []) words;
    between = b.between;
  }

  pass_word-Latches :
      (s : Firmware U) (seen : ℕ) (before : List ℕ) (w : ℕ) (held rest : List ℕ) (log : List Io)
      → Ready s
      → Between log
      → seen ≢ 0
      → All (λ x. x ≡ 0) before
      → w ≢ 0
      → All (λ x. x ≢ 0) held
      → (s' : Firmware U) × (pass on_event
            (with_bus s (seen ∷ (before ++ w ∷ (held ++ 0 ∷ rest))) log)
          ≡ some s')
        × Latches (with_bus s (seen ∷ (before ++ w ∷ (held ++ 0 ∷ rest))) log) (w ∷ []) s'
  pass_word-Latches s seen before w held rest log r b hs hb hw hh =
      let (s', run, a) = pass_word on_event s seen before w held rest log r hs hb hw hh in
      let log_is = ap (λ (x : Bus). x.log) a.bus_is in
      (
        s',
        run,
        record {
          after = record {
            burst = a.burst;
            user = a.user;
            stats = a.stats;
            ready = a.ready;
            bus_is = refl;
          };
          log = ap latched log_is ∙ latched-logged_late seen before w held log;
          between = subst Between (sym log_is) (logged_late-Between seen before w held log hw b);
        },
      )

  Outcome-idle :
      (n : ℕ) (s : Firmware U) (x : ℕ) (xs : List ℕ) (log : List Io)
      → x ≡ 0
      → Outcome n (with_bus s xs (read x ∷ log))
      → Outcome (suc n) (with_bus s (x ∷ xs) log)
  Outcome-idle n s x xs log z (ran s' words e l) =
      ran s' words (pass_idle on_event s xs log n x z ∙ e) (Latches-idle s s' x xs words log l)
  Outcome-idle n s x xs log z (starved m s' words h e l st none_left) =
      starved (suc m) s' words (omega arith) (pass_idle on_event s xs log m x z ∙ e)
        (Latches-idle s s' x xs words log l) st (pass_idle on_event s xs log n x z ∙ none_left)

  Outcome-cons :
      (n : ℕ) (s s1 : Firmware U) (w : ℕ)
      → pass on_event s ≡ some s1
      → Latches s (w ∷ []) s1
      → Outcome n s1
      → Outcome (suc n) s
  Outcome-cons n s s1 w run a (ran s' words e l) =
      ran s' (w ∷ words) (passes-suc on_event n s s1 run ∙ e) (Latches-cons s s1 s' w words a l)
  Outcome-cons n s s1 w run a (starved m s' words h e l st none_left) =
      starved (suc m) s' (w ∷ words) (omega arith) (passes-suc on_event m s s1 run ∙ e)
        (Latches-cons s s1 s' w words a l) st (passes-suc on_event n s s1 run ∙ none_left)

  Outcome-Starved :
      (n : ℕ) (s : Firmware U)
      → Ready s
      → s.rx.stats.words_ok < 2 ^ 32
      → Between s.bus.log
      → Starved s.bus.samples
      → Outcome (suc n) s
  unfolding passes
  Outcome-Starved n s r h b st =
      starved zero s [] (omega arith) refl (Latches-nil s r h b) st
        (passes-none n s (pass-Starved s s.bus.samples s.bus.log r st))

  words_ok-lt :
      (s s' : Firmware U) (words : List ℕ) → Latches s words s' → s'.rx.stats.words_ok < 2 ^ 32
  words_ok-lt s s' words l = let e = ap (λ (x : Stats). x.words_ok) l.after.stats in omega arith

  -- On any bus, with both timeouts disabled, the ring empty and a log of the protocol so far: `n`
  -- passes return, or the samples of the bus end within one of them, after passes that have
  -- returned. In the passes that have returned, the log keeps the 4-phase order and ends with ACK
  -- low, and the words that it shows to have been latched have been received, counted and not
  -- dropped, with their events delivered; the firmware is ready for more.
  pub passes-Outcome :
      (n : ℕ) (s : Firmware U) (xs : List ℕ) (log : List Io)
      → Ready s
      → s.rx.stats.words_ok < 2 ^ 32
      → Between log
      → Outcome n (with_bus s xs log)
  unfolding passes
  passes-Outcome zero s xs log r h b =
      ran (with_bus s xs log) [] refl
        (Latches-nil (with_bus s xs log) (with_bus-Ready s xs log r) h b)
  passes-Outcome (suc n) s [] log r h b =
      Outcome-Starved n (with_bus s [] log) (with_bus-Ready s [] log r) h b tt
  passes-Outcome (suc n) s (x ∷ xs) log r h b = elim (ℕ_discrete x 0) [
    | yes z ↦
        Outcome-idle n s x xs log z (passes-Outcome n s xs (read x ∷ log) r h (reading x log b))
    | no nz ↦ elim (shape xs) [
      | cut c ↦
          Outcome-Starved n (with_bus s (x ∷ xs) log) (with_bus-Ready s (x ∷ xs) log r) h b (nz, c)
      | whole before w held rest e zeros valid on ↦
          let (s1, run, l) = pass_word-Latches s x before w held rest log r b nz zeros valid on in
          let same : with_bus s (x ∷ (before ++ w ∷ (held ++ 0 ∷ rest))) log
              ≡ with_bus s (x ∷ xs) log =
            ap (λ ys. with_bus s (x ∷ ys) log) (sym e) in
          subst (Outcome (suc n)) same (
            Outcome-cons n (with_bus s (x ∷ (before ++ w ∷ (held ++ 0 ∷ rest))) log) s1 w run l (
              passes-Outcome n s1 s1.bus.samples s1.bus.log l.after.ready
                (words_ok-lt _ s1 (w ∷ []) l) l.between))
    ]
  ]
