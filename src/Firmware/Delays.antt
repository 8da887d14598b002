-- ===== src/Firmware/Delays.antt =====
-- The transmitter of README.md section 4 with any delays: how many samples it lets pass before it
-- drives each word, and how many before it clears it.
mod Tests
use aer_handshake_firmware.Base.{
  ℕ, zero, suc, ◌<◌, ◌≤◌, ◌≡◌, ◌≢◌, refl, ap, sym, subst, ◌∙◌, not, true, false, some, List, [],
  ◌∷◌, ◌++◌, map, length, All, All-append, ◌==◌, all_below, all_below_sound, append-nil, arith,
}
use aer_handshake_firmware.Codec.{encode_word, encode_groups}
use aer_handshake_firmware.Burst.{Burst, Event}
use aer_handshake_firmware.Link.{RowBurst, Fits, transmit, events}
use aer_handshake_firmware.RxPoll.{Bus, Io, ack}
use aer_handshake_firmware.RxPoll.Transmitter.{Run, ready, begin, driven}
use aer_handshake_firmware.Firmware.{Firmware, deliver, passes, start}
use aer_handshake_firmware.Firmware.Transfer.{Transfer, OnBus, samples, words, rounds, history}
use aer_handshake_firmware.Firmware.Conforming.{Clean, history-Run}
use aer_handshake_firmware.Firmware.EndToEnd.{passes-transmit}

-- The delays of a word.
pub record Delay : Type 0 where
  pub before : ℕ
  pub until_clear : ℕ

abbrev pub replicate : ℕ → ℕ → List ℕ
replicate zero x = []
replicate (suc n) x = x ∷ replicate n x

abbrev pub delayed : ℕ → ℕ → ℕ → Transfer
delayed w before until_clear = record {
  idle = replicate before 0;
  seen = w;
  word = w;
  held = replicate until_clear w;
}

-- The transfers of the words; without delays where there are no more of these.
abbrev pub schedule : List ℕ → List Delay → List Transfer
schedule [] ds = []
schedule (w ∷ ws) [] = delayed w 0 0 ∷ schedule ws []
schedule (w ∷ ws) (d ∷ ds) = delayed w d.before d.until_clear ∷ schedule ws ds

All-replicate : (P : ℕ → Type 0) (n x : ℕ) → P x → All P (replicate n x)
All-replicate P zero x h = tt
All-replicate P (suc n) x h = (h, All-replicate P n x h)

delayed-Clean : (w b u : ℕ) → w ≢ 0 → Clean (delayed w b u)
delayed-Clean w b u nz = record {
  neutral = All-replicate (λ x. x ≡ 0) b 0 refl;
  valid = nz;
  seen = refl;
  held = All-replicate (λ x. x ≡ w) u w refl;
}

delayed-OnBus : (w b u : ℕ) → w ≢ 0 → OnBus (delayed w b u)
delayed-OnBus w b u nz = record {
  neutral = All-replicate (λ x. x ≡ 0) b 0 refl;
  valid = nz;
  latched = nz;
  until = All-replicate (λ x. x ≢ 0) u w nz;
}

-- What holds of each delayed word holds of the schedule.
All-schedule :
    (P : Transfer → Type 0) (ws : List ℕ) (ds : List Delay)
    → ((w b u : ℕ) → w ≢ 0 → P (delayed w b u))
    → All (λ w. w ≢ 0) ws
    → All P (schedule ws ds)
All-schedule P [] ds h nz = tt
All-schedule P (w ∷ ws) [] h nz = (h w 0 0 nz.0, All-schedule P ws [] h nz.1)
All-schedule P (w ∷ ws) (d ∷ ds) h nz =
    (h w d.before d.until_clear nz.0, All-schedule P ws ds h nz.1)

words-schedule : (ws : List ℕ) (ds : List Delay) → words (schedule ws ds) ≡ ws
words-schedule [] ds = refl
words-schedule (w ∷ ws) [] = ap (λ l. w ∷ l) (words-schedule ws [])
words-schedule (w ∷ ws) (d ∷ ds) = ap (λ l. w ∷ l) (words-schedule ws ds)

every_word : all_below 64 (λ q. not (encode_word q == 0)) ≡ true
unfolding encode_word encode_groups
every_word = refl

-- No payload is encoded as the neutral word.
encode_word-valid : (p : ℕ) → p < 64 → encode_word p ≢ 0
encode_word-valid p h =
    let nonzero = all_below_sound 64 (λ q. not (encode_word q == 0)) p every_word h in ground arith

cols-valid : (cs : List ℕ) → All (λ c. c < 32) cs → All (λ w. w ≢ 0) (map encode_word cs)
cols-valid [] h = tt
cols-valid (c ∷ cs) h = (encode_word-valid c (let small = h.0 in omega arith), cols-valid cs h.1)

transmit-valid : (ms : List RowBurst) → All Fits ms → All (λ w. w ≢ 0) (transmit ms)
transmit-valid [] h = tt
transmit-valid (m ∷ ms) h = (
  encode_word-valid m.row (let small = h.0.row_in in omega arith),
  All-append (λ w. w ≢ 0) (map encode_word m.cols) (encode_word 63 ∷ transmit ms)
      (cols-valid m.cols h.0.cols_in) (encode_word-valid 63 (omega arith), transmit-valid ms h.1),
)

module _ {U : Type 0} (on_event : U → Event → U) where
  -- From the initialisation of `main` on, with the 2048 words of ring storage: whatever the delays
  -- of the transmitter of README.md section 4 are, it gets the words of bursts that fit the sensor
  -- through. After one pass for each sample that the main loop finds neutral and one for each word,
  -- what has passed on the bus is a run of the transmitter that has nothing left to send and is
  -- ready to send, and the callback has been called on exactly the events of the bursts, in order.
  pub passes-schedule :
      (ms : List RowBurst) (ds : List Delay) (storage : List ℕ) (memory : Burst) (user : U)
      (clock : List ℕ)
      → 2048 ≤ length storage
      → length memory.cols ≡ 32
      → All Fits ms
      → (s s' : Firmware U) × (start on_event storage memory user
            (record { samples = samples (schedule (transmit ms) ds) []; clock = clock; log = [] })
          ≡ some s)
        × (passes on_event (rounds (schedule (transmit ms) ds)) s ≡ some s')
        × Run (transmit ms) s'.bus.log ready false []
        × (s'.user ≡ deliver on_event user (events ms))
  passes-schedule ms ds storage memory user clock hs hm fits =
      let ws = transmit ms in
      let ts = schedule ws ds in
      let nonzero = transmit-valid ms fits in
      let (s, s', starts, run, delivered, _, bus, _) =
        passes-transmit on_event ms ts [] storage memory user clock [] hs hm fits
          (All-schedule OnBus ws ds delayed-OnBus nonzero) (words-schedule ws ds) in
      let all_sent : ws ≡ words ts ++ [] = sym (append-nil (words ts) ∙ words-schedule ws ds) in
      let begun =
        subst (λ l. Run ws (ack false ∷ []) ready false l) all_sent
          (driven ready false false ws begin) in
      (
        s,
        s',
        starts,
        run,
        subst (λ l. Run ws l ready false []) (sym (ap (λ (b : Bus). b.log) bus))
            (history-Run ts (ack false ∷ []) [] (All-schedule Clean ws ds delayed-Clean nonzero)
              begun),
        delivered,
      )
