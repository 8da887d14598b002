-- ===== src/Replay/Samples.antt =====
-- One round of the replay, by whether ACK rises.
use aer_handshake_firmware.Base.{
  ℕ, ◌+◌, ◌≡◌, ◌⊎◌, ◌&&◌, refl, ap, ap₂, sym, ◌∙◌, Bool, Bool-cases, inl, inr, true, false, not,
  List, ◌++◌, append-nil, u32, arith, if_true, if_false,
}
use aer_handshake_firmware.Codec.{decode_word}
use aer_handshake_firmware.Burst.{Burst, Event, feed}
use aer_handshake_firmware.Burst.Branches.{feed_ignored}
use aer_handshake_firmware.Replay.{
  cfg_default, ReplayStats, Run, count_word, latch_word, take_sample,
}

pub count_word_latched :
    (w : ℕ) (st : ReplayStats)
    → (count_word cfg_default (decode_word w) st).words_latched ≡ u32 (st.words_latched + 1)
unfolding count_word
count_word_latched w st = ground arith

-- By default a rejected word is not fed to the assembler, which would ignore it.
pub latch_word_lem :
    (w : ℕ) (r : Run)
    → latch_word cfg_default true w r ≡ record r {
      st = count_word cfg_default (decode_word w) r.st;
      burst = (feed r.burst (decode_word w) true).0;
      events = r.events ++ (feed r.burst (decode_word w) true).1;
    }
unfolding latch_word
latch_word_lem w r = elim (Bool-cases (decode_word w).ok) [
  | inl good ↦ if_false (not (decode_word w).ok) _ _ (ap not good)
  | inr bad ↦
      let cr = decode_word w in
      let e = feed_ignored r.burst cr true bad in
      if_true (not cr.ok) _ _ (ap not bad)
      ∙ ap₂ (λ b es. record r { st = count_word cfg_default cr r.st; burst = b; events = es })
          (ap (λ (f : Burst × List Event × ℕ). f.0) (sym e))
          (sym (ap (λ (f : Burst × List Event × ℕ). r.events ++ f.1) e ∙ append-nil r.events))
]

-- A sample with no rise of ACK.
quiet :
    (have last ack : Bool)
    → (last ≡ true) ⊎ (ack ≡ false)
    → (have && (true && (not last && ack))) ≡ false
quiet false last ack h = refl
quiet true true ack h = refl
quiet true false false h = refl
quiet true false true (inl e) = absurd (cc)
quiet true false true (inr e) = absurd (cc)

pub take_quiet :
    (x : ℕ) (ack : Bool) (r : Run)
    → (r.last_ack ≡ true) ⊎ (ack ≡ false)
    → take_sample cfg_default true x ack r
      ≡ record r { last_data = x; last_ack = ack; have_last = true }
unfolding take_sample
take_quiet x ack r h =
    ap (λ (r' : Run). record r' { last_data = x; last_ack = ack; have_last = true })
      (if_false (r.have_last && (true && (not r.last_ack && ack))) _ _
        (quiet r.have_last r.last_ack ack h))

pub take_rise :
    (x : ℕ) (r : Run)
    → r.have_last ≡ true
    → r.last_ack ≡ false
    → take_sample cfg_default true x true r ≡ record (latch_word cfg_default true x r) {
      last_data = x;
      last_ack = true;
      have_last = true;
    }
unfolding take_sample
take_rise x r have low =
    ap (λ (r' : Run). record r' { last_data = x; last_ack = true; have_last = true })
      (if_true (r.have_last && (true && (not r.last_ack && true))) _ _
        (ap₂ (λ a b. a && (true && (not b && true))) have low))
