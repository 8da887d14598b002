-- ===== src/TxModel/Emit.antt =====
-- What the sensor model records for the words that it sends.
use aer_handshake_firmware.Base.{
  ℕ, suc, ◌+◌, ◌*◌, ◌^◌, ◌<◌, ◌≤◌, ◌≡◌, ◌≢◌, ◌⊎◌, inl, inr, refl, ap, sym, ◌∙◌, Bool, true, false,
  some, List, [], ◌∷◌, ◌++◌, length, append_assoc, append-nil, u64, All, arith,
}
use aer_handshake_firmware.Waveform.{
  Sample, Waveform, empty, last, last-append, wf_push_transition, wf_push_transition_lem,
  wf_push_first,
}
use aer_handshake_firmware.TxModel.{
  Cfg, TxModel, put, init, emit_word, raise_ack, clear_data, drop_ack, emit_all, emit_words,
}

-- A model that records to `wf`.
abbrev pub model : Cfg → ℕ → ℕ → Bool → Waveform → TxModel
model c t data_word ack wf = record {
  cfg = c;
  t = t;
  cur_data = data_word;
  cur_ack = ack;
  out = some wf;
}

-- The time from one word to the next.
abbrev pub period : Cfg → ℕ
period c = c.ack_rise_delay + c.data_clear_delay + c.ack_fall_delay

abbrev pub at : ℕ → ℕ → Bool → Sample
at t data_word ack = record { t = t; data_word = data_word; ack = ack }

-- The four transitions of a word sent at time `t`: valid, ACK high, neutral, ACK low.
abbrev pub strokes : Cfg → ℕ → ℕ → List Sample
strokes c t w =
    at t w false
    ∷ at (t + c.ack_rise_delay) w true
    ∷ at (t + c.ack_rise_delay + c.data_clear_delay) c.neutral_word true
    ∷ at (t + period c) c.neutral_word false
    ∷ []

abbrev pub wave : Cfg → ℕ → List ℕ → List Sample
wave c t [] = []
wave c t (w ∷ ws) = strokes c t w ++ wave c (t + period c) ws

suc_times : (n p : ℕ) → suc n * p ≡ p + n * p
suc_times n p = omega arith

append-four :
    (xs : List Sample) (a b c d : Sample)
    → (((xs ++ a ∷ []) ++ b ∷ []) ++ c ∷ []) ++ d ∷ [] ≡ xs ++ a ∷ (b ∷ (c ∷ (d ∷ [])))
append-four [] a b c d = refl
append-four (x ∷ xs) a b c d = ap (λ r. x ∷ r) (append-four xs a b c d)

module _ (realloc : ℕ → Bool) (memory : (n : ℕ) → realloc n ≡ true) where
  put_lem :
      (c : Cfg) (t0 d : ℕ) (a : Bool) (wf : Waveform) (l : Sample) (t x : ℕ) (k : Bool)
      → last wf.samples ≡ some l
      → (l.data_word ≢ x) ⊎ (l.ack ≢ k)
      → l.t ≤ t
      → (wf' : Waveform) × (put realloc (model c t0 d a wf) t x k ≡ (model c t0 d a wf', true))
        × (wf'.samples ≡ wf.samples ++ at t x k ∷ [])
        × (last wf'.samples ≡ some (at t x k))
  unfolding put
  put_lem c t0 d a wf l t x k e new later =
      let (wf', pushed, samples) =
        wf_push_transition_lem realloc memory wf l (at t x k) e new later in
      (wf', rw (pushed, put), samples, ap last samples ∙ last-append wf.samples (at t x k))

  -- One step of a transaction that has worked leads to the next.
  emit_word-put :
      (m m' : TxModel) (w : ℕ)
      → put realloc m m.t w m.cur_ack ≡ (m', true)
      → emit_word realloc m w
        ≡ raise_ack realloc (record m' { cur_data = w }) (u64 (m.t + m.cfg.ack_rise_delay))
  unfolding emit_word
  emit_word-put m m' w e = rw (e, emit_word)

  raise_ack-put :
      (m m' : TxModel) (t : ℕ)
      → put realloc m t m.cur_data true ≡ (m', true)
      → raise_ack realloc m t
        ≡ clear_data realloc (record m' { cur_ack = true }) (u64 (t + m.cfg.data_clear_delay))
  unfolding raise_ack
  raise_ack-put m m' t e = rw (e, raise_ack)

  clear_data-put :
      (m m' : TxModel) (t : ℕ)
      → put realloc m t m.cfg.neutral_word m.cur_ack ≡ (m', true)
      → clear_data realloc m t
        ≡ drop_ack realloc
            (record m' { cur_data = m.cfg.neutral_word })
            (u64 (t + m.cfg.ack_fall_delay))
  unfolding clear_data
  clear_data-put m m' t e = rw (e, clear_data)

  drop_ack-put :
      (m m' : TxModel) (t : ℕ)
      → put realloc m t m.cur_data false ≡ (m', true)
      → drop_ack realloc m t ≡ (record m' { cur_ack = false; t = t }, true)
  unfolding drop_ack
  drop_ack-put m m' t e = rw (e, drop_ack)

  -- A transaction, from a model whose last transition was the fall of ACK.
  emit_word_lem :
      (c : Cfg) (t d : ℕ) (wf : Waveform) (l : Sample) (w : ℕ)
      → last wf.samples ≡ some l
      → l.data_word ≡ c.neutral_word
      → l.t ≤ t
      → w ≢ c.neutral_word
      → t + period c < 2 ^ 64
      → (wf' : Waveform) × (emit_word realloc (model c t d false wf) w
          ≡ (model c (t + period c) c.neutral_word false wf', true))
        × (wf'.samples ≡ wf.samples ++ strokes c t w)
        × (last wf'.samples ≡ some (at (t + period c) c.neutral_word false))
  emit_word_lem c t d wf l w e n later ne fits =
      let t1 = t + c.ack_rise_delay in
      let t2 = t1 + c.data_clear_delay in
      let t3 = t + period c in
      let (wf1, p1, s1, l1) =
        put_lem c t d false wf l t w false e (inl (λ q. ne (sym q ∙ n))) later in
      let (wf2, p2, s2, l2) =
        put_lem c t w false wf1 (at t w false) t1 w true l1 (inr (λ q. cc)) (omega arith) in
      let (wf3, p3, s3, l3) =
        put_lem c t w true wf2 (at t1 w true) t2 c.neutral_word true l2 (inl ne) (omega arith) in
      let (wf4, p4, s4, l4) =
        put_lem c t c.neutral_word true wf3 (at t2 c.neutral_word true) t3 c.neutral_word false l3
          (inr (λ q. cc)) (omega arith) in
      (
        wf4,
        emit_word-put (model c t d false wf) (model c t d false wf1) w p1
            ∙ ap (raise_ack realloc (model c t w false wf1)) (omega arith)
            ∙ raise_ack-put (model c t w false wf1) (model c t w false wf2) t1 p2
            ∙ ap (clear_data realloc (model c t w true wf2)) (omega arith)
            ∙ clear_data-put (model c t w true wf2) (model c t w true wf3) t2 p3
            ∙ ap (drop_ack realloc (model c t c.neutral_word true wf3)) (omega arith)
            ∙ drop_ack-put (model c t c.neutral_word true wf3) (model c t c.neutral_word true wf4)
                t3 p4,
        s4
            ∙ ap (λ xs. xs ++ at t3 c.neutral_word false ∷ [])
                (s3
                  ∙ ap (λ xs. xs ++ at t2 c.neutral_word true ∷ [])
                      (s2 ∙ ap (λ xs. xs ++ at t1 w true ∷ []) s1))
            ∙ append-four wf.samples (at t w false) (at t1 w true) (at t2 c.neutral_word true)
                (at t3 c.neutral_word false),
        l4,
      )

  emit_all_suc :
      (m m' : TxModel) (w : ℕ) (ws : List ℕ)
      → emit_word realloc m w ≡ (m', true)
      → emit_all realloc m (w ∷ ws) ≡ emit_all realloc m' ws
  unfolding emit_all
  emit_all_suc m m' w ws e = rw (e, emit_all)

  emit_all_lem :
      (c : Cfg) (ws : List ℕ) (t d : ℕ) (wf : Waveform) (l : Sample)
      → last wf.samples ≡ some l
      → l.data_word ≡ c.neutral_word
      → l.t ≤ t
      → All (λ w. w ≢ c.neutral_word) ws
      → t + length ws * period c < 2 ^ 64
      → (m : TxModel) × (wf' : Waveform) × (emit_all realloc (model c t d false wf) ws ≡ (m, true))
        × (m.out ≡ some wf')
        × (wf'.samples ≡ wf.samples ++ wave c t ws)
  unfolding emit_all
  emit_all_lem c [] t d wf l e n later ne fits =
      (model c t d false wf, wf, refl, refl, sym (append-nil wf.samples))
  emit_all_lem c (w ∷ ws) t d wf l e n later ne fits =
      let whole : suc (length ws) * period c ≡ period c + length ws * period c =
        suc_times (length ws) (period c) in
      let (wf1, run1, s1, l1) = emit_word_lem c t d wf l w e n later ne.0 (omega arith) in
      let (m, wf2, run2, out, s2) =
        emit_all_lem c ws (t + period c) c.neutral_word wf1 (at (t + period c) c.neutral_word false)
          l1 refl (omega arith) ne.1 (omega arith) in
      (
        m,
        wf2,
        emit_all_suc (model c t d false wf) (model c (t + period c) c.neutral_word false wf1) w ws
              run1
            ∙ run2,
        out,
        s2
            ∙ ap (λ xs. xs ++ wave c (t + period c) ws) s1
            ∙ append_assoc wf.samples (strokes c t w) (wave c (t + period c) ws),
      )

  init_lem :
      (c : Cfg) (t0 : ℕ) (wf : Waveform)
      → c.initial_ack ≡ false
      → wf_push_transition realloc empty (at t0 c.neutral_word false) ≡ (wf, true)
      → init realloc (some c) (some empty) t0 ≡ model c t0 c.neutral_word false wf
  unfolding init put
  init_lem c t0 wf low pushed =
      ap
        (λ k.
          model c t0 c.neutral_word k (wf_push_transition realloc empty (at t0 c.neutral_word k)).0)
        low
      ∙ ap (λ (p : Waveform × Bool). model c t0 c.neutral_word false p.0) pushed

  -- The waveform of a model that is initialised with ACK low and then sends words, each other than
  -- the neutral word: the initial state, then the transitions of the words, one after another.
  pub emit_words_lem :
      (c : Cfg) (t0 : ℕ) (ws : List ℕ)
      → c.initial_ack ≡ false
      → All (λ w. w ≢ c.neutral_word) ws
      → t0 + length ws * period c < 2 ^ 64
      → (m : TxModel) × (wf : Waveform) × (emit_words realloc
            (init realloc (some c) (some empty) t0)
            ws
          ≡ (m, true))
        × (m.out ≡ some wf)
        × (wf.samples ≡ at t0 c.neutral_word false ∷ wave c t0 ws)
  unfolding emit_words
  emit_words_lem c t0 ws low ne fits =
      let n = c.neutral_word in
      let (wf1, pushed, s1) = wf_push_first realloc memory (at t0 n false) in
      let (m, wf, run, out, s) =
        emit_all_lem c ws t0 n wf1 (at t0 n false) (ap last s1) refl (omega arith) ne fits in
      (
        m,
        wf,
        ap (λ m0. emit_words realloc m0 ws) (init_lem c t0 wf1 low pushed) ∙ run,
        out,
        s ∙ ap (λ xs. xs ++ wave c t0 ws) s1,
      )
