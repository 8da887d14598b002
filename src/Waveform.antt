-- ===== src/Waveform.antt =====
-- The waveform vector of host/aer_tx_model.c and host/aer_tx_model.h: recorded transitions of DATA
-- and ACK. Whether libc's `realloc` gives memory for so many samples is a parameter.
use aer_handshake_firmware.Base.{
  ℕ, zero, suc, ◌+◌, ◌-◌, ◌*◌, ◌/◌, ◌^◌, ◌≤◌, ◌≡◌, ◌≢◌, ◌⊎◌, refl, Bool, Bool-cases, inl, inr, true,
  false, ◌&&◌, Option, none, some, List, [], ◌∷◌, ◌++◌, length, if◌then◌else◌, ltb, leb, ◌==◌,
  beq_bool, u64, arith,
}

-- `aer_tx_sample_t`
pub record Sample : Type 0 where
  pub t : ℕ
  pub data_word : ℕ
  pub ack : Bool

-- `aer_waveform_t`; `len` is the length of `samples`.
pub record Waveform : Type 0 where
  pub samples : List Sample
  pub cap : ℕ

abbrev pub empty : Waveform
empty = record { samples = []; cap = 0 }

-- `aer_waveform_free`, on a valid pointer.
pub waveform_free : Waveform → Waveform
waveform_free wf = empty

-- The last sample, `wf->samples[wf->len - 1u]`.
abbrev pub last : List Sample → Option Sample
last [] = none
last (x ∷ []) = some x
last (_ ∷ (y ∷ ys)) = last (y ∷ ys)

-- The growth loop of `wf_reserve`; each round adds at least one to a nonzero capacity, so that
-- `need_cap` rounds are enough.
pub grow : ℕ → ℕ → ℕ → ℕ
grow zero new_cap need_cap = new_cap
grow (suc fuel) new_cap need_cap =
    let doubled = if ltb new_cap ((2 ^ 64 - 1) / 2) then new_cap * 2 else need_cap in
    let next = if ltb doubled need_cap then need_cap else doubled in
    let rest = grow fuel next need_cap in if ltb new_cap need_cap then rest else new_cap

-- The loop ends with a capacity that is enough.
pub grow-enough :
    (fuel new_cap need_cap : ℕ)
    → 1 ≤ new_cap
    → need_cap ≤ new_cap + fuel
    → need_cap ≤ grow fuel new_cap need_cap
unfolding grow
grow-enough zero new_cap need_cap one enough = omega arith
grow-enough (suc fuel) new_cap need_cap one enough =
    let doubled = if ltb new_cap ((2 ^ 64 - 1) / 2) then new_cap * 2 else need_cap in
    let next = if ltb doubled need_cap then need_cap else doubled in
    elim (Bool-cases (ltb new_cap need_cap)) [
      | inl low ↦ rw low (grow-enough fuel next need_cap (ground arith) (ground arith))
      | inr high ↦ rw high (ground arith)
    ]

module _ (realloc : ℕ → Bool) where
  pub wf_reserve : Waveform → ℕ → Waveform × Bool
  wf_reserve wf need_cap =
      if leb need_cap wf.cap
      then (wf, true)
      else let new_cap = grow need_cap (if wf.cap == 0 then 64 else wf.cap) need_cap in
        if realloc new_cap then (record wf { cap = new_cap }, true) else (wf, false)

  -- The end of `wf_push_transition`.
  pub append_sample : Waveform → Sample → Waveform × Bool
  append_sample wf s =
      let (wf', ok) = wf_reserve wf (u64 (length wf.samples + 1)) in
      if ok then (record wf' { samples = wf'.samples ++ s ∷ [] }, true) else (wf', false)

  pub wf_push_transition : Waveform → Sample → Waveform × Bool
  wf_push_transition wf s = elim (last wf.samples) [
    | none ↦ append_sample wf s
    | some l ↦
        if l.data_word == s.data_word && beq_bool l.ack s.ack
        then (wf, true)
        else if ltb s.t l.t
        then (wf, false)
        else append_sample wf s
  ]

pub last-append : (xs : List Sample) (x : Sample) → last (xs ++ x ∷ []) ≡ some x
last-append [] x = refl
last-append (y ∷ []) x = refl
last-append (y ∷ (z ∷ zs)) x = last-append (z ∷ zs) x

differs : (a b : ℕ) (p q : Bool) → (a ≢ b) ⊎ (p ≢ q) → (a == b && beq_bool p q) ≡ false
differs a b true true (inl ne) = ground arith
differs a b false false (inl ne) = ground arith
differs a b true false h = ground arith
differs a b false true h = ground arith
differs a b true true (inr ne) = absurd (ne refl)
differs a b false false (inr ne) = absurd (ne refl)

module _ (realloc : ℕ → Bool) (memory : (n : ℕ) → realloc n ≡ true) where
  pub append_sample_lem :
      (wf : Waveform) (s : Sample)
      → (wf' : Waveform) × (append_sample realloc wf s ≡ (wf', true))
        × (wf'.samples ≡ wf.samples ++ s ∷ [])
  unfolding append_sample wf_reserve
  append_sample_lem wf s = elim (Bool-cases (leb (u64 (length wf.samples + 1)) wf.cap)) [
    | inl room ↦ (record wf { samples = wf.samples ++ s ∷ [] }, rw (room, append_sample) refl, refl)
    | inr full ↦
        let need = u64 (length wf.samples + 1) in
        let cap = grow need (if wf.cap == 0 then 64 else wf.cap) need in
        (
          record { samples = wf.samples ++ s ∷ []; cap = cap },
          rw (full, append_sample) (rw (memory cap) refl),
          refl,
        )
  ]

  -- A transition later than the last is appended where there is memory.
  pub wf_push_transition_lem :
      (wf : Waveform) (l s : Sample)
      → last wf.samples ≡ some l
      → (l.data_word ≢ s.data_word) ⊎ (l.ack ≢ s.ack)
      → l.t ≤ s.t
      → (wf' : Waveform) × (wf_push_transition realloc wf s ≡ (wf', true))
        × (wf'.samples ≡ wf.samples ++ s ∷ [])
  unfolding wf_push_transition
  wf_push_transition_lem wf l s e new later =
      let (wf', pushed, samples) = append_sample_lem wf s in
      let changed : (l.data_word == s.data_word && beq_bool l.ack s.ack) ≡ false =
        differs l.data_word s.data_word l.ack s.ack new in
      let monotonic : ltb s.t l.t ≡ false = ground arith in
      (wf', rw (e, wf_push_transition) (rw changed (rw monotonic pushed)), samples)

  -- The first sample of a waveform.
  pub wf_push_first :
      (s : Sample)
      → (wf' : Waveform) × (wf_push_transition realloc empty s ≡ (wf', true))
        × (wf'.samples ≡ s ∷ [])
  unfolding wf_push_transition
  wf_push_first s = append_sample_lem empty s
