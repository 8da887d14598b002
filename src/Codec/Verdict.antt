-- ===== src/Codec/Verdict.antt =====
-- Which words `aer_decode_word` accepts, and which flags it sets.
use aer_handshake_firmware.Base.{
  ℕ, ◌+◌, ◌*◌, ◌%◌, ◌^◌, ◌≤◌, ◌<◌, ◌≡◌, ◌≢◌, ◌↔◌, inl, inr, refl, bit_or, Bool, Bool-cases, true,
  false, not, ◌&&◌, ◌||◌, arith, leb, ◌==◌, ==_iff, all_below_sound, if◌then◌else◌,
}
use aer_handshake_firmware.Codec.{
  CodecResult, finish, decode_word, err_zero_hot, err_multi_hot, err_neutral, err_out_of_range,
  warn_pad_bit_set,
}
use aer_handshake_firmware.Codec.Groups.{Wires, dark, lit, clash, wires, lines, group, pass}
use aer_handshake_firmware.Codec.Carries.{hot}
use aer_handshake_firmware.Codec.Decode.{
  passes_lem, neutral_lem, code_lem, range_flags_lem, group-lt,
}

lines-pow : (s : ℕ) → s < 4 → lines (2 ^ s) ≡ 1
lines-pow s h = (==_iff _ _).0 (all_below_sound 4 (λ s. lines (2 ^ s) == 1) s refl h)

-- How many wires a group of each kind has asserted.
abbrev Shows : {n : ℕ} → Wires n → ℕ → Type 0
Shows (dark _) h = h ≡ 0
Shows (lit _ _ _) h = h ≡ 1
Shows (clash _ _) h = 2 ≤ h

shows : {n : ℕ} (w : Wires n) → Shows w (lines n)
shows (dark e) = rw e refl
shows (lit s small e) = rw e (lines-pow s small)
shows (clash _ several) = several

-- The verdict by the counts of asserted wires in the three groups: whether the word is accepted,
-- and what the loop adds to the flags.
abbrev pub accepts : ℕ → ℕ → ℕ → Bool
accepts h0 h1 h2 = h0 == 1 && h1 == 1 && h2 == 1

abbrev pub wire_flags : ℕ → ℕ → ℕ → ℕ
wire_flags h0 h1 h2 =
    (if h0 == 0 || h1 == 0 || h2 == 0 then err_zero_hot else 0)
    + (if leb 2 h0 || leb 2 h1 || leb 2 h2 then err_multi_hot else 0)

-- A group that is not lit makes the passes end without `valid`, and leaves its flag.
refused_lem :
    {n0 n1 n2 : ℕ} (above : Bool) (h0 h1 h2 : ℕ) (w0 : Wires n0) (w1 : Wires n1) (w2 : Wires n2)
    → Shows w0 h0
    → Shows w1 h1
    → Shows w2 h2
    → accepts h0 h1 h2 ≡ false
    → let e : ℕ = if above then 2 else 0 in
      let r =
        finish (
          pass w2 2
            (pass w1 1 (pass w0 0 (record { payload = 0; valid = true; err_flags = e })))) in
      (r.ok ≡ false) × (r.is_tail ≡ false) × (r.err_flags ≡ e + wire_flags h0 h1 h2)
unfolding finish
refused_lem true h0 h1 h2 (dark _) (dark _) (dark _) p q r bad = ground arith
refused_lem false h0 h1 h2 (dark _) (dark _) (dark _) p q r bad = ground arith
refused_lem _ h0 h1 h2 _ _ _ p q r bad = ground arith

-- One asserted wire is wire `s` for some `s`.
lit_of : {n : ℕ} → Wires n → lines n ≡ 1 → (s : ℕ) × (s < 4) × (n ≡ 2 ^ s)
lit_of {n} (dark e) one = let z : lines n ≡ 0 = rw e refl in absurd (omega arith)
lit_of (lit s small e) one = (s, small, e)
lit_of (clash ne several) one = absurd (omega arith)

pub code_symbol : (g raw : ℕ) → hot g raw ≡ 1 → (s : ℕ) × (s < 4) × (group g raw ≡ 2 ^ s)
code_symbol g raw one = lit_of (wires (group g raw) (group-lt g raw)) one

-- The result for a raw word whose groups have `h0`, `h1` and `h2` wires asserted: acceptance, tail,
-- and the sum of the flags.
pub record Verdict (raw h0 h1 h2 : ℕ) (r : CodecResult) : Type 0 where
  pub ok : r.ok ≡ accepts h0 h1 h2
  pub tail : r.is_tail ≡ r.ok && r.payload == 63
  pub flags :
      r.err_flags
      ≡ (if leb (2 ^ 12) raw then err_out_of_range else 0)
        + (if raw % 2 ^ 12 == 0 then err_neutral else wire_flags h0 h1 h2)
        + (if r.ok && leb 32 r.payload && not (r.payload == 63) then warn_pad_bit_set else 0)

code-Verdict :
    (raw h0 h1 h2 p : ℕ)
    → h0 ≡ 1
    → h1 ≡ 1
    → h2 ≡ 1
    → raw % 2 ^ 12 ≢ 0
    → Verdict raw h0 h1 h2 (
        let e : ℕ = if leb (2 ^ 12) raw then 2 else 0 in
        record {
          ok = true;
          payload = p;
          is_tail = p == 63;
          err_flags = if leb 32 p && not (p == 63) then bit_or e warn_pad_bit_set else e;
        })
code-Verdict raw h0 h1 h2 p c0 c1 c2 ne = ground arith

neutral-Verdict :
    (raw h0 h1 h2 : ℕ)
    → h0 ≡ 0
    → raw % 2 ^ 12 ≡ 0
    → Verdict raw h0 h1 h2 (
        let e : ℕ = if leb (2 ^ 12) raw then 2 else 0 in
        record { ok = false; payload = 0; is_tail = false; err_flags = bit_or e err_neutral })
neutral-Verdict raw h0 h1 h2 z e = ground arith

refused-Verdict :
    (raw h0 h1 h2 : ℕ) (r : CodecResult)
    → raw % 2 ^ 12 ≢ 0
    → accepts h0 h1 h2 ≡ false
    → (r.ok ≡ false)
      × (r.is_tail ≡ false)
      × (r.err_flags ≡ (if leb (2 ^ 12) raw then 2 else 0) + wire_flags h0 h1 h2)
    → Verdict raw h0 h1 h2 r
refused-Verdict raw h0 h1 h2 r ne bad (x, y, z) = ground arith

pub accepts_iff : (h0 h1 h2 : ℕ) → (accepts h0 h1 h2 ≡ true) ↔ ((h0 ≡ 1) × (h1 ≡ 1) × (h2 ≡ 1))
accepts_iff h0 h1 h2 = ground arith

accepted-Verdict :
    (raw : ℕ)
    → raw < 2 ^ 32
    → raw % 2 ^ 12 ≢ 0
    → (hot 0 raw ≡ 1) × (hot 1 raw ≡ 1) × (hot 2 raw ≡ 1)
    → Verdict raw (hot 0 raw) (hot 1 raw) (hot 2 raw) (decode_word raw)
accepted-Verdict raw h ne (c0, c1, c2) =
    let (s0, h0, e0) = code_symbol 0 raw c0 in
    let (s1, h1, e1) = code_symbol 1 raw c1 in
    let (s2, h2, e2) = code_symbol 2 raw c2 in
    rw (code_lem raw s0 s1 s2 h0 h1 h2 e0 e1 e2, range_flags_lem raw h)
      (code-Verdict raw (hot 0 raw) (hot 1 raw) (hot 2 raw) (s0 + 4 * s1 + 16 * s2) c0 c1 c2 ne)

rejected-Verdict :
    (raw : ℕ)
    → raw < 2 ^ 32
    → raw % 2 ^ 12 ≢ 0
    → accepts (hot 0 raw) (hot 1 raw) (hot 2 raw) ≡ false
    → Verdict raw (hot 0 raw) (hot 1 raw) (hot 2 raw) (decode_word raw)
rejected-Verdict raw h ne bad =
    refused-Verdict raw (hot 0 raw) (hot 1 raw) (hot 2 raw) (decode_word raw) ne bad (
      rw (passes_lem raw w0 w1 w2 ne, range_flags_lem raw h)
        (refused_lem (leb (2 ^ 12) raw) (hot 0 raw) (hot 1 raw) (hot 2 raw) w0 w1 w2 (shows w0)
          (shows w1) (shows w2) bad))
  where
    w0 : Wires (group 0 raw)
    w0 = wires (group 0 raw) (group-lt 0 raw)

    w1 : Wires (group 1 raw)
    w1 = wires (group 1 raw) (group-lt 1 raw)

    w2 : Wires (group 2 raw)
    w2 = wires (group 2 raw) (group-lt 2 raw)

-- For every raw word `aer_decode_word` accepts exactly the words with one asserted wire in each
-- group, reports the tail exactly for an accepted payload 63, and sets exactly these flags: out of
-- range for bits above the bus, neutral for an idle bus, else zero-hot and multi-hot for a group
-- with no wire or several, and the pad warning for an accepted payload of 32 to 62.
pub decode_word-Verdict :
    (raw : ℕ) → raw < 2 ^ 32 → Verdict raw (hot 0 raw) (hot 1 raw) (hot 2 raw) (decode_word raw)
decode_word-Verdict raw h = elim (Bool-cases (raw % 2 ^ 12 == 0)) [
  | inl idle ↦
      let e : raw % 2 ^ 12 ≡ 0 = (==_iff _ _).0 idle in
      rw (neutral_lem raw e, range_flags_lem raw h)
        (neutral-Verdict raw (hot 0 raw) (hot 1 raw) (hot 2 raw) (omega arith) e)
  | inr busy ↦
      let ne : raw % 2 ^ 12 ≢ 0 = ground arith in
      elim (Bool-cases (accepts (hot 0 raw) (hot 1 raw) (hot 2 raw))) [
        | inl good ↦ accepted-Verdict raw h ne ((accepts_iff _ _ _).0 good)
        | inr bad ↦ rejected-Verdict raw h ne bad
      ]
]
