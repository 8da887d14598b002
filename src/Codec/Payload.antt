-- ===== src/Codec/Payload.antt =====
-- `aer_decode_word` against the relation `Carries`: the payload that it reports.
use aer_handshake_firmware.Base.{ℕ, ◌+◌, ◌*◌, ◌^◌, ◌<◌, ◌≡◌, ◌↔◌, ap, sym, refl, ◌∙◌, true, arith}
use aer_handshake_firmware.Codec.{CodecResult, decode_word}
use aer_handshake_firmware.Codec.Groups.{group}
use aer_handshake_firmware.Codec.Carries.{symbol, Carries, hot}
use aer_handshake_firmware.Codec.Decode.{code_lem}
use aer_handshake_firmware.Codec.Verdict.{accepts_iff, code_symbol, decode_word-Verdict}

joined-Carries :
    (raw s0 s1 s2 p : ℕ)
    → s0 < 4
    → s1 < 4
    → s2 < 4
    → group 0 raw ≡ 2 ^ s0
    → group 1 raw ≡ 2 ^ s1
    → group 2 raw ≡ 2 ^ s2
    → s0 + 4 * s1 + 16 * s2 ≡ p
    → Carries raw p
joined-Carries raw s0 s1 s2 p h0 h1 h2 e0 e1 e2 e =
    let x0 : symbol 0 p ≡ s0 = omega arith in
    let x1 : symbol 1 p ≡ s1 = omega arith in
    let x2 : symbol 2 p ≡ s2 = omega arith in
    record {
      fits = omega arith;
      group_0 = e0 ∙ ap (λ s. 2 ^ s) (sym x0);
      group_1 = e1 ∙ ap (λ s. 2 ^ s) (sym x1);
      group_2 = e2 ∙ ap (λ s. 2 ^ s) (sym x2);
    }

pub Carries-ok :
    (raw p : ℕ) → Carries raw p → ((decode_word raw).ok ≡ true) × ((decode_word raw).payload ≡ p)
Carries-ok raw p c =
    rw
      (code_lem raw (symbol 0 p) (symbol 1 p) (symbol 2 p) (omega arith) (omega arith) (omega arith)
        c.group_0 c.group_1 c.group_2)
      (refl, let h : p < 64 = c.fits in omega arith)

ok-Carries :
    (raw p : ℕ)
    → raw < 2 ^ 32
    → (decode_word raw).ok ≡ true
    → (decode_word raw).payload ≡ p
    → Carries raw p
ok-Carries raw p h good e =
    let (c0, c1, c2) =
      (accepts_iff (hot 0 raw) (hot 1 raw) (hot 2 raw)).0
        (sym (decode_word-Verdict raw h).ok ∙ good) in
    let (s0, h0, e0) = code_symbol 0 raw c0 in
    let (s1, h1, e1) = code_symbol 1 raw c1 in
    let (s2, h2, e2) = code_symbol 2 raw c2 in
    joined-Carries raw s0 s1 s2 p h0 h1 h2 e0 e1 e2
      (sym (ap (λ (r : CodecResult). r.payload) (code_lem raw s0 s1 s2 h0 h1 h2 e0 e1 e2)) ∙ e)

-- `aer_decode_word` accepts a raw word with payload `p` exactly when the word carries `p`: exactly
-- the wire of symbol `g` of `p` is asserted in each of the three groups.
pub decode_word-Carries :
    (raw p : ℕ)
    → raw < 2 ^ 32
    → (((decode_word raw).ok ≡ true) × ((decode_word raw).payload ≡ p)) ↔ Carries raw p
decode_word-Carries raw p h = (λ (good, e). ok-Carries raw p h good e, Carries-ok raw p)
