-- ===== src/Codec/Encode.antt =====
-- `aer_encode_payload` against the relation `Carries`, and the two round trips with the decoder.
use aer_handshake_firmware.Base.{
  ℕ, ◌+◌, ◌*◌, ◌^◌, ◌<◌, ◌≤◌, ◌≡◌, refl, inl, inr, ◌⊎◌, Bool, true, false, not, ◌&&◌, arith, ltb,
  leb, ◌==◌, if◌then◌else◌, Out, put_out, some, none, all_below_sound,
}
use native.Mathlib.Decide.{dec_lt}
use aer_handshake_firmware.Codec.{
  decode_word, encode_groups, encode_word, encode_payload, err_none, err_out_of_range,
  warn_pad_bit_set,
}
use aer_handshake_firmware.Codec.Groups.{group}
use aer_handshake_firmware.Codec.Carries.{symbol, Carries}
use aer_handshake_firmware.Codec.Decode.{code_lem, range_flags_lem}
use aer_handshake_firmware.Codec.Payload.{decode_word-Carries}

abbrev is_encoded : ℕ → ℕ → Bool
is_encoded w p =
    ltb w (2 ^ 12)
    && group 0 w == 2 ^ symbol 0 p
    && group 1 w == 2 ^ symbol 1 p
    && group 2 w == 2 ^ symbol 2 p

encode_table : (p : ℕ) → p < 64 → is_encoded (encode_word p) p ≡ true
unfolding encode_word encode_groups
encode_table p h = all_below_sound 64 (λ p. is_encoded (encode_word p) p) p refl h

encode_word-Carries : (p : ℕ) → p < 64 → (encode_word p < 2 ^ 12) × Carries (encode_word p) p
encode_word-Carries p h = ground (arith, encode_table p h)

put_out_twice : {A : Type 0} (o : Out A) (a b : A) → put_out (put_out o a) b ≡ put_out o b
put_out_twice none a b = refl
put_out_twice (some x) a b = refl

pub accept_lem :
    (payload : ℕ) (out_raw out_err : Out ℕ)
    → payload < 64
    → encode_payload payload out_raw out_err
      ≡ (true, put_out out_raw (encode_word payload), put_out out_err err_none)
unfolding encode_payload
accept_lem payload out_raw out_err h = ground (arith, put_out_twice out_raw 0 (encode_word payload))

reject_lem :
    (payload : ℕ) (out_raw out_err : Out ℕ)
    → 64 ≤ payload
    → encode_payload payload out_raw out_err
      ≡ (false, put_out out_raw 0, put_out out_err err_out_of_range)
unfolding encode_payload
reject_lem payload out_raw none h = ground arith
reject_lem payload out_raw (some e) h = ground arith

-- `aer_encode_payload`, for every payload and every choice of out-parameters: a payload that fits
-- six bits gives success, no error flag and a 12-bit word that carries it; any other gives failure,
-- the word 0 and the out-of-range flag.
pub encode_payload-Carries :
    (payload : ℕ) (out_raw out_err : Out ℕ)
    → ((payload < 64)
        × (w : ℕ) × (encode_payload payload out_raw out_err
            ≡ (true, put_out out_raw w, put_out out_err err_none))
        × (w < 2 ^ 12)
        × Carries w payload)
      ⊎ ((64 ≤ payload)
          × (encode_payload payload out_raw out_err
              ≡ (false, put_out out_raw 0, put_out out_err err_out_of_range)))
encode_payload-Carries payload out_raw out_err = elim (dec_lt payload 64) [
  | yes h ↦
      let (small, carries) = encode_word-Carries payload h in
      inl (h, encode_word payload, accept_lem payload out_raw out_err h, small, carries)
  | no h ↦ let big : 64 ≤ payload = omega arith in inr (big, reject_lem payload out_raw out_err big)
]

-- What is encoded decodes to the same payload, for each of the 64 payloads: accepted, the tail
-- exactly at 63, and no flag but the pad warning at 32 to 62.
pub decode-encode :
    (payload : ℕ)
    → payload < 64
    → decode_word (encode_word payload) ≡ record {
      ok = true;
      payload = payload;
      is_tail = payload == 63;
      err_flags = if leb 32 payload && not (payload == 63) then warn_pad_bit_set else err_none;
    }
decode-encode payload h =
    let (small, c) = encode_word-Carries payload h in
    let e : symbol 0 payload + 4 * symbol 1 payload + 16 * symbol 2 payload ≡ payload =
      omega arith in
    rw
      (
        code_lem (encode_word payload) (symbol 0 payload) (symbol 1 payload) (symbol 2 payload)
            (omega arith) (omega arith) (omega arith) c.group_0 c.group_1 c.group_2,
        e,
      )
      (ground (arith, range_flags_lem (encode_word payload)))

-- What is accepted on the 12 bus lines encodes to the same word.
pub encode-decode :
    (raw : ℕ)
    → raw < 2 ^ 12
    → (decode_word raw).ok ≡ true
    → encode_word (decode_word raw).payload ≡ raw
encode-decode raw h good =
    let c = (decode_word-Carries raw (decode_word raw).payload (omega arith)).0 (good, refl) in
    let (small, c') = encode_word-Carries (decode_word raw).payload c.fits in omega arith
