-- ===== src/Codec/Tests.antt =====
-- The codec on single words: 280 is row 3, 2184 the tail.
use aer_handshake_firmware.Base.{
  ℕ, ap, ◌<◌, ◌≡◌, ◌↔◌, ◌⊎◌, refl, true, false, none, some, if◌then◌else◌, leb, ◌==◌, ◌&&◌, not,
  ◌^◌, ◌≤◌, put_out, arith,
}
use aer_handshake_firmware.Codec.{
  CodecResult, decode_word, encode_word, encode_payload, warn_pad_bit_set, err_none, err_zero_hot,
  err_out_of_range, mask_raw, range_flags, scan_groups, scan_group, finish, popcount4, ctz4,
}
use aer_handshake_firmware.Codec.Carries.{Carries, hot}
use aer_handshake_firmware.Codec.Verdict.{Verdict, decode_word-Verdict}
use aer_handshake_firmware.Codec.Payload.{decode_word-Carries}
use aer_handshake_firmware.Codec.Encode.{encode_payload-Carries, decode-encode, encode-decode}

decode_word_280 :
    decode_word 280 ≡ record { ok = true; payload = 3; is_tail = false; err_flags = 0 }
unfolding decode_word mask_raw range_flags scan_groups scan_group finish popcount4 ctz4
decode_word_280 = refl

-- A group with no wire.
decode_word_24 :
    decode_word 24 ≡ record { ok = false; payload = 3; is_tail = false; err_flags = err_zero_hot }
unfolding decode_word mask_raw range_flags scan_groups scan_group finish popcount4 ctz4
decode_word_24 = refl

decode_word-Verdict_example : Verdict 280 (hot 0 280) (hot 1 280) (hot 2 280) (decode_word 280)
decode_word-Verdict_example = decode_word-Verdict 280 (omega arith)

decode_word-Carries_example :
    (((decode_word 280).ok ≡ true) × ((decode_word 280).payload ≡ 3)) ↔ Carries 280 3
decode_word-Carries_example = decode_word-Carries 280 3 (omega arith)

encode_payload-Carries_example :
    ((3 < 64)
      × (w : ℕ) × (encode_payload 3 (some 7) none
          ≡ (true, put_out (some 7) w, put_out none err_none))
      × (w < 2 ^ 12)
      × Carries w 3)
    ⊎ ((64 ≤ 3)
        × (encode_payload 3 (some 7) none
            ≡ (false, put_out (some 7) 0, put_out none err_out_of_range)))
encode_payload-Carries_example = encode_payload-Carries 3 (some 7) none

decode-encode_example : decode_word (encode_word 40) ≡ record {
  ok = true;
  payload = 40;
  is_tail = 40 == 63;
  err_flags = if leb 32 40 && not (40 == 63) then warn_pad_bit_set else err_none;
}
decode-encode_example = decode-encode 40 (omega arith)

encode-decode_example : encode_word (decode_word 280).payload ≡ 280
encode-decode_example =
    encode-decode 280 (omega arith) (let e = decode_word_280 in ap (λ (r : CodecResult). r.ok) e)
