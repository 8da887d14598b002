-- ===== src/Codec.antt =====
-- common/src/aer_codec.c and common/include/aer_codec.h: a raw bus word to a payload, and back.
-- The modules below prove that it is the 1-of-4 code of README.md section 3.
mod Groups
pub mod Carries
pub mod Decode
pub mod Verdict
pub mod Payload
pub mod Encode
mod Tests
mod Vectors
use aer_handshake_firmware.Base.{
  ℕ, zero, suc, ◌+◌, ◌-◌, ◌*◌, ◌/◌, ◌^◌, bit_and, bit_or, Bool, true, false, not, if◌then◌else◌,
  ltb, ◌==◌, u8, u32, Out, put_out, Option, none, some,
}
use aer_handshake_firmware.Cfg.{
  raw_mask, num_groups, group_width, symbol_bits, payload_bits, index_bits, tail_payload,
}

-- `aer_codec_err_t`
abbrev pub err_none : ℕ
err_none = 0

abbrev pub err_neutral : ℕ
err_neutral = 2 ^ 0

abbrev pub err_out_of_range : ℕ
err_out_of_range = 2 ^ 1

abbrev pub err_multi_hot : ℕ
err_multi_hot = 2 ^ 2

abbrev pub err_zero_hot : ℕ
err_zero_hot = 2 ^ 3

abbrev pub warn_pad_bit_set : ℕ
warn_pad_bit_set = 2 ^ 4

-- `aer_codec_result_t`
pub record CodecResult : Type 0 where
  pub ok : Bool
  pub payload : ℕ
  pub is_tail : Bool
  pub err_flags : ℕ

-- `~x` on 32 bits
abbrev pub complement : ℕ → ℕ
complement x = 2 ^ 32 - 1 - x

pub mask_raw : ℕ → ℕ
mask_raw raw = bit_and raw raw_mask

-- The subtraction and the sum are those of uint32_t.
pub popcount4 : ℕ → ℕ
popcount4 x =
    let y = u32 (x + 2 ^ 32 - bit_and (x / 2) 5) in u32 (bit_and y 3 + bit_and (y / 2 ^ 2) 3)

pub ctz4 : ℕ → ℕ
ctz4 x =
    if not (bit_and x 1 == 0)
    then 0
    else if not (bit_and x 2 == 0)
    then 1
    else if not (bit_and x 4 == 0)
    then 2
    else 3

-- What the loop over the groups has found.
pub record Scan : Type 0 where
  pub payload : ℕ
  pub valid : Bool
  pub err_flags : ℕ

-- One pass of the loop body, for group `g`; the two `continue`s are its first two branches.
pub scan_group : ℕ → ℕ → Scan → Scan
scan_group masked g s =
    let nib = bit_and (masked / 2 ^ (g * group_width)) 0xF in
    if nib == 0
    then record s { err_flags = bit_or s.err_flags err_zero_hot; valid = false }
    else if not (popcount4 nib == 1)
    then record s { err_flags = bit_or s.err_flags err_multi_hot; valid = false }
    else record s {
      payload = bit_or s.payload (u32 (bit_and (ctz4 nib) 3 * 2 ^ (g * symbol_bits)));
    }

-- The loop, with `n` groups to go from group `g` on.
pub scan_groups : ℕ → ℕ → ℕ → Scan → Scan
scan_groups masked zero g s = s
scan_groups masked (suc n) g s = scan_groups masked n (g + 1) (scan_group masked g s)

-- From the end of the loop to the return.
pub finish : Scan → CodecResult
finish s =
    let payload = u8 (bit_and s.payload (2 ^ payload_bits - 1)) in
    let pad_mask = bit_and (2 ^ payload_bits - 1) (complement (2 ^ index_bits - 1)) in
    if not s.valid
    then record { ok = false; payload = payload; is_tail = false; err_flags = s.err_flags }
    else if payload == tail_payload
    then record { ok = true; payload = payload; is_tail = true; err_flags = s.err_flags }
    else record {
      ok = true;
      payload = payload;
      is_tail = false;
      err_flags =
          if not (bit_and payload pad_mask == 0)
          then bit_or s.err_flags warn_pad_bit_set
          else s.err_flags;
    }

-- The flags after the test for bits above the bus.
pub range_flags : ℕ → ℕ
range_flags raw =
    if not (bit_and raw (complement raw_mask) == 0)
    then bit_or err_none err_out_of_range
    else err_none

pub decode_word : ℕ → CodecResult
decode_word raw =
    let flags = range_flags raw in
    let masked = mask_raw raw in
    if masked == 0
    then record { ok = false; payload = 0; is_tail = false; err_flags = bit_or flags err_neutral }
    else finish
        (scan_groups masked num_groups 0 (record { payload = 0; valid = true; err_flags = flags }))

-- `aer_decode_word_ex`: the return value, and the three cells afterwards.
pub decode_word_ex : ℕ → Out ℕ → Out Bool → Out ℕ → Bool × Out ℕ × Out Bool × Out ℕ
decode_word_ex raw out_payload out_is_tail out_err_flags =
    let r = decode_word raw in
    (
      r.ok,
      put_out out_payload r.payload,
      put_out out_is_tail r.is_tail,
      put_out out_err_flags r.err_flags,
    )

-- The loop of `aer_encode_payload`, with `n` groups to go from group `g` on.
unfoldable pub encode_groups : ℕ → ℕ → ℕ → ℕ → ℕ
encode_groups payload zero g raw = raw
encode_groups payload (suc n) g raw =
    let sym = bit_and (payload / 2 ^ (g * symbol_bits)) 3 in
    let one_hot = bit_and (2 ^ sym) 0xF in
    encode_groups payload n (g + 1) (bit_or raw (u32 (one_hot * 2 ^ (g * group_width))))

-- The word that `aer_encode_payload` writes.
unfoldable pub encode_word : ℕ → ℕ
encode_word payload = bit_and (encode_groups payload num_groups 0 0) raw_mask

-- `*out_err_flags |= flag`
abbrev pub or_out : Out ℕ → ℕ → Out ℕ
or_out none flag = none
or_out (some flags) flag = some (bit_or flags flag)

-- `aer_encode_payload`: the return value, and the two cells afterwards.
pub encode_payload : ℕ → Out ℕ → Out ℕ → Bool × Out ℕ × Out ℕ
encode_payload payload out_raw out_err_flags =
    let err_cell = put_out out_err_flags err_none in
    let raw_cell = put_out out_raw 0 in
    let max_payload = 2 ^ payload_bits - 1 in
    if ltb max_payload payload
    then (false, raw_cell, or_out err_cell err_out_of_range)
    else (true, put_out raw_cell (encode_word payload), err_cell)
