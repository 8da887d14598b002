-- ===== src/Codec/Vectors.antt =====
-- The vectors of tests/vectors, judged as tests/test_codec.c judges them.
use aer_handshake_firmware.Base.{
  ℕ, ◌≡◌, refl, Bool, true, false, ◌&&◌, List, [], ◌∷◌, ◌==◌, beq_bool, bit_and,
}
use aer_handshake_firmware.Codec.{
  decode_word, mask_raw, range_flags, scan_groups, scan_group, finish, popcount4, ctz4,
}

-- A line of a vector file, after the name.
record Vector : Type 0 where
  raw_hex : ℕ
  expect_ok : Bool
  expect_payload : ℕ
  expect_tail : Bool
  expect_err : ℕ

passes : Vector → Bool
passes v =
    let r = decode_word v.raw_hex in
    beq_bool r.ok v.expect_ok
    && (r.payload == v.expect_payload)
    && beq_bool r.is_tail v.expect_tail
    && (bit_and r.err_flags v.expect_err == v.expect_err)

all_pass : List Vector → Bool
all_pass [] = true
all_pass (v ∷ vs) = passes v && all_pass vs

abbrev accepted : ℕ → ℕ → Bool → Vector
accepted raw payload tail = record {
  raw_hex = raw;
  expect_ok = true;
  expect_payload = payload;
  expect_tail = tail;
  expect_err = 0;
}

abbrev refused : ℕ → ℕ → Vector
refused raw flags = record {
  raw_hex = raw;
  expect_ok = false;
  expect_payload = 0;
  expect_tail = false;
  expect_err = flags;
}

-- tests/vectors/codec_valid.txt: the words 111, 112, 122, 118, 128, 288 and 888 of the file, which
-- are hexadecimal.
valid_pass :
    all_pass (
      accepted 273 0 false
      ∷ accepted 274 1 false
      ∷ accepted 290 5 false
      ∷ accepted 280 3 false
      ∷ accepted 296 7 false
      ∷ accepted 648 31 false
      ∷ accepted 2184 63 true
      ∷ [])
    ≡ true
unfolding all_pass passes decode_word mask_raw range_flags scan_groups scan_group finish popcount4
    ctz4
valid_pass = refl

-- tests/vectors/codec_invalid.txt: the words 000, 113, 101 and 130.
invalid_pass : all_pass (refused 0 1 ∷ refused 275 4 ∷ refused 257 8 ∷ refused 304 12 ∷ []) ≡ true
unfolding all_pass passes decode_word mask_raw range_flags scan_groups scan_group finish popcount4
    ctz4
invalid_pass = refl
