-- ===== src/Codec/Decode.antt =====
-- The run of `aer_decode_word` on a raw word, by the wires that its three groups show.
use aer_handshake_firmware.Base.{
  ℕ, ◌+◌, ◌*◌, ◌/◌, ◌%◌, ◌^◌, ◌<◌, ◌≡◌, ◌≢◌, refl, bit_or, true, false, not, ◌&&◌, arith, leb, ◌==◌,
  if◌then◌else◌, bit_and_low, bit_and_high, bit_or_fields, zero-bit_or,
}
use native.Mathlib.Nat.{one-le-pow}
use aer_handshake_firmware.Codec.{
  Scan, scan_groups, finish, range_flags, mask_raw, decode_word, err_neutral, warn_pad_bit_set,
}
use aer_handshake_firmware.Codec.Groups.{Wires, lit, group, pass, scan_group_lem, mask_raw_lem}

-- The loop over the groups, group by group.
scan_lem :
    (raw : ℕ) (s : Scan) (w0 : Wires (group 0 raw)) (w1 : Wires (group 1 raw))
    (w2 : Wires (group 2 raw))
    → scan_groups (mask_raw raw) 3 0 s ≡ pass w2 2 (pass w1 1 (pass w0 0 s))
unfolding scan_groups
scan_lem raw s w0 w1 w2 = rw (
  scan_group_lem 0 raw s (omega arith) w0,
  scan_group_lem 1 raw (pass w0 0 s) (omega arith) w1,
  scan_group_lem 2 raw (pass w1 1 (pass w0 0 s)) (omega arith) w2,
)

-- The bits above the bus.
pub range_flags_lem :
    (raw : ℕ) → raw < 2 ^ 32 → range_flags raw ≡ (if leb (2 ^ 12) raw then 2 else 0)
unfolding range_flags
range_flags_lem raw h =
    ground (arith, bit_and_high 12 raw 0xFFFFF, bit_and_low 20 (raw / 2 ^ 12) 0xFFFFF refl)

-- The end of `aer_decode_word` on a payload that fits.
finish_lem :
    (p e : ℕ)
    → p < 64
    → finish (record { payload = p; valid = true; err_flags = e }) ≡ record {
      ok = true;
      payload = p;
      is_tail = p == 63;
      err_flags = if leb 32 p && not (p == 63) then bit_or e warn_pad_bit_set else e;
    }
unfolding finish
finish_lem p e h =
    ground (arith, bit_and_low 6 p 63 refl, bit_and_high 5 p 1, bit_and_low 1 (p / 2 ^ 5) 1 refl)

-- Three symbols side by side.
join_lem :
    (s0 s1 s2 : ℕ)
    → s0 < 4
    → s1 < 4
    → s2 < 4
    → bit_or (bit_or (bit_or 0 (s0 * 2 ^ 0)) (s1 * 2 ^ 2)) (s2 * 2 ^ 4) ≡ s0 + 4 * s1 + 16 * s2
join_lem s0 s1 s2 h0 h1 h2 = ground (
  arith,
  zero-bit_or (s0 * 2 ^ 0),
  bit_or_fields 2 s1 (s0 * 2 ^ 0),
  bit_or_fields 4 s2 (s1 * 2 ^ 2 + s0 * 2 ^ 0),
)

pub group-lt : (g raw : ℕ) → group g raw < 16
group-lt g raw = omega arith

-- Past the test for neutral, the result is that of the three passes.
pub passes_lem :
    (raw : ℕ) (w0 : Wires (group 0 raw)) (w1 : Wires (group 1 raw)) (w2 : Wires (group 2 raw))
    → raw % 2 ^ 12 ≢ 0
    → decode_word raw
      ≡ finish (
          pass w2 2 (
            pass w1 1
              (pass w0 0 (record { payload = 0; valid = true; err_flags = range_flags raw }))))
unfolding decode_word
passes_lem raw w0 w1 w2 h = ground (
  arith,
  mask_raw_lem raw,
  scan_lem raw (record { payload = 0; valid = true; err_flags = range_flags raw }) w0 w1 w2,
)

pub neutral_lem :
    (raw : ℕ)
    → raw % 2 ^ 12 ≡ 0
    → decode_word raw ≡ record {
      ok = false;
      payload = 0;
      is_tail = false;
      err_flags = bit_or (range_flags raw) err_neutral;
    }
unfolding decode_word
neutral_lem raw h = ground (arith, mask_raw_lem raw)

-- What `aer_decode_word` returns on a word with one wire in each group.
pub code_lem :
    (raw s0 s1 s2 : ℕ)
    → s0 < 4
    → s1 < 4
    → s2 < 4
    → group 0 raw ≡ 2 ^ s0
    → group 1 raw ≡ 2 ^ s1
    → group 2 raw ≡ 2 ^ s2
    → decode_word raw ≡ (
        let p = s0 + 4 * s1 + 16 * s2 in
        record {
          ok = true;
          payload = p;
          is_tail = p == 63;
          err_flags =
              if leb 32 p && not (p == 63)
              then bit_or (range_flags raw) warn_pad_bit_set
              else range_flags raw;
        })
code_lem raw s0 s1 s2 h0 h1 h2 e0 e1 e2 =
    rw
      (
        passes_lem raw (lit s0 h0 e0) (lit s1 h1 e1) (lit s2 h2 e2)
            (omega (arith, one-le-pow s0 2)),
        join_lem s0 s1 s2 h0 h1 h2,
      )
      (finish_lem (s0 + 4 * s1 + 16 * s2) (range_flags raw) (omega arith))
