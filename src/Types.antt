-- ===== src/Types.antt =====
-- common/include/aer_types.h: the types of raw and decoded words, and the compile-time checks on
-- the geometry.
use aer_handshake_firmware.Base.{ℕ, ◌*◌, ◌%◌, ◌≡◌, refl, Bool, true, ◌&&◌, leb, ◌==◌}
use aer_handshake_firmware.Cfg.{
  rows, cols, payload_bits, symbol_bits, group_width, num_groups, data_width,
}

-- `aer_raw_word_t`, a 32-bit number.
abbrev pub RawWord : Type 0
RawWord = ℕ

-- `aer_word_type_t`
pub data WordType : Type 0 where
  invalid row col tail : WordType

-- `aer_decoded_t`
pub record Decoded : Type 0 where
  pub type : WordType
  pub row : ℕ
  pub col : ℕ
  pub is_tail : Bool

-- The `_Static_assert`s.
pub sane : Bool
sane =
    group_width == 4
    && payload_bits % symbol_bits == 0
    && data_width == num_groups * group_width
    && leb data_width 32
    && (leb rows 255 && leb cols 255)

sane_lem : sane ≡ true
unfolding sane
sane_lem = refl
