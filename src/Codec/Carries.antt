-- ===== src/Codec/Carries.antt =====
-- README.md section 3 as a relation: which payload a bus word carries, without the codec.
use aer_handshake_firmware.Base.{ℕ, ◌/◌, ◌%◌, ◌^◌, ◌<◌, ◌≡◌}
use aer_handshake_firmware.Codec.Groups.{group, lines}

-- The 2-bit symbol `g` of a payload, lowest first.
abbrev pub symbol : ℕ → ℕ → ℕ
symbol g payload = payload / 4 ^ g % 4

-- Exactly wire `symbol g payload` is asserted in each group `g`.
pub record Carries (raw payload : ℕ) : Type 0 where
  pub fits : payload < 64
  pub group_0 : group 0 raw ≡ 2 ^ symbol 0 payload
  pub group_1 : group 1 raw ≡ 2 ^ symbol 1 payload
  pub group_2 : group 2 raw ≡ 2 ^ symbol 2 payload

-- The number of wires that group `g` of a bus word has asserted.
abbrev pub hot : ℕ → ℕ → ℕ
hot g raw = lines (group g raw)

-- One wire in every group.
abbrev pub IsCode : ℕ → Type 0
IsCode raw = (hot 0 raw ≡ 1) × (hot 1 raw ≡ 1) × (hot 2 raw ≡ 1)
