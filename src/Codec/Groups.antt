-- ===== src/Codec/Groups.antt =====
-- One 4-wire group of the bus, and what the loop body of `aer_decode_word` makes of it.
use aer_handshake_firmware.Base.{
  ℕ, zero, suc, ◌+◌, ◌*◌, ◌/◌, ◌%◌, ◌^◌, ◌≤◌, ◌<◌, ◌≡◌, ◌≢◌, inl, inr, Bool-cases, refl, bit_and,
  bit_or, false, not, ◌&&◌, ◌||◌, arith, ltb, ◌==◌, ==_iff, all_below_sound, bit, u32, bit_and_low,
}
use aer_handshake_firmware.Codec.{
  mask_raw, popcount4, ctz4, Scan, scan_group, err_zero_hot, err_multi_hot,
}

-- The wires of group `g`, and how many of four wires are asserted.
abbrev pub group : ℕ → ℕ → ℕ
group g raw = raw / 16 ^ g % 16

abbrev pub lines : ℕ → ℕ
lines n = bit 0 n + bit 1 n + bit 2 n + bit 3 n

-- A group has no wire, exactly wire `s`, or several wires asserted.
pub data Wires (n : ℕ) : Type 0 where
  dark : n ≡ 0 → Wires n
  lit : (s : ℕ) → s < 4 → n ≡ 2 ^ s → Wires n
  clash : n ≢ 0 → 2 ≤ lines n → Wires n

popcount4-lines : (n : ℕ) → n < 16 → popcount4 n ≡ lines n
unfolding popcount4
popcount4-lines n h = (==_iff _ _).0 (all_below_sound 16 (λ n. popcount4 n == lines n) n refl h)

ctz4_pow : (s : ℕ) → s < 4 → ctz4 (2 ^ s) ≡ s
unfolding ctz4
ctz4_pow s h = (==_iff _ _).0 (all_below_sound 4 (λ s. ctz4 (2 ^ s) == s) s refl h)

ctz4_table : (n : ℕ) → n < 16 → lines n ≡ 1 → (n ≡ 2 ^ ctz4 n) × (ctz4 n < 4)
unfolding ctz4
ctz4_table n h one = ground (
  arith,
  all_below_sound 16 (λ n. not (lines n == 1) || (n == 2 ^ ctz4 n) && ltb (ctz4 n) 4) n refl h,
)

pub wires : (n : ℕ) → n < 16 → Wires n
wires n h = elim (Bool-cases (n == 0)) [
  | inl e ↦ dark ((==_iff n 0).0 e)
  | inr ne ↦ elim (Bool-cases (lines n == 1)) [
    | inl one ↦ let (e, small) = ctz4_table n h (ground arith) in lit (ctz4 n) small e
    | inr several ↦ clash (ground arith) (ground arith)
  ]
]

pub mask_raw_lem : (raw : ℕ) → mask_raw raw ≡ raw % 2 ^ 12
unfolding mask_raw
mask_raw_lem raw = bit_and_low 12 raw 0xFFF refl

-- The loop body sees the wires of its group.
nib_lem : (g raw : ℕ) → g < 3 → bit_and (mask_raw raw / 2 ^ (g * 4)) 0xF ≡ group g raw
nib_lem zero raw h = omega (arith, mask_raw_lem raw, bit_and_low 4 (mask_raw raw / 2 ^ 0) 0xF)
nib_lem (suc zero) raw h = omega (arith, mask_raw_lem raw, bit_and_low 4 (mask_raw raw / 2 ^ 4) 0xF)
nib_lem (suc (suc zero)) raw h =
    omega (arith, mask_raw_lem raw, bit_and_low 4 (mask_raw raw / 2 ^ 8) 0xF)
nib_lem (suc (suc (suc g))) raw h = absurd (omega arith)

lit_facts :
    (sym : ℕ)
    → sym < 4
    → (2 ^ sym ≢ 0) × (popcount4 (2 ^ sym) ≡ 1) × (bit_and (ctz4 (2 ^ sym)) 3 ≡ sym)
unfolding popcount4 ctz4
lit_facts sym h = ground (
  arith,
  all_below_sound 4
      (λ s. not (2 ^ s == 0) && popcount4 (2 ^ s) == 1 && bit_and (ctz4 (2 ^ s)) 3 == s) sym refl h,
)

shift_fits : (g sym : ℕ) → g < 3 → sym < 4 → u32 (sym * 2 ^ (g * 2)) ≡ sym * 2 ^ (g * 2)
shift_fits zero sym h small = omega arith
shift_fits (suc zero) sym h small = omega arith
shift_fits (suc (suc zero)) sym h small = omega arith
shift_fits (suc (suc (suc g))) sym h small = absurd (omega arith)

-- What one pass makes of each kind of group.
abbrev pub pass : {n : ℕ} → Wires n → ℕ → Scan → Scan
pass (dark _) g s = record s { err_flags = bit_or s.err_flags err_zero_hot; valid = false }
pass (lit sym _ _) g s = record s { payload = bit_or s.payload (sym * 2 ^ (g * 2)) }
pass (clash _ _) g s = record s { err_flags = bit_or s.err_flags err_multi_hot; valid = false }

pub scan_group_lem :
    (g raw : ℕ) (s : Scan)
    → g < 3
    → (w : Wires (group g raw)) → scan_group (mask_raw raw) g s ≡ pass w g s
unfolding scan_group
scan_group_lem g raw s h (dark e) = rw (nib_lem g raw h) (ground arith)
scan_group_lem g raw s h (lit sym small e) =
    rw (nib_lem g raw h, e) (ground (arith, lit_facts sym, shift_fits g sym))
scan_group_lem g raw s h (clash ne many) =
    rw (nib_lem g raw h) (ground (arith, popcount4-lines (group g raw)))
