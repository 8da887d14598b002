-- ===== src/Burst/Branches.antt =====
-- What `aer_burst_feed` does, branch by branch.
use aer_handshake_firmware.Base.{
  ℕ, zero, suc, ◌+◌, ◌%◌, ◌^◌, ◌<◌, ◌≤◌, ◌≡◌, Bool-cases, ◌⊎◌, inl, inr, refl, ap, ap₂, ◌∙◌, bit_or,
  Bool, true, false, List, [], ◌∷◌, ◌++◌, get_or, set, length, get_or-set_self, get_or-set_ne,
  if◌then◌else◌, u16, u32, arith, bit_and_low,
}
use native.Mathlib.Decide.{dec_lt}
use native.Mathlib.Numerals.{add-one}
use aer_handshake_firmware.Codec.{CodecResult}
use aer_handshake_firmware.Burst.{
  Burst, BurstState, expect_row, expect_col_or_tail, Event, payload_to_index, emit_from,
  emit_and_clear, feed_tail, feed_index, feed, warn_col_overflow, err_tail_without_row,
}

pub payload_to_index_lem : (payload : ℕ) → payload_to_index payload ≡ payload % 32
unfolding payload_to_index
payload_to_index_lem payload = omega (arith, bit_and_low 5 payload 31 refl)

-- The `n` columns from index `i` on.
abbrev pub slice : List ℕ → ℕ → ℕ → List ℕ
slice cols i zero = []
slice cols i (suc n) = get_or cols i 0 ∷ slice cols (i + 1) n

abbrev pub buffered : Burst → List ℕ
buffered b = slice b.cols 0 b.col_count

slice-set :
    (cols : List ℕ) (v n i j : ℕ)
    → j ≡ i + n
    → j < length cols
    → slice (set cols j v) i (suc n) ≡ slice cols i n ++ v ∷ []
slice-set cols v zero i j e h =
    let e' : j ≡ i = omega arith in rw (e', get_or-set_self cols i v 0 (omega arith))
slice-set cols v (suc n) i j e h =
    ap₂ ◌∷◌ (get_or-set_ne cols j i v 0 (omega arith))
      (slice-set cols v n (i + 1) j (omega arith) h)

pub slice-push :
    (cols : List ℕ) (v n : ℕ)
    → n < length cols
    → slice (set cols n v) 0 (n + 1) ≡ slice cols 0 n ++ v ∷ []
slice-push cols v n h =
    ap (slice (set cols n v) 0) (add-one n) ∙ slice-set cols v n 0 n (omega arith) h

-- The calls that the emission loop makes.
abbrev pub events_of : ℕ → List ℕ → List Event
events_of row [] = []
events_of row (c ∷ cs) = (row, c) ∷ events_of row cs

pub emit_from_lem :
    (row : ℕ) (cols : List ℕ) (i n emitted : ℕ)
    → emitted + n < 2 ^ 16
    → emit_from row cols i n emitted ≡ (events_of row (slice cols i n), emitted + n)
unfolding emit_from
emit_from_lem row cols i zero emitted h = ap (λ n. ([], n)) (omega arith)
emit_from_lem row cols i (suc n) emitted h =
    let e : u16 (emitted + 1) ≡ emitted + 1 = omega arith in
    rw (e, emit_from_lem row cols (i + 1) n (emitted + 1) (omega arith))
      (ap (λ k. ((row, get_or cols i 0) ∷ events_of row (slice cols (i + 1) n), k)) (omega arith))

-- The branches of `aer_burst_feed`. No index is out of range, so no range warning is ever set.
pub feed_ignored :
    (b : Burst) (w : CodecResult) (has_cb : Bool) → w.ok ≡ false → feed b w has_cb ≡ (b, [], 0)
unfolding feed
feed_ignored b w has_cb bad = ground arith

pub feed_row :
    (b : Burst) (w : CodecResult) (has_cb : Bool)
    → w.ok ≡ true
    → w.is_tail ≡ false
    → b.state ≡ expect_row
    → feed b w has_cb
      ≡ (record b { row = w.payload % 32; col_count = 0; state = expect_col_or_tail }, [], 0)
unfolding feed feed_index
feed_row b w has_cb good index e = ground (arith, payload_to_index_lem w.payload)

pub feed_col :
    (b : Burst) (w : CodecResult) (has_cb : Bool)
    → w.ok ≡ true
    → w.is_tail ≡ false
    → b.state ≡ expect_col_or_tail
    → b.col_count < 32
    → feed b w has_cb ≡ (
      record b { cols = set b.cols b.col_count (w.payload % 32); col_count = b.col_count + 1 },
      [],
      0,
    )
unfolding feed feed_index
feed_col b w has_cb good index e room = ground (arith, payload_to_index_lem w.payload)

pub feed_overflow :
    (b : Burst) (w : CodecResult) (has_cb : Bool)
    → w.ok ≡ true
    → w.is_tail ≡ false
    → b.state ≡ expect_col_or_tail
    → 32 ≤ b.col_count
    → feed b w has_cb ≡ (record b { err_flags = bit_or b.err_flags warn_col_overflow }, [], 0)
unfolding feed feed_index
feed_overflow b w has_cb good index e full = ground arith

pub feed_stray_tail :
    (b : Burst) (w : CodecResult) (has_cb : Bool)
    → w.ok ≡ true
    → w.is_tail ≡ true
    → b.state ≡ expect_row
    → feed b w has_cb ≡ (record b { err_flags = bit_or b.err_flags err_tail_without_row }, [], 0)
unfolding feed feed_tail
feed_stray_tail b w has_cb good tail e = ground arith

pub feed_end :
    (b : Burst) (w : CodecResult) (has_cb : Bool)
    → b.col_count < 2 ^ 16
    → w.ok ≡ true
    → w.is_tail ≡ true
    → b.state ≡ expect_col_or_tail
    → feed b w has_cb ≡ (
      record b {
        state = expect_row;
        col_count = 0;
        bursts_completed = u32 (b.bursts_completed + 1);
        events_emitted = u32 (b.events_emitted + b.col_count);
      },
      (if has_cb then events_of b.row (buffered b) else []),
      b.col_count,
    )
unfolding feed feed_tail emit_and_clear
feed_end b w true v good tail e = ground (arith, emit_from_lem b.row b.cols 0 b.col_count 0)
feed_end b w false v good tail e = ground arith

-- The branch that a word takes.
pub data Branch (b : Burst) (w : CodecResult) : Type 0 where
  ignored : w.ok ≡ false → Branch b w
  row : w.ok ≡ true → w.is_tail ≡ false → b.state ≡ expect_row → Branch b w
  col :
      w.ok ≡ true → w.is_tail ≡ false → b.state ≡ expect_col_or_tail → b.col_count < 32 → Branch b w
  overflow :
      w.ok ≡ true → w.is_tail ≡ false → b.state ≡ expect_col_or_tail → 32 ≤ b.col_count → Branch b w
  stray : w.ok ≡ true → w.is_tail ≡ true → b.state ≡ expect_row → Branch b w
  end : w.ok ≡ true → w.is_tail ≡ true → b.state ≡ expect_col_or_tail → Branch b w

state_cases : (s : BurstState) → (s ≡ expect_row) ⊎ (s ≡ expect_col_or_tail)
state_cases expect_row = inl refl
state_cases expect_col_or_tail = inr refl

index-Branch : (b : Burst) (w : CodecResult) → w.ok ≡ true → w.is_tail ≡ false → Branch b w
index-Branch b w good index = elim (state_cases b.state) [
  | inl e ↦ row good index e
  | inr e ↦ elim (dec_lt b.col_count 32) [
    | yes room ↦ col good index e room
    | no full ↦ overflow good index e (omega arith)
  ]
]

pub branch : (b : Burst) (w : CodecResult) → Branch b w
branch b w = elim (Bool-cases w.ok) [
  | inr bad ↦ ignored bad
  | inl good ↦ elim (Bool-cases w.is_tail) [
    | inr index ↦ index-Branch b w good index
    | inl tail ↦ elim (state_cases b.state) [ inl e ↦ stray good tail e | inr e ↦ end good tail e ]
  ]
]
