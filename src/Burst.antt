-- ===== src/Burst.antt =====
-- common/src/aer_burst.c and common/include/aer_burst.h: decoded words to bursts of events.
pub mod Branches
pub mod Inv
pub mod Parse
pub mod Counters
pub mod Widths
mod Tests
mod Scenarios
use aer_handshake_firmware.Base.{
  ℕ, zero, suc, ◌+◌, ◌-◌, ◌^◌, bit_and, bit_or, Bool, true, false, not, Option, none, some, List,
  [], ◌∷◌, ◌++◌, get_or, set, take, map, if◌then◌else◌, ltb, leb, ◌==◌, u8, u16, u32,
}
use aer_handshake_firmware.Cfg
use aer_handshake_firmware.Codec.{CodecResult}

-- `aer_burst_state_t`
pub data BurstState : Type 0 where
  expect_row expect_col_or_tail : BurstState

-- `aer_burst_err_t`
abbrev pub err_none : ℕ
err_none = 0

abbrev pub err_tail_without_row : ℕ
err_tail_without_row = 2 ^ 0

abbrev pub warn_row_oor : ℕ
warn_row_oor = 2 ^ 8

abbrev pub warn_col_oor : ℕ
warn_col_oor = 2 ^ 9

abbrev pub warn_col_overflow : ℕ
warn_col_overflow = 2 ^ 10

-- `aer_burst_t`; `cols` is the array of `AER_COLS` bytes.
pub record Burst : Type 0 where
  pub state : BurstState
  pub row : ℕ
  pub cols : List ℕ
  pub col_count : ℕ
  pub err_flags : ℕ
  pub bursts_completed : ℕ
  pub events_emitted : ℕ

-- One call of the callback: a row and a column.
abbrev pub Event : Type 0
Event = ℕ × ℕ

pub payload_to_index : ℕ → ℕ
payload_to_index payload = let mask = u8 (2 ^ Cfg.index_bits - 1) in u8 (bit_and payload mask)

-- The array is left as it was.
unfoldable pub init : Burst → Burst
init b = record {
  state = expect_row;
  row = 0;
  cols = b.cols;
  col_count = 0;
  err_flags = err_none;
  bursts_completed = 0;
  events_emitted = 0;
}

pub reset : Burst → Bool → Burst
reset b clear_counters =
    let b' = record b { state = expect_row; row = 0; col_count = 0; err_flags = err_none } in
    if clear_counters then record b' { bursts_completed = 0; events_emitted = 0 } else b'

-- The loop of `aer_emit_and_clear` with `n` columns to go from index `i` on: the calls of the
-- callback in order, and the count of them in 16 bits.
pub emit_from : ℕ → List ℕ → ℕ → ℕ → ℕ → List Event × ℕ
emit_from row cols i zero emitted = ([], emitted)
emit_from row cols i (suc n) emitted =
    let (rest, total) = emit_from row cols (i + 1) n (u16 (emitted + 1)) in
    ((row, get_or cols i 0) ∷ rest, total)

-- The flag says whether a callback is given; without one the events are only counted.
pub emit_and_clear : Burst → Bool → Burst × List Event × ℕ
emit_and_clear b has_cb =
    let (events, emitted) =
      if has_cb then emit_from b.row b.cols 0 b.col_count 0 else ([], b.col_count) in
    (record b { events_emitted = u32 (b.events_emitted + emitted); col_count = 0 }, events, emitted)

-- The branch of `aer_burst_feed` on a tail word, by the state.
pub feed_tail : BurstState → Burst → Bool → Burst × List Event × ℕ
feed_tail expect_row b has_cb =
    (record b { err_flags = bit_or b.err_flags err_tail_without_row }, [], 0)
feed_tail expect_col_or_tail b has_cb =
    let (b', events, emitted) = emit_and_clear b has_cb in
    (
      record b' { bursts_completed = u32 (b'.bursts_completed + 1); state = expect_row },
      events,
      emitted,
    )

-- The rest of `aer_burst_feed`, on a row or column index, by the state.
pub feed_index : BurstState → Burst → ℕ → Burst
feed_index expect_row b idx = record b {
  row = idx;
  err_flags = if leb Cfg.rows idx then bit_or b.err_flags warn_row_oor else b.err_flags;
  col_count = 0;
  state = expect_col_or_tail;
}
feed_index expect_col_or_tail b idx =
    if ltb b.col_count (u16 Cfg.cols)
    then record b {
      cols = set b.cols b.col_count idx;
      col_count = u16 (b.col_count + 1);
      err_flags = if leb Cfg.cols idx then bit_or b.err_flags warn_col_oor else b.err_flags;
    }
    else record b { err_flags = bit_or b.err_flags warn_col_overflow }

-- `aer_burst_feed`: the assembler afterwards, the calls of the callback, and the return value.
pub feed : Burst → CodecResult → Bool → Burst × List Event × ℕ
feed b word has_cb =
    if not word.ok
    then (b, [], 0)
    else if word.is_tail
    then feed_tail b.state b has_cb
    else (feed_index b.state b (payload_to_index word.payload), [], 0)

-- The functions of aer_burst.h, through a pointer that may be NULL.
pub data BurstCall : Type 0 where
  do_init : BurstCall
  do_reset : Bool → BurstCall
  do_feed : CodecResult → Bool → BurstCall

pub call : Option Burst → BurstCall → Option Burst × List Event × ℕ
call none c = (none, [], 0)
call (some b) do_init = (some (init b), [], 0)
call (some b) (do_reset clear_counters) = (some (reset b clear_counters), [], 0)
call (some b) (do_feed word has_cb) =
    let (b', events, emitted) = feed b word has_cb in (some b', events, emitted)

-- A stream of words, all fed with the same callback: the events in order.
unfoldable pub feed_all : Burst → List CodecResult → Bool → Burst × List Event
feed_all b [] has_cb = (b, [])
feed_all b (w ∷ ws) has_cb =
    let (b', events, _) = feed b w has_cb in
    let (b'', more) = feed_all b' ws has_cb in (b'', events ++ more)
