-- ===== src/Fifo.antt =====
-- The calls of common/include/ringbuf.h, and the bounded first-in first-out queue that they
-- promise.
use aer_handshake_firmware.Base.{
  ℕ, ◌-◌, Bool, true, false, Option, none, some, List, [], ◌∷◌, ◌++◌, length, if◌then◌else◌, ◌==◌,
}

-- One call. For `pop` and `peek` the flag says whether `out` is other than NULL.
pub data Op : Type 0 where
  reset is_empty is_full count free : Op
  push : ℕ → Op
  pop peek : Bool → Op

-- What a call returns; `item` also holds what it wrote to `*out`, if it returned true.
pub data Reply : Type 0 where
  unit : Reply
  test : Bool → Reply
  number : ℕ → Reply
  item : Option ℕ → Reply

abbrev pub is_nil : List ℕ → Bool
is_nil [] = true
is_nil (_ ∷ _) = false

abbrev pub front : List ℕ → Option ℕ
front [] = none
front (x ∷ _) = some x

abbrev pub rest : List ℕ → List ℕ
rest [] = []
rest (_ ∷ xs) = xs

-- A queue of at most `limit` words, oldest first.
module _ (limit : ℕ) where
  unfoldable pub step : List ℕ → Op → List ℕ × Reply
  step q reset = ([], unit)
  step q is_empty = (q, test (is_nil q))
  step q is_full = (q, test (length q == limit))
  step q count = (q, number (length q))
  step q free = (q, number (limit - length q))
  step q (push v) = if length q == limit then (q, test false) else (q ++ v ∷ [], test true)
  step q (pop false) = (q, item none)
  step q (pop true) = (rest q, item (front q))
  step q (peek false) = (q, item none)
  step q (peek true) = (q, item (front q))

  unfoldable pub run : List ℕ → List Op → List Reply
  run q [] = []
  run q (op ∷ ops) = let (q', r) = step q op in r ∷ run q' ops
