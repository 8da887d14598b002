-- ===== src/Ringbuf/Inv.antt =====
-- The representation invariant of `ringbuf_u32_t`: both indices stay inside the storage.
use aer_handshake_firmware.Base.{
  ℕ, ◌+◌, ◌-◌, ◌^◌, ◌<◌, ◌≤◌, ◌≡◌, Bool, true, false, Option, none, some, List, [], length,
  length-set, if◌then◌else◌, leb, arith,
}
use aer_handshake_firmware.Ringbuf.{Ringbuf, rb_inc, init, reset, count, push, pop}

-- The words of the storage; none for a NULL pointer.
abbrev pub storage : Option (List ℕ) → List ℕ
storage none = []
storage (some xs) = xs

pub record IsValid (rb : Ringbuf) : Type 0 where
  pub room : rb.capacity ≤ length (storage rb.buf)
  pub two : 2 ≤ rb.capacity
  pub word : rb.capacity < 2 ^ 32
  pub head_in : rb.head < rb.capacity
  pub tail_in : rb.tail < rb.capacity

-- The index after `i`, going round at the capacity.
abbrev pub after : ℕ → ℕ → ℕ
after capacity i = if leb capacity (i + 1) then 0 else i + 1

pub rb_inc_lem :
    (i capacity : ℕ) → i < capacity → capacity < 2 ^ 32 → rb_inc i capacity ≡ after capacity i
unfolding rb_inc
rb_inc_lem i capacity h w = ground arith

-- The number of words between the two indices.
abbrev pub gap : ℕ → ℕ → ℕ → ℕ
gap capacity head tail = if leb tail head then head - tail else capacity - tail + head

pub count_lem : (rb : Ringbuf) → IsValid rb → count rb ≡ gap rb.capacity rb.head rb.tail
unfolding count
count_lem rb v = ground arith

-- What `ringbuf_u32_init` sets up is valid and empty, if the storage is as large as it is told.
pub init-IsValid :
    (rb : Ringbuf) (xs : List ℕ) (capacity : ℕ) {rb' : Ringbuf}
    → capacity ≤ length xs
    → capacity < 2 ^ 32
    → init (some rb) (some xs) capacity ≡ (some rb', true)
    → IsValid rb'
unfolding init
init-IsValid rb xs capacity room word e = ground arith

pub reset-IsValid : (rb : Ringbuf) → IsValid rb → IsValid (reset rb)
unfolding reset
reset-IsValid rb v = ground arith

pub pop-IsValid : (rb : Ringbuf) (given : Bool) → IsValid rb → IsValid (pop rb given).0
unfolding pop
pop-IsValid rb false v = v
pop-IsValid rb true v = ground (arith, rb_inc_lem rb.tail rb.capacity)

pub push-IsValid : (rb : Ringbuf) (x : ℕ) → IsValid rb → IsValid (push rb x).0
unfolding push
push-IsValid rb x v =
    ground (arith, rb_inc_lem rb.head rb.capacity, length-set (storage rb.buf) rb.head x)

pub push-capacity : (rb : Ringbuf) (w : ℕ) → (push rb w).0.capacity ≡ rb.capacity
unfolding push
push-capacity rb w = ground arith
