-- ===== src/Ringbuf.antt =====
-- common/src/ringbuf.c and common/include/ringbuf.h: a ring of 32-bit words over the caller's
-- storage, with one slot always left empty. The modules below show that it is a bounded queue.
pub mod Inv
pub mod Widths
pub mod Window
pub mod Refine
pub mod Calls
pub mod Spsc
mod Tests
use aer_handshake_firmware.Base.{
  ℕ, ◌+◌, ◌-◌, ◌^◌, Bool, true, false, Option, none, some, List, [], ◌∷◌, get_or, set,
  if◌then◌else◌, ltb, leb, ◌==◌, u32,
}
use aer_handshake_firmware.Fifo.{Op, Reply, unit, test, number, item}

-- `ringbuf_u32_t`; `buf` is `none` for a NULL storage pointer. A read or write beyond the storage,
-- undefined in C, gives 0 or changes nothing; `Inv.IsValid` rules it out.
pub record Ringbuf : Type 0 where
  pub buf : Option (List ℕ)
  pub capacity : ℕ
  pub head : ℕ
  pub tail : ℕ

pub rb_inc : ℕ → ℕ → ℕ
rb_inc idx capacity = let next = u32 (idx + 1) in if leb capacity next then 0 else next

-- The pointers `rb` and `storage` may be NULL; the flag is the return value.
unfoldable pub init : Option Ringbuf → Option (List ℕ) → ℕ → Option Ringbuf × Bool
init none storage capacity = (none, false)
init (some rb) none capacity = (some rb, false)
init (some rb) (some storage) capacity =
    if ltb capacity 2
    then (some rb, false)
    else (some (record { buf = some storage; capacity = capacity; head = 0; tail = 0 }), true)

unfoldable pub reset : Ringbuf → Ringbuf
reset rb = record rb { head = 0; tail = 0 }

pub is_empty : Ringbuf → Bool
is_empty rb = rb.head == rb.tail

pub is_full : Ringbuf → Bool
is_full rb = rb_inc rb.head rb.capacity == rb.tail

pub count : Ringbuf → ℕ
count rb =
    if leb rb.tail rb.head
    then u32 (rb.head + 2 ^ 32 - rb.tail)
    else u32 (u32 (rb.capacity + 2 ^ 32 - rb.tail) + rb.head)

pub free : Ringbuf → ℕ
free rb = u32 (u32 (rb.capacity + 2 ^ 32 - 1) + 2 ^ 32 - count rb)

pub push : Ringbuf → ℕ → Ringbuf × Bool
push rb v = elim rb.buf [
  | none ↦ (rb, false)
  | some xs ↦
      let next = rb_inc rb.head rb.capacity in
      if next == rb.tail
      then (rb, false)
      else (record rb { buf = some (set xs rb.head v); head = next }, true)
]

-- The word goes out through `out`, which is NULL where the flag is false.
pub pop : Ringbuf → Bool → Ringbuf × Option ℕ
pop rb false = (rb, none)
pop rb true = elim rb.buf [
  | none ↦ (rb, none)
  | some xs ↦
      if rb.tail == rb.head
      then (rb, none)
      else (record rb { tail = rb_inc rb.tail rb.capacity }, some (get_or xs rb.tail 0))
]

pub peek : Ringbuf → Bool → Option ℕ
peek rb false = none
peek rb true = elim rb.buf [
  | none ↦ none
  | some xs ↦ if rb.tail == rb.head then none else some (get_or xs rb.tail 0)
]

-- A call through a pointer that may be NULL.
pub call : Option Ringbuf → Op → Option Ringbuf × Reply
call none Op.reset = (none, unit)
call none Op.is_empty = (none, test true)
call none Op.is_full = (none, test false)
call none Op.count = (none, number 0)
call none Op.free = (none, number 0)
call none (Op.push v) = (none, test false)
call none (Op.pop given) = (none, item none)
call none (Op.peek given) = (none, item none)
call (some rb) Op.reset = (some (reset rb), unit)
call (some rb) Op.is_empty = (some rb, test (is_empty rb))
call (some rb) Op.is_full = (some rb, test (is_full rb))
call (some rb) Op.count = (some rb, number (count rb))
call (some rb) Op.free = (some rb, number (free rb))
call (some rb) (Op.push v) = let (rb', done) = push rb v in (some rb', test done)
call (some rb) (Op.pop given) = let (rb', out) = pop rb given in (some rb', item out)
call (some rb) (Op.peek given) = (some rb, item (peek rb given))

-- A client's calls in order, with what each returns.
pub run : Option Ringbuf → List Op → List Reply
run rb [] = []
run rb (op ∷ ops) = let (rb', r) = call rb op in r ∷ run rb' ops
