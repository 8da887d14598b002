-- ===== src/Ringbuf/Spsc.antt =====
-- The ring buffer between a producer and a consumer that interrupt one another, as ringbuf.h says
-- it is used: `ringbuf_u32_push` and `ringbuf_u32_pop` as the sequences of their accesses to
-- `head`, `tail` and the storage, taken in any interleaving. Each access is seen by both sides at
-- once, as on one core.
pub mod Knows
pub mod Order
pub mod Alone
mod Tests
use aer_handshake_firmware.Base.{
  ℕ, suc, Bool, true, false, Option, none, some, List, [], ◌∷◌, ◌++◌, get_or, set, if◌then◌else◌,
  ◌==◌,
}
use aer_handshake_firmware.Ringbuf.{Ringbuf, rb_inc}
use aer_handshake_firmware.Ringbuf.Inv.{storage}

-- Where a push stands: not called; `head` read; `tail` found to leave room; the word stored.
pub data Producer : Type 0 where
  outside : Producer
  loaded checked stored : (v h : ℕ) → Producer

-- Where a pop stands: not called; `tail` read; `head` found to differ; the word read.
pub data Consumer : Type 0 where
  outside : Consumer
  loaded checked : (t : ℕ) → Consumer
  fetched : (t w : ℕ) → Consumer

-- The ring, the two sides, the words whose push has returned true, those that pops have returned,
-- and the number of pushes that were refused.
pub record Spsc : Type 0 where
  pub mem : Ringbuf
  pub producer : Producer
  pub consumer : Consumer
  pub pushed : List ℕ
  pub popped : List ℕ
  pub refused : ℕ

abbrev pub has_storage : Option (List ℕ) → Bool
has_storage none = false
has_storage (some _) = true

-- The next access of the producer; `v` is the word of its next call.
pub produce_from : Producer → ℕ → Spsc → Spsc
produce_from Producer.outside v s =
    if has_storage s.mem.buf then record s { producer = Producer.loaded v s.mem.head } else s
produce_from (Producer.loaded v h) _ s =
    if rb_inc h s.mem.capacity == s.mem.tail
    then record s { producer = Producer.outside; refused = suc s.refused }
    else record s { producer = Producer.checked v h }
produce_from (Producer.checked v h) _ s = record s {
  mem = record s.mem { buf = some (set (storage s.mem.buf) h v) };
  producer = Producer.stored v h;
}
produce_from (Producer.stored v h) _ s = record s {
  mem = record s.mem { head = rb_inc h s.mem.capacity };
  producer = Producer.outside;
  pushed = s.pushed ++ v ∷ [];
}

-- The next access of the consumer, which passes a valid `out`.
pub consume_from : Consumer → Spsc → Spsc
consume_from Consumer.outside s =
    if has_storage s.mem.buf then record s { consumer = Consumer.loaded s.mem.tail } else s
consume_from (Consumer.loaded t) s =
    if t == s.mem.head
    then record s { consumer = Consumer.outside }
    else record s { consumer = Consumer.checked t }
consume_from (Consumer.checked t) s = record s {
  consumer = Consumer.fetched t (get_or (storage s.mem.buf) t 0);
}
consume_from (Consumer.fetched t w) s = record s {
  mem = record s.mem { tail = rb_inc t s.mem.capacity };
  consumer = Consumer.outside;
  popped = s.popped ++ w ∷ [];
}

-- Whose turn it is.
pub data Turn : Type 0 where
  producer : ℕ → Turn
  consumer : Turn

pub turn : Spsc → Turn → Spsc
turn s (Turn.producer v) = produce_from s.producer v s
turn s Turn.consumer = consume_from s.consumer s

-- An interleaving.
pub turns : Spsc → List Turn → Spsc
turns s [] = s
turns s (t ∷ ts) = turns (turn s t) ts

-- Neither side has called yet.
abbrev pub idle : Ringbuf → Spsc
idle rb = record {
  mem = rb;
  producer = Producer.outside;
  consumer = Consumer.outside;
  pushed = [];
  popped = [];
  refused = 0;
}
