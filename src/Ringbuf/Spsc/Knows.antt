-- ===== src/Ringbuf/Spsc/Knows.antt =====
-- What the producer and the consumer know of the ring between their accesses, and what the accesses
-- that write change in it.

use aer_handshake_firmware.Base.{
  ℕ, ◌-◌, ◌<◌, ◌≡◌, ◌≢◌, ap, sym, ◌∙◌, Option-cases, inl, inr, true, some, [], ◌∷◌, ◌++◌, length,
  length-set, get_or, set, get_or-set_ne, arith,
}
use aer_handshake_firmware.Ringbuf.{Ringbuf}
use aer_handshake_firmware.Ringbuf.Inv.{storage, IsValid, after, gap}
use aer_handshake_firmware.Ringbuf.Window.{window, contents, window_snoc, window-set_outside}
use aer_handshake_firmware.Ringbuf.Refine.{head_lem, gap-after_head}
use aer_handshake_firmware.Ringbuf.Spsc.{Producer, Consumer, has_storage}

-- What each side knows of the ring where it stands.
abbrev pub ProducerKnows : Ringbuf → Producer → Type 0
ProducerKnows m Producer.outside = Unit {0}
ProducerKnows m (Producer.loaded v h) = h ≡ m.head
ProducerKnows m (Producer.checked v h) =
    (h ≡ m.head) × (gap m.capacity m.head m.tail ≢ m.capacity - 1)
ProducerKnows m (Producer.stored v h) =
    (h ≡ m.head)
    × (gap m.capacity m.head m.tail ≢ m.capacity - 1)
    × (get_or (storage m.buf) m.head 0 ≡ v)

abbrev pub ConsumerKnows : Ringbuf → Consumer → Type 0
ConsumerKnows m Consumer.outside = Unit {0}
ConsumerKnows m (Consumer.loaded t) = t ≡ m.tail
ConsumerKnows m (Consumer.checked t) = (t ≡ m.tail) × (m.tail ≢ m.head)
ConsumerKnows m (Consumer.fetched t w) =
    (t ≡ m.tail) × (m.tail ≢ m.head) × (w ≡ get_or (storage m.buf) m.tail 0)

-- The three accesses that write, and what they do to the words that the ring holds.
abbrev pub put_word : Ringbuf → ℕ → Ringbuf
put_word m v = record m { buf = some (set (storage m.buf) m.head v) }

abbrev pub publish : Ringbuf → Ringbuf
publish m = record m { head = after m.capacity m.head }

abbrev pub release : Ringbuf → Ringbuf
release m = record m { tail = after m.capacity m.tail }

pub gap-lt-capacity : (m : Ringbuf) → IsValid m → gap m.capacity m.head m.tail < m.capacity
gap-lt-capacity m v = ground arith

pub put_word-IsValid : (m : Ringbuf) (v : ℕ) → IsValid m → IsValid (put_word m v)
put_word-IsValid m v h = record {
  room = omega (arith, length-set (storage m.buf) m.head v);
  two = h.two;
  word = h.word;
  head_in = h.head_in;
  tail_in = h.tail_in;
}

pub contents-put_word : (m : Ringbuf) (v : ℕ) → IsValid m → contents (put_word m v) ≡ contents m
contents-put_word m v h =
    window-set_outside (storage m.buf) m.capacity v (gap m.capacity m.head m.tail) m.tail m.head
      h.tail_in (gap-lt-capacity m h) (head_lem m.capacity m.head m.tail h.head_in h.tail_in)

pub contents-publish :
    (m : Ringbuf)
    → IsValid m
    → gap m.capacity m.head m.tail ≢ m.capacity - 1
    → contents (publish m) ≡ contents m ++ get_or (storage m.buf) m.head 0 ∷ []
contents-publish m h ne =
    ap (window (storage m.buf) m.capacity m.tail)
      (gap-after_head m.capacity m.head m.tail h.head_in h.tail_in ne)
    ∙ window_snoc (storage m.buf) m.capacity (gap m.capacity m.head m.tail) m.tail h.tail_in
        (gap-lt-capacity m h)
    ∙ ap (λ i. contents m ++ get_or (storage m.buf) i 0 ∷ [])
        (sym (head_lem m.capacity m.head m.tail h.head_in h.tail_in))

-- What the other side knows stays true.
pub put_word-ConsumerKnows :
    (m : Ringbuf) (v : ℕ) (c : Consumer) → ConsumerKnows m c → ConsumerKnows (put_word m v) c
put_word-ConsumerKnows m v Consumer.outside k = tt
put_word-ConsumerKnows m v (Consumer.loaded t) k = k
put_word-ConsumerKnows m v (Consumer.checked t) k = k
put_word-ConsumerKnows m v (Consumer.fetched t w) k =
    (k.0, k.1, k.2 ∙ sym (get_or-set_ne (storage m.buf) m.head m.tail v 0 (λ e. k.1 (sym e))))

pub publish-ConsumerKnows :
    (m : Ringbuf) (c : Consumer)
    → IsValid m
    → gap m.capacity m.head m.tail ≢ m.capacity - 1
    → ConsumerKnows m c
    → ConsumerKnows (publish m) c
publish-ConsumerKnows m Consumer.outside h ne k = tt
publish-ConsumerKnows m (Consumer.loaded t) h ne k = k
publish-ConsumerKnows m (Consumer.checked t) h ne k = (k.0, ground arith)
publish-ConsumerKnows m (Consumer.fetched t w) h ne k = (k.0, ground arith, k.2)

pub release-ProducerKnows :
    (m : Ringbuf) (p : Producer)
    → IsValid m
    → m.tail ≢ m.head
    → ProducerKnows m p
    → ProducerKnows (release m) p
release-ProducerKnows m Producer.outside h ne k = tt
release-ProducerKnows m (Producer.loaded v i) h ne k = k
release-ProducerKnows m (Producer.checked v i) h ne k = (k.0, ground arith)
release-ProducerKnows m (Producer.stored v i) h ne k = (k.0, ground arith, k.2)

-- A valid ring has storage.
pub has_storage_lem : (m : Ringbuf) → IsValid m → has_storage m.buf ≡ true
has_storage_lem m h = elim (Option-cases m.buf) [
  | inl e ↦ absurd (let r = h.room in omega (arith, ap (λ b. length (storage b)) e))
  | inr (xs, e) ↦ ap has_storage e
]
