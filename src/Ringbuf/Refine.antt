-- ===== src/Ringbuf/Refine.antt =====
-- A valid ring behaves as the bounded queue of the words that it holds.
use aer_handshake_firmware.Base.{
  ℕ, suc, ◌-◌, ◌<◌, ◌≡◌, ◌≢◌, sym, ap, ◌∙◌, true, false, none, some, [], ◌∷◌, ◌++◌, length, get_or,
  set, ◌==◌, arith,
}
use aer_handshake_firmware.Ringbuf.{Ringbuf, push, pop}
use aer_handshake_firmware.Ringbuf.Inv.{storage, IsValid, after, gap, rb_inc_lem}
use aer_handshake_firmware.Ringbuf.Window.{
  window, length-window, window_of_ne_zero, contents, forward, window-set,
}

pub length-contents : (rb : Ringbuf) → length (contents rb) ≡ gap rb.capacity rb.head rb.tail
length-contents rb =
    length-window (storage rb.buf) rb.capacity rb.tail (gap rb.capacity rb.head rb.tail)

-- The ring is full exactly when one slot is left, and empty exactly when the indices meet.
pub full_iff :
    (capacity head tail : ℕ)
    → head < capacity
    → tail < capacity
    → (after capacity head == tail) ≡ (gap capacity head tail == capacity - 1)
full_iff capacity head tail h t = ground arith

-- Where the head stands, and the number of words after it has moved.
pub head_lem :
    (capacity head tail : ℕ)
    → head < capacity
    → tail < capacity
    → head ≡ forward capacity tail (gap capacity head tail)
head_lem capacity head tail h t = ground arith

pub gap-after_head :
    (capacity head tail : ℕ)
    → head < capacity
    → tail < capacity
    → gap capacity head tail ≢ capacity - 1
    → gap capacity (after capacity head) tail ≡ suc (gap capacity head tail)
gap-after_head capacity head tail h t ne = ground arith

pub gap-after_tail :
    (capacity head tail : ℕ)
    → head < capacity
    → tail < capacity
    → tail ≢ head
    → (gap capacity head (after capacity tail) ≡ gap capacity head tail - 1)
      × (gap capacity head tail ≢ 0)
gap-after_tail capacity head tail h t ne = ground arith

pub push_full :
    (rb : Ringbuf) (v : ℕ)
    → IsValid rb
    → gap rb.capacity rb.head rb.tail ≡ rb.capacity - 1
    → push rb v ≡ (rb, false)
unfolding push
push_full rb v valid e =
    ground (arith, rb_inc_lem rb.head rb.capacity, full_iff rb.capacity rb.head rb.tail)

pub push_room :
    (rb : Ringbuf) (v : ℕ)
    → IsValid rb
    → gap rb.capacity rb.head rb.tail ≢ rb.capacity - 1
    → push rb v ≡ (
      record rb { buf = some (set (storage rb.buf) rb.head v); head = after rb.capacity rb.head },
      true,
    )
unfolding push
push_room rb v valid ne =
    ground (arith, rb_inc_lem rb.head rb.capacity, full_iff rb.capacity rb.head rb.tail)

pub contents-push :
    (rb : Ringbuf) (v : ℕ)
    → IsValid rb
    → gap rb.capacity rb.head rb.tail ≢ rb.capacity - 1
    → contents (push rb v).0 ≡ contents rb ++ v ∷ []
contents-push rb v valid ne =
    rw
      (
        push_room rb v valid ne,
        gap-after_head rb.capacity rb.head rb.tail valid.head_in valid.tail_in ne,
      )
      (window-set (storage rb.buf) rb.capacity v (gap rb.capacity rb.head rb.tail) rb.tail rb.head
        valid.room valid.tail_in (ground arith)
        (head_lem rb.capacity rb.head rb.tail valid.head_in valid.tail_in))

pub pop_empty : (rb : Ringbuf) → IsValid rb → rb.tail ≡ rb.head → pop rb true ≡ (rb, none)
unfolding pop
pop_empty rb valid e = ground arith

pub pop-some :
    (rb : Ringbuf)
    → IsValid rb
    → rb.tail ≢ rb.head
    → pop rb true
      ≡ (record rb { tail = after rb.capacity rb.tail }, some (get_or (storage rb.buf) rb.tail 0))
unfolding pop
pop-some rb valid ne = ground (arith, rb_inc_lem rb.tail rb.capacity)

-- The oldest word, split off.
pub contents_cons :
    (rb : Ringbuf)
    → IsValid rb
    → rb.tail ≢ rb.head
    → contents rb
      ≡ get_or (storage rb.buf) rb.tail 0
        ∷ contents (record rb { tail = after rb.capacity rb.tail })
contents_cons rb valid ne =
    let (e, pos) = gap-after_tail rb.capacity rb.head rb.tail valid.head_in valid.tail_in ne in
    window_of_ne_zero (storage rb.buf) rb.capacity rb.tail (gap rb.capacity rb.head rb.tail) pos
    ∙ ap
        (λ n.
          get_or (storage rb.buf) rb.tail 0
          ∷ window (storage rb.buf) rb.capacity (after rb.capacity rb.tail) n)
        (sym e)

pub contents_nil : (rb : Ringbuf) → IsValid rb → rb.tail ≡ rb.head → contents rb ≡ []
contents_nil rb valid e =
    ap (window (storage rb.buf) rb.capacity rb.tail)
      (let z : gap rb.capacity rb.head rb.tail ≡ 0 = ground arith in z)
