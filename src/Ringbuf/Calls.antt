-- ===== src/Ringbuf/Calls.antt =====
-- Every call of ringbuf.h on a valid ring is the same call on the bounded queue of its contents.
use native.Mathlib.Decide.{ℕ_discrete}
use aer_handshake_firmware.Base.{
  ℕ, ◌-◌, ◌≡◌, ◌≢◌, refl, sym, ap, ap₂, ◌∙◌, Bool, true, false, Option, some, List, [], ◌∷◌, ◌++◌,
  length, ◌==◌, arith,
}
use aer_handshake_firmware.Fifo
use aer_handshake_firmware.Fifo.{Op, Reply, unit, test, number, item, is_nil, front, rest}
use aer_handshake_firmware.Ringbuf.{
  Ringbuf, reset, is_empty, is_full, free, push, pop, peek, call, run,
}
use aer_handshake_firmware.Ringbuf.Inv.{
  IsValid, gap, rb_inc_lem, count_lem, reset-IsValid, push-IsValid, pop-IsValid,
}
use aer_handshake_firmware.Ringbuf.Window.{contents}
use aer_handshake_firmware.Ringbuf.Refine.{
  length-contents, full_iff, push_full, push_room, contents-push, pop_empty, pop-some,
  contents_cons, contents_nil,
}

-- `next` is the ring after `op`, and the queue has made the same step with the same reply.
pub record Simulates (rb : Ringbuf) (op : Op) (next : Ringbuf) : Type 0 where
  pub valid : IsValid next
  pub capacity : next.capacity ≡ rb.capacity
  pub reply : call (some rb) op ≡ (some next, (Fifo.step (rb.capacity - 1) (contents rb) op).1)
  pub queue : contents next ≡ (Fifo.step (rb.capacity - 1) (contents rb) op).0

-- The ring after a call.
abbrev pub after_call : Ringbuf → Op → Ringbuf
after_call rb Op.reset = reset rb
after_call rb (Op.push v) = (push rb v).0
after_call rb (Op.pop given) = (pop rb given).0
after_call rb _ = rb

push-Simulates : (rb : Ringbuf) (v : ℕ) → IsValid rb → Simulates rb (Op.push v) (push rb v).0
unfolding call Fifo.step
push-Simulates rb v valid = elim (ℕ_discrete (gap rb.capacity rb.head rb.tail) (rb.capacity - 1)) [
  | yes e ↦ record {
    valid = push-IsValid rb v valid;
    capacity = ap (λ (p : Ringbuf × Bool). p.0.capacity) (push_full rb v valid e);
    reply = ground (arith, push_full rb v valid e, length-contents rb);
    queue = ground (arith, push_full rb v valid e, length-contents rb);
  }
  | no ne ↦ record {
    valid = push-IsValid rb v valid;
    capacity = ap (λ (p : Ringbuf × Bool). p.0.capacity) (push_room rb v valid ne);
    reply = ground (arith, push_room rb v valid ne, length-contents rb);
    queue = ground (arith, contents-push rb v valid ne, length-contents rb);
  }
]

pop-Simulates : (rb : Ringbuf) → IsValid rb → Simulates rb (Op.pop true) (pop rb true).0
unfolding call Fifo.step
pop-Simulates rb valid = elim (ℕ_discrete rb.tail rb.head) [
  | yes e ↦ record {
    valid = pop-IsValid rb true valid;
    capacity = ap (λ (p : Ringbuf × Option ℕ). p.0.capacity) (pop_empty rb valid e);
    reply = ground (arith, pop_empty rb valid e, contents_nil rb valid e);
    queue = ground (arith, pop_empty rb valid e, contents_nil rb valid e);
  }
  | no ne ↦ record {
    valid = pop-IsValid rb true valid;
    capacity = ap (λ (p : Ringbuf × Option ℕ). p.0.capacity) (pop-some rb valid ne);
    reply = ground (arith, pop-some rb valid ne, contents_cons rb valid ne);
    queue = ground (arith, pop-some rb valid ne, contents_cons rb valid ne);
  }
]

peek_lem : (rb : Ringbuf) → IsValid rb → peek rb true ≡ front (contents rb)
unfolding peek
peek_lem rb valid = elim (ℕ_discrete rb.tail rb.head) [
  | yes e ↦ ground (arith, contents_nil rb valid e)
  | no ne ↦ ground (arith, contents_cons rb valid ne)
]

is_empty_lem : (rb : Ringbuf) → IsValid rb → is_empty rb ≡ is_nil (contents rb)
unfolding is_empty
is_empty_lem rb valid = elim (ℕ_discrete rb.tail rb.head) [
  | yes e ↦ ground (arith, contents_nil rb valid e)
  | no ne ↦ ground (arith, contents_cons rb valid ne)
]

pub is_full_lem :
    (rb : Ringbuf) → IsValid rb → is_full rb ≡ (length (contents rb) == rb.capacity - 1)
unfolding is_full
is_full_lem rb valid = ground (
  arith,
  rb_inc_lem rb.head rb.capacity,
  full_iff rb.capacity rb.head rb.tail,
  length-contents rb,
)

free_lem : (rb : Ringbuf) → IsValid rb → free rb ≡ rb.capacity - 1 - length (contents rb)
unfolding free
free_lem rb valid = ground (arith, count_lem rb valid, length-contents rb)

-- A call through a valid pointer to a valid ring keeps the ring valid, returns what the queue of at
-- most `capacity - 1` words returns, and leaves the ring holding that queue.
pub call-Simulates : (rb : Ringbuf) (op : Op) → IsValid rb → Simulates rb op (after_call rb op)
unfolding call Fifo.step reset pop peek
call-Simulates rb Op.reset v = record {
  valid = reset-IsValid rb v;
  capacity = refl;
  reply = refl;
  queue = refl;
}
call-Simulates rb Op.is_empty v = record {
  valid = v;
  capacity = refl;
  reply = ap (λ b. (some rb, test b)) (is_empty_lem rb v);
  queue = refl;
}
call-Simulates rb Op.is_full v = record {
  valid = v;
  capacity = refl;
  reply = ap (λ b. (some rb, test b)) (is_full_lem rb v);
  queue = refl;
}
call-Simulates rb Op.count v = record {
  valid = v;
  capacity = refl;
  reply = ap (λ n. (some rb, number n)) (count_lem rb v ∙ sym (length-contents rb));
  queue = refl;
}
call-Simulates rb Op.free v = record {
  valid = v;
  capacity = refl;
  reply = ap (λ n. (some rb, number n)) (free_lem rb v);
  queue = refl;
}
call-Simulates rb (Op.push x) v = push-Simulates rb x v
call-Simulates rb (Op.pop false) v = record {
  valid = v;
  capacity = refl;
  reply = refl;
  queue = refl;
}
call-Simulates rb (Op.pop true) v = pop-Simulates rb v
call-Simulates rb (Op.peek false) v = record {
  valid = v;
  capacity = refl;
  reply = refl;
  queue = refl;
}
call-Simulates rb (Op.peek true) v = record {
  valid = v;
  capacity = refl;
  reply = ap (λ o. (some rb, item o)) (peek_lem rb v);
  queue = refl;
}

-- No sequence of calls tells a valid ring from the queue of at most `capacity - 1` words that
-- starts with its contents.
pub run_refines :
    (ops : List Op) (rb : Ringbuf)
    → IsValid rb
    → run (some rb) ops ≡ Fifo.run (rb.capacity - 1) (contents rb) ops
unfolding run Fifo.run
run_refines [] rb v = refl
run_refines (op ∷ ops) rb v =
    let s = call-Simulates rb op v in
    rw (s.reply) (
      ap (λ r. (Fifo.step (rb.capacity - 1) (contents rb) op).1 ∷ r)
        (run_refines ops (after_call rb op) s.valid
          ∙ ap₂ (λ c q. Fifo.run (c - 1) q ops) s.capacity s.queue))

-- `ringbuf_u32_pop` and `ringbuf_u32_push` for a client that keeps the ring.
pub pop_lem :
    (rb : Ringbuf)
    → IsValid rb
    → ((pop rb true).1 ≡ front (contents rb))
      × (contents (pop rb true).0 ≡ rest (contents rb))
      × ((pop rb true).0.capacity ≡ rb.capacity)
pop_lem rb v = elim (ℕ_discrete rb.tail rb.head) [
  | yes e ↦ ground (arith, pop_empty rb v e, contents_nil rb v e)
  | no ne ↦ ground (arith, pop-some rb v ne, contents_cons rb v ne)
]

pub push_empty :
    (rb : Ringbuf) (v : ℕ)
    → IsValid rb
    → contents rb ≡ []
    → (is_full rb ≡ false)
      × (contents (push rb v).0 ≡ v ∷ [])
      × ((push rb v).0.capacity ≡ rb.capacity)
push_empty rb v valid e =
    let none_held : length (contents rb) ≡ 0 = ap length e in
    let room : gap rb.capacity rb.head rb.tail ≢ rb.capacity - 1 =
      omega (arith, length-contents rb) in
    (
      ground (arith, is_full_lem rb valid),
      contents-push rb v valid room ∙ ap (λ q. q ++ v ∷ []) e,
      ap (λ (p : Ringbuf × Bool). p.0.capacity) (push_room rb v valid room),
    )
