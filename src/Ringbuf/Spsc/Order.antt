-- ===== src/Ringbuf/Spsc/Order.antt =====
-- In every interleaving the consumer gets the producer's words in order, none lost and none twice.
use mathlib.Core.Path.{subst}
use aer_handshake_firmware.Base.{
  ℕ, ◌≡◌, refl, ap, ap₂, sym, ◌∙◌, if_true, Bool-cases, inl, inr, List, [], ◌∷◌, ◌++◌, append-nil,
  append_assoc, get_or, set, get_or-set_self, ◌==◌, arith,
}
use aer_handshake_firmware.Ringbuf.{Ringbuf, rb_inc}
use aer_handshake_firmware.Ringbuf.Inv.{storage, IsValid, after, rb_inc_lem}
use aer_handshake_firmware.Ringbuf.Window.{contents}
use aer_handshake_firmware.Ringbuf.Refine.{full_iff, contents_cons}
use aer_handshake_firmware.Ringbuf.Spsc.{
  Producer, Consumer, Spsc, Turn, produce_from, consume_from, turn, turns, idle, has_storage,
}
use aer_handshake_firmware.Ringbuf.Spsc.Knows.{
  ConsumerKnows, ProducerKnows, contents-publish, contents-put_word, has_storage_lem,
  publish-ConsumerKnows, put_word-ConsumerKnows, put_word-IsValid, release, release-ProducerKnows,
}

-- `held` is what the ring held at the start.
pub record InOrder (held : List ℕ) (s : Spsc) : Type 0 where
  pub valid : IsValid s.mem
  pub order : s.popped ++ contents s.mem ≡ held ++ s.pushed
  pub producer : ProducerKnows s.mem s.producer
  pub consumer : ConsumerKnows s.mem s.consumer

produce-InOrder :
    {held : List ℕ} (p : Producer) (v : ℕ) (s : Spsc)
    → InOrder held s
    → ProducerKnows s.mem p
    → InOrder held (produce_from p v s)
unfolding produce_from
produce-InOrder {held} Producer.outside v s h k =
    subst (InOrder held) (sym (if_true (has_storage s.mem.buf) _ _ (has_storage_lem s.mem h.valid)))
      (record { valid = h.valid; order = h.order; producer = refl; consumer = h.consumer })
produce-InOrder (Producer.loaded v i) _ s h k =
    elim (Bool-cases (rb_inc i s.mem.capacity == s.mem.tail)) [
      | inl full ↦
          rw full
            (record { valid = h.valid; order = h.order; producer = tt; consumer = h.consumer })
      | inr room ↦ rw room (record {
        valid = h.valid;
        order = h.order;
        producer = (
          k,
          ground (
            arith,
            rb_inc_lem s.mem.head s.mem.capacity,
            full_iff s.mem.capacity s.mem.head s.mem.tail,
          ),
        );
        consumer = h.consumer;
      })
    ]
produce-InOrder (Producer.checked v i) _ s h k =
    let e : set (storage s.mem.buf) i v ≡ set (storage s.mem.buf) s.mem.head v =
      ap (λ j. set (storage s.mem.buf) j v) k.0 in
    rw e (record {
      valid = put_word-IsValid s.mem v h.valid;
      order = ap (λ q. s.popped ++ q) (contents-put_word s.mem v h.valid) ∙ h.order;
      producer = (
        k.0,
        k.1,
        get_or-set_self (storage s.mem.buf) s.mem.head v 0
            (let r = h.valid.room in let q = h.valid.head_in in omega arith),
      );
      consumer = put_word-ConsumerKnows s.mem v s.consumer h.consumer;
    })
produce-InOrder {held} (Producer.stored v i) _ s h k =
    let e : rb_inc i s.mem.capacity ≡ after s.mem.capacity s.mem.head =
      ap (λ j. rb_inc j s.mem.capacity) k.0
      ∙ rb_inc_lem s.mem.head s.mem.capacity h.valid.head_in h.valid.word in
    rw e (record {
      valid = record {
        room = h.valid.room;
        two = h.valid.two;
        word = h.valid.word;
        head_in = ground (arith, h.valid.head_in, h.valid.two);
        tail_in = h.valid.tail_in;
      };
      order =
          ap (λ q. s.popped ++ q) (contents-publish s.mem h.valid k.1)
          ∙ sym (
              append_assoc s.popped (contents s.mem) (get_or (storage s.mem.buf) s.mem.head 0 ∷ []))
          ∙ ap₂ (λ q w. q ++ w ∷ []) h.order k.2
          ∙ append_assoc held s.pushed (v ∷ []);
      producer = tt;
      consumer = publish-ConsumerKnows s.mem s.consumer h.valid k.1 h.consumer;
    })

consume-InOrder :
    {held : List ℕ} (c : Consumer) (s : Spsc)
    → InOrder held s
    → ConsumerKnows s.mem c
    → InOrder held (consume_from c s)
unfolding consume_from
consume-InOrder {held} Consumer.outside s h k =
    subst (InOrder held) (sym (if_true (has_storage s.mem.buf) _ _ (has_storage_lem s.mem h.valid)))
      (record { valid = h.valid; order = h.order; producer = h.producer; consumer = refl })
consume-InOrder (Consumer.loaded t) s h k = elim (Bool-cases (t == s.mem.head)) [
  | inl empty ↦
      rw empty (record { valid = h.valid; order = h.order; producer = h.producer; consumer = tt })
  | inr word ↦ rw word (record {
    valid = h.valid;
    order = h.order;
    producer = h.producer;
    consumer = (k, ground arith);
  })
]
consume-InOrder (Consumer.checked t) s h k = record {
  valid = h.valid;
  order = h.order;
  producer = h.producer;
  consumer = (k.0, k.1, ap (λ i. get_or (storage s.mem.buf) i 0) k.0);
}
consume-InOrder (Consumer.fetched t w) s h k =
    let e : rb_inc t s.mem.capacity ≡ after s.mem.capacity s.mem.tail =
      ap (λ j. rb_inc j s.mem.capacity) k.0
      ∙ rb_inc_lem s.mem.tail s.mem.capacity h.valid.tail_in h.valid.word in
    rw e (record {
      valid = record {
        room = h.valid.room;
        two = h.valid.two;
        word = h.valid.word;
        head_in = h.valid.head_in;
        tail_in = ground (arith, h.valid.tail_in, h.valid.two);
      };
      order =
          append_assoc s.popped (w ∷ []) (contents (release s.mem))
          ∙ ap (λ q. s.popped ++ q)
              (ap (λ x. x ∷ contents (release s.mem)) k.2 ∙ sym (contents_cons s.mem h.valid k.1))
          ∙ h.order;
      producer = release-ProducerKnows s.mem s.producer h.valid k.1 h.producer;
      consumer = tt;
    })

turn-InOrder : {held : List ℕ} (s : Spsc) (t : Turn) → InOrder held s → InOrder held (turn s t)
unfolding turn
turn-InOrder s (Turn.producer v) h = produce-InOrder s.producer v s h h.producer
turn-InOrder s Turn.consumer h = consume-InOrder s.consumer s h h.consumer

all_turns-InOrder :
    {held : List ℕ} (ts : List Turn) (s : Spsc) → InOrder held s → InOrder held (turns s ts)
unfolding turns
all_turns-InOrder [] s h = h
all_turns-InOrder (t ∷ ts) s h = all_turns-InOrder ts (turn s t) (turn-InOrder s t h)

-- In any interleaving of a producer's pushes and a consumer's pops, access by access, that starts
-- between calls with a valid ring: the ring stays valid, and the words that pops have returned,
-- followed by those that the ring holds, are the words that it held at the start followed by those
-- whose push has returned true, in order.
pub turns-in_order :
    (ts : List Turn) (rb : Ringbuf)
    → IsValid rb
    → IsValid (turns (idle rb) ts).mem
      × ((turns (idle rb) ts).popped ++ contents (turns (idle rb) ts).mem
          ≡ contents rb ++ (turns (idle rb) ts).pushed)
turns-in_order ts rb h =
    let last = all_turns-InOrder ts (idle rb) (record {
      valid = h;
      order = sym (append-nil (contents rb));
      producer = tt;
      consumer = tt;
    }) in
    (last.valid, last.order)
