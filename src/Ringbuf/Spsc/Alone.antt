-- ===== src/Ringbuf/Spsc/Alone.antt =====
-- A call that is not interrupted: the accesses add up to `ringbuf_u32_push` and `ringbuf_u32_pop`.
use native.Mathlib.Decide.{ℕ_discrete}
use aer_handshake_firmware.Base.{
  ℕ, suc, ◌-◌, ◌≡◌, ◌⊎◌, inl, inr, ap, sym, ◌∙◌, Bool, true, false, Option, none, some, [], ◌∷◌,
  ◌++◌, get_or, set, if_true, if_false, ◌==◌, arith,
}
use aer_handshake_firmware.Ringbuf.{Ringbuf, rb_inc, push, pop}
use aer_handshake_firmware.Ringbuf.Inv.{storage, IsValid, gap, rb_inc_lem}
use aer_handshake_firmware.Ringbuf.Refine.{full_iff, push_full, push_room, pop_empty, pop-some}
use aer_handshake_firmware.Ringbuf.Spsc.{
  Producer, Consumer, Spsc, Turn, produce_from, consume_from, turn, turns, has_storage,
}
use aer_handshake_firmware.Ringbuf.Spsc.Knows.{has_storage_lem}

-- The producer between calls, in the state `s`.
abbrev pub resting : Spsc → Spsc
resting s = record s { producer = Producer.outside; consumer = Consumer.outside }

-- The first two accesses.
push_begin :
    (s : Spsc) (v : ℕ)
    → IsValid s.mem
    → turn (resting s) (Turn.producer v)
      ≡ record (resting s) { producer = Producer.loaded v s.mem.head }
unfolding turn produce_from
push_begin s v h = if_true (has_storage s.mem.buf) _ _ (has_storage_lem s.mem h)

pop_begin :
    (s : Spsc)
    → IsValid s.mem
    → turn (resting s) Turn.consumer ≡ record (resting s) { consumer = Consumer.loaded s.mem.tail }
unfolding turn consume_from
pop_begin s h = if_true (has_storage s.mem.buf) _ _ (has_storage_lem s.mem h)

-- A push that is not interrupted returns true after four accesses and leaves the ring as
-- `ringbuf_u32_push` does, or is refused after two, exactly where `ringbuf_u32_push` returns false.
pub turns-push :
    (s : Spsc) (v : ℕ)
    → IsValid s.mem
    → (((push s.mem v).1 ≡ true)
        × (turns
              (resting s)
              (Turn.producer v ∷ Turn.producer v ∷ Turn.producer v ∷ Turn.producer v ∷ [])
            ≡ record (resting s) { mem = (push s.mem v).0; pushed = s.pushed ++ v ∷ [] }))
      ⊎ (((push s.mem v).1 ≡ false)
          × (turns (resting s) (Turn.producer v ∷ Turn.producer v ∷ [])
              ≡ record (resting s) { refused = suc s.refused }))
unfolding turns turn produce_from
turns-push s v h =
    let m = s.mem in
    let p = Turn.producer v in
    let next = rb_inc_lem m.head m.capacity h.head_in h.word in
    let test = full_iff m.capacity m.head m.tail h.head_in h.tail_in in
    elim (ℕ_discrete (gap m.capacity m.head m.tail) (m.capacity - 1)) [
      | yes full ↦ inr (
        ap (λ (r : Ringbuf × Bool). r.1) (push_full m v h full),
        ap (λ x. turn x p) (push_begin s v h)
            ∙ if_true (rb_inc m.head m.capacity == m.tail) _ _ (ground arith),
      )
      | no room ↦ inl (
        ap (λ (r : Ringbuf × Bool). r.1) (push_room m v h room),
        ap (λ x. turn (turn (turn x p) p) p) (push_begin s v h)
            ∙ ap (λ x. turn (turn x p) p)
                (if_false (rb_inc m.head m.capacity == m.tail) _ _ (ground arith))
            ∙ ap
                (λ i. record (resting s) {
                  mem = record m { buf = some (set (storage m.buf) m.head v); head = i };
                  pushed = s.pushed ++ v ∷ [];
                })
                next
            ∙ ap
                (λ (r : Ringbuf × Bool). record (resting s) {
                  mem = r.0;
                  pushed = s.pushed ++ v ∷ [];
                })
                (sym (push_room m v h room)),
      )
    ]

-- A pop that is not interrupted returns a word after four accesses and leaves the ring as
-- `ringbuf_u32_pop` does, or returns false after two, exactly where `ringbuf_u32_pop` has no word.
pub turns-pop :
    (s : Spsc)
    → IsValid s.mem
    → ((w : ℕ) × ((pop s.mem true).1 ≡ some w)
        × (turns (resting s) (Turn.consumer ∷ Turn.consumer ∷ Turn.consumer ∷ Turn.consumer ∷ [])
            ≡ record (resting s) { mem = (pop s.mem true).0; popped = s.popped ++ w ∷ [] }))
      ⊎ (((pop s.mem true).1 ≡ none)
          × (turns (resting s) (Turn.consumer ∷ Turn.consumer ∷ []) ≡ resting s))
unfolding turns turn consume_from
turns-pop s h =
    let m = s.mem in
    let c = Turn.consumer in
    let next = rb_inc_lem m.tail m.capacity h.tail_in h.word in
    elim (ℕ_discrete m.tail m.head) [
      | yes empty ↦ inr (
        ap (λ (r : Ringbuf × Option ℕ). r.1) (pop_empty m h empty),
        ap (λ x. turn x c) (pop_begin s h) ∙ if_true (m.tail == m.head) _ _ (ground arith),
      )
      | no word ↦ inl (
        get_or (storage m.buf) m.tail 0,
        ap (λ (r : Ringbuf × Option ℕ). r.1) (pop-some m h word),
        ap (λ x. turn (turn (turn x c) c) c) (pop_begin s h)
            ∙ ap (λ x. turn (turn x c) c) (if_false (m.tail == m.head) _ _ (ground arith))
            ∙ ap
                (λ i. record (resting s) {
                  mem = record m { tail = i };
                  popped = s.popped ++ get_or (storage m.buf) m.tail 0 ∷ [];
                })
                next
            ∙ ap
                (λ (r : Ringbuf × Option ℕ). record (resting s) {
                  mem = r.0;
                  popped = s.popped ++ get_or (storage m.buf) m.tail 0 ∷ [];
                })
                (sym (pop-some m h word)),
      )
    ]
