-- ===== src/RxPoll/Batch.antt =====
-- `aer_rx_poll_service` on a bus that brings as many words as it may take.
use native.Mathlib.Decide.{ℕ_discrete}
use aer_handshake_firmware.Base.{
  ℕ, zero, suc, ◌+◌, ◌-◌, ◌≤◌, ◌<◌, ◌^◌, ◌≡◌, ◌≢◌, refl, ap, sym, ◌∙◌, subst, some, List, [], ◌∷◌,
  ◌++◌, map, All, length, take, append_assoc, append-nil, length-append, u32, arith,
}
use aer_handshake_firmware.Ringbuf.{Ringbuf, push}
use aer_handshake_firmware.Ringbuf.Inv.{IsValid, push-IsValid, push-capacity}
use aer_handshake_firmware.Ringbuf.Window.{contents}
use aer_handshake_firmware.Ringbuf.Refine.{length-contents, contents-push}
use aer_handshake_firmware.Ringbuf.Calls.{is_full_lem}
use aer_handshake_firmware.RxPoll.{Io, Rx, store, service}
use aer_handshake_firmware.RxPoll.Handshake.{done}
use aer_handshake_firmware.RxPoll.Strokes.{
  Stroke, Regular, strokes, taken, handshakes, service_loop-strokes,
}

-- What the receiver has done with the words: as many as there is room for are stored after those
-- that the ring held, in order, and the others are counted as dropped.
pub record Batch (rx : Rx) (ws : List ℕ) (rx' : Rx) : Type 0 where
  pub valid : IsValid rx'.rb
  pub same_capacity : rx'.rb.capacity ≡ rx.rb.capacity
  pub stored :
      contents rx'.rb ≡ contents rx.rb ++ take (rx.rb.capacity - 1 - length (contents rx.rb)) ws
  pub dropped :
      rx'.stats.dropped_full
      ≡ u32 (rx.stats.dropped_full + (length ws - (rx.rb.capacity - 1 - length (contents rx.rb))))

-- The room that is left for words.
abbrev room : Ringbuf → ℕ
room rb = rb.capacity - 1 - length (contents rb)

store_full :
    (rx : Rx) (w : ℕ)
    → IsValid rx.rb
    → length (contents rx.rb) ≡ rx.rb.capacity - 1
    → store rx w
      ≡ record rx { stats = record rx.stats { dropped_full = u32 (rx.stats.dropped_full + 1) } }
unfolding store
store_full rx w v e = ground (arith, is_full_lem rx.rb v)

store_room :
    (rx : Rx) (w : ℕ)
    → IsValid rx.rb
    → length (contents rx.rb) ≢ rx.rb.capacity - 1
    → store rx w ≡ record rx { rb = (push rx.rb w).0 }
unfolding store
store_room rx w v ne = ground (arith, is_full_lem rx.rb v)

-- The receiver with one more word dropped.
abbrev drops : Rx → Rx
drops rx = record rx { stats = record rx.stats { dropped_full = u32 (rx.stats.dropped_full + 1) } }

abbrev keeps : Rx → ℕ → Rx
keeps rx w = record rx { rb = (push rx.rb w).0 }

drops-Batch :
    (rx : Rx) (w : ℕ) (ws : List ℕ) (rx' : Rx)
    → length (contents rx.rb) ≡ rx.rb.capacity - 1
    → Batch (done (drops rx)) ws rx'
    → Batch rx (w ∷ ws) rx'
drops-Batch rx w ws rx' full b =
    let none_left : room rx.rb ≡ 0 = omega arith in
    record {
      valid = b.valid;
      same_capacity = b.same_capacity;
      stored =
          b.stored
          ∙ ap (λ n. contents rx.rb ++ take n ws) none_left
          ∙ sym (ap (λ n. contents rx.rb ++ take n (w ∷ ws)) none_left);
      dropped = omega (arith, b.dropped);
    }

keeps-Batch :
    (rx : Rx) (w : ℕ) (ws : List ℕ) (rx' : Rx)
    → IsValid rx.rb
    → length (contents rx.rb) < rx.rb.capacity - 1
    → Batch (done (keeps rx w)) ws rx'
    → Batch rx (w ∷ ws) rx'
keeps-Batch rx w ws rx' v free b =
    let held = contents rx.rb in
    let more : contents (push rx.rb w).0 ≡ held ++ w ∷ [] =
      contents-push rx.rb w v (omega (arith, length-contents rx.rb)) in
    let cap = push-capacity rx.rb w in
    let less : room rx.rb ≡ suc (room (push rx.rb w).0) =
      omega (arith, ap length more, length-append held (w ∷ []), cap) in
    record {
      valid = b.valid;
      same_capacity = b.same_capacity ∙ cap;
      stored =
          b.stored
          ∙ ap (λ es. es ++ take (room (push rx.rb w).0) ws) more
          ∙ append_assoc held (w ∷ []) (take (room (push rx.rb w).0) ws)
          ∙ sym (ap (λ n. held ++ take n (w ∷ ws)) less);
      dropped = omega (arith, b.dropped, less);
    }

abbrev no_words : List ℕ
no_words = []

take_nil : (n : ℕ) → take n no_words ≡ no_words
take_nil zero = refl
take_nil (suc n) = refl

pub taken-Batch :
    (ss : List Stroke) (rx : Rx)
    → IsValid rx.rb
    → rx.stats.dropped_full < 2 ^ 32
    → Batch rx (map (λ (s : Stroke). s.word) ss) (taken rx ss)
taken-Batch [] rx v small = record {
  valid = v;
  same_capacity = refl;
  stored =
      sym (ap (λ es. contents rx.rb ++ es) (take_nil (room rx.rb)) ∙ append-nil (contents rx.rb));
  dropped = omega arith;
}
taken-Batch (s ∷ ss) rx v small =
    let ws = map (λ (x : Stroke). x.word) ss in
    let at_most : length (contents rx.rb) ≤ rx.rb.capacity - 1 =
      ground (arith, length-contents rx.rb, v) in
    elim (ℕ_discrete (length (contents rx.rb)) (rx.rb.capacity - 1)) [
      | yes full ↦
          subst (λ x. Batch rx (s.word ∷ ws) (taken (done x) ss))
            (sym (store_full rx s.word v full))
            (drops-Batch rx s.word ws _ full (taken-Batch ss (done (drops rx)) v (omega arith)))
      | no ne ↦
          subst (λ x. Batch rx (s.word ∷ ws) (taken (done x) ss)) (sym (store_room rx s.word v ne))
            (keeps-Batch rx s.word ws _ v (omega arith)
              (taken-Batch ss (done (keeps rx s.word)) (push-IsValid rx.rb s.word v) small))
    ]

-- With both timeouts disabled and no time budget, on a bus that brings `max_words` words, each
-- neutral for a while, then valid, then neutral again, `aer_rx_poll_service` returns `max_words`,
-- with a completed handshake for each word. A valid ring then holds, after what it held, as many of
-- the words as it has room for, in order, and the others are counted as dropped.
pub service-Batch :
    (ss : List Stroke) (rx : Rx) (rest clock : List ℕ) (log : List Io)
    → rx.wait_valid_timeout_us ≡ 0
    → rx.wait_neutral_timeout_us ≡ 0
    → All Regular ss
    → length ss < 2 ^ 32
    → IsValid rx.rb
    → rx.stats.dropped_full < 2 ^ 32
    → (rx' : Rx) × (service rx
          (length ss)
          0
          (record { samples = strokes ss rest; clock = clock; log = log })
        ≡ some (length ss, rx', record { samples = rest; clock = clock; log = handshakes ss log }))
      × Batch rx (map (λ (s : Stroke). s.word) ss) rx'
unfolding service
service-Batch ss rx rest clock log tv tn regular fits v small = (
  taken rx ss,
  service_loop-strokes ss 0 rx rest clock log tv tn regular (omega arith)
      ∙ ap
          (λ n.
            some
              (n, taken rx ss, record { samples = rest; clock = clock; log = handshakes ss log }))
          (omega arith),
  taken-Batch ss rx v small,
)
