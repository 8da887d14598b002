-- ===== src/Ringbuf/Spsc/Tests.antt =====
-- A producer and a consumer that interrupt one another on storage of four words.
use aer_handshake_firmware.Base.{◌≡◌, refl, some, List, [], ◌∷◌, ◌++◌, arith}
use aer_handshake_firmware.Ringbuf.{Ringbuf, rb_inc}
use aer_handshake_firmware.Ringbuf.Inv.{IsValid}
use aer_handshake_firmware.Ringbuf.Window.{contents}
use aer_handshake_firmware.Ringbuf.Spsc.{Turn, turns, turn, produce_from, consume_from, idle}
use aer_handshake_firmware.Ringbuf.Spsc.Order.{turns-in_order}

-- The word 7, in the last cell.
abbrev one_word : Ringbuf
one_word = record { buf = some (0 ∷ 0 ∷ 0 ∷ 7 ∷ []); capacity = 4; head = 0; tail = 3 }

one_word-IsValid : IsValid one_word
one_word-IsValid = record {
  room = omega arith;
  two = omega arith;
  word = omega arith;
  head_in = omega arith;
  tail_in = omega arith;
}

-- The consumer takes the word while the producer is about to store the next.
abbrev interleaving : List Turn
interleaving =
    Turn.producer 8
    ∷ Turn.consumer
    ∷ Turn.producer 8
    ∷ Turn.consumer
    ∷ Turn.consumer
    ∷ Turn.producer 8
    ∷ Turn.consumer
    ∷ Turn.producer 8
    ∷ []

interleaving_popped : (turns (idle one_word) interleaving).popped ≡ 7 ∷ []
unfolding turns turn produce_from consume_from rb_inc
interleaving_popped = refl

turns-in_order_example :
    IsValid (turns (idle one_word) interleaving).mem
    × ((turns (idle one_word) interleaving).popped
          ++ contents (turns (idle one_word) interleaving).mem
        ≡ contents one_word ++ (turns (idle one_word) interleaving).pushed)
turns-in_order_example = turns-in_order interleaving one_word one_word-IsValid
