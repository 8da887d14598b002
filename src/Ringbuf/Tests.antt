-- ===== src/Ringbuf/Tests.antt =====
-- Runs of the ring buffer on storage of four words, three of which it holds at a time.
use aer_handshake_firmware.Base.{◌-◌, ◌≡◌, refl, true, false, none, some, List, [], ◌∷◌, arith}
use aer_handshake_firmware.Fifo
use aer_handshake_firmware.Fifo.{Op, Reply, test, item, number}
use aer_handshake_firmware.Ringbuf.{Ringbuf, run, call, push, pop, count, rb_inc}
use aer_handshake_firmware.Ringbuf.Inv.{IsValid}
use aer_handshake_firmware.Ringbuf.Window.{contents}
use aer_handshake_firmware.Ringbuf.Calls.{run_refines}

-- The two words 7 and 8, wrapped round the end of the storage.
abbrev wrapped : Ringbuf
wrapped = record { buf = some (8 ∷ 0 ∷ 0 ∷ 7 ∷ []); capacity = 4; head = 1; tail = 3 }

wrapped-IsValid : IsValid wrapped
wrapped-IsValid = record {
  room = omega arith;
  two = omega arith;
  word = omega arith;
  head_in = omega arith;
  tail_in = omega arith;
}

abbrev client : List Op
client =
    Op.push 9 ∷ Op.push 10 ∷ Op.count ∷ Op.pop true ∷ Op.pop true ∷ Op.pop true ∷ Op.pop true ∷ []

client_replies :
    run (some wrapped) client
    ≡ test true
      ∷ test false
      ∷ number 3
      ∷ item (some 7)
      ∷ item (some 8)
      ∷ item (some 9)
      ∷ item none
      ∷ []
unfolding run call push pop count rb_inc
client_replies = refl

run_refines_example :
    run (some wrapped) client ≡ Fifo.run (wrapped.capacity - 1) (contents wrapped) client
run_refines_example = run_refines client wrapped wrapped-IsValid
