-- ===== src/EventSink/Counts.antt =====
-- The sink's books balance.
use aer_handshake_firmware.Base.{
  ℕ, ◌+◌, ◌≡◌, Bool, Bool-cases, inl, inr, true, false, List, [], ◌∷◌, u32, arith,
}
use aer_handshake_firmware.Burst.{Event}
use aer_handshake_firmware.UsbStream.{send_on_event}
use aer_handshake_firmware.Firmware.{deliver}
use aer_handshake_firmware.EventSink.{SinkStats, Outlet, count_sent, on_event}

-- Every event is counted as sent or as failed.
abbrev pub Balanced : SinkStats → Type 0
Balanced st = st.events_emitted ≡ u32 (st.usb_sent_ok + st.usb_send_failed)

count_sent-Balanced :
    (ok : Bool) (st : SinkStats)
    → Balanced st
    → Balanced (count_sent ok (record st { events_emitted = u32 (st.events_emitted + 1) }))
count_sent-Balanced true st h = omega arith
count_sent-Balanced false st h = omega arith

module _ (connected : ℕ → Bool) (fwrite : ℕ → List ℕ → List ℕ × ℕ) (cycles : ℕ → ℕ) where
  on_event-Balanced :
      (o : Outlet) (e : Event)
      → Balanced o.sink.stats
      → Balanced (on_event connected fwrite cycles o e).sink.stats
  unfolding on_event
  on_event-Balanced o (row, col) h = elim (Bool-cases o.sink.enabled) [
    | inl on ↦ rw on (
        count_sent-Balanced
          (send_on_event connected fwrite row col (cycles o.port.queries) (o.stream, o.port)).1
          o.sink.stats h)
    | inr off ↦ rw off (count_sent-Balanced false o.sink.stats h)
  ]

  -- Whatever the connection and `fwrite` do: from a sink whose count of events is that of the sent
  -- and the failed ones, in 32 bits, any events keep it so.
  pub deliver-Balanced :
      (es : List Event) (o : Outlet)
      → Balanced o.sink.stats
      → Balanced (deliver (on_event connected fwrite cycles) o es).sink.stats
  deliver-Balanced [] o h = h
  deliver-Balanced (e ∷ es) o h =
      deliver-Balanced es (on_event connected fwrite cycles o e) (on_event-Balanced o e h)
