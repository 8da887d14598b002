-- ===== src/Viewer/Listen.antt =====
-- scripts/print_events.py: what the loop of `main` prints for the packets that it gets.
use aer_handshake_firmware.Base.{
  ℕ, ◌≡◌, refl, ap, Bool, ◌||◌, List, [], ◌∷◌, ◌++◌, if◌then◌else◌, ◌==◌, map,
}
use aer_handshake_firmware.Burst.{Event}
use aer_handshake_firmware.Viewer.{Framed}
use aer_handshake_firmware.Viewer.Events.{Line, on, unknown_type, decode_and_print_events}
use aer_handshake_firmware.Viewer.Events.Records.{printed}

-- A line of an event packet, or the payload of another one, decoded as UTF-8 or in hexadecimal.
pub data Shown : Type 0 where
  line : Line → Shown
  text : ℕ → ℕ → List ℕ → Shown
  hex : ℕ → ℕ → List ℕ → Shown

pub print_packet : Bool → Bool → Framed → List Shown
print_packet show_non_events show_ticks p =
    if p.ptype == 2
    then map line (decode_and_print_events show_ticks p.payload)
    else if show_non_events
    then (if p.ptype == 1 || p.ptype == 4
        then text p.ptype p.ver p.payload
        else hex p.ptype p.ver p.payload)
      ∷ []
    else []

pub listen : Bool → Bool → List Framed → List Shown
listen show_non_events show_ticks [] = []
listen show_non_events show_ticks (p ∷ ps) =
    print_packet show_non_events show_ticks p ++ listen show_non_events show_ticks ps

-- The events among the lines.
abbrev pub events_shown : List Shown → List Event
events_shown [] = []
events_shown (line (on row col _) ∷ ss) = (row, col) ∷ events_shown ss
events_shown (line (unknown_type _ _) ∷ ss) = events_shown ss
events_shown (text _ _ _ ∷ ss) = events_shown ss
events_shown (hex _ _ _ ∷ ss) = events_shown ss

events_shown-lines :
    (ls : List Line) (ss : List Shown)
    → events_shown (map line ls ++ ss) ≡ printed ls ++ events_shown ss
events_shown-lines [] ss = refl
events_shown-lines (on row col ticks ∷ ls) ss =
    ap (λ es. (row, col) ∷ es) (events_shown-lines ls ss)
events_shown-lines (unknown_type _ _ ∷ ls) ss = events_shown-lines ls ss

-- The events that are shown for a packet of events, and then for others.
pub listen-cons :
    (show_non_events show_ticks : Bool) (p : Framed) (ps : List Framed)
    → p.ptype ≡ 2
    → events_shown (listen show_non_events show_ticks (p ∷ ps))
      ≡ printed (decode_and_print_events show_ticks p.payload)
        ++ events_shown (listen show_non_events show_ticks ps)
unfolding listen print_packet
listen-cons show_non_events show_ticks p ps e =
    rw (e, print_packet)
      (events_shown-lines (decode_and_print_events show_ticks p.payload)
        (listen show_non_events show_ticks ps))

pub listen-nil :
    (show_non_events show_ticks : Bool) → events_shown (listen show_non_events show_ticks []) ≡ []
unfolding listen
listen-nil show_non_events show_ticks = refl
