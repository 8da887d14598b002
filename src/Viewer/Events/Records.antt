-- ===== src/Viewer/Events/Records.antt =====
-- The viewers read back the records of an event packet.
use aer_handshake_firmware.Base.{
  ℕ, zero, suc, ◌^◌, ◌≤◌, ◌<◌, ◌≡◌, refl, ap, sym, ◌∙◌, Bool, Bool-cases, inl, inr, true, false,
  Option, none, some, List, [], ◌∷◌, ◌++◌, length, length-append, All, ◌==◌, ◌%◌, not,
  if◌then◌else◌, bit_and, bit_and_low, arith,
}
use aer_handshake_firmware.Burst.{Event}
use aer_handshake_firmware.UsbStream.{event_record}
use aer_handshake_firmware.Viewer.Events.{
  Record, nots_fields, ticks_fields, is_on, is_on_flag, Line, on, unknown_type, on_line, print_loop,
  decode_and_print_events, on_pixel, extract_loop, extract_on_events,
}

-- The bytes of a record, as the firmware fills them in, and of records in a row.
abbrev pub bytes_of : Record → Option ℕ → List ℕ
bytes_of r none = event_record false r.flags r.row r.col 0
bytes_of r (some ticks) = event_record true r.flags r.row r.col ticks

abbrev pub payload_of : List Record → List ℕ
payload_of [] = []
payload_of (r ∷ rs) = bytes_of r r.ticks ++ payload_of rs

-- The ticks are a 32-bit number.
abbrev pub InWord : Option ℕ → Type 0
InWord none = Unit
InWord (some ticks) = ticks < 2 ^ 32

-- The lowest bit of the flags says ON.
abbrev pub says_on : Record → Bool
says_on r = r.flags % 2 == 1

-- The lines and the pixels of the records that say ON, in order.
abbrev pub lines_of : Bool → List Record → List Line
lines_of show_ticks [] = []
lines_of show_ticks (r ∷ rs) =
    let later = lines_of show_ticks rs in
    if says_on r then on r.row r.col (if show_ticks then r.ticks else none) ∷ later else later

abbrev pub pixels_of : List Record → List Event
pixels_of [] = []
pixels_of (r ∷ rs) = let later = pixels_of rs in if says_on r then (r.row, r.col) ∷ later else later

lowest_bit : (flags : ℕ) → not (bit_and flags 1 == 0) ≡ (flags % 2 == 1)
lowest_bit flags = rw (bit_and_low 1 flags 1 refl) (ground arith)

on_line-append :
    (show_ticks : Bool) (r : Record) (ls : List Line)
    → on_line show_ticks r ++ ls
      ≡ (if says_on r then on r.row r.col (if show_ticks then r.ticks else none) ∷ ls else ls)
unfolding on_line is_on
on_line-append show_ticks r ls =
    rw (lowest_bit r.flags)
      (elim (Bool-cases (says_on r)) [ inl e ↦ rw e refl | inr e ↦ rw e refl ])

on_pixel-append :
    (r : Record) (es : List Event)
    → on_pixel r ++ es ≡ (if says_on r then (r.row, r.col) ∷ es else es)
unfolding on_pixel is_on_flag
on_pixel-append r es =
    rw (lowest_bit r.flags)
      (elim (Bool-cases (says_on r)) [ inl e ↦ rw e refl | inr e ↦ rw e refl ])

-- A round of a loop on the bytes of a record.
module _ (r : Record) (rest : List ℕ) where
  print_loop-record :
      (ticks : Option ℕ) (n : ℕ) (show_ticks : Bool) (len : ℕ)
      → r.ticks ≡ ticks
      → InWord ticks
      → print_loop (suc n) show_ticks len (bytes_of r ticks ++ rest)
        ≡ on_line show_ticks r ++ print_loop n show_ticks len rest
  unfolding print_loop event_record nots_fields ticks_fields
  print_loop-record none n show_ticks len e h =
      ap
        (λ t.
          on_line show_ticks (record { flags = r.flags; row = r.row; col = r.col; ticks = t })
          ++ print_loop n show_ticks len rest)
        (sym e)
  print_loop-record (some ticks) n show_ticks len e h =
      ap
        (λ t.
          on_line show_ticks (record { flags = r.flags; row = r.row; col = r.col; ticks = t })
          ++ print_loop n show_ticks len rest)
        (ap (λ (k : ℕ). some k) (omega arith) ∙ sym e)

  extract_loop-record :
      (ticks : Option ℕ) (n : ℕ)
      → extract_loop (suc n) (bytes_of r ticks ++ rest) ≡ on_pixel r ++ extract_loop n rest
  unfolding extract_loop event_record nots_fields ticks_fields on_pixel
  extract_loop-record none n = refl
  extract_loop-record (some ticks) n = refl

length-bytes_of : (r : Record) (ticks : Option ℕ) → 4 ≤ length (bytes_of r ticks)
unfolding event_record
length-bytes_of r none = omega arith
length-bytes_of r (some ticks) = omega arith

print_loop-payload_of :
    (rs : List Record) (n : ℕ) (show_ticks : Bool) (len : ℕ)
    → All (λ (r : Record). InWord r.ticks) rs
    → length (payload_of rs) ≤ n
    → print_loop n show_ticks len (payload_of rs) ≡ lines_of show_ticks rs
unfolding print_loop
print_loop-payload_of [] zero show_ticks len h e = refl
print_loop-payload_of [] (suc n) show_ticks len h e = refl
print_loop-payload_of (r ∷ rs) zero show_ticks len h e = absurd (
    omega
      (arith, length-bytes_of r r.ticks, length-append {0} (bytes_of r r.ticks) (payload_of rs)))
print_loop-payload_of (r ∷ rs) (suc n) show_ticks len h e =
    print_loop-record r (payload_of rs) r.ticks n show_ticks len refl h.0
    ∙ ap (λ ls. on_line show_ticks r ++ ls)
        (print_loop-payload_of rs n show_ticks len h.1 (
          omega (
            arith,
            length-bytes_of r r.ticks,
            length-append {0} (bytes_of r r.ticks) (payload_of rs),
          )))
    ∙ on_line-append show_ticks r (lines_of show_ticks rs)

extract_loop-payload_of :
    (rs : List Record) (n : ℕ)
    → length (payload_of rs) ≤ n
    → extract_loop n (payload_of rs) ≡ pixels_of rs
unfolding extract_loop
extract_loop-payload_of [] zero e = refl
extract_loop-payload_of [] (suc n) e = refl
extract_loop-payload_of (r ∷ rs) zero e = absurd (
    omega
      (arith, length-bytes_of r r.ticks, length-append {0} (bytes_of r r.ticks) (payload_of rs)))
extract_loop-payload_of (r ∷ rs) (suc n) e =
    extract_loop-record r (payload_of rs) r.ticks n
    ∙ ap (λ es. on_pixel r ++ es)
        (extract_loop-payload_of rs n (
          omega (
            arith,
            length-bytes_of r r.ticks,
            length-append {0} (bytes_of r r.ticks) (payload_of rs),
          )))
    ∙ on_pixel-append r (pixels_of rs)

-- Both scripts read a payload of any records that the firmware fills in, with and without ticks:
-- print_events.py prints the lines, and view_events.py yields the pixels, of exactly the records
-- whose flags have the lowest bit set, in order.
pub decode_and_print_events-payload_of :
    (rs : List Record) (show_ticks : Bool)
    → All (λ (r : Record). InWord r.ticks) rs
    → (decode_and_print_events show_ticks (payload_of rs) ≡ lines_of show_ticks rs)
      × (extract_on_events (payload_of rs) ≡ pixels_of rs)
unfolding decode_and_print_events extract_on_events
decode_and_print_events-payload_of rs show_ticks h = (
  print_loop-payload_of rs (length (payload_of rs)) show_ticks (length (payload_of rs)) h
      (omega arith),
  extract_loop-payload_of rs (length (payload_of rs)) (omega arith),
)

-- The payload of a packet that the firmware sends for an event.
pub extract_on_events-event_record :
    (timestamps : Bool) (row col ticks : ℕ)
    → extract_on_events (event_record timestamps 1 row col ticks) ≡ (row, col) ∷ []
unfolding extract_on_events extract_loop event_record nots_fields ticks_fields on_pixel is_on_flag
extract_on_events-event_record true row col ticks = refl
extract_on_events-event_record false row col ticks = refl

-- The pixels of the lines.
abbrev pub printed : List Line → List Event
printed [] = []
printed (on row col _ ∷ ls) = (row, col) ∷ printed ls
printed (unknown_type _ _ ∷ ls) = printed ls

printed-on_line :
    (show_ticks : Bool) (r : Record) (ls : List Line)
    → printed (on_line show_ticks r ++ ls) ≡ on_pixel r ++ printed ls
unfolding on_line on_pixel is_on is_on_flag
printed-on_line show_ticks r ls = elim (Bool-cases (not (bit_and r.flags 1 == 0))) [
  | inl e ↦ rw e refl
  | inr e ↦ rw e refl
]

extract_loop-print_loop :
    (n : ℕ) (show_ticks : Bool) (len : ℕ) (bs : List ℕ)
    → extract_loop n bs ≡ printed (print_loop n show_ticks len bs)
unfolding extract_loop print_loop
extract_loop-print_loop zero show_ticks len bs = refl
extract_loop-print_loop (suc n) show_ticks len [] = refl
extract_loop-print_loop (suc n) show_ticks len (type ∷ bs) = elim (Bool-cases (type == 1)) [
  | inl nots ↦
      rw (nots, extract_loop, print_loop)
        (fields (extract_loop-print_loop n show_ticks len) (nots_fields bs))
  | inr other ↦ elim (Bool-cases (type == 2)) [
    | inl ticks ↦
        rw (other, extract_loop, print_loop)
          (rw ticks (fields (extract_loop-print_loop n show_ticks len) (ticks_fields bs)))
    | inr unknown ↦ rw (other, extract_loop, print_loop) (rw unknown refl)
  ]
]
  where
    fields :
        ((rest : List ℕ) → extract_loop n rest ≡ printed (print_loop n show_ticks len rest))
        → (o : Option (Record × List ℕ))
        → elim o as (λ _. List Event) [
          | none ↦ []
          | some (r, rest) ↦ on_pixel r ++ extract_loop n rest
        ]
          ≡ printed (elim o as (λ _. List Line) [
            | none ↦ []
            | some (r, rest) ↦ on_line show_ticks r ++ print_loop n show_ticks len rest
          ])
    fields ih none = refl
    fields ih (some (r, rest)) =
        ap (λ es. on_pixel r ++ es) (ih rest)
        ∙ sym (printed-on_line show_ticks r (print_loop n show_ticks len rest))

-- The two scripts agree on any payload, also on one that is cut short or that has an unknown record
-- type: view_events.py yields exactly the pixels of the lines that print_events.py prints.
pub extract_on_events-decode_and_print_events :
    (payload : List ℕ) (show_ticks : Bool)
    → extract_on_events payload ≡ printed (decode_and_print_events show_ticks payload)
unfolding decode_and_print_events extract_on_events
extract_on_events-decode_and_print_events payload show_ticks =
    extract_loop-print_loop (length payload) show_ticks (length payload) payload
