-- ===== src/Viewer/Events.antt =====
-- scripts/print_events.py and scripts/view_events.py: what they make of the payload of an event
-- packet, which is a sequence of records.
pub mod Records
use aer_handshake_firmware.Base.{
  ℕ, zero, suc, ◌+◌, ◌*◌, ◌≤◌, ◌≡◌, refl, ap, Bool, Bool-cases, inl, inr, true, false, not, Option,
  none, some, List, [], ◌∷◌, ◌++◌, length, if◌then◌else◌, ◌==◌, bit_and, arith,
}
use aer_handshake_firmware.Burst.{Event}

-- A record: its flags, row and column, and the ticks of one that has them.
pub record Record : Type 0 where
  pub flags : ℕ
  pub row : ℕ
  pub col : ℕ
  pub ticks : Option ℕ

-- The fields after the type, and the bytes after them; `none` where the payload is too short.
pub nots_fields : List ℕ → Option (Record × List ℕ)
nots_fields (flags ∷ (row ∷ (col ∷ rest))) =
    some (record { flags = flags; row = row; col = col; ticks = none }, rest)
nots_fields _ = none

pub ticks_fields : List ℕ → Option (Record × List ℕ)
ticks_fields (flags ∷ (row ∷ (col ∷ (b0 ∷ (b1 ∷ (b2 ∷ (b3 ∷ rest))))))) = some (
  record {
    flags = flags;
    row = row;
    col = col;
    ticks = some (b0 + 256 * b1 + 65536 * b2 + 16777216 * b3);
  },
  rest,
)
ticks_fields _ = none

-- `flags & USB_EVT_FLAG_ON`, as a condition, in print_events.py.
pub is_on : ℕ → Bool
is_on flags = not (bit_and flags 1 == 0)

-- What `decode_and_print_events` prints: a line for an event, or the warning about a record type.
pub data Line : Type 0 where
  on : ℕ → ℕ → Option ℕ → Line
  unknown_type : ℕ → ℕ → Line

abbrev pub shown_ticks : Bool → Option ℕ → Option ℕ
shown_ticks show_ticks ticks = if show_ticks then ticks else none

pub on_line : Bool → Record → List Line
on_line show_ticks r =
    if is_on r.flags then on r.row r.col (shown_ticks show_ticks r.ticks) ∷ [] else []

-- The loop of `decode_and_print_events` on the bytes from `i` on, of a payload of `len` bytes; each
-- round takes at least four bytes, so that as many rounds as there are bytes are enough.
pub print_loop : ℕ → Bool → ℕ → List ℕ → List Line
print_loop zero show_ticks len bs = []
print_loop (suc n) show_ticks len [] = []
print_loop (suc n) show_ticks len (type ∷ bs) = elim (type == 1) [
  | true ↦ elim (nots_fields bs) [
    | none ↦ []
    | some (r, rest) ↦ on_line show_ticks r ++ print_loop n show_ticks len rest
  ]
  | false ↦ elim (type == 2) [
    | true ↦ elim (ticks_fields bs) [
      | none ↦ []
      | some (r, rest) ↦ on_line show_ticks r ++ print_loop n show_ticks len rest
    ]
    | false ↦ unknown_type type len ∷ []
  ]
]

pub decode_and_print_events : Bool → List ℕ → List Line
decode_and_print_events show_ticks payload =
    print_loop (length payload) show_ticks (length payload) payload

-- The same in view_events.py.
pub is_on_flag : ℕ → Bool
is_on_flag flags = not (bit_and flags 1 == 0)

-- The event of a record that is on.
pub on_pixel : Record → List Event
on_pixel r = if is_on_flag r.flags then (r.row, r.col) ∷ [] else []

-- The loop of `extract_on_events`.
pub extract_loop : ℕ → List ℕ → List Event
extract_loop zero bs = []
extract_loop (suc n) [] = []
extract_loop (suc n) (type ∷ bs) = elim (type == 1) [
  | true ↦ elim (nots_fields bs) [ none ↦ [] | some (r, rest) ↦ on_pixel r ++ extract_loop n rest ]
  | false ↦ elim (type == 2) [
    | true ↦ elim (ticks_fields bs) [
      | none ↦ []
      | some (r, rest) ↦ on_pixel r ++ extract_loop n rest
    ]
    | false ↦ []
  ]
]

pub extract_on_events : List ℕ → List Event
extract_on_events payload = extract_loop (length payload) payload
