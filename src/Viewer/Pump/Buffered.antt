-- ===== src/Viewer/Pump/Buffered.antt =====
-- What the pump of scripts/view_events.py shows, and what it leaves in its buffer.
use aer_handshake_firmware.Base.{
  ℕ, ◌<◌, ◌≡◌, ◌≢◌, refl, ap, ap₂, sym, ◌∙◌, Bool, Bool-cases, inl, inr, true, false, ◌&&◌, ◌||◌,
  Option, none, some, List, [], ◌∷◌, ◌++◌, length, length-append, if◌then◌else◌, ltb, ◌==◌,
  append-nil, append_assoc, arith,
}
use aer_handshake_firmware.Burst.{Event}
use aer_handshake_firmware.Viewer.{Framed, read_round}
use aer_handshake_firmware.Viewer.Events.{extract_on_events}
use aer_handshake_firmware.Viewer.Pieces.{
  frame, frames, Writable, joined, whole_round, read_round_start, one_round, Round, waits, returns,
}
use aer_handshake_firmware.Viewer.Pump.{Grid, Turn, read_packet, mark, mark_all, show_packet, pump}

-- Whether the events have one at a pixel of the sensor.
abbrev pub hit : ℕ → ℕ → List Event → Bool
hit r c [] = false
hit r c ((row, col) ∷ es) = (ltb row 32 && ltb col 32 && r == row && c == col) || hit r c es

-- How `read_packet` goes on after a round.
abbrev go_on : List (List ℕ) → List ℕ × Option Framed → Option (List ℕ × Framed)
go_on pieces (buf, packet) = elim packet [ none ↦ read_packet buf pieces | some p ↦ some (buf, p) ]

read_round-none :
    (buf piece : List ℕ) (pieces : List (List ℕ))
    → read_round buf piece ≡ (buf ++ piece, none)
    → read_packet buf (piece ∷ pieces) ≡ read_packet (buf ++ piece) pieces
unfolding read_packet
read_round-none buf piece pieces e = ap (λ x. go_on pieces x) e

read_round-some :
    (buf piece m : List ℕ) (pieces : List (List ℕ)) (p : Framed)
    → read_round buf piece ≡ (m, some p)
    → read_packet buf (piece ∷ pieces) ≡ some (m, p)
unfolding read_packet
read_round-some buf piece m pieces p e = ap (λ x. go_on pieces x) e

append-eq-nil : (xs ys : List ℕ) → xs ++ ys ≡ [] → xs ≡ []
append-eq-nil [] ys e = refl
append-eq-nil (x ∷ xs) ys e = absurd (cc)

-- A packet in pieces of any size is returned, with nothing left.
read_packet_from :
    (pieces : List (List ℕ)) (buf : List ℕ) (p : Framed)
    → Writable p
    → length buf < length (frame p)
    → buf ++ joined pieces ≡ frame p
    → read_packet buf pieces ≡ some ([], p)
read_packet_from [] buf p w h e = absurd (omega (arith, ap length e, length-append {0} buf []))
read_packet_from (piece ∷ pieces) buf p w h e =
    by_round
      (one_round (p ∷ []) (buf ++ piece) (joined pieces) (w, tt)
        (append_assoc buf piece (joined pieces) ∙ e ∙ sym (append-nil (frame p))))
      (λ short.
        read_packet_from pieces (buf ++ piece) p w short
          (append_assoc buf piece (joined pieces) ∙ e))
  where
    by_round :
        Round (p ∷ []) (buf ++ piece) (joined pieces)
        → (length (buf ++ piece) < length (frame p)
            → read_packet (buf ++ piece) pieces ≡ some ([], p))
        → read_packet buf (piece ∷ pieces) ≡ some ([], p)
    by_round (waits r (inl empty)) ih = absurd (cc empty)
    by_round (waits r (inr short)) ih =
        read_round-none buf piece pieces (read_round_start buf piece ∙ r)
        ∙ ih (omega (arith, length-append {0} (frame p) []))
    by_round (returns p' qs m same r left) ih =
        let p_is : p' ≡ p = cc in
        let none_left : qs ≡ [] = cc in
        let m_is = append-eq-nil m (joined pieces) (left ∙ ap frames none_left) in
        read_round-some buf piece m pieces p' (read_round_start buf piece ∙ r)
        ∙ ap₂ (λ b q. some (b, q)) m_is p_is

if_or :
    {A : Type 0} (a b : Bool) (x y : A)
    → (if a then x else if b then x else y) ≡ (if b || a then x else y)
if_or true true x y = refl
if_or true false x y = refl
if_or false true x y = refl
if_or false false x y = refl

module _ {T : Type 0} where
  -- A round that reads the packet `p`, in pieces of any size.
  pub record Brings (t : Turn T) (p : Framed) : Type 0 where
    pub in_time : t.late ≡ false
    pub waiting : t.in_waiting ≢ 0
    pub reads : joined t.reads ≡ frame p

  -- One round for each packet.
  pub data Brought : List (Turn T) → List Framed → Type 0 where
    nothing_more : Brought [] []
    brings :
        {ts : List (Turn T)} {ps : List Framed} (t : Turn T) (p : Framed)
        → Writable p
        → Brings t p
        → Brought ts ps
        → Brought (t ∷ ts) (p ∷ ps)

  pump_packet :
      (t : Turn T) (ts : List (Turn T)) (buf m : List ℕ) (g : Grid T) (p : Framed)
      → t.late ≡ false
      → t.in_waiting ≢ 0
      → read_packet buf t.reads ≡ some (m, p)
      → pump (t ∷ ts) buf g ≡ pump ts m (show_packet t.now g p)
  unfolding pump
  pump_packet t ts buf m g p h nz e =
      let waiting : (t.in_waiting == 0) ≡ false = ground arith in
      rw (h, pump) (rw waiting (rw e refl))

  pump_stop :
      (t : Turn T) (ts : List (Turn T)) (buf : List ℕ) (g : Grid T)
      → t.in_waiting ≡ 0
      → pump (t ∷ ts) buf g ≡ some (buf, g)
  unfolding pump
  pump_stop t ts buf g z =
      let waiting : (t.in_waiting == 0) ≡ true = ground arith in
      elim (Bool-cases t.late) [
        | inl e ↦ rw (e, pump) refl
        | inr e ↦ rw (e, pump) (rw waiting refl)
      ]

  -- When the pixel was last seen: in the last of the rounds whose packet is of events and has one
  -- at the pixel, or else before.
  abbrev pub last_hit : ℕ → ℕ → List (Turn T) → List Framed → Option T → Option T
  last_hit r c [] ps before = before
  last_hit r c (t ∷ ts) [] before = before
  last_hit r c (t ∷ ts) (p ∷ ps) before =
      last_hit r c ts ps
        (if p.ptype == 2 && hit r c (extract_on_events p.payload) then some t.now else before)

  mark-hit :
      (now : T) (g : Grid T) (row col r c : ℕ)
      → mark now g (row, col) r c
        ≡ (if ltb row 32 && ltb col 32 && r == row && c == col then some now else g r c)
  unfolding mark
  mark-hit now g row col r c = ground arith

  mark_all-hit :
      (now : T) (g : Grid T) (es : List Event) (r c : ℕ)
      → mark_all now g es r c ≡ (if hit r c es then some now else g r c)
  mark_all-hit now g [] r c = refl
  mark_all-hit now g ((row, col) ∷ es) r c =
      mark_all-hit now (mark now g (row, col)) es r c
      ∙ ap (λ o. if hit r c es then some now else o) (mark-hit now g row col r c)
      ∙ if_or (hit r c es) (ltb row 32 && ltb col 32 && r == row && c == col) (some now) (g r c)

  show_packet-hit :
      (now : T) (g : Grid T) (p : Framed) (r c : ℕ)
      → show_packet now g p r c
        ≡ (if p.ptype == 2 && hit r c (extract_on_events p.payload) then some now else g r c)
  unfolding show_packet
  show_packet-hit now g p r c = elim (Bool-cases (p.ptype == 2)) [
    | inl e ↦ rw (e, show_packet) (mark_all-hit now g (extract_on_events p.payload) r c)
    | inr e ↦ rw (e, show_packet) refl
  ]

  -- Where each round of the pump of view_events.py reads the bytes of one packet, in pieces of any
  -- size, until nothing is waiting any more: the pump ends with an empty buffer, and has noted for
  -- each pixel the time of the last round whose packet is of events and has one that is on at the
  -- pixel, and has left alone what was noted for the others.
  pub pump-last_hit :
      {ts : List (Turn T)} {ps : List Framed} (u : Turn T) (us : List (Turn T)) (g : Grid T)
      → Brought ts ps
      → u.in_waiting ≡ 0
      → (g' : Grid T) × (pump (ts ++ u ∷ us) [] g ≡ some ([], g'))
        × ((r c : ℕ) → g' r c ≡ last_hit r c ts ps (g r c))
  pump-last_hit u us g nothing_more z = (g, pump_stop u us [] g z, λ r c. refl)
  pump-last_hit u us g (brings {ts} {ps} t p w b more) z =
      let (g', run, seen) = pump-last_hit u us (show_packet t.now g p) more z in
      (
        g',
        pump_packet t (ts ++ u ∷ us) [] [] g p b.in_time b.waiting
              (read_packet_from t.reads [] p w (omega arith) b.reads)
            ∙ run,
        λ r c. seen r c ∙ ap (last_hit r c ts ps) (show_packet-hit t.now g p r c),
      )

  -- Where a round reads a packet and what follows it in one piece, such as the packets `qs`, the
  -- pump of view_events.py shows the packet and keeps the rest in its buffer. As long as nothing
  -- new is waiting, no later pump shows any of it.
  pub pump-one_piece :
      (t u : Turn T) (us : List (Turn T)) (p : Framed) (qs : List Framed) (g : Grid T)
      → t.late ≡ false
      → t.in_waiting ≢ 0
      → t.reads ≡ frames (p ∷ qs) ∷ []
      → u.in_waiting ≡ 0
      → Writable p
      → (pump (t ∷ (u ∷ us)) [] g ≡ some (frames qs, show_packet t.now g p))
        × (pump (u ∷ us) (frames qs) (show_packet t.now g p)
            ≡ some (frames qs, show_packet t.now g p))
  pump-one_piece t u us p qs g h nz e z w =
      let after = show_packet t.now g p in
      let stops = pump_stop u us (frames qs) after z in
      (
        pump_packet t (u ∷ us) [] (frames qs) g p h nz (
              ap (read_packet []) e
              ∙ read_round-some [] (frames (p ∷ qs)) (frames qs) [] p (whole_round p (frames qs) w))
            ∙ stops,
        stops,
      )
