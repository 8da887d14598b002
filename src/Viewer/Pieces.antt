-- ===== src/Viewer/Pieces.antt =====
-- The viewer gets the packets of the firmware, however their bytes are cut into pieces.
use aer_handshake_firmware.Base.{
  ℕ, zero, suc, ◌+◌, ◌*◌, ◌/◌, ◌%◌, ◌^◌, ◌≤◌, ◌<◌, ◌≡◌, ◌⊎◌, refl, ap, ap₂, sym, ◌∙◌, subst, false,
  Option, none, some, List, [], ◌∷◌, ◌++◌, length, take, All, inl, inr, ltb, u8, u16, append_assoc,
  append-nil, length-append, if_true, if_false, arith,
}
use aer_handshake_firmware.Hal.Stdio.{stream_hdr}
use aer_handshake_firmware.Hal.Stdio.Packets.{take-append, drop-append}
use aer_handshake_firmware.Viewer.{
  Framed, from_magic, keep_last, take_payload, take_packet, read_round, packets,
}

-- The bytes of a packet, and of packets, as `hal_stream_write` writes them.
abbrev pub frame : Framed → List ℕ
frame p = stream_hdr p.ptype (u16 (length p.payload)) ++ p.payload

abbrev pub frames : List Framed → List ℕ
frames [] = []
frames (p ∷ ps) = frame p ++ frames ps

-- A packet that the firmware can write.
pub record Writable (p : Framed) : Type 0 where
  pub version : p.ver ≡ 1
  pub byte : p.ptype < 2 ^ 8
  pub short : length p.payload < 2 ^ 16

abbrev pub joined : List (List ℕ) → List ℕ
joined [] = []
joined (c ∷ cs) = c ++ joined cs

-- Two ways to cut a list: the first part ends within `h`, or after it.
cut :
    (h b r t : List ℕ)
    → b ++ r ≡ h ++ t
    → ((k : ℕ) × (k < length h) × (b ≡ take k h)) ⊎ ((m : List ℕ) × (b ≡ h ++ m) × (m ++ r ≡ t))
cut [] b r t e = inr (b, refl, e)
cut (x ∷ xs) [] r t e = inl (0, omega arith, refl)
cut (x ∷ xs) (y ∷ ys) r t e =
    let same : y ≡ x = cc in
    let rest : ys ++ r ≡ xs ++ t = cc in
    elim (cut xs ys r t rest) [
      | inl (k, lt, q) ↦ inl (suc k, omega arith, ap₂ (λ a l. a ∷ l) same q)
      | inr (m, q, q') ↦ inr (m, ap₂ (λ a l. a ∷ l) same q, q')
    ]

length-take_lt : (k : ℕ) (xs : List ℕ) → k < length xs → length (take k xs) ≡ k
length-take_lt zero xs h = refl
length-take_lt (suc k) [] h = absurd (omega arith)
length-take_lt (suc k) (x ∷ xs) h = ap suc (length-take_lt k xs (omega arith))

-- The length field of a packet, as the viewer reads it.
abbrev plen : Framed → ℕ
plen p = u16 (length p.payload) % 2 ^ 8 + 256 * (u16 (length p.payload) / 2 ^ 8 % 2 ^ 8)

take_payload_short :
    (ver ptype n : ℕ) (bs : List ℕ) → length bs < n → take_payload ver ptype n bs ≡ none
unfolding take_payload
take_payload_short ver ptype n bs h = if_true (ltb (length bs) n) _ _ (ground arith)

take_payload_whole :
    (ver ptype n : ℕ) (payload m : List ℕ)
    → n ≡ length payload
    → take_payload ver ptype n (payload ++ m)
      ≡ some (record { ver = ver; ptype = ptype; payload = payload }, m)
unfolding take_payload
take_payload_whole ver ptype n payload m e =
    ap (λ k. take_payload ver ptype k (payload ++ m)) e
    ∙ if_false (ltb (length (payload ++ m)) (length payload)) _ _ enough
    ∙ ap₂ (λ x y. some (record { ver = ver; ptype = ptype; payload = x }, y))
        (take-append payload m) (drop-append payload m)
  where
    enough : ltb (length (payload ++ m)) (length payload) ≡ false
    enough = rw (length-append payload m) (ground arith)

-- How a round ends on a buffer that starts with the magic.
abbrev ends : List ℕ → Option (Framed × List ℕ) → List ℕ × Option Framed
ends buf o = elim o [ none ↦ (buf, none) | some (packet, rest) ↦ (rest, some packet) ]

-- A part of a packet stays in the buffer.
partial_round :
    (p : Framed) (k : ℕ)
    → Writable p
    → k < length (frame p)
    → read_round [] (take k (frame p)) ≡ (take k (frame p), none)
unfolding read_round from_magic keep_last take_packet
partial_round p zero w h = refl
partial_round p (suc zero) w h = refl
partial_round p (suc (suc zero)) w h = refl
partial_round p (suc (suc (suc zero))) w h = refl
partial_round p (suc (suc (suc (suc zero)))) w h = refl
partial_round p (suc (suc (suc (suc (suc zero))))) w h = refl
partial_round p (suc (suc (suc (suc (suc (suc zero)))))) w h = refl
partial_round p (suc (suc (suc (suc (suc (suc (suc zero))))))) w h = refl
partial_round p (suc (suc (suc (suc (suc (suc (suc (suc k)))))))) w h =
    let cut_off : take_payload 1 (u8 p.ptype) (plen p) (take k p.payload) ≡ none =
      take_payload_short 1 (u8 p.ptype) (plen p) (take k p.payload)
        (omega (arith, length-take_lt k p.payload (omega arith), w.short)) in
    ap (ends (take (suc (suc (suc (suc (suc (suc (suc (suc k)))))))) (frame p))) cut_off

-- A whole packet is returned.
pub whole_round :
    (p : Framed) (m : List ℕ) → Writable p → read_round [] (frame p ++ m) ≡ (m, some p)
unfolding read_round from_magic take_packet
whole_round p m w =
    let got = take_payload_whole 1 (u8 p.ptype) (plen p) p.payload m (omega (arith, w.short)) in
    ap (ends (frame p ++ m)) got
    ∙ (ap₂ (λ v t. (m, some (record { ver = v; ptype = t; payload = p.payload }))) (sym w.version)
        (omega (arith, w.byte)))

-- A round that starts with nothing in the buffer reads what it reads with the buffer in the piece.
pub read_round_start : (buf piece : List ℕ) → read_round buf piece ≡ read_round [] (buf ++ piece)
unfolding read_round
read_round_start buf piece = refl

-- A round on the bytes of the packets that are left.
pub data Round (ps : List Framed) (b r : List ℕ) : Type 0 where
  waits : read_round [] b ≡ (b, none) → (ps ≡ []) ⊎ (length b < length (frames ps)) → Round ps b r
  returns :
      (p : Framed) (qs : List Framed) (m : List ℕ)
      → ps ≡ p ∷ qs
      → read_round [] b ≡ (m, some p)
      → m ++ r ≡ frames qs
      → Round ps b r

pub one_round :
    (ps : List Framed) (b r : List ℕ) → All Writable ps → b ++ r ≡ frames ps → Round ps b r
unfolding read_round from_magic keep_last
one_round [] [] r w e = waits refl (inl refl)
one_round [] (x ∷ b) r w e = absurd (cc)
one_round (p ∷ ps) b r w e = elim (cut (frame p) b r (frames ps) e) [
  | inl (k, short, q) ↦
      waits (subst (λ x. read_round [] x ≡ (x, none)) (sym q) (partial_round p k w.0 short)) (
        inr (
          omega (
            arith,
            ap length q,
            length-take_lt k (frame p) short,
            length-append (frame p) (frames ps),
          )))
  | inr (m, q, left) ↦ returns p ps m refl (ap (read_round []) q ∙ whole_round p m w.0) left
]

-- Reads that time out.
abbrev pub nothing : ℕ → List (List ℕ)
nothing zero = []
nothing (suc n) = [] ∷ nothing n

-- What a round leaves to the rounds after it.
abbrev then : List (List ℕ) → List ℕ × Option Framed → List Framed
then pieces r = elim r.1 [ none ↦ packets r.0 pieces | some p ↦ p ∷ packets r.0 pieces ]

packets_then :
    (buf piece : List ℕ) (pieces : List (List ℕ))
    → packets buf (piece ∷ pieces) ≡ then pieces (read_round [] (buf ++ piece))
unfolding packets
packets_then buf piece pieces = ap (then pieces) (read_round_start buf piece)

-- The same with more such reads.
pub packets_left :
    (ps : List Framed) (pieces : List (List ℕ)) (more : ℕ) (buf : List ℕ)
    → All Writable ps
    → buf ++ joined pieces ≡ frames ps
    → length ps ≤ more
    → packets buf (pieces ++ nothing more) ≡ ps
unfolding packets
packets_left [] [] zero buf w e enough = refl
packets_left (p ∷ ps) [] zero buf w e enough = absurd (omega arith)
packets_left ps [] (suc more) buf w e enough =
    elim (one_round ps (buf ++ []) [] w (append-nil (buf ++ []) ∙ e)) [
      | waits q (inl done) ↦
          packets_then buf [] (nothing more)
          ∙ ap (then (nothing more)) q
          ∙ packets_left ps [] more (buf ++ []) w (append-nil (buf ++ []) ∙ e)
              (omega (arith, ap length done))
      | waits q (inr less) ↦ absurd (omega (arith, ap length e, less))
      | returns p qs m same q left ↦
          packets_then buf [] (nothing more)
          ∙ ap (then (nothing more)) q
          ∙ ap (λ l. p ∷ l)
              (packets_left qs [] more m (subst (All Writable) same w).1 left
                (omega (arith, ap length same)))
          ∙ sym same
    ]
packets_left ps (c ∷ cs) more buf w e enough =
    elim (one_round ps (buf ++ c) (joined cs) w (append_assoc buf c (joined cs) ∙ e)) [
      | waits q _ ↦
          packets_then buf c (cs ++ nothing more)
          ∙ ap (then (cs ++ nothing more)) q
          ∙ packets_left ps cs more (buf ++ c) w (append_assoc buf c (joined cs) ∙ e) enough
      | returns p qs m same q left ↦
          packets_then buf c (cs ++ nothing more)
          ∙ ap (then (cs ++ nothing more)) q
          ∙ ap (λ l. p ∷ l)
              (packets_left qs cs more m (subst (All Writable) same w).1 left
                (omega (arith, ap length same)))
          ∙ sym same
    ]

-- However the bytes of packets that the firmware can write are cut into pieces, the viewer, which
-- starts with an empty buffer, returns exactly these packets, in order, when it has read the pieces
-- and then, for each packet, at most one read that times out.
pub packets-joined :
    (ps : List Framed) (pieces : List (List ℕ))
    → All Writable ps
    → joined pieces ≡ frames ps
    → packets [] (pieces ++ nothing (length ps)) ≡ ps
packets-joined ps pieces w e = packets_left ps pieces (length ps) [] w e (omega arith)
