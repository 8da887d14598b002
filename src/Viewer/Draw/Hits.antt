-- ===== src/Viewer/Draw/Hits.antt =====
-- The picture of scripts/view_events.py with --persist as the packets have it: which pixels have
-- been hit, whatever the order of the events and however often.
use aer_handshake_firmware.Base.{
  ℕ, ◌≡◌, refl, ◌∙◌, Bool, true, false, ◌&&◌, ◌||◌, Bool-cases, inl, inr, List, [], ◌∷◌, ◌++◌,
  if◌then◌else◌, ◌==◌, arith,
}
use mathlib.Core.Bool.{Bool-set}
use mathlib.Core.List.{Perm, Permᴰ}
use mathlib.Core.Logic.{∥∥₁_elim}
use mathlib.Core.Quot
use mathlib.Core.Quot.{Quot, Quot-set}
use aer_handshake_firmware.Burst.{Event}
use aer_handshake_firmware.Viewer.{Framed}
use aer_handshake_firmware.Viewer.Events.{extract_on_events}
use aer_handshake_firmware.Viewer.Pump.Buffered.{hit}
use aer_handshake_firmware.Viewer.Draw.{ℤ}

-- The events of the packets of events, in order.
abbrev pub events_of : List Framed → List Event
events_of [] = []
events_of (p ∷ ps) = (if p.ptype == 2 then extract_on_events p.payload else []) ++ events_of ps

-- Whether a packet of events hits a pixel.
abbrev pub shows : ℕ → ℕ → Framed → Bool
shows r c p = p.ptype == 2 && hit r c (extract_on_events p.payload)

-- Two lists of events hit the same pixels.
abbrev pub SameHits : List Event → List Event → Type 0
SameHits es fs = (r c : ℕ) → hit r c es ≡ hit r c fs

abbrev pub Picture : Type 0
Picture = Quot SameHits

-- Whether a pixel of the picture is on.
pub lit : ℕ → ℕ → Picture → Bool
lit r c = Quot.lift Bool-set (hit r c) (λ es fs same. same r c)

pub picture : List Framed → Picture
picture ps = Quot.mk (events_of ps)

pub lit-picture : (r c : ℕ) (ps : List Framed) → lit r c (picture ps) ≡ hit r c (events_of ps)
unfolding lit picture
lit-picture r c ps = refl

hit-append : (r c : ℕ) (es fs : List Event) → hit r c (es ++ fs) ≡ (hit r c es || hit r c fs)
hit-append r c [] fs = refl
hit-append r c ((row, col) ∷ es) fs = ground (arith, hit-append r c es fs)

or_swap : (a b c : Bool) → (a || (b || c)) ≡ (b || (a || c))
or_swap true true c = refl
or_swap true false c = refl
or_swap false true c = refl
or_swap false false c = refl

-- The order of the packets does not matter.
pub hit-events_of :
    (r c : ℕ) (p : Framed) (ps : List Framed)
    → hit r c (events_of (p ∷ ps)) ≡ (shows r c p || hit r c (events_of ps))
hit-events_of r c p ps =
    hit-append r c (if p.ptype == 2 then extract_on_events p.payload else []) (events_of ps)
    ∙ elim (Bool-cases (p.ptype == 2)) [ inl e ↦ rw e refl | inr e ↦ rw e refl ]

events_of-SameHits : {ps qs : List Framed} → Permᴰ ps qs → SameHits (events_of ps) (events_of qs)
events_of-SameHits Permᴰ.nil r c = refl
events_of-SameHits (Permᴰ.cons {a} {b} {l₁} {l₂} e rest) r c =
    rw (hit-events_of r c a l₁, hit-events_of r c b l₂, e, events_of-SameHits rest r c) refl
events_of-SameHits (Permᴰ.swap {a} {b} {a'} {b'} {l} e f) r c =
    rw
      (
        hit-events_of r c a (b ∷ l),
        hit-events_of r c b l,
        hit-events_of r c a' (b' ∷ l),
        hit-events_of r c b' l,
        e,
        f,
      )
      (or_swap (shows r c b') (shows r c a') (hit r c (events_of l)))
events_of-SameHits (Permᴰ.trans first second) r c =
    events_of-SameHits first r c ∙ events_of-SameHits second r c

pub picture-Perm : {ps qs : List Framed} → Perm ps qs → picture ps ≡ picture qs
unfolding picture
picture-Perm {ps} {qs} order =
    ∥∥₁_elim order (Quot-set (picture ps) (picture qs))
      (λ steps. Quot.sound (events_of-SameHits steps))

pub either_lights :
    (first later : Bool) (on off : ℤ)
    → (if later then on else if first then on else off) ≡ (if first || later then on else off)
either_lights true true on off = refl
either_lights true false on off = refl
either_lights false later on off = refl
