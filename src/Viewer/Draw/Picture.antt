-- ===== src/Viewer/Draw/Picture.antt =====
-- The picture of scripts/view_events.py: how bright each pixel is; and with --persist, that it is
-- as the packets have it.
use aer_handshake_firmware.Base.{
  ℕ, ◌*◌, ◌/◌, ◌<◌, ◌≡◌, refl, subst, sym, leb, All, ◌∙◌, ap, true, Bool-cases, inl, inr, Option,
  none, some, List, [], ◌∷◌, ◌++◌, if◌then◌else◌, ◌==◌, arith,
}
use mathlib.Core.List.{Perm}
use aer_handshake_firmware.Viewer.{Framed}
use aer_handshake_firmware.Viewer.Pump.{Grid, Turn, pump}
use aer_handshake_firmware.Viewer.Pump.Buffered.{
  hit, last_hit, Brought, nothing_more, brings, pump-last_hit,
}
use aer_handshake_firmware.Viewer.Draw.{
  ℤ, pos, Floats, Square, is_color, fade, pixel, draw, decay_ms,
}
use aer_handshake_firmware.Viewer.Draw.Screen.{paint, or_else, Color, paint-draw}
use aer_handshake_firmware.Viewer.Draw.Hits.{
  events_of, shows, lit, picture, lit-picture, hit-events_of, picture-Perm, either_lights,
}

-- The intensity that view_events.py means for a pixel: black where it has never been seen, white
-- where nothing decays, and else by its age in milliseconds, from 255 down to black.
abbrev pub shade : (fl : Floats) → ℕ → fl.Float → Option fl.Float → ℤ
shade fl decay now none = pos 0
shade fl decay now (some t) =
    let age = fl.mul (fl.sub now t) (fl.of_int 1000) in
    if decay == 0
    then pos 255
    else (if fl.ge age (fl.of_int decay)
        then pos 0
        else fl.int (fl.mul (fl.of_int 255) (fl.sub (fl.of_int 1) (fl.div age (fl.of_int decay)))))

-- A number from 0 to 255.
abbrev pub InByte : ℤ → Type 0
InByte i = (n : ℕ) × (n < 256) × (i ≡ pos n)

InByte-is_color : (i : ℤ) → InByte i → is_color i ≡ true
InByte-is_color i (n, small, e) = let fits : leb n 255 ≡ true = ground arith in rw e fits

module _ (fl : Floats) (scale decay : ℕ) (now : fl.Float) where
  pixel-shade :
      (o : Option fl.Float) → or_else (pixel fl scale decay now o) (pos 0) ≡ shade fl decay now o
  unfolding pixel fade
  pixel-shade none = refl
  pixel-shade (some t) = elim (Bool-cases (decay == 0)) [
    | inl e ↦ rw e refl
    | inr e ↦
        rw e (elim (Bool-cases (fl.ge (fl.mul (fl.sub now t) (fl.of_int 1000)) (fl.of_int decay))) [
          | inl old ↦ rw old refl
          | inr young ↦ rw young refl
        ])
  ]

  pixel-Color :
      (t : fl.Float)
      → InByte (shade fl decay now (some t))
      → Color (pixel fl scale decay now (some t))
  unfolding pixel fade
  pixel-Color t = elim (Bool-cases (decay == 0)) [
    | inl e ↦ rw e (λ b. refl)
    | inr e ↦
        rw e (elim (Bool-cases (fl.ge (fl.mul (fl.sub now t) (fl.of_int 1000)) (fl.of_int decay))) [
          | inl old ↦ rw old (λ b. tt)
          | inr young ↦ rw young (λ b. InByte-is_color _ b)
        ])
  ]

  last_hit-Color :
      (r c : ℕ) {ts : List (Turn fl.Float)} {ps : List Framed} (before : Option fl.Float)
      → Brought ts ps
      → All (λ (t : Turn fl.Float). InByte (shade fl decay now (some t.now))) ts
      → Color (pixel fl scale decay now before)
      → Color (pixel fl scale decay now (last_hit r c ts ps before))
  last_hit-Color r c before nothing_more bright fine = fine
  last_hit-Color r c before (brings {ts} {ps} t p w b more) bright fine =
      last_hit-Color r c (if shows r c p then some t.now else before) more bright.1
        (elim (Bool-cases (shows r c p)) [
          | inl e ↦ rw e (pixel-Color t.now bright.0)
          | inr e ↦ rw e fine
        ])

module _ (fl : Floats) (scale decay : ℕ) (visible : 0 < scale) (now : fl.Float) where
  -- What a pixel shows on the black screen with `--persist`, from when it was last seen.
  shown_at : Option fl.Float → ℤ
  shown_at seen = or_else (pixel fl scale (decay_ms true decay) now seen) (pos 0)

  shown_at-some : (t : fl.Float) → shown_at (some t) ≡ pos 255
  unfolding shown_at pixel fade decay_ms
  shown_at-some t = refl

  -- White is not refused.
  persist-Color : (o : Option fl.Float) → Color (pixel fl scale (decay_ms true decay) now o)
  unfolding pixel fade decay_ms
  persist-Color none = tt
  persist-Color (some t) = refl

  shown_at-last_hit :
      (r c : ℕ) {ts : List (Turn fl.Float)} {ps : List Framed} (before : Option fl.Float)
      → Brought ts ps
      → shown_at (last_hit r c ts ps before)
        ≡ (if hit r c (events_of ps) then pos 255 else shown_at before)
  shown_at-last_hit r c before nothing_more = refl
  shown_at-last_hit r c before (brings {ts} {ps} t p w b more) =
      let seen = if shows r c p then some t.now else before in
      let this : shown_at seen ≡ (if shows r c p then pos 255 else shown_at before) =
        elim (Bool-cases (shows r c p)) [
          | inl e ↦ rw e (shown_at-some t.now)
          | inr e ↦ rw e refl
        ] in
      rw (shown_at-last_hit r c seen more, this, hit-events_of r c p ps)
        (either_lights (shows r c p) (hit r c (events_of ps)) (pos 255) (shown_at before))

  persist_squares :
      {ts : List (Turn fl.Float)} {ps : List Framed} (qs : List Framed) (g : Grid fl.Float)
      (x y : ℕ)
      → Brought ts ps
      → ((r c : ℕ) → g r c ≡ last_hit r c ts ps none)
      → Perm ps qs
      → x < 32 * scale
      → y < 32 * scale
      → (squares : List Square) × (draw fl scale (decay_ms true decay) now g ≡ some squares)
        × (paint x y squares (pos 0)
            ≡ (if lit (y / scale) (x / scale) (picture qs) then pos 255 else pos 0))
  unfolding shown_at pixel
  persist_squares qs g x y b seen order inside above =
      let r = y / scale in
      let c = x / scale in
      let (squares, drawn, point) =
        paint-draw fl scale (decay_ms true decay) visible now g (λ r c. persist-Color (g r c)) x y
          (pos 0) inside above in
      (
        squares,
        drawn,
        point
            ∙ ap shown_at (seen r c)
            ∙ shown_at-last_hit r c none b
            ∙ ap (λ on. if on then pos 255 else pos 0) (sym (lit-picture r c _))
            ∙ ap (λ p. if lit r c p then pos 255 else pos 0) (picture-Perm order),
      )

  -- The picture with `--persist`, whatever the clock does.
  pub pump-persist :
      {ts : List (Turn fl.Float)} {ps : List Framed} (qs : List Framed) (u : Turn fl.Float)
      (us : List (Turn fl.Float)) (x y : ℕ)
      → Brought ts ps
      → u.in_waiting ≡ 0
      → Perm ps qs
      → x < 32 * scale
      → y < 32 * scale
      → (g : Grid fl.Float) × (pump (ts ++ u ∷ us) [] (λ r c. none) ≡ some ([], g))
        × ((squares : List Square) × (draw fl scale (decay_ms true decay) now g ≡ some squares)
            × (paint x y squares (pos 0)
                ≡ (if lit (y / scale) (x / scale) (picture qs) then pos 255 else pos 0)))
  pump-persist qs u us x y b z order inside above =
      let (g, run, seen) = pump-last_hit u us (λ r c. none) b z in
      (g, run, persist_squares qs g x y b seen order inside above)

  -- Where view_events.py starts with no pixel seen and each round of the pump reads the bytes of
  -- one packet, in pieces of any size, until nothing is waiting any more, the pixels have a size,
  -- and at the time of the drawing the shade of each time of a round is one of 0 to 255 (a clock
  -- that is set back can give more): the next drawing returns, and a point of the window of 32 by
  -- 32 pixels shows after it the shade of when its pixel was last seen, which is black where it has
  -- not been, white where nothing decays, black at an age in milliseconds of the decay and more,
  -- and else 255 * (1 - age / decay) as an integer; and with `--persist` the drawing returns too,
  -- and the point is white or black as the picture of the packets has it, in any order of the
  -- packets.
  pub pump-draw :
      {ts : List (Turn fl.Float)} {ps : List Framed} (qs : List Framed) (u : Turn fl.Float)
      (us : List (Turn fl.Float)) (x y : ℕ)
      → Brought ts ps
      → u.in_waiting ≡ 0
      → Perm ps qs
      → All (λ (t : Turn fl.Float). InByte (shade fl decay now (some t.now))) ts
      → x < 32 * scale
      → y < 32 * scale
      → (g : Grid fl.Float) × (pump (ts ++ u ∷ us) [] (λ r c. none) ≡ some ([], g))
        × ((squares : List Square) × (draw fl scale decay now g ≡ some squares)
            × (paint x y squares (pos 0)
                ≡ shade fl decay now (last_hit (y / scale) (x / scale) ts ps none)))
        × ((squares : List Square) × (draw fl scale (decay_ms true decay) now g ≡ some squares)
            × (paint x y squares (pos 0)
                ≡ (if lit (y / scale) (x / scale) (picture qs) then pos 255 else pos 0)))
  unfolding pixel
  pump-draw {ts} {ps} qs u us x y b z order bright inside above =
      let (g, run, seen) = pump-last_hit u us (λ r c. none) b z in
      let colors = λ (r c : ℕ).
        subst (λ o. Color (pixel fl scale decay now o)) (sym (seen r c))
          (last_hit-Color fl scale decay now r c none b bright tt) in
      let (squares, drawn, point) =
        paint-draw fl scale decay visible now g colors x y (pos 0) inside above in
      (
        g,
        run,
        (
          squares,
          drawn,
          point
              ∙ pixel-shade fl scale decay now (g (y / scale) (x / scale))
              ∙ ap (shade fl decay now) (seen (y / scale) (x / scale)),
        ),
        persist_squares qs g x y b seen order inside above,
      )
