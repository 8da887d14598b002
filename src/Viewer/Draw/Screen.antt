-- ===== src/Viewer/Draw/Screen.antt =====
-- The screen after the squares of scripts/view_events.py have been drawn, point by point.
use aer_handshake_firmware.Base.{
  ℕ, zero, suc, ◌+◌, ◌*◌, ◌/◌, ◌<◌, ◌≤◌, ◌≡◌, refl, ◌∙◌, sym, subst, ap₂, Bool, true, false, ◌&&◌,
  ◌||◌, Bool-cases, inl, inr, Option, none, some, List, [], ◌∷◌, ◌++◌, if◌then◌else◌, ltb, leb,
  ◌==◌, arith,
}
use native.Mathlib.Nat.{
  div-mul-le_self, lt-div-mul-add, div-eq_of_lt-le, suc-mul, div-lt_iff_lt-mul,
}
use aer_handshake_firmware.Viewer.Pump.{Grid}
use aer_handshake_firmware.Viewer.Draw.{
  ℤ, Floats, Square, pixel, is_color, and_then, draw_pixel, draw_row, draw_rows, draw,
}

abbrev covers : Square → ℕ → ℕ → Bool
covers sq x y = (leb sq.x x && ltb x (sq.x + sq.side)) && (leb sq.y y && ltb y (sq.y + sq.side))

-- What a point shows after the squares have been drawn, one over the other.
pub paint : ℕ → ℕ → List Square → ℤ → ℤ
paint x y [] shown = shown
paint x y (sq ∷ squares) shown = paint x y squares (if covers sq x y then sq.intensity else shown)

abbrev pub or_else : Option ℤ → ℤ → ℤ
or_else none shown = shown
or_else (some i) shown = i

paint-append :
    (x y : ℕ) (xs ys : List Square) (shown : ℤ)
    → paint x y (xs ++ ys) shown ≡ paint x y ys (paint x y xs shown)
unfolding paint
paint-append x y [] ys shown = refl
paint-append x y (sq ∷ xs) ys shown = paint-append x y xs ys _

-- A point lies in the interval of the pixel that its division by the side gives.
in_interval : (side c x : ℕ) → c * side ≤ x → x < c * side + side → x / side ≡ c
in_interval side c x from_left to_right =
    let up : c + 1 ≡ suc c = omega arith in
    let next : (c + 1) * side ≡ c * side + side = rw up (suc-mul c side) in
    div-eq_of_lt-le side from_left (subst (λ k. x < k) (sym next) to_right)

in_pixel :
    (side c x : ℕ) → 0 < side → (leb (c * side) x && ltb x (c * side + side)) ≡ (c == x / side)
in_pixel side c x big = elim (Bool-cases (c == x / side)) [
  | inl e ↦
      let same : c ≡ x / side = ground arith in
      rw e (rw same (ground (arith, div-mul-le_self x side, lt-div-mul-add {a = x} big)))
  | inr e ↦ rw e (ground (arith, in_interval side c x))
]

-- An intensity that is not refused, where there is one.
abbrev pub Color : Option ℤ → Type 0
Color none = Unit
Color (some i) = is_color i ≡ true

-- Two layers of the same, each where it is drawn.
layers :
    (first later either : Bool) (o : Option ℤ) (shown : ℤ)
    → either ≡ (first || later)
    → (let under = if first then or_else o shown else shown in
        if later then or_else o under else under)
      ≡ (if either then or_else o shown else shown)
layers true true either none shown e = rw e refl
layers true true either (some i) shown e = rw e refl
layers true false either o shown e = rw e refl
layers false later either o shown e = rw e refl

module _ (fl : Floats) (scale decay : ℕ) (visible : 0 < scale) (now : fl.Float)
    (g : Grid fl.Float) where
  -- What a pixel of the sensor shows over a point.
  abbrev pub pixel_over : ℕ → ℕ → ℤ → ℤ
  pixel_over r c shown = or_else (pixel fl scale decay now (g r c)) shown

  -- The squares, where none is refused.
  abbrev squares_pixel : ℕ → ℕ → List Square
  squares_pixel r c = elim (pixel fl scale decay now (g r c)) [
    | none ↦ []
    | some i ↦ record { x = c * scale; y = r * scale; side = scale; intensity = i } ∷ []
  ]

  abbrev squares_row : ℕ → ℕ → ℕ → List Square
  squares_row r zero c = []
  squares_row r (suc n) c = squares_pixel r c ++ squares_row r n (c + 1)

  abbrev squares_rows : ℕ → ℕ → List Square
  squares_rows zero r = []
  squares_rows (suc n) r = squares_row r 32 0 ++ squares_rows n (r + 1)

  paint_square :
      (x y r c : ℕ) (o : Option ℤ) (shown : ℤ)
      → paint x y
          (elim o [
            | none ↦ []
            | some i ↦ record { x = c * scale; y = r * scale; side = scale; intensity = i } ∷ []
          ])
          shown
        ≡ (if c == x / scale && r == y / scale then or_else o shown else shown)
  unfolding paint
  paint_square x y r c none shown = ground arith
  paint_square x y r c (some i) shown =
      rw (in_pixel scale c x visible, in_pixel scale r y visible) refl

  paint-squares_pixel :
      (x y r c : ℕ) (shown : ℤ)
      → paint x y (squares_pixel r c) shown ≡ (
          if c == x / scale && r == y / scale
          then pixel_over (y / scale) (x / scale) shown
          else shown)
  paint-squares_pixel x y r c shown =
      paint_square x y r c (pixel fl scale decay now (g r c)) shown
      ∙ elim (Bool-cases (c == x / scale && r == y / scale)) [
        | inl e ↦
            let col : c ≡ x / scale = ground arith in
            let row : r ≡ y / scale = ground arith in rw (col, row) refl
        | inr e ↦ rw e refl
      ]

  paint-squares_row :
      (x y r n c : ℕ) (shown : ℤ)
      → paint x y (squares_row r n c) shown ≡ (
          if (leb c (x / scale) && ltb (x / scale) (c + n)) && r == y / scale
          then pixel_over (y / scale) (x / scale) shown
          else shown)
  unfolding paint
  paint-squares_row x y r zero c shown = ground arith
  paint-squares_row x y r (suc n) c shown =
      paint-append x y (squares_pixel r c) (squares_row r n (c + 1)) shown
      ∙ paint-squares_row x y r n (c + 1) _
      ∙ rw (paint-squares_pixel x y r c shown) (
          layers (c == x / scale && r == y / scale)
            ((leb (c + 1) (x / scale) && ltb (x / scale) (c + 1 + n)) && r == y / scale)
            ((leb c (x / scale) && ltb (x / scale) (c + suc n)) && r == y / scale)
            (pixel fl scale decay now (g (y / scale) (x / scale))) shown (ground arith))

  paint-squares_rows :
      (x y n r : ℕ) (shown : ℤ)
      → x / scale < 32
      → paint x y (squares_rows n r) shown ≡ (
          if leb r (y / scale) && ltb (y / scale) (r + n)
          then pixel_over (y / scale) (x / scale) shown
          else shown)
  unfolding paint
  paint-squares_rows x y zero r shown inside = ground arith
  paint-squares_rows x y (suc n) r shown inside =
      paint-append x y (squares_row r 32 0) (squares_rows n (r + 1)) shown
      ∙ paint-squares_rows x y n (r + 1) _ inside
      ∙ rw (paint-squares_row x y r 32 0 shown) (
          layers ((leb 0 (x / scale) && ltb (x / scale) (0 + 32)) && r == y / scale)
            (leb (r + 1) (y / scale) && ltb (y / scale) (r + 1 + n))
            (leb r (y / scale) && ltb (y / scale) (r + suc n))
            (pixel fl scale decay now (g (y / scale) (x / scale))) shown (ground arith))

  paint-squares :
      (x y : ℕ) (shown : ℤ)
      → x < 32 * scale
      → y < 32 * scale
      → paint x y (squares_rows 32 0) shown ≡ pixel_over (y / scale) (x / scale) shown
  paint-squares x y shown inside above =
      let col = (div-lt_iff_lt-mul {k = scale} {x = x} {y = 32} visible).1 inside in
      let row = (div-lt_iff_lt-mul {k = scale} {x = y} {y = 32} visible).1 above in
      let all_rows : (leb 0 (y / scale) && ltb (y / scale) (0 + 32)) ≡ true = ground arith in
      paint-squares_rows x y 32 0 shown col ∙ rw all_rows refl

  module _ (colors : (r c : ℕ) → Color (pixel fl scale decay now (g r c))) where
    draw_pixel-squares : (r c : ℕ) → draw_pixel fl scale decay now g r c ≡ some (squares_pixel r c)
    unfolding draw_pixel
    draw_pixel-squares r c = drawn (pixel fl scale decay now (g r c)) (colors r c)
      where
        drawn :
            (o : Option ℤ)
            → Color o
            → elim o as (λ _. Option (List Square)) [
              | none ↦ some []
              | some i ↦
                  if is_color i
                  then some
                      (record { x = c * scale; y = r * scale; side = scale; intensity = i } ∷ [])
                  else none
            ]
              ≡ some (elim o as (λ _. List Square) [
                | none ↦ []
                | some i ↦ record { x = c * scale; y = r * scale; side = scale; intensity = i } ∷ []
              ])
        drawn none fine = refl
        drawn (some i) fine = rw fine refl

    draw_row-squares : (r n c : ℕ) → draw_row fl scale decay now g r n c ≡ some (squares_row r n c)
    unfolding draw_row
    draw_row-squares r zero c = refl
    draw_row-squares r (suc n) c =
        ap₂ and_then (draw_pixel-squares r c) (draw_row-squares r n (c + 1))

    draw_rows-squares : (n r : ℕ) → draw_rows fl scale decay now g n r ≡ some (squares_rows n r)
    unfolding draw_rows
    draw_rows-squares zero r = refl
    draw_rows-squares (suc n) r =
        ap₂ and_then (draw_row-squares r 32 0) (draw_rows-squares n (r + 1))

    -- Where the pixels have a size and no intensity is refused, the drawing returns, and a point of
    -- the window of 32 by 32 pixels shows after it the intensity of its pixel, whose column and row
    -- are its coordinates divided by the size, and what it has shown before where the pixel has not
    -- been seen or has faded.
    pub paint-draw :
        (x y : ℕ) (shown : ℤ)
        → x < 32 * scale
        → y < 32 * scale
        → (squares : List Square) × (draw fl scale decay now g ≡ some squares)
          × (paint x y squares shown ≡ pixel_over (y / scale) (x / scale) shown)
    unfolding draw
    paint-draw x y shown inside above =
        (squares_rows 32 0, draw_rows-squares 32 0, paint-squares x y shown inside above)
