-- ===== src/Viewer/Draw.antt =====
-- scripts/view_events.py: the picture that the main loop draws, a square for each pixel of the
-- sensor that has been seen and has not faded. Python's floats are a parameter.
pub mod Screen
pub mod Hits
pub mod Picture
use aer_handshake_firmware.Base.{
  ℕ, zero, suc, ◌+◌, ◌*◌, ◌/◌, ◌<◌, ◌≤◌, ◌≡◌, refl, Bool, true, false, ◌&&◌, Option, none, some,
  List, [], ◌∷◌, ◌++◌, if◌then◌else◌, ltb, leb, ◌==◌, leb, false, arith,
}
use native.Mathlib.Nat.{div-mul-le_self, lt-div-mul-add, div-eq_of_lt-le}
use aer_handshake_firmware.Viewer.Pump.{Grid}

-- Python's integers.
pub data ℤ : Type 0 where
  pos : ℕ → ℤ
  negsuc : ℕ → ℤ

-- Python's floats: what the script does with them.
pub record Floats : Type 1 where
  pub Float : Type 0
  pub of_int : ℕ → Float
  pub sub : Float → Float → Float
  pub mul : Float → Float → Float
  pub div : Float → Float → Float
  pub ge : Float → Float → Bool
  pub int : Float → ℤ

-- A grey square, as `pygame.draw.rect` gets it.
pub record Square : Type 0 where
  pub x : ℕ
  pub y : ℕ
  pub side : ℕ
  pub intensity : ℤ

-- `pygame.draw.rect` raises an exception for an intensity that is not one of 0 to 255.
abbrev pub is_color : ℤ → Bool
is_color (pos n) = leb n 255
is_color (negsuc n) = false

-- What is drawn first and what is drawn then, where nothing is refused.
abbrev pub and_then : Option (List Square) → Option (List Square) → Option (List Square)
and_then none later = none
and_then (some squares) none = none
and_then (some squares) (some later) = some (squares ++ later)

-- `--persist` is an alias for `--decay-ms 0`.
pub decay_ms : Bool → ℕ → ℕ
decay_ms persist decay = if persist then 0 else decay

module _ (fl : Floats) (scale decay : ℕ) where
  open fl use {Float, of_int, sub, mul, div, ge, int}

  -- How bright a pixel is that was seen at `t`; `none` where it has faded.
  pub fade : Float → Float → Option ℤ
  fade now t =
      if decay == 0
      then some (pos 255)
      else (let age_ms = mul (sub now t) (of_int 1000) in
          if ge age_ms (of_int decay)
          then none
          else some (int (mul (of_int 255) (sub (of_int 1) (div age_ms (of_int decay))))))

  -- The intensity of a pixel, from when it was last seen.
  pub pixel : Float → Option Float → Option ℤ
  pixel now none = none
  pixel now (some t) = fade now t

  -- The body of the loop over the columns.
  pub draw_pixel : Float → Grid Float → ℕ → ℕ → Option (List Square)
  draw_pixel now g r c = elim (pixel now (g r c)) [
    | none ↦ some []
    | some i ↦
        if is_color i
        then some (record { x = c * scale; y = r * scale; side = scale; intensity = i } ∷ [])
        else none
  ]

  -- The loop over the columns, with `n` of them to go from `c` on.
  pub draw_row : Float → Grid Float → ℕ → ℕ → ℕ → Option (List Square)
  draw_row now g r zero c = some []
  draw_row now g r (suc n) c = and_then (draw_pixel now g r c) (draw_row now g r n (c + 1))

  -- The loop over the rows.
  pub draw_rows : Float → Grid Float → ℕ → ℕ → Option (List Square)
  draw_rows now g zero r = some []
  draw_rows now g (suc n) r = and_then (draw_row now g r 32 0) (draw_rows now g n (r + 1))

  -- The squares in their order, or `none` where one is refused, which ends the script.
  pub draw : Float → Grid Float → Option (List Square)
  draw now g = draw_rows now g 32 0
