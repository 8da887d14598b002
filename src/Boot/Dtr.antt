-- ===== src/Boot/Dtr.antt =====
-- The wait for the host's terminal.
use aer_handshake_firmware.Base.{
  ℕ, ◌+◌, ◌≡◌, refl, ◌∙◌, Bool, Bool-cases, inl, inr, true, false, not, none, some, List, [], ◌∷◌,
  ◌++◌, All, if_true, if_false, leb,
}
use aer_handshake_firmware.Boot.{
  Call, gpio_init, gpio_out, gpio_put, Round, cdc_dtr_asserted, wait_dtr, wait_for_usb_dtr_with_led,
}

-- The calls of a wait, newest first, whose last put was `level`: the LED is set up, off, and then
-- toggled.
pub data Blinks (led : ℕ) : Bool → List Call → Type 0 where
  dark : Blinks led false (gpio_put led false ∷ gpio_out led ∷ gpio_init led ∷ [])
  toggled :
      {level : Bool} {calls : List Call}
      → Blinks led level calls
      → Blinks led (not level) (gpio_put led (not level) ∷ calls)

wait_dtr-Blinks :
    (led next : ℕ) (on : Bool) (before : List Round) (r : Round) (after : List Round)
    (calls : List Call)
    → All (λ x. cdc_dtr_asserted x ≡ false) before
    → cdc_dtr_asserted r ≡ true
    → Blinks led on calls
    → (level : Bool) × (blinks : List Call) × Blinks led level blinks
      × (wait_dtr led next on (before ++ r ∷ after) calls ≡ some (gpio_put led true ∷ blinks))
unfolding wait_dtr
wait_dtr-Blinks led next on [] r after calls none_yet seen b =
    (on, calls, b, if_true (cdc_dtr_asserted r) _ _ seen)
wait_dtr-Blinks led next on (x ∷ xs) r after calls none_yet seen b =
    elim (Bool-cases (leb next x.now)) [
      | inl due ↦
          let (level, blinks, bs, e) =
            wait_dtr-Blinks led (x.again + 200000) (not on) xs r after
              (gpio_put led (not on) ∷ calls) none_yet.1 seen (toggled b) in
          (
            level,
            blinks,
            bs,
            if_false (cdc_dtr_asserted x) _ _ none_yet.0 ∙ if_true (leb next x.now) _ _ due ∙ e,
          )
      | inr early ↦
          let (level, blinks, bs, e) =
            wait_dtr-Blinks led next on xs r after calls none_yet.1 seen b in
          (
            level,
            blinks,
            bs,
            if_false (cdc_dtr_asserted x) _ _ none_yet.0 ∙ if_false (leb next x.now) _ _ early ∙ e,
          )
    ]

wait_dtr_waits :
    (led next : ℕ) (on : Bool) (before : List Round) (calls : List Call)
    → All (λ x. cdc_dtr_asserted x ≡ false) before
    → wait_dtr led next on before calls ≡ none
unfolding wait_dtr
wait_dtr_waits led next on [] calls none_yet = refl
wait_dtr_waits led next on (x ∷ xs) calls none_yet =
    if_false (cdc_dtr_asserted x) _ _ none_yet.0 ∙ elim (Bool-cases (leb next x.now)) [
      | inl due ↦
          if_true (leb next x.now) _ _ due
          ∙ wait_dtr_waits led (x.again + 200000) (not on) xs (gpio_put led (not on) ∷ calls)
              none_yet.1
      | inr early ↦
          if_false (leb next x.now) _ _ early ∙ wait_dtr_waits led next on xs calls none_yet.1
    ]

-- `wait_for_usb_dtr_with_led` waits as long as no round has seen DTR, and returns at the first
-- round that has, whatever the times are; the LED has been set up, off at first, then toggled, and
-- is on at the end.
pub wait_for_usb_dtr_with_led-Blinks :
    (led start : ℕ) (before : List Round) (r : Round) (after : List Round)
    → All (λ x. cdc_dtr_asserted x ≡ false) before
    → cdc_dtr_asserted r ≡ true
    → (wait_for_usb_dtr_with_led led start before ≡ none)
      × ((level : Bool) × (blinks : List Call) × Blinks led level blinks
          × (wait_for_usb_dtr_with_led led start (before ++ r ∷ after)
              ≡ some (gpio_put led true ∷ blinks)))
unfolding wait_for_usb_dtr_with_led
wait_for_usb_dtr_with_led-Blinks led start before r after none_yet seen = (
  wait_dtr_waits led (start + 200000) false before _ none_yet,
  wait_dtr-Blinks led (start + 200000) false before r after _ none_yet seen dark,
)
