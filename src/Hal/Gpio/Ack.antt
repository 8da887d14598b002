-- ===== src/Hal/Gpio/Ack.antt =====
-- Writes of ACK by hal_gpio_ack_write of pico_aer_rx/hal/hal_gpio.c, between its hal_gpio_init and
-- hal_gpio_idle.
use aer_handshake_firmware.Base.{
  ℕ, ◌+◌, ◌<◌, ◌≤◌, ◌≡◌, refl, ◌∙◌, sym, subst, ap, Bool, true, false, not, some, List, [], ◌∷◌,
  ◌++◌, if◌then◌else◌, ◌==◌, Bool-cases, inl, inr, arith,
}
use aer_handshake_firmware.Hal.Gpio.{
  GpioCfg, Gpio, PinCall, init, init-calls, idle, ack_write, ack_is_asserted,
  ack_level_for_asserted, read_pin,
}
use aer_handshake_firmware.Hal.Gpio.Sdk.{Pin, Chip, make_calls, drive_ack, drive_acks}
use aer_handshake_firmware.Hal.Gpio.Drive.{
  is_data, pin_after_init, pin_after_idle, init_pins, idle_pins,
}

-- The idle function takes back what writes of ACK have done to a pin of a fresh initialisation.
idle_again :
    (cfg : GpioCfg) (q : ℕ) (old : Pin) (high : Bool)
    → is_data cfg cfg.ack_pin ≡ false
    → (let set_up = pin_after_init cfg q old in
        pin_after_idle cfg q (if q == cfg.ack_pin then record set_up { level = high } else set_up))
      ≡ pin_after_init cfg q old
idle_again cfg q old high apart = elim (Bool-cases (q == cfg.ack_pin)) [
  | inl e ↦
      let same : q ≡ cfg.ack_pin = ground arith in
      rw (e, subst (λ p. is_data cfg p ≡ false) (sym same) apart) refl
  | inr e ↦ elim (Bool-cases (is_data cfg q)) [ inl d ↦ rw (e, d) refl | inr d ↦ rw (e, d) refl ]
]

-- What is driven for a level that the polarity asks for is read back as that.
polarity :
    (active_high asserted : Bool)
    → (let level = if active_high then asserted else not asserted in
        if active_high then level else not level)
      ≡ asserted
polarity true asserted = refl
polarity false true = refl
polarity false false = refl

module _ (c : Chip) where
  open c use {State, pin, pin-gpio_put}

  -- Writes of ACK set the level of its pin only, to that of the last one.
  pin-drive_acks :
      (g : Gpio) (writes : List Bool) (s : State) (q : ℕ)
      → (high : Bool) × (pin (drive_acks c g writes s) q
          ≡ (if q == g.cfg.ack_pin then record (pin s q) { level = high } else pin s q))
  unfolding drive_acks drive_ack
  pin-drive_acks g [] s q = ((pin s q).level, ground arith)
  pin-drive_acks g (asserted ∷ writes) s q =
      let (high, same) = pin-drive_acks g writes (drive_ack c g asserted s) q in
      (high, rw (same, pin-gpio_put g.cfg.ack_pin (ack_write g asserted) s q) (ground arith))

  -- The last write of ACK is what a snapshot that shows the level of its pin is read as.
  ack_is_asserted-drive_ack :
      (g : Gpio) (asserted : Bool) (s : State) (all : ℕ)
      → read_pin all g.cfg.ack_pin ≡ (pin (drive_ack c g asserted s) g.cfg.ack_pin).level
      → ack_is_asserted g all ≡ asserted
  unfolding ack_is_asserted drive_ack ack_write ack_level_for_asserted
  ack_is_asserted-drive_ack g asserted s all shown =
      let same : (g.cfg.ack_pin == g.cfg.ack_pin) ≡ true = ground arith in
      let put = pin-gpio_put g.cfg.ack_pin (ack_write g asserted) s g.cfg.ack_pin in
      let level : read_pin all g.cfg.ack_pin ≡ ack_write g asserted = shown ∙ rw (put, same) refl in
      rw level (polarity g.cfg.ack_active_high asserted)

  -- Writes of ACK and the idle function, from a pin of a fresh initialisation.
  idle_driven :
      (g : Gpio) (writes : List Bool) (s : State) (old : Pin) (q : ℕ)
      → g.inited ≡ true
      → g.cfg.data_base + g.cfg.data_width ≤ 64
      → g.cfg.ack_pin < 64
      → is_data g.cfg g.cfg.ack_pin ≡ false
      → pin s q ≡ pin_after_init g.cfg q old
      → pin (make_calls c (idle g) (drive_acks c g writes s)) q ≡ pin_after_init g.cfg q old
  idle_driven g writes s old q ready fits exists apart fresh =
      let (high, driven) = pin-drive_acks g writes s q in
      rw (idle_pins c g (drive_acks c g writes s) q ready fits exists, driven, fresh)
        (idle_again g.cfg q old high apart)

  -- The initialisation, writes of ACK, then the idle function.
  idle-drive_acks :
      (g g' : Gpio) (cfg : GpioCfg) (calls : List PinCall) (s : State) (writes : List Bool) (q : ℕ)
      → init g (some cfg) ≡ some (g', calls)
      → cfg.data_base + cfg.data_width ≤ 64
      → cfg.ack_pin < 64
      → is_data cfg cfg.ack_pin ≡ false
      → pin (make_calls c (idle g') (drive_acks c g' writes (make_calls c calls s))) q
        ≡ pin (make_calls c calls s) q
  idle-drive_acks g g' cfg calls s writes q e fits exists apart =
      let (_, same, ready) = init-calls g g' cfg calls e in
      let set_up = make_calls c calls s in
      let fresh : pin set_up q ≡ pin_after_init g'.cfg q (pin s q) =
        subst (λ k. pin set_up q ≡ pin_after_init k q (pin s q)) (sym same)
          (init_pins c g g' cfg calls s q e fits exists) in
      let fits' = subst (λ k. k.data_base + k.data_width ≤ 64) (sym same) fits in
      let exists' = subst (λ k. k.ack_pin < 64) (sym same) exists in
      let apart' = subst (λ k. is_data k k.ack_pin ≡ false) (sym same) apart in
      idle_driven g' writes set_up (pin s q) q ready fits' exists' apart' fresh ∙ sym fresh

  drive_acks-append :
      (g : Gpio) (writes : List Bool) (asserted : Bool) (s : State)
      → drive_acks c g (writes ++ (asserted ∷ [])) s
        ≡ drive_ack c g asserted (drive_acks c g writes s)
  unfolding drive_acks
  drive_acks-append g [] asserted s = refl
  drive_acks-append g (x ∷ writes) asserted s =
      drive_acks-append g writes asserted (drive_ack c g x s)

  -- After an initialisation that returns, with pins that exist and ACK outside the DATA pins, and
  -- any writes of ACK, where `all` is a snapshot that shows the level of the ACK pin: ACK is read
  -- as the last write has asked for, whatever the polarity, and `hal_gpio_idle` puts every pin of
  -- the chip back to what the initialisation had left.
  pub drive_acks_lem :
      (g g' : Gpio) (cfg : GpioCfg) (calls : List PinCall) (s : State) (writes : List Bool)
      (asserted : Bool) (all q : ℕ)
      → init g (some cfg) ≡ some (g', calls)
      → cfg.data_base + cfg.data_width ≤ 64
      → cfg.ack_pin < 64
      → is_data cfg cfg.ack_pin ≡ false
      → read_pin all g'.cfg.ack_pin
        ≡ (pin
            (drive_acks c g' (writes ++ (asserted ∷ [])) (make_calls c calls s))
            g'.cfg.ack_pin).level
      → (ack_is_asserted g' all ≡ asserted)
        × (pin
              (make_calls c
                (idle g')
                (drive_acks c g' (writes ++ (asserted ∷ [])) (make_calls c calls s)))
              q
            ≡ pin (make_calls c calls s) q)
  drive_acks_lem g g' cfg calls s writes asserted all q e fits exists apart shown =
      let last = drive_acks-append g' writes asserted (make_calls c calls s) in
      (
        ack_is_asserted-drive_ack g' asserted (drive_acks c g' writes (make_calls c calls s)) all
            (shown ∙ ap (λ t. (pin t g'.cfg.ack_pin).level) last),
        idle-drive_acks g g' cfg calls s (writes ++ (asserted ∷ [])) q e fits exists apart,
      )
