-- ===== src/Base/Decimal.antt =====
-- Numbers as the text of their digits in a base, as `printf` writes them, and back.
use Prim.Native.Nat.{ℕ, zero, suc, ◌+◌, ◌-◌, ◌*◌, ◌/◌, ◌%◌, ◌^◌, ◌≤◌, ◌<◌}
use mathlib.Core.Path.{◌≡◌, refl, ap, sym, ◌∙◌, subst}
use mathlib.Core.List.{List, [], ◌∷◌, ◌++◌, map}
use mathlib.Core.Bool.{◌&&◌, true}
use mathlib.Core.Option.{Option, none, some}
use native.Mathlib.Omega.{arith}
use mathlib.Core.Logic.{inl, inr}
use native.Mathlib.Nat.{mod-lt, div-add-mod', mod-eq_of_lt, div-lt_iff_lt-mul, pow-suc, pow-zero}
use aer_handshake_firmware.Base.Compare.{ltb, leb, if◌then◌else◌, Bool-cases, ◌==◌, ==_iff}
use aer_handshake_firmware.Base.Words.{all_below_sound}
use aer_handshake_firmware.Base.Lists.{length, All, length-append, All-append}

-- The digits of a number, highest first, given as many rounds as it may have digits.
unfoldable pub digits : ℕ → ℕ → ℕ → List ℕ
digits base zero n = []
digits base (suc rounds) n =
    let more = digits base rounds (n / base) in (if ltb n base then [] else more) ++ n % base ∷ []

-- The value of digits.
pub value_from : ℕ → ℕ → List ℕ → ℕ
value_from base acc [] = acc
value_from base acc (d ∷ ds) = value_from base (acc * base + d) ds

value_from-append :
    (base acc : ℕ) (xs ys : List ℕ)
    → value_from base acc (xs ++ ys) ≡ value_from base (value_from base acc xs) ys
unfolding value_from
value_from-append base acc [] ys = refl
value_from-append base acc (x ∷ xs) ys = value_from-append base (acc * base + x) xs ys

module _ (base : ℕ) (two : 2 ≤ base) where
  length-digits-le : (rounds n : ℕ) → length (digits base rounds n) ≤ rounds
  unfolding digits
  length-digits-le zero n = omega arith
  length-digits-le (suc rounds) n =
      let ih = length-digits-le rounds (n / base) in
      elim (Bool-cases (ltb n base)) [
        | inl e ↦ rw (e, digits) (omega arith)
        | inr e ↦
            rw (e, length-append (digits base rounds (n / base)) (n % base ∷ []))
              (omega (arith, ih))
      ]

  digits_small : (rounds n : ℕ) → All (λ d. d < base) (digits base rounds n)
  unfolding digits
  digits_small zero n = tt
  digits_small (suc rounds) n = elim (Bool-cases (ltb n base)) [
    | inl e ↦ rw e (mod-lt n (omega arith), tt)
    | inr e ↦ rw e (
        All-append (λ d. d < base) (digits base rounds (n / base)) (n % base ∷ [])
          (digits_small rounds (n / base)) (mod-lt n (omega arith), tt))
  ]

  -- Reading the digits gives the number back.
  value_from-digits :
      (rounds n : ℕ) → n < base ^ rounds → value_from base 0 (digits base rounds n) ≡ n
  unfolding digits value_from
  value_from-digits zero n h = omega (arith, pow-zero base)
  value_from-digits (suc rounds) n h = elim (Bool-cases (ltb n base)) [
    | inl e ↦ rw e (omega (arith, mod-eq_of_lt {n = n} {m = base} (ground arith)))
    | inr e ↦
        rw
          (
            e,
            value_from-append base 0 (digits base rounds (n / base)) (n % base ∷ []),
            value_from-digits rounds (n / base)
                ((div-lt_iff_lt-mul (omega arith)).1 (rw (sym (pow-suc base rounds)) h)),
          )
          (div-add-mod' n base)
  ]

-- What a character counts as a digit, as in C's `strtoul`; 36 for any other.
abbrev pub digit_value : ℕ → ℕ
digit_value c =
    if leb 48 c && leb c 57
    then c - 48
    else if leb 97 c && leb c 122
    then c - 87
    else if leb 65 c && leb c 90
    then c - 55
    else 36

-- The digit that a character stands for in a base.
abbrev pub digit_of : ℕ → ℕ → Option ℕ
digit_of base c = if ltb (digit_value c) base then some (digit_value c) else none

-- The character of a digit.
abbrev pub digit_char : ℕ → ℕ
digit_char d = if ltb d 10 then 48 + d else 87 + d

-- A number in a base, as text.
abbrev pub numeral : ℕ → ℕ → ℕ → List ℕ
numeral base rounds n = map digit_char (digits base rounds n)

-- The number that the longest prefix of digits stands for, and the rest.
pub scan : ℕ → ℕ → List ℕ → ℕ × List ℕ
scan base acc [] = (acc, [])
scan base acc (c ∷ cs) = elim (digit_of base c) [
  | none ↦ (acc, c ∷ cs)
  | some d ↦ scan base (acc * base + d) cs
]

-- A text that starts with no digit.
abbrev pub Stops : ℕ → List ℕ → Type 0
Stops base [] = Unit
Stops base (c ∷ cs) = digit_of base c ≡ none

pub digit_value-digit_char : (d : ℕ) → d < 16 → digit_value (digit_char d) ≡ d
digit_value-digit_char d h =
    (==_iff (digit_value (digit_char d)) d).0
      (all_below_sound 16 (λ x. digit_value (digit_char x) == x) d refl h)

module _ (base : ℕ) (le16 : base ≤ 16) where
  digit_of-digit_char : (d : ℕ) → d < base → digit_of base (digit_char d) ≡ some d
  digit_of-digit_char d h = rw (digit_value-digit_char d (omega arith), h') refl
    where
      h' : ltb d base ≡ true
      h' = ground arith

  scan-map :
      (acc : ℕ) (ds rest : List ℕ)
      → All (λ d. d < base) ds
      → Stops base rest
      → scan base acc (map digit_char ds ++ rest) ≡ (value_from base acc ds, rest)
  unfolding scan value_from
  scan-map acc [] [] small stops = refl
  scan-map acc [] (c ∷ cs) small stops = rw (stops, scan) refl
  scan-map acc (d ∷ ds) rest small stops =
      rw (digit_of-digit_char d small.0, scan) (scan-map (acc * base + d) ds rest small.1 stops)

  -- A number that is written is read back.
  pub scan-numeral :
      (rounds n : ℕ) (rest : List ℕ)
      → 2 ≤ base
      → n < base ^ rounds
      → Stops base rest
      → scan base 0 (numeral base rounds n ++ rest) ≡ (n, rest)
  scan-numeral rounds n rest two h stops =
      scan-map 0 (digits base rounds n) rest (digits_small base two rounds n) stops
      ∙ ap (λ v. (v, rest)) (value_from-digits base two rounds n h)

-- A character that a numeral has.
abbrev pub IsDigit : ℕ → ℕ → Type 0
IsDigit base c = (48 ≤ c) × (digit_value c < base)

append_cons : (xs : List ℕ) (x : ℕ) → (y : ℕ) × (ys : List ℕ) × (xs ++ x ∷ [] ≡ y ∷ ys)
append_cons [] x = (x, [], refl)
append_cons (y ∷ ys) x = (y, ys ++ x ∷ [], refl)

module _ (base : ℕ) (two : 2 ≤ base) (le16 : base ≤ 16) where
  digit_char-IsDigit : (d : ℕ) → d < base → IsDigit base (digit_char d)
  digit_char-IsDigit d h = (ground arith, rw (digit_value-digit_char d (omega arith)) h)

  map-IsDigit : (ds : List ℕ) → All (λ d. d < base) ds → All (IsDigit base) (map digit_char ds)
  map-IsDigit [] h = tt
  map-IsDigit (d ∷ ds) h = (digit_char-IsDigit d h.0, map-IsDigit ds h.1)

  pub numeral-IsDigit : (rounds n : ℕ) → All (IsDigit base) (numeral base rounds n)
  numeral-IsDigit rounds n = map-IsDigit (digits base rounds n) (digits_small base two rounds n)

  -- A numeral has a first character, and all are digits.
  pub numeral_cons :
      (rounds n : ℕ)
      → (c : ℕ) × (cs : List ℕ) × (numeral base (suc rounds) n ≡ c ∷ cs)
        × All (IsDigit base) (c ∷ cs)
  unfolding digits
  numeral_cons rounds n =
      let (d, ds, e) =
        append_cons (if ltb n base then [] else digits base rounds (n / base)) (n % base) in
      (
        digit_char d,
        map digit_char ds,
        ap (map digit_char) e,
        map-IsDigit (d ∷ ds) (subst (All (λ d. d < base)) e (digits_small base two (suc rounds) n)),
      )

length-map : (f : ℕ → ℕ) (xs : List ℕ) → length (map f xs) ≡ length xs
length-map f [] = refl
length-map f (x ∷ xs) = ap suc (length-map f xs)

pub length-numeral-le : (base rounds n : ℕ) → 2 ≤ base → length (numeral base rounds n) ≤ rounds
length-numeral-le base rounds n two =
    omega (arith, length-map digit_char (digits base rounds n), length-digits-le base two rounds n)
