-- ===== src/Libc/Reads.antt =====
-- What libc's text input reads from a printed number, word or line.
use aer_handshake_firmware.Base.{
  ℕ, zero, suc, ◌+◌, ◌^◌, ◌≤◌, ◌<◌, ◌≡◌, ◌≢◌, refl, ap, sym, ◌∙◌, true, false, some, List, [], ◌∷◌,
  ◌++◌, length, ◌==◌, leb, ltb, All, length-append, append-nil, subst, arith,
}
use aer_handshake_firmware.Base.Decimal.{
  digit_value, numeral, scan, Stops, scan-numeral, IsDigit, numeral_cons,
}
use aer_handshake_firmware.Libc.{
  fgets, is_space, skip_space, sign, matched, scan_unsigned, scan_run, scan_word, radix, strtoul,
}

-- A text that starts with a digit or a letter.
abbrev pub Starts : List ℕ → Type 0
Starts [] = ⊥
Starts (c ∷ cs) = 48 ≤ c

pub skip_space-Starts : (bs : List ℕ) → Starts bs → skip_space bs ≡ bs
unfolding skip_space
skip_space-Starts [] h = absurd h
skip_space-Starts (c ∷ cs) h = ground arith

sign-Starts : (bs : List ℕ) → Starts bs → sign bs ≡ (false, bs)
unfolding sign
sign-Starts [] h = absurd h
sign-Starts (c ∷ cs) h = ground arith

-- The text before the newline is a line.
pub fgets-line :
    (room : ℕ) (line rest : List ℕ)
    → All (λ c. c ≢ 10) line
    → length line < room
    → fgets room (line ++ 10 ∷ rest) ≡ (line ++ 10 ∷ [], rest)
unfolding fgets
fgets-line zero line rest plain short = absurd (omega arith)
fgets-line (suc room) [] rest plain short = refl
fgets-line (suc room) (c ∷ cs) rest plain short =
    rw (other, fgets-line room cs rest plain.1 (omega arith), fgets) refl
  where
    other : (c == 10) ≡ false
    other = ground (arith, plain)

pub fgets_end : (room : ℕ) → fgets (suc room) [] ≡ ([], [])
unfolding fgets
fgets_end room = refl

-- A space before a field is skipped.
pub scan_unsigned_space :
    (limit : ℕ) (bs : List ℕ) → scan_unsigned limit (32 ∷ bs) ≡ scan_unsigned limit bs
unfolding scan_unsigned skip_space
scan_unsigned_space limit bs = refl

pub scan_word_space : (width : ℕ) (bs : List ℕ) → scan_word width (32 ∷ bs) ≡ scan_word width bs
unfolding scan_word skip_space
scan_word_space width bs = refl

-- A line and what is left are together what there was.
pub length-fgets :
    (room : ℕ) (bs : List ℕ) → length (fgets room bs).0 + length (fgets room bs).1 ≡ length bs
unfolding fgets
length-fgets zero bs = omega arith
length-fgets (suc room) [] = omega arith
length-fgets (suc room) (c ∷ cs) = ground (arith, length-fgets room cs)

scan_run-append :
    (width : ℕ) (word rest : List ℕ)
    → All (λ c. 48 ≤ c) word
    → length word ≤ width
    → scan_run width (word ++ 32 ∷ rest) ≡ (word, 32 ∷ rest)
unfolding scan_run
scan_run-append zero [] rest h short = refl
scan_run-append zero (c ∷ cs) rest h short = absurd (omega arith)
scan_run-append (suc width) [] rest h short = refl
scan_run-append (suc width) (c ∷ cs) rest h short =
    rw (no_space, scan_run-append width cs rest h.1 (omega arith), scan_run) refl
  where
    no_space : is_space c ≡ false
    no_space = ground (arith, h)

pub scan_word-append :
    (width : ℕ) (c : ℕ) (cs rest : List ℕ)
    → All (λ c. 48 ≤ c) (c ∷ cs)
    → length (c ∷ cs) ≤ width
    → scan_word width (c ∷ cs ++ 32 ∷ rest) ≡ matched (c ∷ cs) (32 ∷ rest)
unfolding scan_word
scan_word-append width c cs rest h short =
    rw
      (
        skip_space-Starts (c ∷ cs ++ 32 ∷ rest) h.0,
        scan_run-append width (c ∷ cs) rest h short,
        some_bytes,
        scan_word,
      )
      refl
  where
    some_bytes : (suc (length cs) == 0) ≡ false
    some_bytes = ground arith

scan_unsigned-Starts :
    (limit : ℕ) (bs : List ℕ) (n : ℕ) (rest : List ℕ)
    → Starts bs
    → scan 10 0 bs ≡ (n, rest)
    → length rest < length bs
    → n < limit
    → scan_unsigned limit bs ≡ matched n rest
unfolding scan_unsigned
scan_unsigned-Starts limit bs n rest h e less small =
    rw (skip_space-Starts bs h, sign-Starts bs h, e, some_read, in_range, scan_unsigned) refl
  where
    some_read : (length rest == length bs) ≡ false
    some_read = ground (arith, less)

    in_range : leb limit n ≡ false
    in_range = ground (arith, small)

pub scan_unsigned-numeral :
    (limit rounds n : ℕ) (rest : List ℕ)
    → n < limit
    → n < 10 ^ suc rounds
    → Stops 10 rest
    → scan_unsigned limit (numeral 10 (suc rounds) n ++ rest) ≡ matched n rest
scan_unsigned-numeral limit rounds n rest small fits stops =
    let (c, cs, e, all) = numeral_cons 10 (omega arith) (omega arith) rounds n in
    scan_unsigned-Starts limit (numeral 10 (suc rounds) n ++ rest) n rest
      (subst (λ ds. Starts (ds ++ rest)) (sym e) all.0.0)
      (scan-numeral 10 (omega arith) (suc rounds) n rest (omega arith) fits stops)
      (rw (length-append (numeral 10 (suc rounds) n) rest, e) (omega arith)) small

hex_strtoul :
    (c : ℕ) (cs : List ℕ) (n : ℕ)
    → IsDigit 16 c
    → scan 16 0 (c ∷ cs) ≡ (n, [])
    → n < 2 ^ 64
    → strtoul (48 ∷ 120 ∷ c ∷ cs) ≡ some n
unfolding strtoul radix skip_space sign
hex_strtoul c cs n hex e small = rw (is_hex, e, in_range, some_read, strtoul) refl
  where
    some_read : (0 == suc (length cs)) ≡ false
    some_read = ground arith

    is_hex : ltb (digit_value c) 16 ≡ true
    is_hex = ground (arith, hex.1)

    in_range : leb (2 ^ 64) n ≡ false
    in_range = ground (arith, small)

pub strtoul-numeral :
    (rounds n : ℕ)
    → n < 2 ^ 64
    → n < 16 ^ suc rounds
    → strtoul (48 ∷ 120 ∷ numeral 16 (suc rounds) n) ≡ some n
strtoul-numeral rounds n small fits =
    let (c, cs, e, all) = numeral_cons 16 (omega arith) (omega arith) rounds n in
    ap (λ ds. strtoul (48 ∷ 120 ∷ ds)) e
    ∙ hex_strtoul c cs n all.0
        (ap (scan 16 0) (sym (append-nil (numeral 16 (suc rounds) n) ∙ e))
          ∙ scan-numeral 16 (omega arith) (suc rounds) n [] (omega arith) fits tt)
        small
