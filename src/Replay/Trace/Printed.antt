-- ===== src/Replay/Trace/Printed.antt =====
-- The trace format that the comment of `aer_waveform_load_file` describes, printed, and that the
-- loader reads it.
use aer_handshake_firmware.Base.{
  ℕ, suc, ◌^◌, ◌≤◌, ◌<◌, ◌≡◌, ◌⊎◌, refl, ap, sym, ◌∙◌, subst, Bool, true, false, List, [], ◌∷◌,
  ◌++◌, length, inl, inr, append_assoc, append-nil, length-append, All, All-append, All-map,
  indicator, ◌==◌, arith,
}
use aer_handshake_firmware.Base.Decimal.{
  numeral, numeral-IsDigit, numeral_cons, length-numeral-le, IsDigit,
}
use aer_handshake_firmware.Hal.Stdio.{until_nul}
use aer_handshake_firmware.Libc.{matched, scan_unsigned, scan_word}
use aer_handshake_firmware.Libc.Reads.{
  Starts, scan_unsigned_space, scan_word_space, scan_unsigned-numeral, scan_word-append,
}
use aer_handshake_firmware.Waveform.{Sample}
use aer_handshake_firmware.Replay.Trace.{skip_blanks, is_skipped, commas_to_spaces, scan_fields}

-- "<ack>", "<data> <ack>" and "<t> 0x<data> <ack>", in front of what follows.
abbrev ack_text : Sample → List ℕ → List ℕ
ack_text s tail = numeral 10 1 (indicator s.ack) ++ tail

abbrev data_text : Sample → List ℕ → List ℕ
data_text s tail = numeral 16 8 s.data_word ++ 32 ∷ ack_text s tail

abbrev pub print_fields : Sample → List ℕ → List ℕ
print_fields s tail = numeral 10 20 s.t ++ 32 ∷ 48 ∷ 120 ∷ data_text s tail

-- A line for each sample.
abbrev pub print_trace : List Sample → List ℕ
print_trace [] = []
print_trace (s ∷ ss) = print_fields s (10 ∷ print_trace ss)

-- A byte that the loader leaves as it is.
abbrev pub Plain : ℕ → Type 0
Plain c = (c ≡ 32) ⊎ (48 ≤ c)

digit-Plain : (base c : ℕ) → IsDigit base c → Plain c
digit-Plain base c h = inr h.0

numeral-Plain : (base rounds n : ℕ) → 2 ≤ base → base ≤ 16 → All Plain (numeral base rounds n)
numeral-Plain base rounds n two le =
    All-map (IsDigit base) Plain (numeral base rounds n) (digit-Plain base)
      (numeral-IsDigit base two le rounds n)

pub print_fields-Plain : (s : Sample) → All Plain (print_fields s [])
print_fields-Plain s =
    let num = λ (base rounds n : ℕ) (two : 2 ≤ base) (le : base ≤ 16) (rest : List ℕ).
      All-append Plain (numeral base rounds n) rest (numeral-Plain base rounds n two le) in
    num 10 20 s.t (omega arith) (omega arith) _ (
      inl refl,
      (
        inr (omega arith),
        (
          inr (omega arith),
          num 16 8 s.data_word (omega arith) (omega arith) _
              (inl refl, num 10 1 (indicator s.ack) (omega arith) (omega arith) [] tt),
        ),
      ),
    )

pub print_fields-append :
    (s : Sample) (tail : List ℕ) → print_fields s tail ≡ print_fields s [] ++ tail
print_fields-append s tail =
    let acks : ack_text s tail ≡ ack_text s [] ++ tail =
      ap (λ bs. bs ++ tail) (sym (append-nil (numeral 10 1 (indicator s.ack)))) in
    let datas : data_text s tail ≡ data_text s [] ++ tail =
      ap (λ bs. numeral 16 8 s.data_word ++ 32 ∷ bs) acks
      ∙ sym (append_assoc (numeral 16 8 s.data_word) (32 ∷ ack_text s []) tail) in
    ap (λ bs. numeral 10 20 s.t ++ 32 ∷ 48 ∷ 120 ∷ bs) datas
    ∙ sym (append_assoc (numeral 10 20 s.t) (32 ∷ 48 ∷ 120 ∷ data_text s []) tail)

numeral-Starts :
    (base rounds n : ℕ) (tail : List ℕ)
    → 2 ≤ base
    → base ≤ 16
    → Starts (numeral base (suc rounds) n ++ tail)
numeral-Starts base rounds n tail two le =
    let (c, cs, e, all) = numeral_cons base two le rounds n in
    subst (λ (ds : List ℕ). Starts (ds ++ tail)) (sym e) all.0.0

pub print_fields-Starts : (s : Sample) (tail : List ℕ) → Starts (print_fields s tail)
print_fields-Starts s tail =
    numeral-Starts 10 19 s.t (32 ∷ 48 ∷ 120 ∷ data_text s tail) (omega arith) (omega arith)

pub length-print_fields-le : (s : Sample) → length (print_fields s []) ≤ 33
length-print_fields-le s = omega (
  arith,
  length-append (numeral 10 20 s.t) (32 ∷ 48 ∷ 120 ∷ data_text s []),
  length-append (numeral 16 8 s.data_word) (32 ∷ ack_text s []),
  length-append (numeral 10 1 (indicator s.ack)) [],
  length-numeral-le 10 20 s.t (omega arith),
  length-numeral-le 16 8 s.data_word (omega arith),
  length-numeral-le 10 1 (indicator s.ack) (omega arith),
)

pub until_nul-Plain : (bs : List ℕ) → All Plain bs → until_nul (bs ++ 10 ∷ []) ≡ bs ++ 10 ∷ []
until_nul-Plain [] h = refl
until_nul-Plain (b ∷ bs) h = rw (no_nul, until_nul-Plain bs h.1) refl
  where
    no_nul : (b == 0) ≡ false
    no_nul = ground (arith, h.0)

pub commas_to_spaces-Plain :
    (bs : List ℕ) → All Plain bs → commas_to_spaces (bs ++ 10 ∷ []) ≡ bs ++ 10 ∷ []
unfolding commas_to_spaces
commas_to_spaces-Plain [] h = refl
commas_to_spaces-Plain (b ∷ bs) h = rw (no_comma, commas_to_spaces-Plain bs h.1) refl
  where
    no_comma : (b == 44) ≡ false
    no_comma = ground (arith, h.0)

pub skip_blanks-Starts : (bs : List ℕ) → Starts bs → skip_blanks bs ≡ bs
unfolding skip_blanks
skip_blanks-Starts [] h = absurd h
skip_blanks-Starts (b ∷ bs) h = ground arith

pub is_skipped-Starts : (bs : List ℕ) → Starts bs → is_skipped bs ≡ false
unfolding is_skipped
is_skipped-Starts [] h = absurd h
is_skipped-Starts (b ∷ bs) h = ground arith

fields :
    (p p1 p2 p3 : List ℕ) (t a : ℕ) (word : List ℕ)
    → scan_unsigned (2 ^ 64) p ≡ matched t p1
    → scan_word 63 p1 ≡ matched word p2
    → scan_unsigned (2 ^ 32) p2 ≡ matched a p3
    → scan_fields p ≡ matched (record { t = t; data_str = word; ack_u = a }) p3
unfolding scan_fields
fields p p1 p2 p3 t a word first second third = rw (first, second, third, scan_fields) refl

indicator-lt : (b : Bool) → indicator b < 2
indicator-lt true = omega arith
indicator-lt false = omega arith

-- The three fields of a printed line.
pub scan_fields-print_fields :
    (s : Sample) (tail : List ℕ)
    → s.t < 2 ^ 64
    → s.data_word < 2 ^ 32
    → scan_fields (print_fields s (10 ∷ tail))
      ≡ matched
          (record {
            t = s.t;
            data_str = 48 ∷ 120 ∷ numeral 16 8 s.data_word;
            ack_u = indicator s.ack;
          })
          (10 ∷ tail)
scan_fields-print_fields s tail h hd =
    let acks = ack_text s (10 ∷ tail) in
    let datas = data_text s (10 ∷ tail) in
    let digits_only =
      All-map (IsDigit 16) (λ c. 48 ≤ c) (numeral 16 8 s.data_word) (λ c d. d.0)
        (numeral-IsDigit 16 (omega arith) (omega arith) 8 s.data_word) in
    fields (print_fields s (10 ∷ tail)) (32 ∷ 48 ∷ 120 ∷ datas) (32 ∷ acks) (10 ∷ tail) s.t
      (indicator s.ack) (48 ∷ 120 ∷ numeral 16 8 s.data_word)
      (scan_unsigned-numeral (2 ^ 64) 19 s.t (32 ∷ 48 ∷ 120 ∷ datas) h (omega arith) refl)
      (scan_word_space 63 (48 ∷ 120 ∷ datas)
        ∙ scan_word-append 63 48 (120 ∷ numeral 16 8 s.data_word) acks
            (omega arith, (omega arith, digits_only))
            (omega (arith, length-numeral-le 16 8 s.data_word (omega arith))))
      (scan_unsigned_space (2 ^ 32) acks
        ∙ scan_unsigned-numeral (2 ^ 32) 0 (indicator s.ack) (10 ∷ tail)
            (omega (arith, indicator-lt s.ack)) (omega (arith, indicator-lt s.ack)) refl)
