-- ===== src/Libc.antt =====
-- What the sources use of libc's text input: fgets, the conversions of sscanf, and strtoul with
-- base 0. A text is the list of its bytes; the end of a list stands for a NUL or the end of the
-- file.
pub mod Reads
use aer_handshake_firmware.Base.{
  ℕ, zero, suc, ◌+◌, ◌-◌, ◌*◌, ◌%◌, ◌^◌, Bool, true, false, not, ◌&&◌, ◌||◌, Option, none, some,
  List, [], ◌∷◌, ◌++◌, length, if◌then◌else◌, ◌==◌, leb, ltb,
}
use aer_handshake_firmware.Base.Decimal.{scan, digit_value}

-- `fgets` with room for so many bytes and a NUL: the bytes up to a newline, it included, and the
-- bytes that are left.
pub fgets : ℕ → List ℕ → List ℕ × List ℕ
fgets zero bs = ([], bs)
fgets (suc room) [] = ([], [])
fgets (suc room) (c ∷ cs) =
    let (line, rest) = fgets room cs in if c == 10 then (c ∷ [], cs) else (c ∷ line, rest)

-- `isspace`
abbrev pub is_space : ℕ → Bool
is_space c = c == 32 || (leb 9 c && leb c 13)

pub skip_space : List ℕ → List ℕ
skip_space [] = []
skip_space (c ∷ cs) = let rest = skip_space cs in if is_space c then rest else c ∷ cs

-- An optional sign: whether it is a minus, and the rest.
pub sign : List ℕ → Bool × List ℕ
sign [] = (false, [])
sign (c ∷ cs) = if c == 45 then (true, cs) else if c == 43 then (false, cs) else (false, c ∷ cs)

-- The outcome of a conversion: its value and what follows; nothing that matches; or a value that
-- the type cannot hold, for which C defines no behaviour.
pub data Field (A : Type 0) : Type 0 where
  matched : A → List ℕ → Field A
  mismatch : Field A
  out_of_range : Field A

-- `%u` or `%llu`, with numbers below the limit.
pub scan_unsigned : ℕ → List ℕ → Field ℕ
scan_unsigned limit bs =
    let (minus, ds) = sign (skip_space bs) in
    let (v, rest) = scan 10 0 ds in
    if length rest == length ds
    then mismatch
    else if leb limit v
    then out_of_range
    else matched (if minus then (limit - v) % limit else v) rest

-- The longest run of bytes that are no space, up to a width.
pub scan_run : ℕ → List ℕ → List ℕ × List ℕ
scan_run zero bs = ([], bs)
scan_run (suc width) [] = ([], [])
scan_run (suc width) (c ∷ cs) =
    let (word, rest) = scan_run width cs in if is_space c then ([], c ∷ cs) else (c ∷ word, rest)

-- `%<width>s`
pub scan_word : ℕ → List ℕ → Field (List ℕ)
scan_word width bs =
    let (word, rest) = scan_run width (skip_space bs) in
    if length word == 0 then mismatch else matched word rest

-- The base that `strtoul` with base 0 reads in, and where its digits start: "0x" before a hex digit
-- means 16, another 0 means 8, anything else 10.
pub radix : List ℕ → ℕ × List ℕ
radix [] = (10, [])
radix (c ∷ []) = (if c == 48 then 8 else 10, c ∷ [])
radix (c ∷ (x ∷ [])) = (if c == 48 then 8 else 10, c ∷ x ∷ [])
radix (c ∷ (x ∷ (d ∷ ds))) =
    if c == 48 && ((x == 120 || x == 88) && ltb (digit_value d) 16)
    then (16, d ∷ ds)
    else (if c == 48 then 8 else 10, c ∷ x ∷ d ∷ ds)

-- `strtoul(text, &end, 0)` with a 64-bit `unsigned long`: `none` where no digit is read and `end`
-- is the start.
pub strtoul : List ℕ → Option ℕ
strtoul text =
    let (minus, ds) = sign (skip_space text) in
    let (base, digits) = radix ds in
    let (v, rest) = scan base 0 digits in
    if length rest == length digits
    then none
    else some (if leb (2 ^ 64) v then 2 ^ 64 - 1 else if minus then (2 ^ 64 - v) % 2 ^ 64 else v)
