-- ===== src/Base/Bits.antt =====
-- `&` with a mask of low or high ones and `|` of flags, as arithmetic at variables: the operations
-- themselves compute at numerals only.
use Prim.Native.Nat.{
  ℕ, zero, suc, ◌+◌, ◌*◌, ◌/◌, ◌%◌, ◌^◌, ◌≤◌, ◌<◌, min, max, bit_and, bit_or, digits,
  bit_and-bitwise, bit_or-bitwise,
}
use mathlib.Core.Path.{◌≡◌, refl, ap}
use native.Mathlib.Nat.{pow-suc, one-le-pow, le_refl}
use native.Mathlib.Omega.{arith}

-- Any two counts that cover the first number's digits give the same result.
module _ (z : ℕ → ℕ) (f : ℕ → ℕ → ℕ) where
  enough : (n m a b : ℕ) → a ≤ n → a ≤ m → digits z f n a b ≡ digits z f m a b
  enough zero zero a b p q = refl
  enough zero (suc m) zero b p q = refl
  enough (suc n) zero zero b p q = refl
  enough (suc n) (suc m) zero b p q = refl
  enough zero (suc m) (suc a) b p q = absurd (omega arith)
  enough (suc n) zero (suc a) b p q = absurd (omega arith)
  enough (suc n) (suc m) (suc a) b p q =
      ap (λ r. r * 2 + f (suc a % 2) (b % 2))
        (enough n m (suc a / 2) (b / 2) (omega arith) (omega arith))

  lowest :
      (a b : ℕ)
      → digits z f (suc a) (suc a) b
        ≡ digits z f (suc a / 2) (suc a / 2) (b / 2) * 2 + f (suc a % 2) (b % 2)
  lowest a b =
      ap (λ r. r * 2 + f (suc a % 2) (b % 2))
        (enough a (suc a / 2) (suc a / 2) (b / 2) (omega arith) (le_refl _))

and_step : (a b : ℕ) → bit_and a b ≡ bit_and (a / 2) (b / 2) * 2 + min (a % 2) (b % 2)
and_step zero b = simp bit_and-bitwise (omega arith)
and_step (suc a) b = simp bit_and-bitwise (lowest (λ y. 0) min a b)

or_step : (a b : ℕ) → bit_or a b ≡ bit_or (a / 2) (b / 2) * 2 + max (a % 2) (b % 2)
or_step zero b = simp bit_or-bitwise (omega arith)
or_step (suc a) b = simp bit_or-bitwise (lowest (λ y. y) max a b)

-- `2 ^ (k + 1)` times a number is twice `2 ^ k` times it.
double : (a k : ℕ) → a * 2 ^ suc k ≡ 2 * (a * 2 ^ k)
double a k = omega (arith, ap (λ (t : ℕ). a * t) (pow-suc 2 k))

-- Both operations work on the bits from `k` on and on the `k` bits below apart from each other.
pub and_halves :
    (k a b r s : ℕ)
    → r < 2 ^ k
    → s < 2 ^ k
    → bit_and (a * 2 ^ k + r) (b * 2 ^ k + s) ≡ bit_and a b * 2 ^ k + bit_and r s
and_halves zero a b r s hr hs =
    let er : r ≡ 0 = omega arith in let es : s ≡ 0 = omega arith in rw (er, es) (ground arith)
and_halves (suc k) a b r s hr hs = ground (
  arith,
  and_step (a * 2 ^ suc k + r) (b * 2 ^ suc k + s),
  and_step r s,
  double a k,
  double b k,
  double (bit_and a b) k,
  pow-suc 2 k,
  and_halves k a b (r / 2) (s / 2),
)

pub or_halves :
    (k a b r s : ℕ)
    → r < 2 ^ k
    → s < 2 ^ k
    → bit_or (a * 2 ^ k + r) (b * 2 ^ k + s) ≡ bit_or a b * 2 ^ k + bit_or r s
or_halves zero a b r s hr hs =
    let er : r ≡ 0 = omega arith in let es : s ≡ 0 = omega arith in rw (er, es) (ground arith)
or_halves (suc k) a b r s hr hs = ground (
  arith,
  or_step (a * 2 ^ suc k + r) (b * 2 ^ suc k + s),
  or_step r s,
  double a k,
  double b k,
  double (bit_or a b) k,
  pow-suc 2 k,
  or_halves k a b (r / 2) (s / 2),
)

bit_and-zero_below : (n a : ℕ) → a ≤ n → bit_and a 0 ≡ 0
bit_and-zero_below n zero h = refl
bit_and-zero_below zero (suc a) h = absurd (omega arith)
bit_and-zero_below (suc n) (suc a) h =
    omega (arith, and_step (suc a) 0, bit_and-zero_below n (suc a / 2) (omega arith))

pub bit_and-zero : (a : ℕ) → bit_and a 0 ≡ 0
bit_and-zero a = bit_and-zero_below a a (le_refl a)

bit_or-zero_below : (n a : ℕ) → a ≤ n → bit_or a 0 ≡ a
bit_or-zero_below n zero h = refl
bit_or-zero_below zero (suc a) h = absurd (omega arith)
bit_or-zero_below (suc n) (suc a) h =
    omega (arith, or_step (suc a) 0, bit_or-zero_below n (suc a / 2) (omega arith))

pub bit_or-zero : (a : ℕ) → bit_or a 0 ≡ a
bit_or-zero a = bit_or-zero_below a a (le_refl a)

pub zero-bit_and : (a : ℕ) → bit_and 0 a ≡ 0
zero-bit_and a = bit_and-bitwise 0 a

pub zero-bit_or : (a : ℕ) → bit_or 0 a ≡ a
zero-bit_or a = bit_or-bitwise 0 a

-- A mask of ones keeps what fits it.
ones_keep : (k r q : ℕ) → r < 2 ^ k → q + 1 ≡ 2 ^ k → bit_and r q ≡ r
ones_keep zero r q h e = let z : r ≡ 0 = omega arith in rw z (zero-bit_and q)
ones_keep (suc k) r q h e =
    ground (arith, and_step r q, pow-suc 2 k, one-le-pow k 2, ones_keep k (r / 2) (q / 2))

-- `x & ((1 << k) - 1)` is the low `k` bits.
pub bit_and_low : (k x q : ℕ) → q + 1 ≡ 2 ^ k → bit_and x q ≡ x % 2 ^ k
bit_and_low k x q e = ground (
  arith,
  one-le-pow k 2,
  and_halves k (x / 2 ^ k) 0 (x % 2 ^ k) q,
  bit_and-zero (x / 2 ^ k),
  ones_keep k (x % 2 ^ k) q,
)

-- `x & (m << k)` looks at the bits from `k` on only.
pub bit_and_high : (k x m : ℕ) → bit_and x (m * 2 ^ k) ≡ bit_and (x / 2 ^ k) m * 2 ^ k
bit_and_high k x m =
    ground
      (arith, one-le-pow k 2, and_halves k (x / 2 ^ k) m (x % 2 ^ k) 0, bit_and-zero (x % 2 ^ k))

-- `(q << k) | r` and `r | (q << k)` are the sum where `r` fits `k` bits.
pub bit_or_fields :
    (k q r : ℕ)
    → r < 2 ^ k
    → (bit_or (q * 2 ^ k) r ≡ q * 2 ^ k + r) × (bit_or r (q * 2 ^ k) ≡ q * 2 ^ k + r)
bit_or_fields k q r h = (
  ground (arith, or_halves k q 0 0 r, bit_or-zero q, zero-bit_or r),
  ground (arith, or_halves k 0 q r 0, zero-bit_or q, bit_or-zero r),
)

-- Bit `k` of a word.
abbrev pub bit : ℕ → ℕ → ℕ
bit zero x = x % 2
bit (suc k) x = bit k (x / 2)

pub bit-bit_or : (k a b : ℕ) → bit k (bit_or a b) ≡ max (bit k a) (bit k b)
bit-bit_or zero a b = omega (arith, or_step a b)
bit-bit_or (suc k) a b =
    let halved : bit_or a b / 2 ≡ bit_or (a / 2) (b / 2) = omega (arith, or_step a b) in
    rw halved (bit-bit_or k (a / 2) (b / 2))

pub two_pow-add : (a b : ℕ) → 2 ^ (a + b) ≡ 2 ^ a * 2 ^ b
two_pow-add zero b = let e : 0 + b ≡ b = omega arith in rw e (omega arith)
two_pow-add (suc a) b =
    let e : suc a + b ≡ suc (a + b) = omega arith in
    rw e
      (omega (arith, pow-suc 2 (a + b), two_pow-add a b, ap (λ (t : ℕ). t * 2 ^ b) (pow-suc 2 a)))

pub bit_or-lt : (k a b : ℕ) → a < 2 ^ k → b < 2 ^ k → bit_or a b < 2 ^ k
bit_or-lt zero a b ha hb =
    let ea : a ≡ 0 = omega arith in let eb : b ≡ 0 = omega arith in rw (ea, eb) (omega arith)
bit_or-lt (suc k) a b ha hb = ground (arith, or_step a b, pow-suc 2 k, bit_or-lt k (a / 2) (b / 2))
