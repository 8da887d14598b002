-- ===== src/Ringbuf/Window.antt =====
-- The words that a valid ring holds, oldest first, and what a write at the head adds.
use aer_handshake_firmware.Base.{
  ℕ, zero, suc, ◌+◌, ◌-◌, ◌<◌, ◌≤◌, ◌≡◌, ◌≢◌, refl, ap, ap₂, ◌∙◌, List, [], ◌∷◌, ◌++◌, length,
  get_or, set, get_or-set_self, get_or-set_ne, if◌then◌else◌, leb, arith,
}
use aer_handshake_firmware.Ringbuf.{Ringbuf}
use aer_handshake_firmware.Ringbuf.Inv.{storage, after, gap}

module _ (xs : List ℕ) (capacity : ℕ) where
  -- The `n` words from index `t` on, going round at the capacity.
  abbrev pub window : ℕ → ℕ → List ℕ
  window t zero = []
  window t (suc n) = get_or xs t 0 ∷ window (after capacity t) n

  pub length-window : (t n : ℕ) → length (window t n) ≡ n
  length-window t zero = refl
  length-window t (suc n) = ap suc (length-window (after capacity t) n)

  pub window_of_ne_zero :
      (t n : ℕ) → n ≢ 0 → window t n ≡ get_or xs t 0 ∷ window (after capacity t) (n - 1)
  window_of_ne_zero t zero h = absurd (h refl)
  window_of_ne_zero t (suc n) h = ap (λ k. window t (suc k)) (omega arith)

abbrev pub contents : Ringbuf → List ℕ
contents rb = window (storage rb.buf) rb.capacity rb.tail (gap rb.capacity rb.head rb.tail)

-- The index `n` places on.
abbrev pub forward : ℕ → ℕ → ℕ → ℕ
forward capacity t n = if leb capacity (t + n) then t + n - capacity else t + n

-- A write just past a window extends it by that word.
pub window-set :
    (xs : List ℕ) (capacity v n t i : ℕ)
    → capacity ≤ length xs
    → t < capacity
    → n < capacity
    → i ≡ forward capacity t n
    → window (set xs i v) capacity t (suc n) ≡ window xs capacity t n ++ v ∷ []
window-set xs capacity v zero t i room ht hn e =
    let e' : i ≡ t = ground arith in rw (e', get_or-set_self xs t v 0 (omega arith))
window-set xs capacity v (suc n) t i room ht hn e =
    ap₂ ◌∷◌ (get_or-set_ne xs i t v 0 (ground arith)) (
      window-set xs capacity v n (after capacity t) i room (ground arith) (omega arith)
        (ground arith))

-- The last word of a window, split off.
pub window_snoc :
    (xs : List ℕ) (capacity n t : ℕ)
    → t < capacity
    → n < capacity
    → window xs capacity t (suc n)
      ≡ window xs capacity t n ++ get_or xs (forward capacity t n) 0 ∷ []
window_snoc xs capacity zero t ht hn = let e : forward capacity t 0 ≡ t = ground arith in rw e refl
window_snoc xs capacity (suc n) t ht hn =
    let e : forward capacity (after capacity t) n ≡ forward capacity t (suc n) = ground arith in
    ap (◌∷◌ (get_or xs t 0)) (
      window_snoc xs capacity n (after capacity t) (ground arith) (omega arith)
      ∙ ap (λ i. window xs capacity (after capacity t) n ++ get_or xs i 0 ∷ []) e)

-- A write just past a window leaves it as it is.
pub window-set_outside :
    (xs : List ℕ) (capacity v n t i : ℕ)
    → t < capacity
    → n < capacity
    → i ≡ forward capacity t n
    → window (set xs i v) capacity t n ≡ window xs capacity t n
window-set_outside xs capacity v zero t i ht hn e = refl
window-set_outside xs capacity v (suc n) t i ht hn e =
    ap₂ ◌∷◌ (get_or-set_ne xs i t v 0 (ground arith)) (
      window-set_outside xs capacity v n (after capacity t) i (ground arith) (omega arith)
        (ground arith))
