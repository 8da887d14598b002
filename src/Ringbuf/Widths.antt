-- ===== src/Ringbuf/Widths.antt =====
-- The words of a ring are 32-bit numbers.
use aer_handshake_firmware.Base.{
  ℕ, suc, zero, ◌^◌, ◌<◌, ◌≡◌, true, some, List, [], ◌∷◌, All, set, get_or, Bool-cases, inl, inr,
  ◌==◌, arith, Option-cases, subst,
}
use aer_handshake_firmware.Ringbuf.{Ringbuf, push, pop, rb_inc}
use aer_handshake_firmware.Ringbuf.Inv.{storage}

abbrev pub Word : ℕ → Type 0
Word x = x < 2 ^ 32

abbrev pub Words : Ringbuf → Type 0
Words rb = All Word (storage rb.buf)

All-set : (xs : List ℕ) (i v : ℕ) → All Word xs → Word v → All Word (set xs i v)
All-set [] i v h w = tt
All-set (x ∷ xs) zero v h w = (w, h.1)
All-set (x ∷ xs) (suc i) v h w = (h.0, All-set xs i v h.1 w)

get_or-Word : (xs : List ℕ) (i : ℕ) → All Word xs → Word (get_or xs i 0)
get_or-Word [] i h = omega arith
get_or-Word (x ∷ xs) zero h = h.0
get_or-Word (x ∷ xs) (suc i) h = get_or-Word xs i h.1

pub push-Words : (rb : Ringbuf) (v : ℕ) → Words rb → Word v → Words (push rb v).0
unfolding push
push-Words rb v h w = elim (Option-cases rb.buf) [
  | inl none_given ↦ rw (none_given, push) h
  | inr (xs, given) ↦ elim (Bool-cases (rb_inc rb.head rb.capacity == rb.tail)) [
    | inl full ↦ rw (given, push) (rw full h)
    | inr room ↦
        rw (given, push)
          (rw room (All-set xs rb.head v (subst (λ o. All Word (storage o)) given h) w))
  ]
]

pub pop-Words : (rb : Ringbuf) → Words rb → Words (pop rb true).0
unfolding pop
pop-Words rb h = elim (Option-cases rb.buf) [
  | inl none_given ↦ rw (none_given, pop) h
  | inr (xs, given) ↦ elim (Bool-cases (rb.tail == rb.head)) [
    | inl empty ↦ rw (given, pop) (rw empty h)
    | inr more ↦ rw (given, pop) (rw more h)
  ]
]

pub pop-Word : (rb : Ringbuf) (raw : ℕ) → Words rb → (pop rb true).1 ≡ some raw → Word raw
unfolding pop
pop-Word rb raw h e = elim (Option-cases rb.buf) [
  | inl none_given ↦ absurd (let f = rw (none_given, pop) at e in cc)
  | inr (xs, given) ↦ elim (Bool-cases (rb.tail == rb.head)) [
    | inl empty ↦ absurd (let f = rw empty at (rw (given, pop) at e) in cc)
    | inr more ↦
        let f = rw more at (rw (given, pop) at e) in
        let same : get_or xs rb.tail 0 ≡ raw = cc in
        subst Word same (get_or-Word xs rb.tail (subst (λ o. All Word (storage o)) given h))
  ]
]
