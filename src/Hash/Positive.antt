-- ===== src/Hash/Positive.antt =====
-- The sign of a hash.
use Prim.Native.Nat.{bit_xor}
use wookie.Base.{
  ℕ, zero, suc, ltb→lt, lt→ltb, ◌/◌, ◌^◌, ◌<◌, ◌≤◌, ◌≡◌, refl, ap, ◌∙◌, inl, inr, Bool-cases, ltb,
  Str, ℤ, pos, arith, bit_xor-shift,
}
use wookie.Hash.{shift_right_long, mul, m, r, finish, mixed, murmur}

-- A word and the word shifted by 47 have the same sign.
shift-sign : (h : ℕ) → h < 2 ^ 64 → shift_right_long h 47 / 2 ^ 63 ≡ h / 2 ^ 63
shift-sign h below = elim (Bool-cases (ltb h (2 ^ 63))) [
  | inl small ↦ let bound = ltb→lt h (2 ^ 63) small in rw small (omega (arith, bound))
  | inr large ↦
      let bound : 2 ^ 63 ≤ h = ground (arith, large) in rw large (omega (arith, bound, below))
]

same_digit : (q : ℕ) → q < 2 → bit_xor q q ≡ 0
same_digit zero small = refl
same_digit (suc zero) small = refl
same_digit (suc (suc q)) small = absurd (omega arith)

xor_shifted-lt : (h : ℕ) → h < 2 ^ 64 → bit_xor h (shift_right_long h 47) < 2 ^ 63
xor_shifted-lt h below =
    let quotient : bit_xor h (shift_right_long h 47) / 2 ^ 63 ≡ 0 =
      bit_xor-shift 63 h (shift_right_long h 47)
      ∙ ap (bit_xor (h / 2 ^ 63)) (shift-sign h below)
      ∙ same_digit (h / 2 ^ 63) (omega (arith, below)) in
    omega (arith, quotient)

finish-lt : (h : ℕ) → finish h < 2 ^ 63
unfolding finish
finish-lt h = xor_shifted-lt (mul (bit_xor h (shift_right_long h r)) m) (omega arith)

-- A hash is never negative, whatever the string and the seed: only half of the values of a `long`
-- are taken.
pub murmur-lt : (str : Str) (seed : ℤ) → (n : ℕ) × (murmur str seed ≡ pos n) × (n < 2 ^ 63)
unfolding murmur
murmur-lt str seed =
    let bound = finish-lt (mixed str seed) in
    (finish (mixed str seed), rw (lt→ltb (finish (mixed str seed)) (2 ^ 63) bound) refl, bound)
